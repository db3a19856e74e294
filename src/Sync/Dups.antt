-- ===== src/Sync/Dups.antt =====
-- The search for duplicate files, `dups_scan_next` of src/fs/sync-cmp.h, over entries that
-- `dups_init` sorted by size.
use fcom.Prelude.{
  ℕ, zero, suc, ◌+◌, ◌-◌, ◌*◌, ◌^◌, ◌≤◌, ◌<◌, ◌≡◌, inl, inr, refl, Bool, true, false, Option, some,
  none, List, [], ◌∷◌, arith, ◌==◌, if◌then◌else◌, length, get_elem?, Option-cases, Bool-cases,
  subst, sym, ◌∙◌, get_elem?-cases, map,
}
use fcom.Sync.{Status, no_status, Files, File}
use fcom.Sync.Diff.{Ent, u32, inc}

-- The fields of `struct diff` that the search uses. `filter` holds numbers of entries, and so does
-- `ce_prev`, which is NULL or the entry to compare the next one with.
module _ (files : Files) where
  pub record Scan : Type 0 where
    pub ents : List (Ent files)
    pub filter : List ℕ
    pub dup_cur : ℕ
    pub sz_prev : ℕ
    pub ce_prev : Option ℕ
    pub eq : ℕ
    pub neq : ℕ
    pub entries : ℕ

  abbrev pub no_size : ℕ
  no_size = 2 ^ 64 - 1

  -- `ce->status = …`, and for a duplicate `ce->r = …`
  abbrev pub mark : Status → Ent files → Ent files
  mark st c = record c { status = st }

  unfoldable pub mark_at : List (Ent files) → ℕ → (Ent files → Ent files) → List (Ent files)
  mark_at [] i g = []
  mark_at (c ∷ cs) zero g = g c ∷ cs
  mark_at (c ∷ cs) (suc i) g = c ∷ mark_at cs i g

  abbrev pub counted : Scan → Scan
  counted s = record s { dup_cur = u32 (s.dup_cur + 1); entries = inc s.entries }

  -- `if (ce_prev) { stats.neq++; ce_prev->status = FCOM_SYNC_NEQ; }`
  unfoldable pub close_prev : Scan → Scan
  close_prev s = elim s.ce_prev [
    | none ↦ s
    | some i ↦ record s {
      neq = inc s.neq;
      ents = mark_at s.ents i (mark (record no_status { neq = true }));
    }
  ]

  -- The size of the file of an entry, and the file; an entry of the search has its left side.
  abbrev pub size_at : List (Ent files) → ℕ → ℕ
  size_at ents i = elim (get_elem? ents i) [
    | none ↦ 0
    | some c ↦ elim c.l [ some f ↦ f.size | none ↦ 0 ]
  ]

  abbrev pub file_at : List (Ent files) → ℕ → Option (File files)
  file_at ents i = elim (get_elem? ents i) [ some c ↦ c.l | none ↦ none ]

  -- Two entries `i`, the previous one, and `k` of one size; `same` says that `file_cmp` returned 0.
  unfoldable pub compare_pair : Scan → ℕ → ℕ → Bool → Scan
  compare_pair s i k same =
      if same
      then record s {
        eq = inc s.eq;
        ents =
            mark_at
              (mark_at s.ents i
                (λ c. record c { status = record no_status { eq = true }; r = file_at s.ents k }))
              k (mark (record no_status { finished = true }));
        ce_prev = none;
        sz_prev = no_size;
      }
      else record s {
        neq = inc s.neq;
        ents = mark_at s.ents i (mark (record no_status { neq = true }));
        ce_prev = some k;
      }

  -- A step at the entry `k`. `none` is the read through a `ce_prev` that is NULL.
  unfoldable pub scan_at : (ℕ → ℕ → Bool) → Scan → ℕ → Option Scan
  unfolding close_prev compare_pair
  scan_at same s k =
      let s' = counted s in
      let sz = size_at s.ents k in
      if s.sz_prev == sz
      then elim s.ce_prev [ some i ↦ some (compare_pair s' i k (same i k)) | none ↦ none ]
      else some (record (close_prev s') { sz_prev = sz; ce_prev = some k })

  -- `dups_scan_next`, with what it returns: 1 is `true`. The index `filter.at(dup_cur)` is read
  -- below the length.
  unfoldable pub scan_next : (ℕ → ℕ → Bool) → Scan → Option (Scan × Bool)
  unfolding scan_at
  scan_next same s = elim (get_elem? s.filter s.dup_cur) [
    | none ↦ some (record (close_prev s) { filter = [] }, true)
    | some k ↦ elim (scan_at same s k) [ some s' ↦ some (s', false) | none ↦ none ]
  ]

  -- The loop of `sync_find_dups`, on fuel.
  unfoldable pub scan_all : ℕ → (ℕ → ℕ → Bool) → Scan → Option Scan
  scan_all zero same s = none
  scan_all (suc fuel) same s = elim (scan_next same s) [
    | none ↦ none
    | some (s', true) ↦ some s'
    | some (s', false) ↦ scan_all fuel same s'
  ]

  abbrev pub open_files : Scan → ℕ
  open_files s = elim s.ce_prev [ some i ↦ 1 | none ↦ 0 ]

  -- Each file that was passed is one of a pair of duplicates, or different, or waits.
  pub record Inv (s : Scan) : Type 0 where
    pub total : s.entries ≡ s.dup_cur
    pub sorted_out : u32 (2 * s.eq + s.neq + open_files s) ≡ s.dup_cur
    pub in_word : (s.neq < 2 ^ 32) × (s.dup_cur ≤ length s.filter) × (length s.filter < 2 ^ 32)
    pub waiting : s.ce_prev ≡ none → s.sz_prev ≡ no_size

  compare_pair-Inv :
      (s : Scan) (i k : ℕ) (same : Bool)
      → s.ce_prev ≡ some i
      → s.dup_cur < length s.filter
      → Inv s
      → Inv (compare_pair (counted s) i k same)
  unfolding compare_pair
  compare_pair-Inv s i k same e lt h = ground arith

  close_prev-Inv :
      (s : Scan) (k sz : ℕ)
      → s.dup_cur < length s.filter
      → Inv s
      → Inv (record (close_prev (counted s)) { sz_prev = sz; ce_prev = some k })
  unfolding close_prev
  close_prev-Inv s k sz lt h = ground arith

  -- No file has the size that stands for none.
  abbrev pub AllBelow : List (Ent files) → Type 0
  AllBelow [] = Unit
  AllBelow (c ∷ cs) = (size_at (c ∷ []) 0 < no_size) × AllBelow cs

  size_at-lt : (cs : List (Ent files)) (k : ℕ) → AllBelow cs → size_at cs k < no_size
  size_at-lt [] k h = omega arith
  size_at-lt (c ∷ cs) zero h = h.0
  size_at-lt (c ∷ cs) (suc k) h = size_at-lt cs k h.1

  AllBelow-mark_at :
      (cs : List (Ent files)) (i : ℕ) (g : Ent files → Ent files)
      → ((c : Ent files) → (g c).l ≡ c.l)
      → AllBelow cs
      → AllBelow (mark_at cs i g)
  unfolding mark_at
  AllBelow-mark_at [] i g keep h = tt
  AllBelow-mark_at (x ∷ cs) zero g keep h = (ground (arith, h.0, keep x), h.1)
  AllBelow-mark_at (x ∷ cs) (suc i) g keep h = (h.0, AllBelow-mark_at cs i g keep h.1)

  -- A step with a file left: it reads through no NULL, and keeps the accounts.
  record Stepped (s s' : Scan) : Type 0 where
    inv : Inv s'
    below : AllBelow s'.ents
    cur : s'.dup_cur ≡ s.dup_cur + 1
    same_filter : s'.filter ≡ s.filter
    same_len : length s'.filter ≡ length s.filter

  compare_pair-Stepped :
      (s : Scan) (i k : ℕ) (same : Bool)
      → s.ce_prev ≡ some i
      → s.dup_cur < length s.filter
      → Inv s
      → AllBelow s.ents
      → Stepped s (compare_pair (counted s) i k same)
  unfolding compare_pair
  compare_pair-Stepped s i k true e lt h b = record {
    inv = unfold compare_pair in ground arith;
    below =
        AllBelow-mark_at (mark_at s.ents i _) k _ (λ c. refl)
          (AllBelow-mark_at s.ents i _ (λ c. refl) b);
    cur = ground arith;
    same_filter = refl;
    same_len = refl;
  }
  compare_pair-Stepped s i k false e lt h b = record {
    inv = ground arith;
    below = AllBelow-mark_at s.ents i _ (λ c. refl) b;
    cur = ground arith;
    same_filter = refl;
    same_len = refl;
  }

  close_prev-Stepped :
      (s : Scan) (k sz : ℕ)
      → s.dup_cur < length s.filter
      → Inv s
      → AllBelow s.ents
      → Stepped s (record (close_prev (counted s)) { sz_prev = sz; ce_prev = some k })
  unfolding close_prev
  close_prev-Stepped s k sz lt h b = elim (Option-cases s.ce_prev) [
    | inl e ↦ record {
      inv = close_prev-Inv s k sz lt h;
      below = let q : (close_prev (counted s)).ents ≡ s.ents = simp e in subst AllBelow (sym q) b;
      cur = ground arith;
      same_filter = ground arith;
      same_len = ground arith;
    }
    | inr (i, e) ↦ record {
      inv = close_prev-Inv s k sz lt h;
      below =
          let q : (close_prev (counted s)).ents
              ≡ mark_at s.ents i (mark (record no_status { neq = true })) =
            simp e in
          subst AllBelow (sym q) (AllBelow-mark_at s.ents i _ (λ c. refl) b);
      cur = ground arith;
      same_filter = ground arith;
      same_len = ground arith;
    }
  ]

  scan_at_lem :
      (same : ℕ → ℕ → Bool) (s : Scan) (k : ℕ)
      → s.dup_cur < length s.filter
      → Inv s
      → AllBelow s.ents
      → (s' : Scan) × (scan_at same s k ≡ some s') × Stepped s s'
  unfolding scan_at
  scan_at_lem same s k lt h b = elim (Bool-cases (s.sz_prev == size_at s.ents k)) [
    | inl t ↦ elim (Option-cases s.ce_prev) [
      | inl e ↦ absurd (ground (arith, size_at-lt s.ents k b, h.waiting e))
      | inr (i, e) ↦ (
        _,
        (let q : scan_at same s k ≡ some (compare_pair (counted s) i k (same i k)) = simp (t, e) in
            q),
        compare_pair-Stepped s i k (same i k) e lt h b,
      )
    ]
    | inr t ↦ (
      _,
      (let q : scan_at same s k
              ≡ some (record (close_prev (counted s)) {
                sz_prev = size_at s.ents k;
                ce_prev = some k;
              }) =
            simp t in
          q),
      close_prev-Stepped s k (size_at s.ents k) lt h b,
    )
  ]

  -- What a finished search leaves.
  record Closed (n : ℕ) (s : Scan) : Type 0 where
    shown : s.entries ≡ n
    sorted_out : u32 (2 * s.eq + s.neq) ≡ n

  close_prev-Closed :
      (s : Scan)
      → s.dup_cur ≡ length s.filter
      → Inv s
      → Closed (length s.filter) (record (close_prev s) { filter = [] })
  unfolding close_prev
  close_prev-Closed s e h = record { shown = ground arith; sorted_out = ground arith }

  scan_all-end :
      (same : ℕ → ℕ → Bool) (fuel : ℕ) (s : Scan)
      → get_elem? s.filter s.dup_cur ≡ none
      → scan_all (suc fuel) same s ≡ some (record (close_prev s) { filter = [] })
  unfolding scan_all scan_next
  scan_all-end same fuel s e = ground (arith, e)

  scan_all-next :
      (same : ℕ → ℕ → Bool) (fuel : ℕ) (s s' : Scan) (k : ℕ)
      → get_elem? s.filter s.dup_cur ≡ some k
      → scan_at same s k ≡ some s'
      → scan_all (suc fuel) same s ≡ scan_all fuel same s'
  unfolding scan_all scan_next
  scan_all-next same fuel s s' k e e' = ground (arith, e, e')

  scan_all_lem :
      (same : ℕ → ℕ → Bool) (fuel : ℕ) (s : Scan)
      → length s.filter < s.dup_cur + fuel
      → Inv s
      → AllBelow s.ents
      → (s' : Scan) × (scan_all fuel same s ≡ some s') × Closed (length s.filter) s'
  unfolding scan_all
  scan_all_lem same zero s lt h b = absurd (ground (arith, h.in_word))
  scan_all_lem same (suc fuel) s lt h b = elim (get_elem?-cases s.filter s.dup_cur) [
    | inl (le, e) ↦ (
      record (close_prev s) { filter = [] },
      scan_all-end same fuel s e,
      close_prev-Closed s (ground (arith, h.in_word)) h,
    )
    | inr (in_list, k, e) ↦
        let (s', e', st) = scan_at_lem same s k in_list h b in
        let (s'', e'', closed) =
          scan_all_lem same fuel s' (ground (arith, st.cur, st.same_filter)) st.inv st.below in
        (
          s'',
          scan_all-next same fuel s s' k e e' ∙ e'',
          subst (λ n. Closed n s'') st.same_len closed,
        )
  ]

  -- `dups_init`, for the files of a snapshot and the order of their numbers that `ffsort` gives.
  unfoldable pub dups_init : List (File files) → List ℕ → Scan
  dups_init fs sorted = record {
    ents = map (λ f. record { status = no_status; l = some f; r = none }) fs;
    filter = sorted;
    dup_cur = 0;
    sz_prev = no_size;
    ce_prev = none;
    eq = 0;
    neq = 0;
    entries = 0;
  }

  abbrev pub AllSmall : List (File files) → Type 0
  AllSmall [] = Unit
  AllSmall (f ∷ fs) = (f.size < no_size) × AllSmall fs

  AllBelow-map :
      (fs : List (File files))
      → AllSmall fs
      → AllBelow (map (λ f. record { status = no_status; l = some f; r = none }) fs)
  AllBelow-map [] h = tt
  AllBelow-map (f ∷ fs) h = (h.0, AllBelow-map fs h.1)

  -- The search for duplicates ends, in one step for each file and one more, without a read through
  -- NULL, whatever the files' contents are and however they are sorted, where no file has 2^64 - 1
  -- bytes and the files are fewer than 2^32. It then has counted each file, and each file is in
  -- one of the pairs of duplicates that `eq` counts or one of the others that `neq` counts: twice
  -- the pairs and the others are, as a 32-bit word, the files.
  pub scan_all-dups_init :
      (same : ℕ → ℕ → Bool) (fs : List (File files)) (sorted : List ℕ)
      → AllSmall fs
      → length sorted < 2 ^ 32
      → (s : Scan) × (scan_all (suc (length sorted)) same (dups_init fs sorted) ≡ some s)
        × (s.entries ≡ length sorted)
        × (u32 (2 * s.eq + s.neq) ≡ length sorted)
  unfolding dups_init
  scan_all-dups_init same fs sorted small lt =
      let h : Inv (dups_init fs sorted) = record {
        total = refl;
        sorted_out = omega arith;
        in_word = (omega arith, omega arith, lt);
        waiting = λ e. refl;
      } in
      let (s, e, closed) =
        scan_all_lem same (suc (length sorted)) (dups_init fs sorted) (omega arith) h
          (AllBelow-map fs small) in
      (s, e, closed.shown, closed.sorted_out)
