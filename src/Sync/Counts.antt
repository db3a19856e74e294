-- ===== src/Sync/Counts.antt =====
-- The counters of the comparison against the entries, when an entry is pushed or changed.
use fcom.Prelude.{
  ℕ, zero, suc, ◌+◌, ◌^◌, ◌<◌, ◌≡◌, inl, inr, Bool, true, false, not, ◌&&◌, some, List, [], ◌∷◌,
  ◌++◌, arith, get_elem?, set, Option-cases, Bool-cases, subst, ap,
}
use fcom.Sync.{Status, Files, File}
use fcom.Sync.Diff.{Ent, Diff, Stats, Pair, only_left, only_right, both, u32, find_moved}

abbrev pub bit : Bool → ℕ
bit true = 1
bit false = 0

module _ (files : Files) where
  unfoldable pub count : (Status → Bool) → List (Ent files) → ℕ
  count p [] = 0
  count p (c ∷ cs) = bit (p c.status) + count p cs

  count-append :
      (p : Status → Bool) (cs : List (Ent files)) (c : Ent files)
      → count p (cs ++ (c ∷ [])) ≡ count p cs + bit (p c.status)
  unfolding count
  count-append p [] c = omega arith
  count-append p (x ∷ cs) c = omega (arith, count-append p cs c)

  count-set :
      (p : Status → Bool) (cs : List (Ent files)) (i : ℕ) (old new : Ent files)
      → get_elem? cs i ≡ some old
      → count p (set cs i new) + bit (p old.status) ≡ count p cs + bit (p new.status)
  unfolding count
  count-set p [] i old new e = cc
  count-set p (x ∷ cs) zero old new e = ground arith
  count-set p (x ∷ cs) (suc i) old new e = omega (arith, count-set p cs i old new e)

  pub find_moved_lem :
      (fits : Ent files → File files → Bool) (ents : List (Ent files)) (is : List ℕ)
      (f : File files) {i : ℕ} {c : Ent files}
      → find_moved files fits ents is f ≡ some (i, c)
      → get_elem? ents i ≡ some c
  unfolding find_moved
  find_moved_lem fits ents [] f e = cc
  find_moved_lem fits ents (k ∷ is) f {i} {c} e = elim (Option-cases (get_elem? ents k)) [
    | inl q ↦ find_moved_lem fits ents is f (ground arith)
    | inr (x, q) ↦ elim (Bool-cases (fits x f)) [
      | inl t ↦ ground arith
      | inr t ↦ find_moved_lem fits ents is f (ground arith)
    ]
  ]

  -- An entry seen on one side is no moved one, and all others but the second halves of moved
  -- ones are shown.
  pub record IsOk (c : Ent files) : Type 0 where
    pub one_side : (c.status.left && c.status.right) ≡ false
    pub one_left : c.status.left ≡ true → (c.status.move ≡ false) × (c.status.skip ≡ false)
    pub one_right : c.status.right ≡ true → (c.status.move ≡ false) × (c.status.skip ≡ false)

  abbrev pub AllOk : List (Ent files) → Type 0
  AllOk [] = Unit
  AllOk (c ∷ cs) = IsOk c × AllOk cs

  pub AllOk-get :
      (cs : List (Ent files)) (i : ℕ) {c : Ent files} → AllOk cs → get_elem? cs i ≡ some c → IsOk c
  AllOk-get [] i h e = cc
  AllOk-get (x ∷ cs) zero {c} h e = let q : x ≡ c = cc in subst IsOk q h.0
  AllOk-get (x ∷ cs) (suc i) h e = AllOk-get cs i h.1 e

  AllOk-set :
      (cs : List (Ent files)) (i : ℕ) (c : Ent files) → AllOk cs → IsOk c → AllOk (set cs i c)
  AllOk-set [] i c h k = tt
  AllOk-set (x ∷ cs) zero c h k = (k, h.1)
  AllOk-set (x ∷ cs) (suc i) c h k = (h.0, AllOk-set cs i c h.1 k)

  AllOk-append :
      (cs : List (Ent files)) (c : Ent files) → AllOk cs → IsOk c → AllOk (cs ++ (c ∷ []))
  AllOk-append [] c h k = (k, tt)
  AllOk-append (x ∷ cs) c h k = (h.0, AllOk-append cs c h.1 k)

  -- The counters are those of the entries, as 32-bit words.
  pub record Counts (s : Stats) (cs : List (Ent files)) : Type 0 where
    pub left : s.left ≡ u32 (count (λ st. st.left) cs)
    pub right : s.right ≡ u32 (count (λ st. st.right) cs)
    pub eq : s.eq ≡ u32 (count (λ st. st.eq) cs)
    pub neq : s.neq ≡ u32 (count (λ st. st.neq) cs)
    pub moved : s.moved ≡ u32 (count (λ st. st.move && not st.skip) cs)
    pub entries : s.entries ≡ u32 (count (λ st. not st.skip) cs)

  pub record Inv (d : Diff files) : Type 0 where
    pub counts : Counts d.stats d.ents
    pub all_ok : AllOk d.ents

  -- The bits that `data_cmp` gives for two files: none of those that `next` manages itself.
  pub record IsCompared (st : Status) : Type 0 where
    pub not_left : st.left ≡ false
    pub not_right : st.right ≡ false
    pub not_move : st.move ≡ false
    pub not_eq : st.eq ≡ false
    pub not_skip : st.skip ≡ false

  abbrev pub IsFound : Pair files → Type 0
  IsFound (only_left f) = Unit
  IsFound (only_right f) = Unit
  IsFound (both l r st) = IsCompared st

  module _ (d : Diff files) (h : Inv d) where
    pub push-Inv :
        (c : Ent files) (s : Stats)
        → IsOk c
        → s.left ≡ u32 (d.stats.left + bit c.status.left)
        → s.right ≡ u32 (d.stats.right + bit c.status.right)
        → s.eq ≡ u32 (d.stats.eq + bit c.status.eq)
        → s.neq ≡ u32 (d.stats.neq + bit c.status.neq)
        → s.moved ≡ u32 (d.stats.moved + bit (c.status.move && not c.status.skip))
        → s.entries ≡ u32 (d.stats.entries + bit (not c.status.skip))
        → (is : List ℕ) → Inv (record { ents = d.ents ++ (c ∷ []); moved = is; stats = s })
    push-Inv c s ok a1 a2 a3 a4 a5 a6 is = record {
      counts = record {
        left = omega (arith, h.counts.left, count-append (λ st. st.left) d.ents c);
        right = omega (arith, h.counts.right, count-append (λ st. st.right) d.ents c);
        eq = omega (arith, h.counts.eq, count-append (λ st. st.eq) d.ents c);
        neq = omega (arith, h.counts.neq, count-append (λ st. st.neq) d.ents c);
        moved = omega (arith, h.counts.moved, count-append (λ st. st.move && not st.skip) d.ents c);
        entries = omega (arith, h.counts.entries, count-append (λ st. not st.skip) d.ents c);
      };
      all_ok = AllOk-append d.ents c h.all_ok ok;
    }

    -- An entry of one side becomes a moved one.
    pub set-Inv :
        (i : ℕ) (old new : Ent files) (s : Stats)
        → get_elem? d.ents i ≡ some old
        → IsOk new
        → u32 (s.left + bit old.status.left) ≡ u32 (d.stats.left + bit new.status.left)
        → u32 (s.right + bit old.status.right) ≡ u32 (d.stats.right + bit new.status.right)
        → new.status.eq ≡ old.status.eq
        → new.status.neq ≡ old.status.neq
        → u32 (s.moved + bit (old.status.move && not old.status.skip))
          ≡ u32 (d.stats.moved + bit (new.status.move && not new.status.skip))
        → new.status.skip ≡ old.status.skip
        → (s.left < 2 ^ 32) × (s.right < 2 ^ 32) × (s.moved < 2 ^ 32)
        → (s.eq ≡ d.stats.eq) × (s.neq ≡ d.stats.neq) × (s.entries ≡ d.stats.entries)
        → Inv (record d { ents = set d.ents i new; stats = s })
    set-Inv i old new s e ok a1 a2 a3 a4 a5 a6 lt same = record {
      counts = record {
        left = omega (arith, h.counts.left, count-set (λ st. st.left) d.ents i old new e);
        right = omega (arith, h.counts.right, count-set (λ st. st.right) d.ents i old new e);
        eq = omega (arith, h.counts.eq, count-set (λ st. st.eq) d.ents i old new e, ap bit a3);
        neq = omega (arith, h.counts.neq, count-set (λ st. st.neq) d.ents i old new e, ap bit a4);
        moved =
            omega
              (arith, h.counts.moved, count-set (λ st. st.move && not st.skip) d.ents i old new e);
        entries = omega (
          arith,
          h.counts.entries,
          count-set (λ st. not st.skip) d.ents i old new e,
          ap (λ b. bit (not b)) a6,
        );
      };
      all_ok = AllOk-set d.ents i new h.all_ok ok;
    }
