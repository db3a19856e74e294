-- ===== src/Sync/Invariant.antt =====
-- `next()` keeps the counters of the comparison those of its entries.
use fcom.Prelude.{
  ℕ, ◌≡◌, inl, inr, Bool, true, false, Option, some, none, List, [], ◌∷◌, arith, set, get_elem?,
  Bool-cases, subst, sym, refl,
}
use fcom.Sync.{Status, no_status, Files, File}
use fcom.Sync.Counts.{
  count, Inv, Counts, IsCompared, IsFound, AllOk-get, find_moved_lem, push-Inv, set-Inv,
}
use fcom.Sync.Diff.{
  Ent, Diff, Pair, only_left, only_right, both, inc, dec, push, moved_pair, found_left, found_right,
  next_left, next_right, next_both, next, run, empty,
}

module _ (files : Files) where
  module _ (d : Diff files) (h : Inv files d) where
    next_both-Inv :
        (l r : File files) (st : Status)
        → IsCompared files st
        → Inv files (next_both files d l r st)
    unfolding next_both
    next_both-Inv l r st k = elim (Bool-cases st.neq) [
      | inl e ↦
          let c : Ent files = record { status = st; l = some l; r = some r } in
          let t = record (d.stats) { neq = inc d.stats.neq } in
          let q : next_both files d l r st ≡ push files d c false t = simp e in
          subst (Inv files) (sym q) (
            push-Inv files d h c (record t { entries = inc t.entries }) (ground arith)
              (ground (arith, h.counts.left)) (ground (arith, h.counts.right))
              (ground (arith, h.counts.eq)) (ground arith) (ground (arith, h.counts.moved))
              (ground arith) d.moved)
      | inr e ↦
          let c : Ent files = record {
            status = record no_status { eq = true };
            l = some l;
            r = some r;
          } in
          let t = record (d.stats) { eq = inc d.stats.eq } in
          let q : next_both files d l r st ≡ push files d c false t = simp e in
          subst (Inv files) (sym q) (
            push-Inv files d h c (record t { entries = inc t.entries }) (ground arith)
              (ground (arith, h.counts.left)) (ground (arith, h.counts.right)) (ground arith)
              (ground (arith, h.counts.neq)) (ground (arith, h.counts.moved)) (ground arith)
              d.moved)
    ]

    -- A new entry of one side, whether its file is added to the table or not.
    push_left-Inv :
        (f : File files) (add : Bool)
        → Inv files (
            push files d
              (record { status = record no_status { left = true }; l = some f; r = none })
              add
              (record (d.stats) { left = inc d.stats.left }))
    push_left-Inv f add =
        push-Inv files d h _ _ (ground arith) (ground arith) (ground (arith, h.counts.right))
          (ground (arith, h.counts.eq)) (ground (arith, h.counts.neq))
          (ground (arith, h.counts.moved)) (ground arith) _

    push_right-Inv :
        (f : File files) (add : Bool)
        → Inv files (
            push files d
              (record { status = record no_status { right = true }; l = none; r = some f })
              add
              (record (d.stats) { right = inc d.stats.right }))
    push_right-Inv f add =
        push-Inv files d h _ _ (ground arith) (ground (arith, h.counts.left)) (ground arith)
          (ground (arith, h.counts.eq)) (ground (arith, h.counts.neq))
          (ground (arith, h.counts.moved)) (ground arith) _

    -- A moved file: the entry on the other side, and the second half.
    moved_left-Inv :
        (f : File files) (i : ℕ) (c2 : Ent files)
        → get_elem? d.ents i ≡ some c2
        → c2.status.right ≡ true
        → Inv files (
            moved_pair files d i
              (record c2 { status = record (c2.status) { right = false; move = true }; l = some f })
              (record { status = record no_status { left = true }; l = some f; r = none })
              (record (d.stats) { left = inc d.stats.left }))
    moved_left-Inv f i c2 e side =
        let ok = AllOk-get files d.ents i h.all_ok e in
        let (move, skip) = ok.one_right side in
        let c : Ent files = record c2 {
          status = record (c2.status) { right = false; move = true };
          l = some f;
        } in
        let s = record (d.stats) { right = dec d.stats.right; moved = inc d.stats.moved } in
        let mid =
          set-Inv files d h i c2 c s e (ground (arith, ok.one_side)) (ground arith) (ground arith)
            refl refl (ground arith) refl (ground (arith, h.counts.left)) (refl, refl, refl) in
        push-Inv files (record d { ents = set d.ents i c; stats = s }) mid _ _ (ground arith)
          (ground (arith, h.counts.left)) (ground arith) (ground (arith, h.counts.eq))
          (ground (arith, h.counts.neq)) (ground arith) (ground (arith, h.counts.entries)) _

    moved_right-Inv :
        (f : File files) (i : ℕ) (c2 : Ent files)
        → get_elem? d.ents i ≡ some c2
        → c2.status.left ≡ true
        → Inv files (
            moved_pair files d i
              (record c2 { status = record (c2.status) { left = false; move = true }; r = some f })
              (record { status = record no_status { right = true }; l = none; r = some f })
              (record (d.stats) { right = inc d.stats.right }))
    moved_right-Inv f i c2 e side =
        let ok = AllOk-get files d.ents i h.all_ok e in
        let (move, skip) = ok.one_left side in
        let c : Ent files = record c2 {
          status = record (c2.status) { left = false; move = true };
          r = some f;
        } in
        let s = record (d.stats) { left = dec d.stats.left; moved = inc d.stats.moved } in
        let mid =
          set-Inv files d h i c2 c s e (ground (arith, ok.one_side)) (ground arith) (ground arith)
            refl refl (ground arith) refl (ground (arith, h.counts.right)) (refl, refl, refl) in
        push-Inv files (record d { ents = set d.ents i c; stats = s }) mid _ _ (ground arith)
          (ground arith) (ground (arith, h.counts.right)) (ground (arith, h.counts.eq))
          (ground (arith, h.counts.neq)) (ground arith) (ground (arith, h.counts.entries)) _

    found_left-Inv :
        (f : File files) (o : Option (ℕ × Ent files))
        → ((i : ℕ) (c2 : Ent files) → o ≡ some (i, c2) → get_elem? d.ents i ≡ some c2)
        → Inv files (found_left files d f o)
    unfolding found_left
    found_left-Inv f none at_index = push_left-Inv f true
    found_left-Inv f (some (i, c2)) at_index = elim (Bool-cases c2.status.right) [
      | inl t ↦
          let q : found_left files d f (some (i, c2)) ≡ _ = simp t in
          subst (Inv files) (sym q) (moved_left-Inv f i c2 (at_index i c2 refl) t)
      | inr t ↦
          let q : found_left files d f (some (i, c2)) ≡ _ = simp t in
          subst (Inv files) (sym q) (push_left-Inv f false)
    ]

    found_right-Inv :
        (f : File files) (o : Option (ℕ × Ent files))
        → ((i : ℕ) (c2 : Ent files) → o ≡ some (i, c2) → get_elem? d.ents i ≡ some c2)
        → Inv files (found_right files d f o)
    unfolding found_right
    found_right-Inv f none at_index = push_right-Inv f true
    found_right-Inv f (some (i, c2)) at_index = elim (Bool-cases c2.status.left) [
      | inl t ↦
          let q : found_right files d f (some (i, c2)) ≡ _ = simp t in
          subst (Inv files) (sym q) (moved_right-Inv f i c2 (at_index i c2 refl) t)
      | inr t ↦
          let q : found_right files d f (some (i, c2)) ≡ _ = simp t in
          subst (Inv files) (sym q) (push_right-Inv f false)
    ]

    -- A step keeps the invariant: whatever the table of moved files matches by, each counter is
    -- that of the entries with its status, and moved files are counted once.
    pub next-Inv :
        (fits : Ent files → File files → Bool) (q : Pair files)
        → IsFound files q
        → Inv files (next files fits d q)
    unfolding next_left next_right next
    next-Inv fits (only_left f) k =
        found_left-Inv f _ (λ i c2 e. find_moved_lem files fits d.ents d.moved f e)
    next-Inv fits (only_right f) k =
        found_right-Inv f _ (λ i c2 e. find_moved_lem files fits d.ents d.moved f e)
    next-Inv fits (both l r st) k = next_both-Inv l r st k

  abbrev pub AllFound : List (Pair files) → Type 0
  AllFound [] = Unit
  AllFound (q ∷ qs) = IsFound files q × AllFound qs

  pub run-Inv :
      (fits : Ent files → File files → Bool) (d : Diff files) (qs : List (Pair files))
      → Inv files d
      → AllFound qs
      → Inv files (run files fits d qs)
  unfolding run
  run-Inv fits d [] h k = h
  run-Inv fits d (q ∷ qs) h k = run-Inv fits (next files fits d q) qs (next-Inv d h fits q k.0) k.1

  pub empty-Inv : Inv files (empty files)
  unfolding count
  empty-Inv = record { counts = omega arith; all_ok = tt }

  -- After a whole comparison, whatever moved files are matched by, where the bits of two files are
  -- such as `data_cmp` gives, the statistics are the numbers of entries with each status, as 32-bit
  -- words: the files left on one side, the equal, the different and the moved ones, each of these
  -- once, and all entries but the second halves of moved ones.
  pub run-Counts :
      (fits : Ent files → File files → Bool) (qs : List (Pair files))
      → AllFound qs
      → let d = run files fits (empty files) qs in Counts files d.stats d.ents
  run-Counts fits qs k = (run-Inv fits (empty files) qs empty-Inv k).counts
