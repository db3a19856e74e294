-- ===== src/Sync/Diff.antt =====
-- `struct diff` and its `next()`: the walk over two trees, and the table that finds moved files.
use fcom.Prelude.{
  ℕ, ◌+◌, ◌-◌, ◌%◌, ◌^◌, Bool, true, false, not, ◌&&◌, ◌||◌, Option, some, none, List, [], ◌∷◌,
  ◌++◌, ◌==◌, if◌then◌else◌, length, get_elem?, set,
}
use fcom.Prelude.Memory.{Bytes}
use fcom.Sync.{Status, no_status, Files, Options, File}

abbrev pub u32 : ℕ → ℕ
u32 n = n % 2 ^ 32

-- `x++` and `x--` on a `uint`
abbrev pub inc : ℕ → ℕ
inc n = u32 (n + 1)

abbrev pub dec : ℕ → ℕ
dec n = u32 (n + 2 ^ 32 - 1)

-- `ffmem_cmp` of two names of one length
unfoldable pub name_eq : Bytes → Bytes → Bool
name_eq [] [] = true
name_eq [] (b ∷ bs) = false
name_eq (a ∷ as') [] = false
name_eq (a ∷ as') (b ∷ bs) = a == b && name_eq as' bs

-- The counters of `struct fcom_sync_diff_stats` that `next` changes.
pub record Stats : Type 0 where
  pub left : ℕ
  pub right : ℕ
  pub eq : ℕ
  pub neq : ℕ
  pub moved : ℕ
  pub entries : ℕ

module _ (files : Files) where
  -- `struct fntree_cmp_ent`
  pub record Ent : Type 0 where
    pub status : Status
    pub l : Option (File files)
    pub r : Option (File files)

  -- `ents`, `moved` (the numbers of its entries, in the order added) and `stats`
  pub record Diff : Type 0 where
    pub ents : List Ent
    pub moved : List ℕ
    pub stats : Stats

  -- What `fntree_cmp_next` finds next: a file on one side, or two files with the bits of `data_cmp`.
  pub data Pair : Type 0 where
    only_left : File files → Pair
    only_right : File files → Pair
    both : File files → File files → Status → Pair

  -- The file that stands for an entry of the table.
  abbrev pub key_file : Ent → Option (File files)
  key_file c = elim c.l [ some f ↦ some f | none ↦ c.r ]

  -- `moved_keyeq`; `same_data` is `moved_check_data`, which reads the two files of the entry.
  unfoldable pub keyeq : Options → (Ent → Bool) → Ent → File files → Bool
  unfolding name_eq
  keyeq o same_data c f = elim (key_file c) [
    | none ↦ false
    | some l ↦
        l.size == f.size
        && ((l.is_dir && f.is_dir || not l.is_dir && not f.is_dir)
            && ((o.move_no_name || name_eq l.name f.name)
                && ((o.no_time || files.to_msec l.mtime == files.to_msec f.mtime)
                    && (not o.move_chk_content || (l.is_dir || same_data c)))))
  ]

  -- The search of `moved_find_add`. A file is added only where none is found, so entries of the
  -- table differ in what is compared but the content, and the first that fits is the one.
  unfoldable pub find_moved :
      (Ent → File files → Bool) → List Ent → List ℕ → File files → Option (ℕ × Ent)
  find_moved fits ents [] f = none
  find_moved fits ents (i ∷ is) f =
      let rest = find_moved fits ents is f in
      elim (get_elem? ents i) [ some c ↦ if fits c f then some (i, c) else rest | none ↦ rest ]

  -- An entry is pushed, and its file added to the table where `add` says so.
  abbrev pub push : Diff → Ent → Bool → Stats → Diff
  push d c add stats = record {
    ents = d.ents ++ (c ∷ []);
    moved = if add then d.moved ++ (length d.ents ∷ []) else d.moved;
    stats = record stats { entries = inc stats.entries };
  }

  -- A file that was seen on the other side before, as the entry number `i`: both entries say so,
  -- and the first one, `c2`, now has the two files.
  abbrev pub moved_pair : Diff → ℕ → Ent → Ent → Stats → Diff
  moved_pair d i c2 c stats =
      push (record d { ents = set d.ents i c2 })
        (record c { status = record no_status { move = true; skip = true } }) false
        (record stats {
          moved = inc stats.moved;
          left = dec stats.left;
          right = dec stats.right;
          entries = dec stats.entries;
        })

  -- The case FNTREE_CMP_LEFT of `next`, for what the search of the table gave.
  unfoldable pub found_left : Diff → File files → Option (ℕ × Ent) → Diff
  found_left d f none =
      push d (record { status = record no_status { left = true }; l = some f; r = none }) true
        (record (d.stats) { left = inc d.stats.left })
  found_left d f (some (i, c2)) =
      let c : Ent = record { status = record no_status { left = true }; l = some f; r = none } in
      let stats = record (d.stats) { left = inc d.stats.left } in
      if c2.status.right
      then moved_pair d i
          (record c2 { status = record (c2.status) { right = false; move = true }; l = some f }) c
          stats
      else push d c false stats

  unfoldable pub next_left : (Ent → File files → Bool) → Diff → File files → Diff
  unfolding find_moved found_left
  next_left fits d f = found_left d f (find_moved fits d.ents d.moved f)

  -- The case FNTREE_CMP_RIGHT of `next`, for what the search of the table gave.
  unfoldable pub found_right : Diff → File files → Option (ℕ × Ent) → Diff
  found_right d f none =
      push d (record { status = record no_status { right = true }; l = none; r = some f }) true
        (record (d.stats) { right = inc d.stats.right })
  found_right d f (some (i, c2)) =
      let c : Ent = record { status = record no_status { right = true }; l = none; r = some f } in
      let stats = record (d.stats) { right = inc d.stats.right } in
      if c2.status.left
      then moved_pair d i
          (record c2 { status = record (c2.status) { left = false; move = true }; r = some f }) c
          stats
      else push d c false stats

  unfoldable pub next_right : (Ent → File files → Bool) → Diff → File files → Diff
  unfolding find_moved found_right
  next_right fits d f = found_right d f (find_moved fits d.ents d.moved f)

  unfoldable pub next_both : Diff → File files → File files → Status → Diff
  next_both d l r st =
      if st.neq
      then push d (record { status = st; l = some l; r = some r }) false
          (record (d.stats) { neq = inc d.stats.neq })
      else push d (record { status = record no_status { eq = true }; l = some l; r = some r }) false
          (record (d.stats) { eq = inc d.stats.eq })

  -- `next`, for what `fntree_cmp_next` found; `fits` is `moved_keyeq` with its options.
  unfoldable pub next : (Ent → File files → Bool) → Diff → Pair → Diff
  unfolding next_left next_right next_both
  next fits d (only_left f) = next_left fits d f
  next fits d (only_right f) = next_right fits d f
  next fits d (both l r st) = next_both d l r st

  -- The loop of `sync_diff`, without FCOM_SYNC_DIFF_STEP.
  unfoldable pub run : (Ent → File files → Bool) → Diff → List Pair → Diff
  run fits d [] = d
  run fits d (q ∷ qs) = run fits (next fits d q) qs

  -- As `init` leaves it.
  abbrev pub empty : Diff
  empty = record {
    ents = [];
    moved = [];
    stats = record { left = 0; right = 0; eq = 0; neq = 0; moved = 0; entries = 0 };
  }
