-- ===== src/Sync/View.antt =====
-- What is shown of a comparison: `sync_view` and `sync_info` of src/fs/sync-cmp.h.
pub mod Swap
pub mod Totals
pub mod Info
mod Tests
use fcom.Prelude.{
  ℕ, zero, suc, ◌+◌, ◌≤◌, ◌<◌, ◌≡◌, refl, inl, inr, Bool, true, false, not, ◌&&◌, ◌||◌, Option,
  some, none, List, [], ◌∷◌, if◌then◌else◌, get_elem?, length, arith, Ordering, Bool-cases,
}
use fcom.Prelude.Memory.{Bytes}
use fcom.Sync.{Status, status_swap, flags_swap, Files, File}
use fcom.Sync.Diff.{Ent, Diff, Pair, run, empty, u32}

-- The bits of `flags` that `sync_view` tests.
pub record Shown : Type 0 where
  pub left : Bool
  pub right : Bool
  pub neq : Bool
  pub move : Bool
  pub eq : Bool
  pub newer : Bool
  pub older : Bool
  pub dir : Bool
  pub swap : Bool
  pub finished : Bool

-- The cases of `switch (st & FCOM_SYNC_MASK)`; each is one bit of the five.
pub data Kind : Type 0 where
  is_left is_right is_neq is_move is_eq is_other : Kind

unfoldable pub kind_of : Status → Kind
kind_of st =
    if st.left && not st.right && not st.neq && not st.move && not st.eq
    then is_left
    else if not st.left && st.right && not st.neq && not st.move && not st.eq
    then is_right
    else if not st.left && not st.right && st.neq && not st.move && not st.eq
    then is_neq
    else if not st.left && not st.right && not st.neq && st.move && not st.eq
    then is_move
    else if not st.left && not st.right && not st.neq && not st.move && st.eq
    then is_eq
    else is_other

unfoldable pub kind_shown : Shown → Status → Kind → Bool
kind_shown flags st is_left = flags.left
kind_shown flags st is_right = flags.right
kind_shown flags st is_neq =
    flags.neq && ((flags.newer || flags.older) || (st.larger || st.smaller || st.attr))
kind_shown flags st is_move = flags.move
kind_shown flags st is_eq = flags.eq
kind_shown flags st is_other = true

-- The tests of `sync_view` on the status of an entry.
unfoldable pub status_shown : Shown → Status → Bool
unfolding status_swap kind_of kind_shown
status_shown flags st =
    let st' = if flags.swap then status_swap st else st in
    not st.skip && ((flags.finished || not st.finished) && kind_shown flags st' (kind_of st'))

module _ (files : Files) where
  -- The fields of `struct fcom_sync_props` that filter; `since` is `none` where its seconds are 0.
  pub record Props : Type 0 where
    pub includes : List Bytes
    pub excludes : List Bytes
    pub since : Option files.Time
    pub include_both : Bool

  abbrev pub is_dir : Option (File files) → Bool
  is_dir none = false
  is_dir (some f) = f.is_dir

  -- `!d || fftime_cmp(&d->mtime, &since_time) < 0`
  abbrev pub is_before : files.Time → Option (File files) → Bool
  is_before t none = true
  is_before t (some f) = elim (files.time_cmp f.mtime t) [
    | Ordering.lt ↦ true
    | Ordering.eq ↦ false
    | Ordering.gt ↦ false
  ]

  -- `str_match`; `has` is the search of a string in the name or the path of a file.
  abbrev pub str_match : (File files → Bytes → Bool) → Option (File files) → Bytes → Bool
  str_match has none m = false
  str_match has (some f) m = has f m

  abbrev pub any_of : (Bytes → Bool) → List Bytes → Bool
  any_of p [] = false
  any_of p (m ∷ ms) = p m || any_of p ms

  abbrev pub has_none : List Bytes → Bool
  has_none [] = true
  has_none (m ∷ ms) = false

  -- The tests of `sync_view` on the files of an entry.
  unfoldable pub files_shown : (File files → Bytes → Bool) → Props → Shown → Ent files → Bool
  files_shown has props flags c =
      (flags.dir || not (is_dir c.l || is_dir c.r))
      && (not (elim props.since [ none ↦ false | some t ↦ is_before t c.l && is_before t c.r ])
          && (not (any_of (λ m. str_match has c.l m || str_match has c.r m) props.excludes)
              && (has_none props.includes
                  || (if props.include_both
                      then any_of (λ m. str_match has c.l m && str_match has c.r m) props.includes
                      else any_of (λ m. str_match has c.l m || str_match has c.r m)
                          props.includes))))

  -- The entries' numbers that are left, from the number `k` on.
  unfoldable pub view_from : (Ent files → Bool) → ℕ → List (Ent files) → List ℕ
  view_from shown k [] = []
  view_from shown k (c ∷ cs) =
      let rest = view_from shown (suc k) cs in if shown c then k ∷ rest else rest

  -- `sync_view`: the new `filter`.
  unfoldable pub sync_view : (File files → Bytes → Bool) → Props → Shown → List (Ent files) → List ℕ
  unfolding view_from status_shown files_shown
  sync_view has props flags ents =
      view_from (λ c. status_shown flags c.status && files_shown has props flags c) 0 ents

  -- `sync_info` with `sync_info_id`: the status and the two files; `none` is -1.
  unfoldable pub sync_info :
      List (Ent files)
      → List ℕ
      → ℕ
      → Bool
      → Option (Status × Option (File files) × Option (File files))
  sync_info ents filter i swap = elim (get_elem? filter i) [
    | none ↦ none
    | some k ↦ elim (get_elem? ents k) [
      | none ↦ none
      | some c ↦ some (if swap then (status_swap c.status, c.r, c.l) else (c.status, c.l, c.r))
    ]
  ]
