-- ===== src/Sync.antt =====
-- The directory comparison of src/fs/sync-cmp.h: how two files compare, and the statuses.
-- A status word is a record of its bits. Times and the comparison of names are ffbase's.
pub mod Symmetry
pub mod Diff
pub mod Counts
pub mod Invariant
pub mod Dups
pub mod View
pub mod Apply
mod Tests
use fcom.Prelude.{ℕ, Bool, true, false, not, ◌&&◌, ◌||◌, ltb, ◌==◌, if◌then◌else◌, Ordering}
use fcom.Prelude.Memory.{Bytes}

-- What is compared of the bits of `enum FCOM_SYNC`.
pub record Status : Type 0 where
  pub left : Bool
  pub right : Bool
  pub neq : Bool
  pub move : Bool
  pub eq : Bool
  pub newer : Bool
  pub older : Bool
  pub larger : Bool
  pub smaller : Bool
  pub attr : Bool
  pub skip : Bool  -- _FCOM_SYNC_SKIP
  pub finished : Bool  -- FCOM_SYNC_DONE

abbrev pub no_status : Status
no_status = record {
  left = false;
  right = false;
  neq = false;
  move = false;
  eq = false;
  newer = false;
  older = false;
  larger = false;
  smaller = false;
  attr = false;
  skip = false;
  finished = false;
}

-- The two bits that `flags_swap` leaves for two bits `a` and `b`.
unfoldable pub flags_swap : Bool → Bool → Bool × Bool
flags_swap a b = if a then (false, true) else if b then (true, false) else (a, b)

-- `status_swap`
unfoldable pub status_swap : Status → Status
unfolding flags_swap
status_swap st =
    let (l, r) = flags_swap st.left st.right in
    let (n, o) = flags_swap st.newer st.older in
    let (g, s) = flags_swap st.larger st.smaller in
    record st { left = l; right = r; newer = n; older = o; larger = g; smaller = s }

-- What a file entry and its data hold, and ffbase's functions on them.
pub record Files : Type 1 where
  pub Time : Type 0
  pub time_cmp : Time → Time → Ordering  -- fftime_cmp
  pub half_secs : Time → ℕ  -- mtime.sec/2
  pub to_msec : Time → ℕ  -- fftime_to_msec
  pub name_icmp : Bytes → Bytes → Ordering  -- ffstr_icmp2

-- `fntree_entry` with its `struct fcom_sync_entry`
pub record Entry (Time : Type 0) : Type 0 where
  pub name : Bytes
  pub size : ℕ
  pub unix_attr : ℕ
  pub is_dir : Bool  -- unix_attr & FFFILE_UNIX_DIR
  pub win_attr : ℕ
  pub mtime : Time

-- The bits of `enum FCOM_SYNC_DIFF` that the comparison tests.
pub record Options : Type 0 where
  pub no_attr : Bool
  pub no_time : Bool
  pub time_2sec : Bool
  pub move_no_name : Bool
  pub move_chk_content : Bool

-- What `data_cmp` returns: one of FNTREE_CMP_LEFT and FNTREE_CMP_RIGHT, or the bits over
-- FNTREE_CMP_EQ, of which `neq` is FNTREE_CMP_NEQ.
pub data Cmp : Type 0 where
  only_left only_right : Cmp
  both : Status → Cmp

module _ (files : Files) where
  open files use {Time, time_cmp, half_secs, name_icmp}

  abbrev pub File : Type 0
  File = Entry Time

  -- `k |= FNTREE_CMP_NEQ | f` for the sizes
  unfoldable pub cmp_size : File → File → Status → Status
  cmp_size l r k =
      if l.size == r.size
      then k
      else if ltb l.size r.size
      then record k { neq = true; smaller = true }
      else record k { neq = true; larger = true }

  unfoldable pub cmp_attr : Options → File → File → Status → Status
  cmp_attr o l r k =
      if not o.no_attr && (not (l.unix_attr == r.unix_attr) || not (l.win_attr == r.win_attr))
      then record k { neq = true; attr = true }
      else k

  unfoldable pub cmp_time : Options → File → File → Status → Status
  cmp_time o l r k =
      if o.no_time
      then k
      else if o.time_2sec && half_secs l.mtime == half_secs r.mtime
      then k
      else elim (time_cmp l.mtime r.mtime) [
        | Ordering.lt ↦ record k { neq = true; older = true }
        | Ordering.gt ↦ record k { neq = true; newer = true }
        | Ordering.eq ↦ k
      ]

  -- `data_cmp`
  unfoldable pub data_cmp : Options → File → File → Cmp
  unfolding cmp_size cmp_attr cmp_time
  data_cmp o l r = elim (name_icmp l.name r.name) [
    | Ordering.lt ↦ only_left
    | Ordering.gt ↦ only_right
    | Ordering.eq ↦ both (cmp_time o l r (cmp_attr o l r (cmp_size l r no_status)))
  ]
