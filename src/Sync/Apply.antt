-- ===== src/Sync/Apply.antt =====
-- The synchronization of two directories by their comparison, src/fs/sync-fsync.h with the state
-- I_SYNC of `sync_run` of src/fs/sync.cpp. The operations `copy` and `trash` that it starts are those
-- of other modules; nothing else runs until they complete.
pub mod Wish
pub mod Names
pub mod Converge
pub mod Doubles
mod Tests
use fcom.Prelude.{
  ℕ, zero, suc, ◌+◌, Bool, true, false, not, ◌&&◌, ◌||◌, Option, none, some, List, [], ◌∷◌, ◌++◌,
  ◌==◌, if◌then◌else◌, length, drop, get_elem?,
}
use fcom.Prelude.Memory.{Bytes}
use fcom.Sync.{Status, Files, File}
use fcom.Sync.Diff.{Ent, inc}
use fcom.Sync.View.{Kind, is_left, is_right, is_neq, is_move, is_eq, is_other, kind_of}

-- The settings of `struct sync`, and those of `fcom_cominfo` that are passed on.
pub record Settings : Type 0 where
  pub sync_add : Bool
  pub sync_del : Bool
  pub sync_update : Bool
  pub sync_move : Bool
  pub replace_date : Bool
  pub write_into : Bool
  pub test : Bool
  pub directio : Bool
  pub overwrite : Bool

-- What a `copy` or a `trash` is started with.
pub data Request : Type 0 where
  copy_file :
      (src dst : Bytes) (verify replace_date write_into test directio overwrite : Bool) → Request
  trash_file : (name : Bytes) (test overwrite : Bool) → Request

-- The directories: an operation that is run to its completion, with its result, and a move, of which
-- the result is not read.
pub record World : Type 1 where
  pub State : Type 0
  pub perform : State → Request → State × ℕ
  pub move_file : State → Bytes → Bytes → State

-- Where a file of a comparison is: its directory and its name; the roots of the two trees.
pub record Places (files : Files) : Type 0 where
  pub path : File files → Bytes
  pub name : File files → Bytes
  pub left_root : Bytes
  pub right_root : Bytes

-- `sc.stats`
pub record SyncStats : Type 0 where
  pub add : ℕ
  pub del : ℕ
  pub overwritten : ℕ

-- What `sync1` returns: 1 at the end, 0 to go on, 0x123 after it has started an operation; or it
-- reads an entry through a null pointer, or an assertion fails.
pub data Step (w : World) : Type 0 where
  at_end : Step w
  goes_on : w.State → Step w
  starts : Request → Step w
  null_entry : Step w
  asserts : Step w

-- What becomes of the operation: its code; or it reads through a null pointer or fails an assertion.
pub data Result (w : World) : Type 0 where
  completed : w.State → ℕ → SyncStats → Result w
  crashed : Result w

abbrev pub is_slash : ℕ → Bool
is_slash c = c == b'/'

abbrev pub strip_slash : Bytes → Bytes
strip_slash [] = []
strip_slash (c ∷ s) = if is_slash c then s else c ∷ s

-- `out_name`
unfoldable pub out_name : Bytes → Bytes → Bytes → Bytes
out_name lname lbase rbase = rbase ++ (b'/' ∷ strip_slash (drop (length lbase) lname))

module _ (files : Files) (p : Places files) where
  -- `snapshot::full_name`
  abbrev pub full_name : Option (File files) → Bytes
  full_name none = []
  full_name (some f) = elim (p.path f) [ [] ↦ p.name f | c ∷ s ↦ (c ∷ s) ++ (b'/' ∷ p.name f) ]

  -- The name that `sync_move` gives to the moved file.
  abbrev pub moved_name : File files → Bytes
  moved_name f = p.right_root ++ (drop (length p.left_root) (p.path f) ++ (b'/' ∷ p.name f))

  module _ (a : Settings) (w : World) where
    -- `sync_copy_async`
    abbrev pub sync_copy : Bytes → Bytes → Bool → Request
    sync_copy src dst overwrites =
        copy_file src dst true a.replace_date a.write_into a.test a.directio
          (a.overwrite || overwrites)

    -- `sync_trash_async`
    abbrev pub sync_trash : Bytes → Request
    sync_trash name = trash_file name a.test a.overwrite

    -- `sync_move`, of which the left file is read; the right name is empty if there is no right file.
    abbrev pub sync_move : w.State → Option (File files) → Bytes → Step w
    sync_move s none rname = null_entry
    sync_move s (some f) rname = goes_on (w.move_file s rname (moved_name f))

    -- The switch of `sync1`
    unfoldable pub sync_entry : w.State → Kind → Ent files → Step w
    unfolding out_name
    sync_entry s is_left c =
        let lname = full_name c.l in
        if a.sync_add
        then starts (sync_copy lname (out_name lname p.left_root p.right_root) false)
        else goes_on s
    sync_entry s is_right c = if a.sync_del then starts (sync_trash (full_name c.r)) else goes_on s
    sync_entry s is_eq c = goes_on s
    sync_entry s is_neq c =
        let lname = full_name c.l in
        if a.sync_update
        then starts (sync_copy lname (out_name lname p.left_root p.right_root) true)
        else goes_on s
    sync_entry s is_move c = if a.sync_move then sync_move s c.l (full_name c.r) else goes_on s
    sync_entry s is_other c = asserts

    -- `sync1`, for the entry at the index, if there is one.
    abbrev pub sync1 : w.State → Option (Ent files) → Step w
    sync1 s none = at_end
    sync1 s (some c) = sync_entry s (kind_of c.status) c

    -- The statistics of `sync_on_op_complete`
    abbrev pub count_entry : SyncStats → Kind → SyncStats
    count_entry n is_left = record n { add = inc n.add }
    count_entry n is_neq = record n { overwritten = inc n.overwritten }
    count_entry n is_right = record n { del = inc n.del }
    count_entry n is_move = n
    count_entry n is_eq = n
    count_entry n is_other = n

    -- The rest of the entries, `sync_on_op_complete` after an operation.
    abbrev pub after_step :
        (SyncStats → w.State → Result w) → Kind → SyncStats → w.State → Step w → Result w
    after_step rest k n s at_end = completed s 0 n
    after_step rest k n s (goes_on s') = rest n s'
    after_step rest k n s (starts r) =
        let (s', result) = w.perform s r in
        let next_entries = rest (count_entry n k) s' in
        if result == 0 then next_entries else completed s' result n
    after_step rest k n s null_entry = crashed
    after_step rest k n s asserts = crashed

    -- I_SYNC, over the entries that are left.
    unfoldable pub run_sync : List (Ent files) → SyncStats → w.State → Result w
    run_sync [] n s = completed s 0 n
    run_sync (c ∷ cs) n s =
        after_step (λ m s'. run_sync cs m s') (kind_of c.status) n s (sync1 s (some c))
