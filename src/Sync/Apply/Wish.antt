-- ===== src/Sync/Apply/Wish.antt =====
-- What the entries of a comparison ask for, by the settings of src/fs/sync-fsync.h and the names
-- below the two roots, and in which order it is done.
use fcom.Prelude.{ℕ, ◌+◌, ◌%◌, ◌^◌, ◌≡◌, ◌≢◌, Bool, true, false, some, List, [], ◌∷◌, ◌++◌}
use fcom.Prelude.Memory.{Bytes}
use fcom.Sync.{Files, File}
use fcom.Sync.Diff.{Ent}
use fcom.Sync.View.{is_left, is_right, is_neq, is_move, is_eq, kind_of}
use fcom.Sync.Apply.{
  Settings, Request, copy_file, trash_file, World, Places, SyncStats, Result, completed,
}

-- What is done for an entry: nothing, or a file is added, overwritten, deleted or moved.
pub data Wish : Type 0 where
  keeps : Wish
  adds overwrites : (src dst : Bytes) → Wish
  deletes : Bytes → Wish
  moves : (src dst : Bytes) → Wish

-- A name below a directory.
abbrev pub below : Bytes → Bytes → Bytes
below root rel = root ++ (b'/' ∷ rel)

module _ (files : Files) (p : Places files) (a : Settings) where
  -- A file of the left tree, by its name relative to the root, which has a name.
  pub record IsBelow (f : File files) (rel : Bytes) : Type 0 where
    pub first : ℕ
    pub others : Bytes
    pub sub : Bytes
    pub root : p.left_root ≡ first ∷ others
    pub path : p.path f ≡ p.left_root ++ sub
    pub name : sub ++ (b'/' ∷ p.name f) ≡ b'/' ∷ rel

  -- A file in a directory that has a name, by its full name.
  pub record IsNamed (f : File files) (name : Bytes) : Type 0 where
    pub first : ℕ
    pub others : Bytes
    pub path : p.path f ≡ first ∷ others
    pub full : name ≡ below (p.path f) (p.name f)

  -- What an entry asks for: a file of the left tree has its target at the same place below the
  -- right root.
  pub data Wanted (c : Ent files) : Wish → Type 0 where
    to_add :
        {f : File files} {rel : Bytes}
        → kind_of c.status ≡ is_left
        → a.sync_add ≡ true
        → c.l ≡ some f
        → IsBelow f rel
        → Wanted c (adds (below p.left_root rel) (below p.right_root rel))
    to_update :
        {f : File files} {rel : Bytes}
        → kind_of c.status ≡ is_neq
        → a.sync_update ≡ true
        → c.l ≡ some f
        → IsBelow f rel
        → Wanted c (overwrites (below p.left_root rel) (below p.right_root rel))
    to_delete :
        {f : File files} {name : Bytes}
        → kind_of c.status ≡ is_right
        → a.sync_del ≡ true
        → c.r ≡ some f
        → IsNamed f name
        → Wanted c (deletes name)
    to_move :
        {f g : File files} {rel name : Bytes}
        → kind_of c.status ≡ is_move
        → a.sync_move ≡ true
        → c.l ≡ some f
        → IsBelow f rel
        → c.r ≡ some g
        → IsNamed g name
        → Wanted c (moves name (below p.right_root rel))
    add_off : kind_of c.status ≡ is_left → a.sync_add ≡ false → Wanted c keeps
    update_off : kind_of c.status ≡ is_neq → a.sync_update ≡ false → Wanted c keeps
    delete_off : kind_of c.status ≡ is_right → a.sync_del ≡ false → Wanted c keeps
    move_off : kind_of c.status ≡ is_move → a.sync_move ≡ false → Wanted c keeps
    equal : kind_of c.status ≡ is_eq → Wanted c keeps

  pub data AllWanted : List (Ent files) → List Wish → Type 0 where
    nil : AllWanted [] []
    cons :
        {c : Ent files} {cs : List (Ent files)} {e : Wish} {es : List Wish}
        → Wanted c e
        → AllWanted cs es
        → AllWanted (c ∷ cs) (e ∷ es)

-- One more, in 32 bits.
abbrev pub plus_one : ℕ → ℕ
plus_one n = (n + 1) % 2 ^ 32

module _ (a : Settings) (w : World) where
  -- The copy of a file, which is always verified.
  abbrev pub verified_copy : Bytes → Bytes → Bool → Request
  verified_copy src dst o = copy_file src dst true a.replace_date a.write_into a.test a.directio o

  -- What is done for wishes in turn: what succeeds is counted, and the first operation that fails is
  -- the end, with its code. A move is tried, and not counted.
  pub data Runs : List Wish → SyncStats → w.State → Result w → Type 0 where
    finished : {n : SyncStats} {s : w.State} → Runs [] n s (completed s 0 n)
    kept :
        {es : List Wish} {n : SyncStats} {s : w.State} {r : Result w}
        → Runs es n s r
        → Runs (keeps ∷ es) n s r
    moved :
        {src dst : Bytes} {es : List Wish} {n : SyncStats} {s : w.State} {r : Result w}
        → Runs es n (w.move_file s src dst) r
        → Runs (moves src dst ∷ es) n s r
    added :
        {src dst : Bytes} {es : List Wish} {n : SyncStats} {s : w.State} {r : Result w}
        → (w.perform s (verified_copy src dst a.overwrite)).1 ≡ 0
        → Runs es
            (record n { add = plus_one n.add })
            (w.perform s (verified_copy src dst a.overwrite)).0
            r
        → Runs (adds src dst ∷ es) n s r
    overwrote :
        {src dst : Bytes} {es : List Wish} {n : SyncStats} {s : w.State} {r : Result w}
        → (w.perform s (verified_copy src dst true)).1 ≡ 0
        → Runs es
            (record n { overwritten = plus_one n.overwritten })
            (w.perform s (verified_copy src dst true)).0
            r
        → Runs (overwrites src dst ∷ es) n s r
    deleted :
        {name : Bytes} {es : List Wish} {n : SyncStats} {s : w.State} {r : Result w}
        → (w.perform s (trash_file name a.test a.overwrite)).1 ≡ 0
        → Runs es
            (record n { del = plus_one n.del })
            (w.perform s (trash_file name a.test a.overwrite)).0
            r
        → Runs (deletes name ∷ es) n s r
    add_failed :
        {src dst : Bytes} {es : List Wish} {n : SyncStats} {s : w.State}
        → (w.perform s (verified_copy src dst a.overwrite)).1 ≢ 0
        → Runs (adds src dst ∷ es) n s (
            completed
              (w.perform s (verified_copy src dst a.overwrite)).0
              (w.perform s (verified_copy src dst a.overwrite)).1
              n)
    overwrite_failed :
        {src dst : Bytes} {es : List Wish} {n : SyncStats} {s : w.State}
        → (w.perform s (verified_copy src dst true)).1 ≢ 0
        → Runs (overwrites src dst ∷ es) n s (
            completed
              (w.perform s (verified_copy src dst true)).0
              (w.perform s (verified_copy src dst true)).1
              n)
    delete_failed :
        {name : Bytes} {es : List Wish} {n : SyncStats} {s : w.State}
        → (w.perform s (trash_file name a.test a.overwrite)).1 ≢ 0
        → Runs (deletes name ∷ es) n s (
            completed
              (w.perform s (trash_file name a.test a.overwrite)).0
              (w.perform s (trash_file name a.test a.overwrite)).1
              n)
