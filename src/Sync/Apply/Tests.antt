-- ===== src/Sync/Apply/Tests.antt =====
-- Synchronizations of src/fs/sync-fsync.h of small trees, over a map of files.
use fcom.Prelude.{
  ℕ, ◌*◌, ◌/◌, ◌≡◌, refl, Bool, true, false, Option, none, some, List, [], ◌∷◌, ◌==◌, if◌then◌else◌,
  Ordering,
}
use fcom.Prelude.Memory.{Bytes}
use fcom.Sync.{no_status, Files, Entry}
use fcom.Sync.Diff.{
  Ent, next_left, found_left, only_left, only_right, next, empty, name_eq, find_moved,
}
use fcom.Sync.View.{kind_of}
use fcom.Sync.Apply.{Settings, Request, copy_file, trash_file, World, Places, SyncStats, run_sync}
use fcom.Sync.Apply.Wish.{
  Wish, adds, overwrites, deletes, moves, IsBelow, IsNamed, AllWanted, nil, cons, to_add, to_delete,
  to_move, to_update, Runs,
}
use fcom.Sync.Apply.Converge.{Runs-run_sync}
use fcom.Sync.Apply.Doubles.{succeeds, succeeds-next}

abbrev trees : Files
trees = record {
  Time = ℕ;
  time_cmp = λ a b. Ordering.eq;
  half_secs = λ t. t / 2;
  to_msec = λ t. t * 1000;
  name_icmp = λ a b. Ordering.eq;
}

abbrev file : ℕ → ℕ → Entry ℕ
file name size = record {
  name = name ∷ [];
  size = size;
  unix_attr = 0;
  is_dir = false;
  win_attr = 0;
  mtime = 0;
}

-- The trees "l" and "r"; files of 9 bytes are on the right.
abbrev places : Places trees
places = record {
  path = λ f. if f.size == 9 then b'r' ∷ [] else b'l' ∷ [];
  name = λ f. f.name;
  left_root = b'l' ∷ [];
  right_root = b'r' ∷ [];
}

abbrev FileMap : Type 0
FileMap = Bytes → Option ℕ

abbrev put : FileMap → Bytes → Option ℕ → FileMap
put s name content x = if name_eq x name then content else s x

abbrev performed : FileMap → Request → FileMap × ℕ
performed s (copy_file src dst v rd wi test d o) = (put s dst (s src), 0)
performed s (trash_file name test o) = (put s name none, 0)

abbrev store : World
store = record {
  State = FileMap;
  perform = performed;
  move_file = λ s src dst. if name_eq src dst then s else put (put s dst (s src)) src none;
}

abbrev all_on : Settings
all_on = record {
  sync_add = true;
  sync_del = true;
  sync_update = true;
  sync_move = true;
  replace_date = false;
  write_into = false;
  test = false;
  directio = false;
  overwrite = false;
}

abbrev no_stats : SyncStats
no_stats = record { add = 0; del = 0; overwritten = 0 }

abbrev one_left : Ent trees
one_left = record { status = record no_status { left = true }; l = some (file 1 1); r = none }

abbrev one_right : Ent trees
one_right = record { status = record no_status { right = true }; l = none; r = some (file 2 9) }

abbrev one_moved : Ent trees
one_moved = record {
  status = record no_status { move = true };
  l = some (file 3 1);
  r = some (file 4 9);
}

abbrev one_changed : Ent trees
one_changed = record {
  status = record no_status { neq = true };
  l = some (file 5 1);
  r = some (file 5 9);
}

abbrev compared : List (Ent trees)
compared = one_left ∷ one_right ∷ one_moved ∷ one_changed ∷ []

-- The sources have as content the name, the targets 0.
abbrev before : FileMap
before [] = none
before (c ∷ x) = if c == b'r' then some 0 else some 7

abbrev wishes : List Wish
wishes =
    adds (b'l' ∷ b'/' ∷ 1 ∷ []) (b'r' ∷ b'/' ∷ 1 ∷ [])
    ∷ deletes (b'r' ∷ b'/' ∷ 2 ∷ [])
    ∷ moves (b'r' ∷ b'/' ∷ 4 ∷ []) (b'r' ∷ b'/' ∷ 3 ∷ [])
    ∷ overwrites (b'l' ∷ b'/' ∷ 5 ∷ []) (b'r' ∷ b'/' ∷ 5 ∷ [])
    ∷ []

-- A file of the left tree, by the number that is its name.
left-IsBelow : (n : ℕ) → IsBelow trees places all_on (file n 1) (n ∷ [])
left-IsBelow n = record {
  first = b'l';
  others = [];
  sub = [];
  root = refl;
  path = refl;
  name = refl;
}

right-IsNamed : (n : ℕ) → IsNamed trees places all_on (file n 9) (b'r' ∷ b'/' ∷ n ∷ [])
right-IsNamed n = record { first = b'r'; others = []; path = refl; full = refl }

compared-AllWanted : AllWanted trees places all_on compared wishes
unfolding kind_of
compared-AllWanted = cons (to_add refl refl refl (left-IsBelow 1)) (
    cons (to_delete refl refl refl (right-IsNamed 2)) (
      cons (to_move refl refl refl (left-IsBelow 3) refl (right-IsNamed 4))
        (cons (to_update refl refl refl (left-IsBelow 5)) nil)))

Runs-run_sync_example :
    Runs all_on store wishes no_stats before
      (run_sync trees places all_on store compared no_stats before)
Runs-run_sync_example =
    Runs-run_sync trees places all_on store compared wishes no_stats before compared-AllWanted

abbrev same_size : Ent trees → Entry ℕ → Bool
same_size c f = elim c.l [ some g ↦ true | none ↦ false ]

succeeds-next_example :
    succeeds (
      run_sync trees places all_on store
        (next trees same_size
          (next trees same_size (empty trees) (only_left (file 1 1)))
          (only_right (file 2 9))).ents
        no_stats
        before)
    ≡ false
succeeds-next_example =
    succeeds-next trees places all_on store same_size
      (next trees same_size (empty trees) (only_left (file 1 1))) (file 2 9) 0 one_left no_stats
      before (unfold next next_left find_moved found_left in refl) refl refl
