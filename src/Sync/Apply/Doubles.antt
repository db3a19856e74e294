-- ===== src/Sync/Apply/Doubles.antt =====
-- The second entry of a moved file, which `next` of src/fs/sync-cmp.h leaves in the comparison, in
-- the synchronization of src/fs/sync-fsync.h.
use fcom.Prelude.{
  ℕ, ◌≡◌, refl, ◌∙◌, ap, Bool, true, false, Option, none, some, List, [], ◌∷◌, ◌++◌, ◌==◌,
  if◌then◌else◌, arith, set,
}
use fcom.Prelude.Memory.{Bytes}
use fcom.Sync.{no_status, Files, File}
use fcom.Sync.Diff.{Ent, Diff, only_right, next, next_right, found_right, find_moved}
use fcom.Sync.View.{Kind, is_left, is_right, is_neq, is_move, is_eq, is_other, kind_of}
use fcom.Sync.Apply.{
  Settings, World, Places, SyncStats, Step, at_end, goes_on, starts, null_entry, asserts, Result,
  completed, crashed, out_name, full_name, after_step, count_entry, sync_entry, sync_move, run_sync,
}

if-true : {A : Type 0} (x y : A) (b : Bool) → b ≡ true → (if b then x else y) ≡ x
if-true x y true e = refl
if-true x y false e = absurd (ground arith)

-- The operation completes with code 0.
abbrev pub succeeds : {w : World} → Result w → Bool
succeeds (completed s code n) = code == 0
succeeds crashed = false

abbrev ended : {w : World} → Step w → Bool
ended at_end = true
ended (goes_on s) = false
ended (starts r) = false
ended null_entry = false
ended asserts = false

module _ (files : Files) (p : Places files) (a : Settings) (w : World) where
  ended-sync_move :
      (s : w.State) (f : Option (File files)) (rname : Bytes)
      → ended (sync_move files p a w s f rname) ≡ false
  ended-sync_move s none rname = refl
  ended-sync_move s (some f) rname = refl

  ended-if :
      (s : w.State) (b : Bool) (r : Step w)
      → ended r ≡ false
      → ended (if b then r else goes_on s) ≡ false
  ended-if s true r e = e
  ended-if s false r e = refl

  ended-sync_entry :
      (s : w.State) (k : Kind) (c : Ent files) → ended (sync_entry files p a w s k c) ≡ false
  unfolding sync_entry out_name
  ended-sync_entry s is_left c = ended-if s a.sync_add _ refl
  ended-sync_entry s is_right c = ended-if s a.sync_del _ refl
  ended-sync_entry s is_neq c = ended-if s a.sync_update _ refl
  ended-sync_entry s is_move c = ended-if s a.sync_move _ (ended-sync_move s c.l _)
  ended-sync_entry s is_eq c = refl
  ended-sync_entry s is_other c = refl

  succeeds-if :
      (r : Result w) (s : w.State) (code : ℕ) (n : SyncStats) (b : Bool)
      → (code == 0) ≡ b
      → succeeds r ≡ false
      → succeeds (if b then r else completed s code n) ≡ false
  succeeds-if r s code n true t e = e
  succeeds-if r s code n false t e = t

  succeeds-after_step :
      (rest : SyncStats → w.State → Result w) (k : Kind) (n : SyncStats) (s : w.State) (r : Step w)
      → ended r ≡ false
      → ((m : SyncStats) (s1 : w.State) → succeeds (rest m s1) ≡ false)
      → succeeds (after_step files p a w rest k n s r) ≡ false
  succeeds-after_step rest k n s at_end e h = absurd (ground arith)
  succeeds-after_step rest k n s (goes_on s') e h = h n s'
  succeeds-after_step rest k n s (starts q) e h =
      succeeds-if (rest (count_entry files p a w n k) (w.perform s q).0) (w.perform s q).0
        (w.perform s q).1 n ((w.perform s q).1 == 0) refl (h _ _)
  succeeds-after_step rest k n s null_entry e h = refl
  succeeds-after_step rest k n s asserts e h = refl

  succeeds-double :
      (cs ds : List (Ent files)) (c : Ent files) (n : SyncStats) (s : w.State)
      → kind_of c.status ≡ is_move
      → c.l ≡ none
      → a.sync_move ≡ true
      → succeeds (run_sync files p a w (cs ++ (c ∷ ds)) n s) ≡ false
  unfolding run_sync sync_entry out_name
  succeeds-double [] ds c n s k e m =
      let end : Step w → Bool = λ r. succeeds (
        after_step files p a w (λ m' s'. run_sync files p a w ds m' s') (kind_of c.status) n s r) in
      let rname = full_name files p c.r in
      ap (λ x. end (sync_entry files p a w s x c)) k
      ∙ ap (λ b. end (if b then sync_move files p a w s c.l rname else goes_on s)) m
      ∙ ap (λ x. end (sync_move files p a w s x rname)) e
  succeeds-double (b ∷ cs) ds c n s k e m =
      succeeds-after_step (λ m' s'. run_sync files p a w (cs ++ (c ∷ ds)) m' s') (kind_of b.status)
        n s _ (ended-sync_entry s (kind_of b.status) b)
        (λ n1 s1. succeeds-double cs ds c n1 s1 k e m)

  -- The entry that `next` adds for a file of the right tree that is a left one moved.
  abbrev double : File files → Ent files
  double f = record { status = record no_status { move = true; skip = true }; l = none; r = some f }

  ents-found_right :
      (d : Diff files) (f : File files) (i : ℕ) (c2 : Ent files)
      → c2.status.left ≡ true
      → (found_right files d f (some (i, c2))).ents
        ≡ set d.ents i
            (record c2 { status = record (c2.status) { left = false; move = true }; r = some f })
          ++ (double f ∷ [])
  unfolding found_right
  ents-found_right d f i c2 e = ap {A = Diff files} (λ x. x.ents) (if-true _ _ c2.status.left e)

  -- Where a file of the right tree is found among the files left of the left tree, as the last of
  -- the comparison, and moves are asked for, the synchronization of the entries never succeeds,
  -- whatever the operations do.
  pub succeeds-next :
      (fits : Ent files → File files → Bool) (d : Diff files) (f : File files) (i : ℕ)
      (c2 : Ent files) (n : SyncStats) (s : w.State)
      → find_moved files fits d.ents d.moved f ≡ some (i, c2)
      → c2.status.left ≡ true
      → a.sync_move ≡ true
      → succeeds (run_sync files p a w (next files fits d (only_right f)).ents n s) ≡ false
  unfolding next next_right kind_of
  succeeds-next fits d f i c2 n s q e m =
      ap (λ x. succeeds (run_sync files p a w (found_right files d f x).ents n s)) q
      ∙ ap (λ x. succeeds (run_sync files p a w x n s)) (ents-found_right d f i c2 e)
      ∙ succeeds-double (set d.ents i _) [] (double f) n s refl refl m
