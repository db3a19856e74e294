-- ===== src/Sync/Apply/Converge.antt =====
-- That the synchronization of src/fs/sync-fsync.h does what the comparison asks for, in its order.
use fcom.Prelude.{
  ◌≡◌, ◌≢◌, refl, sym, ◌∙◌, ap, Bool, true, false, Option, some, List, [], ◌∷◌, ◌==◌, if◌then◌else◌,
  arith, subst,
}
use fcom.Sync.{Files, File}
use fcom.Sync.Diff.{Ent}
use fcom.Sync.View.{Kind, is_left, is_right, is_neq, is_move, is_eq, kind_of}
use fcom.Sync.Apply.{
  Settings, Request, World, Places, SyncStats, Step, goes_on, starts, Result, completed, out_name,
  full_name, moved_name, sync_copy, sync_trash, sync_move, after_step, count_entry, sync_entry,
  run_sync,
}
use fcom.Sync.Apply.Wish.{
  Wish, below, Wanted, to_add, to_update, to_delete, to_move, add_off, update_off, delete_off,
  move_off, equal, AllWanted, nil, cons, Runs, finished, kept, moved, added, overwrote, deleted,
  add_failed, overwrite_failed, delete_failed, verified_copy,
}
use fcom.Sync.Apply.Names.{full_name-IsNamed, moved_name-IsBelow, or_false, or_true, copy_request}

module _ (files : Files) (p : Places files) (a : Settings) (w : World) where
  -- A file is copied, if the settings say so.
  abbrev copy_if : Option (File files) → Bool → w.State → Bool → Step w
  copy_if l o s x =
      let name = full_name files p l in
      if x
      then starts (sync_copy files p a w name (out_name name p.left_root p.right_root) o)
      else goes_on s

  -- The rest of the entries, and a step of an entry.
  abbrev rest_of : List (Ent files) → SyncStats → w.State → Result w
  rest_of cs m s = run_sync files p a w cs m s

  run_sync-step :
      (c : Ent files) (cs : List (Ent files)) (n : SyncStats) (s : w.State) (k : Kind) (r : Step w)
      → kind_of c.status ≡ k
      → sync_entry files p a w s k c ≡ r
      → run_sync files p a w (c ∷ cs) n s ≡ after_step files p a w (rest_of cs) k n s r
  unfolding run_sync
  run_sync-step c cs n s k r e q =
      ap (λ x. after_step files p a w (rest_of cs) x n s (sync_entry files p a w s x c)) e
      ∙ ap (λ x. after_step files p a w (rest_of cs) k n s x) q

  -- An entry that starts an operation: it succeeds or fails.
  Runs-starts :
      (e : Wish) (es : List Wish) (rest : SyncStats → w.State → Result w) (k : Kind) (n : SyncStats)
      (s : w.State) (q : Request) (b : Bool)
      → ((w.perform s q).1 == 0) ≡ b
      → ((w.perform s q).1 ≡ 0
          → Runs a w es
              (count_entry files p a w n k)
              (w.perform s q).0
              (rest (count_entry files p a w n k) (w.perform s q).0)
          → Runs a w (e ∷ es) n s (rest (count_entry files p a w n k) (w.perform s q).0))
      → ((w.perform s q).1 ≢ 0
          → Runs a w (e ∷ es) n s (completed (w.perform s q).0 (w.perform s q).1 n))
      → ((m : SyncStats) (s1 : w.State) → Runs a w es m s1 (rest m s1))
      → Runs a w (e ∷ es) n s (
          if b
          then rest (count_entry files p a w n k) (w.perform s q).0
          else completed (w.perform s q).0 (w.perform s q).1 n)
  Runs-starts e es rest k n s q true t good bad ih = good (ground arith) (ih _ _)
  Runs-starts e es rest k n s q false t good bad ih = bad (ground arith)

  Runs-eq :
      (es : List Wish) (n : SyncStats) (s : w.State) (r r' : Result w)
      → r' ≡ r
      → Runs a w es n s r
      → Runs a w es n s r'
  Runs-eq es n s r r' e k = subst (λ x. Runs a w es n s x) (sym e) k

  Runs-entry :
      (c : Ent files) (cs : List (Ent files)) (e : Wish) (es : List Wish) (n : SyncStats)
      (s : w.State)
      → Wanted files p a c e
      → ((m : SyncStats) (s1 : w.State) → Runs a w es m s1 (run_sync files p a w cs m s1))
      → Runs a w (e ∷ es) n s (run_sync files p a w (c ∷ cs) n s)
  unfolding sync_entry
  Runs-entry c cs _ es n s (to_add {f = f} {rel = rel} t on q b) ih =
      let r = verified_copy a w (below p.left_root rel) (below p.right_root rel) a.overwrite in
      Runs-eq _ n s _ _
        (run_sync-step c cs n s is_left (starts r) t (
          ap (copy_if c.l false s) on
          ∙ ap starts
              (copy_request files p a w f c.l rel false a.overwrite q b (or_false a.overwrite))))
        (Runs-starts _ es (rest_of cs) is_left n s r _ refl added add_failed ih)
  Runs-entry c cs _ es n s (to_update {f = f} {rel = rel} t on q b) ih =
      let r = verified_copy a w (below p.left_root rel) (below p.right_root rel) true in
      Runs-eq _ n s _ _
        (run_sync-step c cs n s is_neq (starts r) t (
          ap (copy_if c.l true s) on
          ∙ ap starts (copy_request files p a w f c.l rel true true q b (or_true a.overwrite))))
        (Runs-starts _ es (rest_of cs) is_neq n s r _ refl overwrote overwrite_failed ih)
  Runs-entry c cs _ es n s (to_delete {f = f} {name = name} t on q b) ih =
      let r = sync_trash files p a w name in
      Runs-eq _ n s _ _
        (run_sync-step c cs n s is_right (starts r) t (
          ap (λ x. if x then starts (sync_trash files p a w (full_name files p c.r)) else goes_on s)
            on
          ∙ ap (λ x. starts (sync_trash files p a w (full_name files p x))) q
          ∙ ap (λ x. starts (sync_trash files p a w x)) (full_name-IsNamed files p a w f name b)))
        (Runs-starts _ es (rest_of cs) is_right n s r _ refl deleted delete_failed ih)
  Runs-entry c cs _ es n s (to_move {f = f} {g = g} {rel = rel} {name = name} t on q b q' b') ih =
      let dst = below p.right_root rel in
      Runs-eq _ n s _ _
        (run_sync-step c cs n s is_move (goes_on (w.move_file s name dst)) t (
          ap (λ x. if x then sync_move files p a w s c.l (full_name files p c.r) else goes_on s) on
          ∙ ap (λ x. sync_move files p a w s x (full_name files p c.r)) q
          ∙ ap (λ x. sync_move files p a w s (some f) (full_name files p x)) q'
          ∙ ap (λ x. goes_on (w.move_file s x (moved_name files p f)))
              (full_name-IsNamed files p a w g name b')
          ∙ ap (λ x. goes_on (w.move_file s name x)) (moved_name-IsBelow files p a w f rel b)))
        (moved (ih n (w.move_file s name dst)))
  Runs-entry c cs _ es n s (add_off t off) ih =
      Runs-eq _ n s _ _
        (run_sync-step c cs n s is_left (goes_on s) t (ap (copy_if c.l false s) off))
        (kept (ih n s))
  Runs-entry c cs _ es n s (update_off t off) ih =
      Runs-eq _ n s _ _ (run_sync-step c cs n s is_neq (goes_on s) t (ap (copy_if c.l true s) off))
        (kept (ih n s))
  Runs-entry c cs _ es n s (delete_off t off) ih =
      Runs-eq _ n s _ _
        (run_sync-step c cs n s is_right (goes_on s) t (
          ap (λ x. if x then starts (sync_trash files p a w (full_name files p c.r)) else goes_on s)
            off))
        (kept (ih n s))
  Runs-entry c cs _ es n s (move_off t off) ih =
      Runs-eq _ n s _ _
        (run_sync-step c cs n s is_move (goes_on s) t (
          ap (λ x. if x then sync_move files p a w s c.l (full_name files p c.r) else goes_on s)
            off))
        (kept (ih n s))
  Runs-entry c cs _ es n s (equal t) ih =
      Runs-eq _ n s _ _ (run_sync-step c cs n s is_eq (goes_on s) t refl) (kept (ih n s))

  -- Where each entry has one status, files of the left tree are below the root, and moved ones have a
  -- file on both sides: the entries are done in their order, as the settings say. A file of the left
  -- tree is copied, with verification, to the same place below the right root, where it is only on
  -- the left or differs; one that is only on the right is deleted; a moved one is moved on the right
  -- to the place that it has on the left. The operations that succeed are counted, in 32 bits; the
  -- first that fails is the end, with its code, and at the end the code is 0.
  pub Runs-run_sync :
      (cs : List (Ent files)) (es : List Wish) (n : SyncStats) (s : w.State)
      → AllWanted files p a cs es
      → Runs a w es n s (run_sync files p a w cs n s)
  unfolding run_sync
  Runs-run_sync [] _ n s nil = finished
  Runs-run_sync (c ∷ cs) _ n s (cons {e = e} {es = es} k ks) =
      Runs-entry c cs e es n s k (λ m s1. Runs-run_sync cs es m s1 ks)
