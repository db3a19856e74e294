-- ===== src/TaskQueue.antt =====
-- The task queue, src/util/taskqueue.h. A task is a number; its handler may post and remove tasks.
pub mod Order
pub mod Linked
mod Tests
use fcom.Prelude.{
  ℕ, zero, suc, ◌+◌, Bool, true, false, not, List, [], ◌∷◌, ◌++◌, ◌==◌, if◌then◌else◌, length,
}

-- `struct fftaskqueue`, the tasks first to last, and of each task whether its `sib.next` is not
-- NULL, which ffbase's list sets when it adds an item and clears when it removes one.
pub record TaskQueue : Type 0 where
  pub tasks : List ℕ
  pub linked : ℕ → Bool

-- What a handler does with the queue.
pub data Act : Type 0 where
  posts removes : ℕ → Act

abbrev pub with_link : (ℕ → Bool) → ℕ → Bool → ℕ → Bool
with_link linked t b u = if u == t then b else linked u

-- The list without the item.
abbrev pub without : ℕ → List ℕ → List ℕ
without t [] = []
without t (u ∷ us) = let rest = without t us in if u == t then us else u ∷ rest

-- `fftaskqueue_init`
abbrev pub init_queue : TaskQueue
init_queue = record { tasks = []; linked = λ t. false }

-- `fftaskqueue_active`
abbrev pub is_active : TaskQueue → ℕ → Bool
is_active q t = q.linked t

abbrev pub is_empty : List ℕ → Bool
is_empty [] = true
is_empty (t ∷ ts) = false

abbrev pub posted : TaskQueue → ℕ → Bool → TaskQueue × Bool
posted q t true = (q, false)
posted q t false =
    (record { tasks = q.tasks ++ (t ∷ []); linked = with_link q.linked t true }, is_empty q.tasks)

-- `fftaskqueue_post`, and whether the queue was empty and has a task now.
unfoldable pub post : TaskQueue → ℕ → TaskQueue × Bool
post q t = posted q t (is_active q t)

-- `fflist_rm`
abbrev pub unlink : TaskQueue → ℕ → TaskQueue
unlink q t = record { tasks = without t q.tasks; linked = with_link q.linked t false }

abbrev pub removed : TaskQueue → ℕ → Bool → TaskQueue
removed q t true = unlink q t
removed q t false = q

-- `fftaskqueue_del`
unfoldable pub del : TaskQueue → ℕ → TaskQueue
del q t = removed q t (is_active q t)

unfoldable pub perform : List Act → TaskQueue → TaskQueue
unfolding post del
perform [] q = q
perform (posts t ∷ as') q = perform as' (post q t).0
perform (removes t ∷ as') q = perform as' (del q t)

module _ {World : Type 0} (handler : World → ℕ → World × List Act) where
  -- A task is called: what it does, and the tasks called after it.
  abbrev pub call :
      (World → TaskQueue → List ℕ × World × TaskQueue)
      → World
      → TaskQueue
      → ℕ
      → List ℕ × World × TaskQueue
  call rest w q t =
      let (w', acts) = handler w t in
      let (called, w2, q2) = rest w' (perform acts (unlink q t)) in (t ∷ called, w2, q2)

  -- The first task is called, if there is one.
  abbrev pub call_first :
      (World → TaskQueue → List ℕ × World × TaskQueue)
      → World
      → TaskQueue
      → List ℕ
      → List ℕ × World × TaskQueue
  call_first rest w q [] = ([], w, q)
  call_first rest w q (t ∷ ts) = call rest w q t

  -- The loop of `fftaskqueue_run`, for as many tasks at most, and the tasks that are called.
  unfoldable pub run_loop : ℕ → World → TaskQueue → List ℕ × World × TaskQueue
  unfolding perform
  run_loop zero w q = ([], w, q)
  run_loop (suc n) w q = call_first (λ w' q'. run_loop n w' q') w q q.tasks

  -- `fftaskqueue_run`: what it returns is the number of the tasks.
  abbrev pub run_tasks : World → TaskQueue → List ℕ × World × TaskQueue
  run_tasks w q = run_loop (length q.tasks) w q
