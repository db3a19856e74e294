-- ===== src/TaskQueue/Tests.antt =====
-- Runs of the queue of src/util/taskqueue.h with handlers that post and remove tasks.
use fcom.Prelude.{ℕ, ◌+◌, ◌≡◌, false, List, [], ◌∷◌, arith}
use fcom.TaskQueue.{TaskQueue, Act, posts, removes, init_queue, posted, run_tasks}
use fcom.TaskQueue.Order.{nil, cons, run_tasks-order}
use fcom.TaskQueue.Linked.{WellFormed, WellFormed-run_tasks}

-- The tasks 1 and 2.
abbrev two_tasks : TaskQueue
two_tasks = (posted (posted init_queue 1 false).0 2 false).0

-- Each task posts itself and the task 3 again.
abbrev reposts : ℕ → ℕ → ℕ × List Act
reposts w t = (w + 1, posts t ∷ posts 3 ∷ [])

run_tasks-order_example : (run_tasks reposts 0 two_tasks).0 ≡ 1 ∷ 2 ∷ []
run_tasks-order_example = run_tasks-order reposts 0 two_tasks (λ w t. cons (cons nil))

-- A task removes the task 2.
abbrev removes_two : ℕ → ℕ → ℕ × List Act
removes_two w t = (w, removes 2 ∷ posts t ∷ [])

two_tasks-WellFormed : WellFormed two_tasks
two_tasks-WellFormed = record { links = λ t. ground arith; once = ground arith }

WellFormed-run_tasks_example : WellFormed (run_tasks removes_two 0 two_tasks).2
WellFormed-run_tasks_example = WellFormed-run_tasks removes_two 0 two_tasks two_tasks-WellFormed
