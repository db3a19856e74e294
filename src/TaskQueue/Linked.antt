-- ===== src/TaskQueue/Linked.antt =====
-- What holds of the queue of src/util/taskqueue.h before and after each of its operations.
use fcom.Prelude.{
  ℕ, zero, suc, ◌≡◌, refl, sym, ◌∙◌, Bool, true, false, not, ◌||◌, ◌&&◌, List, [], ◌∷◌, ◌++◌, ◌==◌,
  if◌then◌else◌, arith,
}
use fcom.TaskQueue.{
  TaskQueue, Act, posts, removes, post, posted, del, removed, unlink, without, perform, call_first,
  run_loop, run_tasks,
}

abbrev pub has : ℕ → List ℕ → Bool
has t [] = false
has t (u ∷ us) = u == t || has t us

abbrev pub distinct : List ℕ → Bool
distinct [] = true
distinct (t ∷ ts) = not (has t ts) && distinct ts

-- A task is in the queue where its link says so, and once.
pub record WellFormed (q : TaskQueue) : Type 0 where
  pub links : (t : ℕ) → q.linked t ≡ has t q.tasks
  pub once : distinct q.tasks ≡ true

has-append : (t u : ℕ) (ts : List ℕ) → has t (ts ++ (u ∷ [])) ≡ (has t ts || u == t)
has-append t u [] = ground arith
has-append t u (x ∷ ts) = ground (arith, has-append t u ts)

distinct-append :
    (t : ℕ) (ts : List ℕ) → has t ts ≡ false → distinct ts ≡ true → distinct (ts ++ (t ∷ [])) ≡ true
distinct-append t [] h d = refl
distinct-append t (x ∷ ts) h d =
    ground (arith, distinct-append t ts (ground arith) (ground arith), has-append x t ts)

has-without :
    (u t : ℕ) (ts : List ℕ)
    → distinct ts ≡ true
    → has u (without t ts) ≡ (if u == t then false else has u ts)
has-without u t [] d = ground arith
has-without u t (x ∷ ts) d = ground (arith, has-without u t ts (ground arith))

distinct-without : (t : ℕ) (ts : List ℕ) → distinct ts ≡ true → distinct (without t ts) ≡ true
distinct-without t [] d = refl
distinct-without t (x ∷ ts) d =
    ground (arith, distinct-without t ts (ground arith), has-without x t ts (ground arith))

WellFormed-posted :
    (q : TaskQueue) (t : ℕ) (b : Bool) → q.linked t ≡ b → WellFormed q → WellFormed (posted q t b).0
WellFormed-posted q t true e k = k
WellFormed-posted q t false e k = record {
  links = λ u. ground (arith, k.links u, has-append u t q.tasks);
  once = distinct-append t q.tasks (sym (k.links t) ∙ e) k.once;
}

WellFormed-unlink : (q : TaskQueue) (t : ℕ) → WellFormed q → WellFormed (unlink q t)
WellFormed-unlink q t k = record {
  links = λ u. ground (arith, k.links u, has-without u t q.tasks k.once);
  once = distinct-without t q.tasks k.once;
}

WellFormed-removed : (q : TaskQueue) (t : ℕ) (b : Bool) → WellFormed q → WellFormed (removed q t b)
WellFormed-removed q t true k = WellFormed-unlink q t k
WellFormed-removed q t false k = k

WellFormed-perform : (as' : List Act) (q : TaskQueue) → WellFormed q → WellFormed (perform as' q)
unfolding perform post del
WellFormed-perform [] q k = k
WellFormed-perform (posts t ∷ as') q k =
    WellFormed-perform as' (posted q t (q.linked t)).0 (WellFormed-posted q t (q.linked t) refl k)
WellFormed-perform (removes t ∷ as') q k =
    WellFormed-perform as' (removed q t (q.linked t)) (WellFormed-removed q t (q.linked t) k)

module _ {World : Type 0} (handler : World → ℕ → World × List Act) where
  WellFormed-call_first :
      (rest : World → TaskQueue → List ℕ × World × TaskQueue)
      → ((w : World) (q : TaskQueue) → WellFormed q → WellFormed (rest w q).2)
      → (w : World) (q : TaskQueue) (ts : List ℕ) → WellFormed q
      → WellFormed (call_first handler rest w q ts).2
  WellFormed-call_first rest h w q [] k = k
  WellFormed-call_first rest h w q (t ∷ ts) k =
      h (handler w t).0 (perform (handler w t).1 (unlink q t))
        (WellFormed-perform (handler w t).1 (unlink q t) (WellFormed-unlink q t k))

  WellFormed-run_loop :
      (n : ℕ) (w : World) (q : TaskQueue) → WellFormed q → WellFormed (run_loop handler n w q).2
  unfolding run_loop
  WellFormed-run_loop zero w q k = k
  WellFormed-run_loop (suc n) w q k =
      WellFormed-call_first (λ w' q'. run_loop handler n w' q') (WellFormed-run_loop n) w q q.tasks
        k

  -- A run keeps the queue well formed, whatever its handlers post and remove: a task is in the queue
  -- where its link says that it is active, and once.
  pub WellFormed-run_tasks :
      (w : World) (q : TaskQueue) → WellFormed q → WellFormed (run_tasks handler w q).2
  WellFormed-run_tasks w q k = WellFormed-run_loop _ w q k
