-- ===== src/TaskQueue/Order.antt =====
-- Which tasks a run of the queue of src/util/taskqueue.h calls.
use fcom.Prelude.{
  ℕ, ◌≡◌, refl, sym, ◌∙◌, ap, Bool, true, false, List, [], ◌∷◌, ◌++◌, append-nil, append_assoc,
  length, arith,
}
use fcom.TaskQueue.{
  TaskQueue, Act, posts, removes, post, unlink, without, perform, call_first, posted, run_loop,
  run_tasks,
}

pub data AllPosts : List Act → Type 0 where
  nil : AllPosts []
  cons : {t : ℕ} {as' : List Act} → AllPosts as' → AllPosts (posts t ∷ as')

-- Posting adds tasks at the end, if any.
record Grows (ts : List ℕ) (q : TaskQueue) : Type 0 where
  more : List ℕ
  grown : q.tasks ≡ ts ++ more

Grows-posted : (q : TaskQueue) (t : ℕ) (b : Bool) → Grows q.tasks (posted q t b).0
Grows-posted q t true = record { more = []; grown = sym (append-nil q.tasks) }
Grows-posted q t false = record { more = t ∷ []; grown = refl }

Grows-perform : (as' : List Act) (q : TaskQueue) → AllPosts as' → Grows q.tasks (perform as' q)
unfolding perform post
Grows-perform [] q nil = record { more = []; grown = sym (append-nil q.tasks) }
Grows-perform (removes t ∷ as') q k = elim k [ ]
Grows-perform (posts t ∷ as') q (cons k) =
    let g = Grows-posted q t (q.linked t) in
    let h = Grows-perform as' (post q t).0 k in
    record {
      more = g.more ++ h.more;
      grown = h.grown ∙ ap (λ z. z ++ h.more) g.grown ∙ append_assoc q.tasks g.more h.more;
    }

without-head : (t : ℕ) (ts : List ℕ) → without t (t ∷ ts) ≡ ts
without-head t ts = ground arith

module _ {World : Type 0} (handler : World → ℕ → World × List Act) where
  run_loop-prefix :
      ((w : World) (t : ℕ) → AllPosts (handler w t).1)
      → (ts more : List ℕ) (w : World) (q : TaskQueue) → q.tasks ≡ ts ++ more
      → (run_loop handler (length ts) w q).0 ≡ ts
  unfolding run_loop
  run_loop-prefix k [] more w q e = refl
  run_loop-prefix k (t ∷ ts) more w q e =
      let (w', acts) = handler w t in
      let q1 = unlink q t in
      let g = Grows-perform acts q1 (k w t) in
      let tail : q1.tasks ≡ ts ++ more = ap (without t) e ∙ without-head t (ts ++ more) in
      ap (λ us. (call_first handler (λ w2 q2. run_loop handler (length ts) w2 q2) w q us).0) e
      ∙ ap (λ us. t ∷ us)
          (run_loop-prefix k ts (more ++ g.more) w' (perform acts q1)
            (g.grown ∙ ap (λ z. z ++ g.more) tail ∙ append_assoc ts more g.more))

  -- Where no handler removes a task, a run calls the tasks that are in the queue when it starts, in
  -- their order, and no others, whatever is posted meanwhile.
  pub run_tasks-order :
      (w : World) (q : TaskQueue)
      → ((w' : World) (t : ℕ) → AllPosts (handler w' t).1)
      → (run_tasks handler w q).0 ≡ q.tasks
  run_tasks-order w q k = run_loop-prefix k q.tasks [] w q (sym (append-nil q.tasks))
