-- ===== src/Workers/Progress.antt =====
-- The pool comes to an end of its tasks, unless it is stuck (src/services/order_worker_pool.py).
use auto_trading.Prelude.{
  ℕ, suc, ◌+◌, ◌-◌, ◌*◌, ◌≤◌, ◌<◌, ◌≡◌, refl, ap, ◌∙◌, subst, true, ◌++◌, length, sum_of, All, ltb,
  ltb→lt, leb, Bool-cases, inl, inr, arith,
}
use auto_trading.Workers.{
  PoolConfig, Hand, working, requeueing, OrderWorkerPool, Answer, filled, unfilled, broken,
  count_processed, process_order, requeue, add_worker, Step, take_task, finish_task, put_again,
  Event, submitted, scaled, stepped,
}
use auto_trading.Workers.Counts.{
  left, task_of, IsWithin, IsCounted, All-middle, sum_of-middle, Step-IsCounted,
}

-- A bound of the steps that are left: three for each execution.
abbrev pub steps_of : Hand → ℕ
steps_of (working t) = 3 * left t - 1
steps_of (requeueing t) = 3 * left t + 1

abbrev pub steps_left : OrderWorkerPool → ℕ
steps_left s = sum_of (λ t. 3 * left t) s.queue + sum_of steps_of s.hands

-- The pool's own steps, without anything from outside.
pub data Run (c : PoolConfig) : ℕ → OrderWorkerPool → OrderWorkerPool → Type 0 where
  over : (s : OrderWorkerPool) → Run c 0 s s
  next : (n : ℕ) (s r t : OrderWorkerPool) → Step c s r → Run c n r t → Run c (suc n) s t

-- All workers wait for room in a full queue.
pub record IsStuck (c : PoolConfig) (s : OrderWorkerPool) : Type 0 where
  pub full : c.max_queue_size ≤ length s.queue
  pub all_wait : All (λ h. h ≡ requeueing (task_of h)) s.hands
  pub nobody_free : s.workers ≤ length s.hands

module _ (c : PoolConfig) where
  pub Step-fewer :
      (s s' : OrderWorkerPool) → IsCounted c s → Step c s s' → steps_left s' < steps_left s
  unfolding process_order requeue count_processed
  Step-fewer s _ h (take_task t before after is greatest_one free) =
      let (its, others) =
        All-middle IsWithin before t after (subst (λ l. All IsWithin l) is h.queue_within) in
      let sums =
        ap (sum_of (λ x. 3 * left x)) is ∙ sum_of-middle (λ x. 3 * left x) before t after in
      omega (arith, sums, its)
  Step-fewer s _ h (put_again t before after is some_room) =
      let sums = ap (sum_of steps_of) is ∙ sum_of-middle steps_of before (requeueing t) after in
      omega (arith, sums)
  Step-fewer s _ h (finish_task a t before after is) =
      let (its, others) =
        All-middle (λ y. IsWithin (task_of y)) before (working t) after
          (subst (λ l. All (λ y. IsWithin (task_of y)) l) is h.hands_within) in
      let sums = ap (sum_of steps_of) is ∙ sum_of-middle steps_of before (working t) after in
      finished a its sums
    where
      finished :
          (a : Answer)
          → IsWithin t
          → sum_of steps_of s.hands ≡ steps_of (working t) + sum_of steps_of (before ++ after)
          → steps_left (process_order a t before after s) < steps_left s
      finished (filled f) its sums = omega (arith, its, sums)
      finished broken its sums = omega (arith, its, sums)
      finished unfilled its sums = elim (Bool-cases (ltb t.retry_count t.max_retries)) [
        | inr spent ↦ rw (spent, process_order) (omega (arith, its, sums))
        | inl again ↦
            let more = ltb→lt t.retry_count t.max_retries again in
            let t' = record t { retry_count = t.retry_count + 1 } in
            rw (again, process_order)
              (omega (arith, its, sums, more, sum_of-middle steps_of before (requeueing t') after))
      ]

  -- In a state that counts rightly, as every state that is reached does, and without orders from
  -- outside, the pool makes only so many steps: three for each execution that is still due.
  pub Run-bounded :
      (n : ℕ) (s s' : OrderWorkerPool)
      → IsCounted c s
      → Run c n s s'
      → n + steps_left s' ≤ steps_left s
  Run-bounded n s _ h (over _) = omega arith
  Run-bounded n s s' h (next m _ r _ step run) =
      let fewer = Step-fewer s r h step in
      let rest = Run-bounded m r s' (Step-IsCounted c s r step h) run in omega (arith, fewer, rest)

  pub Step-workers : (s s' : OrderWorkerPool) → Step c s s' → s'.workers ≡ s.workers
  unfolding process_order requeue count_processed
  Step-workers s _ (take_task t before after is bound free) = refl
  Step-workers s _ (put_again t before after is room) = refl
  Step-workers s _ (finish_task (filled f) t before after is) = refl
  Step-workers s _ (finish_task broken t before after is) = refl
  Step-workers s _ (finish_task unfilled t before after is) = ground arith

  -- Once a pool is stuck with as many workers as it may have, nothing changes it any more: no step, no
  -- order (none can be submitted) and no scaling.
  pub IsStuck-forever :
      (s s' : OrderWorkerPool) → IsStuck c s → c.max_workers ≤ s.workers → Event c s s' → s' ≡ s
  unfolding add_worker
  IsStuck-forever s _ h most (submitted o priority room) = absurd (omega (arith, h.full, room))
  IsStuck-forever s _ h most scaled =
      let full : leb c.max_workers s.workers ≡ true = ground (arith, most) in
      rw (full, add_worker) refl
  IsStuck-forever s _ h most (stepped _ (take_task t before after is bound free)) =
      absurd (omega (arith, h.nobody_free, free))
  IsStuck-forever s _ h most (stepped _ (put_again t before after is room)) =
      absurd (omega (arith, h.full, room))
  IsStuck-forever s _ h most (stepped _ (finish_task a t before after is)) =
      let (its, others) =
        All-middle (λ x. x ≡ requeueing (task_of x)) before (working t) after
          (subst (λ l. All (λ x. x ≡ requeueing (task_of x)) l) is h.all_wait) in
      absurd (ground (arith, its))
