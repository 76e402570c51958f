-- ===== src/Workers/Counts.antt =====
-- What the pool counts (src/services/order_worker_pool.py).
use auto_trading.Prelude.{
  ℕ, suc, ◌+◌, ◌-◌, ◌*◌, ◌≤◌, ◌<◌, ◌≡◌, refl, ap, ◌∙◌, subst, Bool, true, false, List, [], ◌∷◌,
  ◌++◌, length, sum_of, All, ltb, ltb→lt, leb, Bool-cases, inl, inr, arith,
}
use auto_trading.Trading.Models.{Order}
use auto_trading.Workers.{
  OrderTask, PoolConfig, Hand, working, requeueing, OrderWorkerPool, submit_order, Answer, filled,
  unfilled, broken, count_processed, process_order, requeue, add_worker, Step, take_task,
  finish_task, put_again, Event, submitted, scaled, stepped, Reached, at_start, and_then,
}

-- How often a task may still be executed. A worker that waits for room has not counted its execution.
abbrev pub left : OrderTask → ℕ
left t = t.max_retries + 1 - t.retry_count

abbrev pub left_in_hand : Hand → ℕ
left_in_hand (working t) = left t
left_in_hand (requeueing t) = left t + 1

abbrev pub work : OrderWorkerPool → ℕ
work s = sum_of left s.queue + sum_of left_in_hand s.hands

abbrev pub task_of : Hand → OrderTask
task_of (working t) = t
task_of (requeueing t) = t

abbrev pub IsWithin : OrderTask → Type 0
IsWithin t = t.retry_count ≤ t.max_retries

pub record IsCounted (c : PoolConfig) (s : OrderWorkerPool) : Type 0 where
  pub queue_within : All IsWithin s.queue
  pub hands_within : All (λ h. IsWithin (task_of h)) s.hands
  pub total : s.total_processed ≡ s.total_successful + s.total_failed
  pub budget : s.total_processed + work s ≤ 4 * s.total_submitted
  pub busy : length s.hands ≤ s.workers
  pub staff : s.workers ≤ c.max_workers
  pub room : length s.queue ≤ c.max_queue_size

module _ {ℓ κ} {A : Type ℓ} where
  -- One element among others.
  pub All-middle :
      (P : A → Type κ) (xs : List A) (x : A) (ys : List A)
      → All P (xs ++ x ∷ ys)
      → P x × All P (xs ++ ys)
  All-middle P [] x ys h = h
  All-middle P (z ∷ xs) x ys h = let (p, q) = All-middle P xs x ys h.1 in (p, (h.0, q))

  pub All-insert_middle :
      (P : A → Type κ) (xs : List A) (x : A) (ys : List A)
      → P x
      → All P (xs ++ ys)
      → All P (xs ++ x ∷ ys)
  All-insert_middle P [] x ys p h = (p, h)
  All-insert_middle P (z ∷ xs) x ys p h = (h.0, All-insert_middle P xs x ys p h.1)

module _ {ℓ} {A : Type ℓ} where
  pub sum_of-middle :
      (f : A → ℕ) (xs : List A) (x : A) (ys : List A)
      → sum_of f (xs ++ x ∷ ys) ≡ f x + sum_of f (xs ++ ys)
  sum_of-middle f [] x ys = refl
  sum_of-middle f (z ∷ xs) x ys = omega (arith, sum_of-middle f xs x ys)

  pub length-middle :
      (xs : List A) (x : A) (ys : List A) → length (xs ++ x ∷ ys) ≡ suc (length (xs ++ ys))
  length-middle [] x ys = refl
  length-middle (z ∷ xs) x ys = omega (arith, length-middle xs x ys)

module _ (c : PoolConfig) where
  take_task-IsCounted :
      (s : OrderWorkerPool) (t : OrderTask) (before after : List OrderTask)
      → IsCounted c s
      → s.queue ≡ before ++ t ∷ after
      → length s.hands < s.workers
      → IsCounted c (record s { queue = before ++ after; hands = working t ∷ s.hands })
  take_task-IsCounted s t before after h is free =
      let (its, others) =
        All-middle IsWithin before t after (subst (λ l. All IsWithin l) is h.queue_within) in
      let sums = ap (sum_of left) is ∙ sum_of-middle left before t after in
      let sizes : length s.queue ≡ suc (length (before ++ after)) =
        ap (λ l. length l) is ∙ length-middle before t after in
      record {
        queue_within = others;
        hands_within = (its, h.hands_within);
        total = h.total;
        budget = omega (arith, h.budget, sums);
        busy = omega (arith, free);
        staff = h.staff;
        room = omega (arith, h.room, sizes);
      }

  -- A hand is emptied, and the execution is counted.
  module _ (s : OrderWorkerPool) (x : Hand) (before after : List Hand) (h : IsCounted c s)
      (is : s.hands ≡ before ++ x ∷ after) where
    split : IsWithin (task_of x) × All (λ y. IsWithin (task_of y)) (before ++ after)
    split =
        All-middle (λ y. IsWithin (task_of y)) before x after
          (subst (λ l. All (λ y. IsWithin (task_of y)) l) is h.hands_within)

    sums : sum_of left_in_hand s.hands ≡ left_in_hand x + sum_of left_in_hand (before ++ after)
    sums = ap (sum_of left_in_hand) is ∙ sum_of-middle left_in_hand before x after

    sizes : length s.hands ≡ suc (length (before ++ after))
    sizes = ap (λ l. length l) is ∙ length-middle before x after

    emptied-IsCounted :
        (success : Bool) (more_success more_failure : List Order)
        → 0 < left_in_hand x
        → IsCounted c (
            count_processed success (record s {
              hands = before ++ after;
              told_success = more_success;
              told_failure = more_failure;
            }))
    unfolding count_processed
    emptied-IsCounted true more_success more_failure some_left = record {
      queue_within = h.queue_within;
      hands_within = split.1;
      total = omega (arith, h.total);
      budget = omega (arith, h.budget, sums, some_left);
      busy = omega (arith, h.busy, sizes);
      staff = h.staff;
      room = h.room;
    }
    emptied-IsCounted false more_success more_failure some_left = record {
      queue_within = h.queue_within;
      hands_within = split.1;
      total = omega (arith, h.total);
      budget = omega (arith, h.budget, sums, some_left);
      busy = omega (arith, h.busy, sizes);
      staff = h.staff;
      room = h.room;
    }

  finish_task-IsCounted :
      (a : Answer) (s : OrderWorkerPool) (t : OrderTask) (before after : List Hand)
      → IsCounted c s
      → s.hands ≡ before ++ working t ∷ after
      → IsCounted c (process_order a t before after s)
  unfolding process_order
  finish_task-IsCounted (filled f) s t before after h is =
      let its = (split s (working t) before after h is).0 in
      emptied-IsCounted s (working t) before after h is true (f ∷ s.told_success) s.told_failure
        (omega (arith, its))
  finish_task-IsCounted broken s t before after h is =
      let its = (split s (working t) before after h is).0 in
      emptied-IsCounted s (working t) before after h is false s.told_success s.told_failure
        (omega (arith, its))
  finish_task-IsCounted unfilled s t before after h is =
      let its = (split s (working t) before after h is).0 in
      elim (Bool-cases (ltb t.retry_count t.max_retries)) [
        | inr spent ↦
            rw (spent, process_order)
              (emptied-IsCounted s (working t) before after h is false s.told_success
                (t.order ∷ s.told_failure) (omega (arith, its)))
        | inl again ↦
            let t' = record t { retry_count = t.retry_count + 1 } in
            let more : t.retry_count < t.max_retries = ltb→lt t.retry_count t.max_retries again in
            rw (again, process_order)
              (record {
                queue_within = h.queue_within;
                hands_within =
                    All-insert_middle (λ y. IsWithin (task_of y)) before (requeueing t') after
                      (omega (arith, more)) (split s (working t) before after h is).1;
                total = h.total;
                budget = omega (
                  arith,
                  h.budget,
                  more,
                  sums s (working t) before after h is,
                  sum_of-middle left_in_hand before (requeueing t') after,
                );
                busy = omega (
                  arith,
                  h.busy,
                  sizes s (working t) before after h is,
                  length-middle before (requeueing t') after,
                );
                staff = h.staff;
                room = h.room;
              })
      ]

  requeue-IsCounted :
      (s : OrderWorkerPool) (t : OrderTask) (before after : List Hand)
      → IsCounted c s
      → s.hands ≡ before ++ requeueing t ∷ after
      → length s.queue < c.max_queue_size
      → IsCounted c (requeue t before after s)
  unfolding requeue count_processed
  requeue-IsCounted s t before after h is some_room =
      let x = requeueing t in
      let (its, others) = split s x before after h is in
      record {
        queue_within = (its, h.queue_within);
        hands_within = others;
        total = omega (arith, h.total);
        budget = omega (arith, h.budget, sums s x before after h is);
        busy = omega (arith, h.busy, sizes s x before after h is);
        staff = h.staff;
        room = omega (arith, some_room);
      }

  pub Step-IsCounted : (s s' : OrderWorkerPool) → Step c s s' → IsCounted c s → IsCounted c s'
  Step-IsCounted s s' (take_task t before after is greatest free) h =
      take_task-IsCounted s t before after h is free
  Step-IsCounted s s' (finish_task a t before after is) h =
      finish_task-IsCounted a s t before after h is
  Step-IsCounted s s' (put_again t before after is some_room) h =
      requeue-IsCounted s t before after h is some_room

  Event-IsCounted : (s s' : OrderWorkerPool) → Event c s s' → IsCounted c s → IsCounted c s'
  unfolding submit_order add_worker
  Event-IsCounted s s' (submitted o priority some_room) h = record {
    queue_within = (omega arith, h.queue_within);
    hands_within = h.hands_within;
    total = h.total;
    budget = omega (arith, h.budget);
    busy = h.busy;
    staff = h.staff;
    room = omega (arith, some_room);
  }
  Event-IsCounted s _ (stepped s' step) h = Step-IsCounted s s' step h
  Event-IsCounted s s' scaled h = elim (Bool-cases (leb c.max_workers s.workers)) [
    | inl full ↦ rw (full, add_worker) h
    | inr below ↦
        rw (below, add_worker)
          (record {
            queue_within = h.queue_within;
            hands_within = h.hands_within;
            total = h.total;
            budget = h.budget;
            busy = omega (arith, h.busy);
            staff = ground (arith, below);
            room = h.room;
          })
  ]

  -- Whatever comes in, whatever the processor answers and in whichever order the workers run: the
  -- executions are the successes and the failures, each order submitted is executed at most four
  -- times (the executions so far and those still due are at most four for each), no more tasks are in
  -- hand than there are workers, no more workers than the greatest number, and no more tasks in
  -- the queue than its greatest size.
  pub Reached-IsCounted : (s : OrderWorkerPool) → Reached c s → IsCounted c s
  Reached-IsCounted s at_start = record {
    queue_within = tt;
    hands_within = tt;
    total = refl;
    budget = omega arith;
    busy = omega arith;
    staff = omega arith;
    room = omega arith;
  }
  Reached-IsCounted _ (and_then r s before event) =
      Event-IsCounted r s event (Reached-IsCounted r before)
