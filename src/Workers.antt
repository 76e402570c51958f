-- ===== src/Workers.antt =====
-- The pool of order workers (src/services/order_worker_pool.py). Workers run concurrently, and give
-- way to each other only where they wait; so the pool is a step relation, between the states at
-- those points. What the processor answers, and which of the tasks of one priority the queue gives
-- first, are free. Identifiers, times and the metrics of each worker are left out, and so is
-- `stop`. The queue has a greatest size above zero.
pub mod Counts
pub mod Progress
pub mod Endings
use auto_trading.Prelude.{
  ℕ, suc, min, ◌+◌, ◌-◌, ◌≤◌, ◌<◌, ◌≡◌, Bool, true, false, Option, none, some, List, [], ◌∷◌, ◌++◌,
  length, All, ltb, leb, if◌then◌else◌,
}
use auto_trading.Trading.Models.{Order}

pub record OrderTask : Type 0 where
  pub order : Order
  pub priority : ℕ
  pub retry_count : ℕ
  pub max_retries : ℕ

abbrev pub new_task : Order → (priority : ℕ) → OrderTask
new_task o priority = record { order = o; priority = priority; retry_count = 0; max_retries = 3 }

pub record PoolConfig : Type 0 where
  pub min_workers : ℕ
  pub max_workers : ℕ
  pub max_queue_size : ℕ

-- A worker that has a task: it waits for the processor, or for room in the queue.
pub data Hand : Type 0 where
  working requeueing : OrderTask → Hand

-- `told_success` and `told_failure` are the orders that the callbacks were called with.
pub record OrderWorkerPool : Type 0 where
  pub queue : List OrderTask
  pub hands : List Hand
  pub workers : ℕ
  pub total_submitted : ℕ
  pub total_processed : ℕ
  pub total_successful : ℕ
  pub total_failed : ℕ
  pub told_success : List Order
  pub told_failure : List Order

-- After `start`.
abbrev pub start : PoolConfig → OrderWorkerPool
start c = record {
  queue = [];
  hands = [];
  workers = min c.min_workers c.max_workers;
  total_submitted = 0;
  total_processed = 0;
  total_successful = 0;
  total_failed = 0;
  told_success = [];
  told_failure = [];
}

-- `submit_order`, once there is room.
unfoldable pub submit_order : Order → (priority : ℕ) → OrderWorkerPool → OrderWorkerPool
submit_order o priority s = record s {
  queue = new_task o priority ∷ s.queue;
  total_submitted = s.total_submitted + 1;
}

-- The processor filled the order, did not, or raised.
pub data Answer : Type 0 where
  filled : Order → Answer
  unfilled broken : Answer

-- What the loop counts after a task.
unfoldable pub count_processed : (success : Bool) → OrderWorkerPool → OrderWorkerPool
count_processed true s = record s {
  total_processed = s.total_processed + 1;
  total_successful = s.total_successful + 1;
}
count_processed false s = record s {
  total_processed = s.total_processed + 1;
  total_failed = s.total_failed + 1;
}

-- `_process_order`, but for the wait for room, with the rest of the loop. The worker's other hands
-- are `before` and `after`.
unfoldable pub process_order :
    Answer → OrderTask → (before after : List Hand) → OrderWorkerPool → OrderWorkerPool
unfolding count_processed
process_order (filled f) t before after s =
    count_processed true (record s { hands = before ++ after; told_success = f ∷ s.told_success })
process_order unfilled t before after s =
    if ltb t.retry_count t.max_retries
    then record s {
      hands = before ++ requeueing (record t { retry_count = t.retry_count + 1 }) ∷ after;
    }
    else count_processed false
        (record s { hands = before ++ after; told_failure = t.order ∷ s.told_failure })
process_order broken t before after s = count_processed false (record s { hands = before ++ after })

-- The put of a task that is tried again, once there is room.
unfoldable pub requeue : OrderTask → (before after : List Hand) → OrderWorkerPool → OrderWorkerPool
unfolding count_processed
requeue t before after s =
    count_processed false (record s { queue = t ∷ s.queue; hands = before ++ after })

unfoldable pub add_worker : PoolConfig → OrderWorkerPool → OrderWorkerPool
add_worker c s = if leb c.max_workers s.workers then s else record s { workers = s.workers + 1 }

-- The steps of the pool itself; the queue gives a task of the greatest priority to a free worker.
pub data Step (c : PoolConfig) (s : OrderWorkerPool) : OrderWorkerPool → Type 0 where
  take_task :
      (t : OrderTask) (before after : List OrderTask)
      → s.queue ≡ before ++ t ∷ after
      → All (λ u. u.priority ≤ t.priority) s.queue
      → length s.hands < s.workers
      → Step c s (record s { queue = before ++ after; hands = working t ∷ s.hands })
  finish_task :
      (a : Answer) (t : OrderTask) (before after : List Hand)
      → s.hands ≡ before ++ working t ∷ after
      → Step c s (process_order a t before after s)
  put_again :
      (t : OrderTask) (before after : List Hand)
      → s.hands ≡ before ++ requeueing t ∷ after
      → length s.queue < c.max_queue_size
      → Step c s (requeue t before after s)

-- With what comes from outside: orders, and the scaling.
pub data Event (c : PoolConfig) (s : OrderWorkerPool) : OrderWorkerPool → Type 0 where
  submitted :
      (o : Order) (priority : ℕ)
      → length s.queue < c.max_queue_size
      → Event c s (submit_order o priority s)
  scaled : Event c s (add_worker c s)
  stepped : (s' : OrderWorkerPool) → Step c s s' → Event c s s'

pub data Reached (c : PoolConfig) : OrderWorkerPool → Type 0 where
  at_start : Reached c (start c)
  and_then : (s s' : OrderWorkerPool) → Reached c s → Event c s s' → Reached c s'
