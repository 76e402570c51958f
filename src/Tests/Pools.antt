-- ===== src/Tests/Pools.antt =====
-- The pool of order workers on samples.
use auto_trading.Prelude.{◌≡◌, ◌+◌, ◌≤◌, refl, [], ◌∷◌, arith}
use auto_trading.Trading.Models.{buy}
use auto_trading.Workers.{
  OrderTask, new_task, PoolConfig, working, requeueing, OrderWorkerPool, start, submit_order,
  unfilled, process_order, Step, take_task, finish_task, submitted, stepped, scaled, add_worker,
  Reached, at_start, and_then,
}
use auto_trading.Workers.Counts.{IsCounted, Reached-IsCounted}
use auto_trading.Workers.Progress.{over, next, steps_left, IsStuck, Run-bounded, IsStuck-forever}
use auto_trading.Workers.Endings.{Ending, Run-Ending}
use auto_trading.Tests.Samples.{an_order}

-- One worker, and room for one task.
abbrev one_worker : PoolConfig
one_worker = record { min_workers = 1; max_workers = 1; max_queue_size = 1 }

abbrev first_task : OrderTask
first_task = new_task (an_order 1 buy) 0

-- An order is submitted, and the worker takes it.
abbrev one_submitted : OrderWorkerPool
one_submitted = record (start one_worker) { queue = first_task ∷ []; total_submitted = 1 }

abbrev one_taken : OrderWorkerPool
one_taken = record one_submitted { queue = []; hands = working first_task ∷ [] }

-- Another order fills the queue, and the first is not filled.
abbrev two_submitted : OrderWorkerPool
two_submitted = record one_taken { queue = new_task (an_order 2 buy) 0 ∷ []; total_submitted = 2 }

abbrev all_waiting : OrderWorkerPool
all_waiting = record two_submitted {
  hands = requeueing (record first_task { retry_count = 1 }) ∷ [];
}

submission : Reached one_worker one_submitted
unfolding submit_order
submission =
    and_then (start one_worker) one_submitted at_start (submitted (an_order 1 buy) 0 (omega arith))

taking : Step one_worker one_submitted one_taken
taking = take_task first_task [] [] refl (omega arith, tt) (omega arith)

second_submission : Reached one_worker two_submitted
unfolding submit_order
second_submission =
    and_then one_taken two_submitted
      (and_then one_submitted one_taken submission (stepped one_taken taking))
      (submitted (an_order 2 buy) 0 (omega arith))

wait_for_room : Reached one_worker all_waiting
unfolding process_order
wait_for_room =
    and_then two_submitted all_waiting second_submission
      (stepped all_waiting (finish_task unfilled first_task [] [] refl))

Reached-IsCounted_example : IsCounted one_worker all_waiting
Reached-IsCounted_example = Reached-IsCounted one_worker all_waiting wait_for_room

Run-bounded_example : 1 + steps_left one_taken ≤ steps_left one_submitted
Run-bounded_example =
    Run-bounded one_worker 1 one_submitted one_taken
      (Reached-IsCounted one_worker one_submitted submission)
      (next 0 one_submitted one_taken one_taken taking (over one_taken))

Run-Ending_example : Ending one_worker (λ _. unfilled) one_submitted
Run-Ending_example =
    Run-Ending one_worker (λ _. unfilled) one_submitted
      (Reached-IsCounted one_worker one_submitted submission) (omega arith) (omega arith)

stuck : IsStuck one_worker all_waiting
stuck = record { full = omega arith; all_wait = (refl, tt); nobody_free = omega arith }

IsStuck-forever_example : add_worker one_worker all_waiting ≡ all_waiting
IsStuck-forever_example =
    IsStuck-forever one_worker all_waiting (add_worker one_worker all_waiting) stuck (omega arith)
      scaled
