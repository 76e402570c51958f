-- ===== src/Tests/Batching.antt =====
-- Batches of sample orders.
use auto_trading.Prelude.{ℕ, ◌+◌, ◌≡◌, refl, Bool, true, some, List, [], ◌∷◌, arith}
use auto_trading.Trading.Division.{floor}
use auto_trading.Trading.Models.{Order, buy, sell, limit}
use auto_trading.Trading.Batches.{OrderBatch, BatchingStrategy, empty_batch}
use auto_trading.Trading.Batches.Filling.{count_batches}
use auto_trading.Trading.Batches.Aggregator.{OrderBatchAggregator, stop, timer_callback}
use auto_trading.Trading.Batches.Conservation.{held}
use auto_trading.Trading.Batches.Delivery.{start, add_orders, stop-delivers}
use auto_trading.Trading.Batches.Timer.{timer_callback-loses}
use auto_trading.Tests.Samples.{an_order}

abbrev a_strategy : BatchingStrategy
a_strategy = record {
  max_batch_size = 2;
  batch_timeout = 1_000_000;
  enable_price_grouping = true;
  price_tolerance = 10_000;
  enable_smart_batching = true;
  priority_symbols = [];
}

-- Ten shares of stock 5 at a limit.
abbrev at_limit : (order_id price : ℕ) → Order
at_limit order_id price = record (an_order order_id buy) {
  price_type = limit;
  limit_price = some price;
}

abbrev three_orders : List Order
three_orders = at_limit 1 100 ∷ an_order 2 sell ∷ at_limit 3 300 ∷ []

abbrev all_orders : Order → Bool
all_orders o = true

stop-delivers_example :
    let (batches, a) = add_orders floor a_strategy 1 three_orders start in
    (count_batches all_orders batches
        + count_batches all_orders (stop floor a_strategy 1 a).ready_batches
      ≡ 3)
    × ((stop floor a_strategy 1 a).order_buffer ≡ [])
stop-delivers_example =
    stop-delivers floor a_strategy 1 all_orders three_orders refl
      (omega arith, (tt, (omega arith, tt)))

abbrev one_waits : OrderBatchAggregator
one_waits = record start { order_buffer = (5, an_order 2 sell ∷ []) ∷ [] }

timer_callback-loses_example :
    held all_orders (timer_callback floor a_strategy 1 5 one_waits) + 1 ≡ 1
timer_callback-loses_example =
    timer_callback-loses floor a_strategy 1 all_orders 5 (an_order 2 sell) one_waits refl tt
      ((record { under_code = refl; grouped = tt }, tt), tt) refl

abbrev two_limits : OrderBatch
two_limits = record empty_batch { orders = at_limit 1 100 ∷ at_limit 3 300 ∷ [] }
