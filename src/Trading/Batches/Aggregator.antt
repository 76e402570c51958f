-- ===== src/Trading/Batches/Aggregator.antt =====
-- The class `OrderBatchAggregator` of src/services/order_batch_aggregator.py. The queue of ready
-- batches is a list, and a timer is the entry of its stock.
use auto_trading.Prelude.{
  ℕ, ◌+◌, max, Bool, true, false, Option, none, some, List, [], ◌∷◌, ◌++◌, length, ◌==◌, ltb, leb,
  if◌then◌else◌, Dict, get, put, pop,
}
use auto_trading.Trading.Division.{Division}
use auto_trading.Trading.Models.{Order, OrderType, buy, sell}
use auto_trading.Trading.Batches.{
  OrderBatch, BatchingStrategy, empty_batch, add_order_to, fill_batch, smart_batch_orders,
}

-- The counts of `BatchAggregatorMetrics`.
pub record Metrics : Type 0 where
  pub total_batches_created : ℕ
  pub total_orders_batched : ℕ
  pub max_batch_size : ℕ
  pub symbol_batch_counts : Dict ℕ
  pub buy_batches : ℕ
  pub sell_batches : ℕ

pub record OrderBatchAggregator : Type 0 where
  pub order_buffer : Dict (List Order)
  pub ready_batches : List OrderBatch
  pub batch_timers : Dict (Unit {0})
  pub metrics : Metrics

abbrev count_of : ℕ → Dict ℕ → ℕ
count_of key counts = elim (get key counts) [ none ↦ 0 | some n ↦ n ]

-- A batch with no stock has no orders, and is never recorded.
unfoldable pub count_symbol : Option ℕ → Dict ℕ → Dict ℕ
count_symbol none counts = counts
count_symbol (some code) counts = put code (count_of code counts + 1) counts

unfoldable pub count_type : Option OrderType → Metrics → Metrics
count_type none m = m
count_type (some buy) m = record m { buy_batches = m.buy_batches + 1 }
count_type (some sell) m = record m { sell_batches = m.sell_batches + 1 }

-- `record_batch`
unfoldable pub record_batch : OrderBatch → Metrics → Metrics
unfolding count_symbol count_type
record_batch b m = count_type b.batch_type (record m {
  total_batches_created = m.total_batches_created + 1;
  total_orders_batched = m.total_orders_batched + length b.orders;
  max_batch_size = max m.max_batch_size (length b.orders);
  symbol_batch_counts = count_symbol b.stock_code m.symbol_batch_counts;
})

unfoldable pub record_all : List OrderBatch → Metrics → Metrics
unfolding record_batch
record_all [] m = m
record_all (b ∷ batches) m = record_all batches (record_batch b m)

-- `pop(stock_code, [])`: the orders of the key, and the dict without it, which has each key once.
unfoldable pub take_out : ℕ → Dict (List Order) → List Order × Dict (List Order)
take_out key [] = ([], [])
take_out key ((k, orders) ∷ buffer) =
    let (found, rest) = take_out key buffer in
    if k == key then (orders, buffer) else (found, (k, orders) ∷ rest)

abbrev pub buffered : ℕ → Dict (List Order) → List Order
buffered key buffer = elim (get key buffer) [ none ↦ [] | some orders ↦ orders ]

abbrev pub member : ℕ → List ℕ → Bool
member x [] = false
member x (y ∷ ys) = if y == x then true else member x ys

module _ (v : Division) (s : BatchingStrategy) (won : ℕ) where
  unfoldable pub batches_of : List Order → List OrderBatch
  unfolding smart_batch_orders fill_batch
  batches_of orders =
      if s.enable_smart_batching
      then smart_batch_orders v s won orders
      else fill_batch v orders empty_batch ∷ []

  -- The first batch is the result, and the others are ready.
  unfoldable pub hand_out :
      List OrderBatch → OrderBatchAggregator → Option OrderBatch × OrderBatchAggregator
  hand_out [] a = (none, a)
  hand_out (b ∷ batches) a = (some b, record a { ready_batches = a.ready_batches ++ batches })

  unfoldable pub create_of :
      (stock_code : ℕ)
      → List Order
      → OrderBatchAggregator
      → Option OrderBatch × OrderBatchAggregator
  unfolding hand_out batches_of record_all
  create_of stock_code [] a = (none, a)
  create_of stock_code (o ∷ orders) a =
      let batches = batches_of (o ∷ orders) in
      hand_out batches (record a {
        batch_timers = pop stock_code a.batch_timers;
        metrics = record_all batches a.metrics;
      })

  -- `_create_batch`
  unfoldable pub create_batch :
      (stock_code : ℕ) → OrderBatchAggregator → Option OrderBatch × OrderBatchAggregator
  unfolding take_out create_of
  create_batch stock_code a =
      let (orders, buffer) = take_out stock_code a.order_buffer in
      create_of stock_code orders (record a { order_buffer = buffer })

  -- `add_order`
  unfoldable pub add_order : Order → OrderBatchAggregator → Option OrderBatch × OrderBatchAggregator
  unfolding create_batch add_order_to record_batch
  add_order o a =
      let code = o.stock_code in
      let single = (add_order_to v o empty_batch).1 in
      let orders = buffered code a.order_buffer ++ o ∷ [] in
      let a' = record a { order_buffer = put code orders a.order_buffer } in
      if member code s.priority_symbols
      then (some single, record a { metrics = record_batch single a.metrics })
      else if leb s.max_batch_size (length orders)
      then create_batch code a'
      else if length orders == 1
      then (none, record a' { batch_timers = put code tt a'.batch_timers })
      else (none, a')

  -- The timer of a stock when it fires: nothing takes the batch that `_create_batch` returns.
  unfoldable pub timer_callback : (stock_code : ℕ) → OrderBatchAggregator → OrderBatchAggregator
  unfolding create_batch
  timer_callback stock_code a = (create_batch stock_code a).1

  unfoldable pub put_ready : Option OrderBatch → OrderBatchAggregator → OrderBatchAggregator
  put_ready none a = a
  put_ready (some b) a = record a { ready_batches = a.ready_batches ++ b ∷ [] }

  unfoldable pub flush_stocks : List ℕ → OrderBatchAggregator → OrderBatchAggregator
  unfolding create_batch put_ready
  flush_stocks [] a = a
  flush_stocks (code ∷ codes) a =
      let (b, a') = create_batch code a in flush_stocks codes (put_ready b a')

  abbrev pub is_old : (now : ℕ) → List Order → Bool
  is_old now [] = false
  is_old now (o ∷ orders) = ltb (o.created_at + s.batch_timeout) now

  unfoldable pub old_stocks : (now : ℕ) → Dict (List Order) → List ℕ
  old_stocks now [] = []
  old_stocks now ((code, orders) ∷ buffer) =
      let rest = old_stocks now buffer in if is_old now orders then code ∷ rest else rest

  -- `_flush_old_batches`
  unfoldable pub flush_old_batches : (now : ℕ) → OrderBatchAggregator → OrderBatchAggregator
  unfolding flush_stocks old_stocks
  flush_old_batches now a = flush_stocks (old_stocks now a.order_buffer) a

  unfoldable pub stocks : Dict (List Order) → List ℕ
  stocks [] = []
  stocks ((code, orders) ∷ buffer) = code ∷ stocks buffer

  -- `_flush_all`
  unfoldable pub flush_all : OrderBatchAggregator → OrderBatchAggregator
  unfolding flush_stocks stocks
  flush_all a = flush_stocks (stocks a.order_buffer) a

  -- `stop`, once the loop that flushes is over.
  unfoldable pub stop : OrderBatchAggregator → OrderBatchAggregator
  unfolding flush_all
  stop a = flush_all (record a { batch_timers = [] })

-- `get_ready_batch`; `none` is the timeout.
unfoldable pub get_ready_batch : OrderBatchAggregator → Option OrderBatch × OrderBatchAggregator
get_ready_batch a = elim a.ready_batches [
  | [] ↦ (none, a)
  | b ∷ batches ↦ (some b, record a { ready_batches = batches })
]
