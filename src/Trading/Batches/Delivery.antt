-- ===== src/Trading/Batches/Delivery.antt =====
-- From the orders that are added to the batches that are handed out
-- (src/services/order_batch_aggregator.py).
use auto_trading.Prelude.{
  ℕ, ◌+◌, ◌≡◌, refl, ap, ◌∙◌, Bool, true, Option, none, some, List, [], ◌∷◌, All, Dict, arith,
}
use auto_trading.Trading.Division.{Division}
use auto_trading.Trading.Models.{Order}
use auto_trading.Trading.Batches.{OrderBatch, BatchingStrategy}
use auto_trading.Trading.Batches.Filling.{count, count_batches, count_groups}
use auto_trading.Trading.Batches.Grouping.{IsGrouped}
use auto_trading.Trading.Batches.Aggregator.{
  OrderBatchAggregator, take_out, batches_of, hand_out, create_of, create_batch, add_order,
  put_ready, flush_stocks, stocks, flush_all, stop,
}
use auto_trading.Trading.Batches.Conservation.{Buffers, held, add_order-keeps, flush_stocks-keeps}

-- A fresh aggregator.
abbrev pub start : OrderBatchAggregator
start = record {
  order_buffer = [];
  ready_batches = [];
  batch_timers = [];
  metrics = record {
    total_batches_created = 0;
    total_orders_batched = 0;
    max_batch_size = 0;
    symbol_batch_counts = [];
    buy_batches = 0;
    sell_batches = 0;
  };
}

-- The batches that a list of calls of `add_order` returns, and the aggregator then.
unfoldable pub add_orders :
    Division
    → BatchingStrategy
    → ℕ
    → List Order
    → OrderBatchAggregator
    → List OrderBatch × OrderBatchAggregator
add_orders v s won [] a = ([], a)
add_orders v s won (o ∷ orders) a =
    let (b, a') = add_order v s won o a in
    let (batches, a'') = add_orders v s won orders a' in
    (elim b [ none ↦ batches | some x ↦ x ∷ batches ], a'')

hand_out-buffer :
    (v : Division) (s : BatchingStrategy) (won : ℕ) (batches : List OrderBatch)
    (a : OrderBatchAggregator)
    → (hand_out v s won batches a).1.order_buffer ≡ a.order_buffer
unfolding hand_out
hand_out-buffer v s won [] a = refl
hand_out-buffer v s won (b ∷ batches) a = refl

pub create_of-buffer :
    (v : Division) (s : BatchingStrategy) (won code : ℕ) (orders : List Order)
    (a : OrderBatchAggregator)
    → (create_of v s won code orders a).1.order_buffer ≡ a.order_buffer
unfolding create_of
create_of-buffer v s won code [] a = refl
create_of-buffer v s won code (o ∷ orders) a =
    hand_out-buffer v s won (batches_of v s won (o ∷ orders)) _

put_ready-buffer :
    (v : Division) (s : BatchingStrategy) (won : ℕ) (b : Option OrderBatch)
    (a : OrderBatchAggregator)
    → (put_ready v s won b a).order_buffer ≡ a.order_buffer
unfolding put_ready
put_ready-buffer v s won none a = refl
put_ready-buffer v s won (some b) a = refl

take_out-head :
    (code : ℕ) (orders : List Order) (buffer : Dict (List Order))
    → (take_out code ((code, orders) ∷ buffer)).1 ≡ buffer
unfolding take_out
take_out-head code orders buffer = ground arith

-- A flush of all stocks empties the buffers.
flush_stocks-empties :
    (v : Division) (s : BatchingStrategy) (won : ℕ) (buffer : Dict (List Order))
    (a : OrderBatchAggregator)
    → a.order_buffer ≡ buffer
    → (flush_stocks v s won (stocks v s won buffer) a).order_buffer ≡ []
unfolding flush_stocks stocks create_batch
flush_stocks-empties v s won [] a e = e
flush_stocks-empties v s won ((code, orders) ∷ buffer) a e =
    let taken : (take_out code a.order_buffer).1 ≡ buffer =
      ap (λ x. (take_out code x).1) e ∙ take_out-head code orders buffer in
    let r = create_batch v s won code a in
    flush_stocks-empties v s won buffer (put_ready v s won r.0 r.1) (
      put_ready-buffer v s won r.0 r.1
      ∙ create_of-buffer v s won code (take_out code a.order_buffer).0
          (record a { order_buffer = (take_out code a.order_buffer).1 })
      ∙ taken)

add_orders-keeps :
    (v : Division) (s : BatchingStrategy) (won : ℕ) (P : Order → Bool) (orders : List Order)
    (a : OrderBatchAggregator)
    → s.enable_smart_batching ≡ true
    → All IsGrouped orders
    → Buffers a.order_buffer
    → let (batches, a') = add_orders v s won orders a in
      (held P a' + count_batches P batches ≡ held P a + count P orders) × Buffers a'.order_buffer
unfolding add_orders
add_orders-keeps v s won P [] a smart g h = (omega arith, h)
add_orders-keeps v s won P (o ∷ orders) a smart g h =
    let (kept, buffers) = add_order-keeps v s won smart P o a g.0 h in
    let (rest, buffers') =
      add_orders-keeps v s won P orders (add_order v s won o a).1 smart g.1 buffers in
    (ground (arith, kept, rest), buffers')

-- On a fresh aggregator with smart batching, for market orders and orders with a price above zero:
-- after any calls of `add_order`, between which no timer fires, and a `stop`, the batches that the
-- calls returned and those that are ready hold each order exactly once, and the buffers are empty.
pub stop-delivers :
    (v : Division) (s : BatchingStrategy) (won : ℕ) (P : Order → Bool) (orders : List Order)
    → s.enable_smart_batching ≡ true
    → All IsGrouped orders
    → let (batches, a) = add_orders v s won orders start in
      (count_batches P batches + count_batches P (stop v s won a).ready_batches ≡ count P orders)
      × ((stop v s won a).order_buffer ≡ [])
unfolding stop flush_all
stop-delivers v s won P orders smart g =
    let (added, buffers) = add_orders-keeps v s won P orders start smart g tt in
    let a = (add_orders v s won orders start).1 in
    let a' = record a { batch_timers = [] } in
    let codes = stocks v s won a.order_buffer in
    let (flushed, _) = flush_stocks-keeps v s won smart P codes a' buffers in
    let empty : (flush_stocks v s won codes a').order_buffer ≡ [] =
      flush_stocks-empties v s won a.order_buffer a' refl in
    (omega (arith, added, flushed, ap (λ x. count_groups P x) empty), empty)
