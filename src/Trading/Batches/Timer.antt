-- ===== src/Trading/Batches/Timer.antt =====
-- The timer of a stock (src/services/order_batch_aggregator.py).
use auto_trading.Prelude.{
  ℕ, ◌+◌, ◌<◌, ◌≡◌, inl, inr, refl, ap, Bool, true, false, Option, none, some, List, [], ◌∷◌, ◌++◌,
  map, values, ◌==◌, Bool-cases, Dict, get, arith,
}
use auto_trading.Trading.Division.{Division}
use auto_trading.Trading.Models.{Order, OrderType, buy, sell, PriceType, market, limit, same_type}
use auto_trading.Trading.Batches.{
  BatchingStrategy, empty_batch, fill_batch, append_at, place_by, group_by_price, side_batches,
  of_type, smart_batch_orders,
}
use auto_trading.Trading.Batches.Filling.{one_if, count, fill_batch-keeps}
use auto_trading.Trading.Batches.Grouping.{IsGrouped, HasGroup}
use auto_trading.Trading.Batches.Aggregator.{
  OrderBatchAggregator, take_out, batches_of, hand_out, create_of, create_batch, timer_callback,
}
use auto_trading.Trading.Batches.Conservation.{Buffers, held, returned, create_batch-keeps}

module _ (v : Division) (s : BatchingStrategy) (won : ℕ) where
  single_group :
      (t : PriceType) (price : Option ℕ) (o : Order)
      → HasGroup t price
      → values (place_by v s won t price o []) ≡ (o ∷ []) ∷ []
  unfolding place_by append_at
  single_group market price o h = refl
  single_group limit none o h = absurd h
  single_group limit (some price) o h = rw (positive-not_zero price h) refl
    where
      positive-not_zero : (n : ℕ) → 0 < n → (n == 0) ≡ false
      positive-not_zero n h = ground arith

  single_side :
      (o : Order)
      → IsGrouped o
      → side_batches v s won (o ∷ []) ≡ fill_batch v (o ∷ []) empty_batch ∷ []
  unfolding side_batches group_by_price
  single_side o g = elim (Bool-cases s.enable_price_grouping) [
    | inl grouping ↦ rw grouping (
        ap (λ groups. map (λ group. fill_batch v group empty_batch) groups)
          (single_group o.price_type o.limit_price o g))
    | inr whole ↦ rw whole refl
  ]

  single_batch :
      (t : OrderType) (o : Order)
      → o.order_type ≡ t
      → IsGrouped o
      → smart_batch_orders v s won (o ∷ []) ≡ fill_batch v (o ∷ []) empty_batch ∷ []
  unfolding smart_batch_orders of_type side_batches
  single_batch buy o e g =
      let here : same_type o.order_type buy ≡ true = ap (λ t. same_type t buy) e in
      let elsewhere : same_type o.order_type sell ≡ false = ap (λ t. same_type t sell) e in
      rw (here, elsewhere) (ap (λ x. x ++ []) (single_side o g))
  single_batch sell o e g =
      let here : same_type o.order_type sell ≡ true = ap (λ t. same_type t sell) e in
      let elsewhere : same_type o.order_type buy ≡ false = ap (λ t. same_type t buy) e in
      rw (here, elsewhere) (single_side o g)

take_out-found :
    (code : ℕ) (orders : List Order) (buffer : Dict (List Order))
    → get code buffer ≡ some orders
    → (take_out code buffer).0 ≡ orders
unfolding take_out
take_out-found code orders [] e = cc
take_out-found code orders (x ∷ buffer) e = ground (arith, take_out-found code orders buffer)

-- With smart batching, when the timer of a stock fires for one buffered order, the order is lost:
-- it is in no buffer and in no ready batch any more, and no caller is given its batch.
pub timer_callback-loses :
    (v : Division) (s : BatchingStrategy) (won : ℕ) (P : Order → Bool) (code : ℕ) (o : Order)
    (a : OrderBatchAggregator)
    → s.enable_smart_batching ≡ true
    → IsGrouped o
    → Buffers a.order_buffer
    → get code a.order_buffer ≡ some (o ∷ [])
    → held P (timer_callback v s won code a) + one_if (P o) ≡ held P a
unfolding timer_callback
timer_callback-loses v s won P code o a smart g h found =
    let (kept, _) = create_batch-keeps v s won smart P code a h in
    let b = fill_batch v (o ∷ []) empty_batch in
    let (whole, _) =
      fill_batch-keeps v o.stock_code o.order_type o []
        (record { its_stock = refl; its_type = refl }, tt) in
    let made : (create_batch v s won code a).0 ≡ some b =
      rw
        (
          create_batch,
          take_out-found code (o ∷ []) a.order_buffer found,
          create_of,
          batches_of,
          smart,
          single_batch v s won o.order_type o refl g,
          hand_out,
        )
        refl in
    omega (arith, kept, ap (λ x. returned P x) made, ap (λ x. count P x) whole)
