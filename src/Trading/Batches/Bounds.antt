-- ===== src/Trading/Batches/Bounds.antt =====
-- How many orders wait in a buffer (src/services/order_batch_aggregator.py).
use auto_trading.Prelude.{
  ℕ, ◌<◌, ◌≡◌, inl, inr, List, [], ◌∷◌, ◌++◌, length, ◌==◌, leb, Bool-cases, Dict, put, Values,
  Values-put, arith,
}
use auto_trading.Trading.Division.{Division}
use auto_trading.Trading.Models.{Order}
use auto_trading.Trading.Batches.{BatchingStrategy}
use auto_trading.Trading.Batches.Aggregator.{
  OrderBatchAggregator, take_out, buffered, member, create_batch, add_order,
}
use auto_trading.Trading.Batches.Delivery.{add_orders, create_of-buffer}

-- Every buffer is below the size of a batch.
abbrev pub Short : ℕ → Dict (List Order) → Type 0
Short size buffer = Values (λ orders. length orders < size) buffer

-- A buffer that is put and taken out at once changes no other.
take_out-put :
    (size code : ℕ) (orders : List Order) (buffer : Dict (List Order))
    → Short size buffer
    → Short size (take_out code (put code orders buffer)).1
unfolding take_out
take_out-put size code orders [] h = ground arith
take_out-put size code orders (e ∷ buffer) h =
    ground (arith, take_out-put size code orders buffer h.1)

module _ (v : Division) (s : BatchingStrategy) (won : ℕ) where
  create_batch-buffer :
      (code : ℕ) (a : OrderBatchAggregator)
      → (create_batch v s won code a).1.order_buffer ≡ (take_out code a.order_buffer).1
  unfolding create_batch
  create_batch-buffer code a =
      create_of-buffer v s won code (take_out code a.order_buffer).0
        (record a { order_buffer = (take_out code a.order_buffer).1 })

  add_order-Short :
      (o : Order) (a : OrderBatchAggregator)
      → Short s.max_batch_size a.order_buffer
      → Short s.max_batch_size (add_order v s won o a).1.order_buffer
  unfolding add_order
  add_order-Short o a h = elim (Bool-cases (member o.stock_code s.priority_symbols)) [
    | inl first ↦ rw first h
    | inr usual ↦ elim (Bool-cases (leb s.max_batch_size (length orders))) [
      | inl full ↦
          rw (usual, full, create_batch-buffer o.stock_code a')
            (take_out-put s.max_batch_size o.stock_code orders a.order_buffer h)
      | inr room ↦
          let short =
            Values-put (λ x. length x < s.max_batch_size) o.stock_code orders a.order_buffer
              (ground arith) h in
          elim (Bool-cases (length orders == 1)) [
            | inl new ↦ rw (usual, room, new) short
            | inr old ↦ rw (usual, room, old) short
          ]
    ]
  ]
    where
      orders : List Order
      orders = buffered o.stock_code a.order_buffer ++ o ∷ []

      a' : OrderBatchAggregator
      a' = record a { order_buffer = put o.stock_code orders a.order_buffer }

  -- Where fewer orders than `max_batch_size` wait for each stock, as in a fresh aggregator, this holds
  -- after any calls of `add_order`.
  pub add_orders-Short :
      (orders : List Order) (a : OrderBatchAggregator)
      → Short s.max_batch_size a.order_buffer
      → Short s.max_batch_size (add_orders v s won orders a).1.order_buffer
  unfolding add_orders
  add_orders-Short [] a h = h
  add_orders-Short (o ∷ orders) a h =
      add_orders-Short orders (add_order v s won o a).1 (add_order-Short o a h)
