-- ===== src/Trading/Batches/Conservation.antt =====
-- No order is lost or doubled on its way through the aggregator
-- (src/services/order_batch_aggregator.py), but for the timer's.
use auto_trading.Prelude.{
  ℕ, ◌+◌, ◌≡◌, inl, inr, refl, ap, subst, Bool, true, Option, none, some, List, [], ◌∷◌, ◌++◌,
  length, All, All-append, sum_of-append, ◌==◌, leb, Bool-cases, Dict, put, arith,
}
use auto_trading.Trading.Division.{Division}
use auto_trading.Trading.Models.{Order}
use auto_trading.Trading.Batches.{
  OrderBatch, BatchingStrategy, empty_batch, add_order_to, add_after, smart_batch_orders,
}
use auto_trading.Trading.Batches.Filling.{
  one_if, count, count_batches, count_groups, update_statistics-fields,
}
use auto_trading.Trading.Batches.Grouping.{IsGrouped, smart_batch_orders-keeps}
use auto_trading.Trading.Batches.Aggregator.{
  OrderBatchAggregator, take_out, buffered, member, batches_of, hand_out, create_of, create_batch,
  add_order, put_ready, flush_stocks,
}

-- An order that the aggregator keeps under that stock.
pub record IsKept (code : ℕ) (o : Order) : Type 0 where
  pub under_code : o.stock_code ≡ code
  pub grouped : IsGrouped o

-- Every buffer holds orders of its stock.
abbrev pub Buffers : Dict (List Order) → Type 0
Buffers [] = Unit
Buffers ((code, orders) ∷ buffer) = All (IsKept code) orders × Buffers buffer

-- The orders with that property in the buffers and in the ready batches.
abbrev pub held : (Order → Bool) → OrderBatchAggregator → ℕ
held P a = count_groups P a.order_buffer + count_batches P a.ready_batches

abbrev pub returned : (Order → Bool) → Option OrderBatch → ℕ
returned P none = 0
returned P (some b) = count P b.orders

take_out-keeps :
    (P : Order → Bool) (code : ℕ) (buffer : Dict (List Order))
    → Buffers buffer
    → let (orders, rest) = take_out code buffer in
      (count P orders + count_groups P rest ≡ count_groups P buffer)
      × All (IsKept code) orders
      × Buffers rest
unfolding take_out
take_out-keeps P code [] h = (refl, tt, tt)
take_out-keeps P code ((k, orders) ∷ buffer) h = elim (Bool-cases (k == code)) [
  | inl here ↦
      let same : k ≡ code = ground arith in
      rw here (refl, subst (λ c. All (IsKept c) orders) same h.0, h.1)
  | inr elsewhere ↦
      let (kept, all, buffers) = take_out-keeps P code buffer h.1 in
      rw elsewhere (omega (arith, kept), all, (h.0, buffers))
]

split_kept :
    (code : ℕ) (orders : List Order)
    → All (IsKept code) orders
    → All (λ o. o.stock_code ≡ code) orders × All IsGrouped orders
split_kept code [] h = (tt, tt)
split_kept code (o ∷ orders) h =
    let (stock, grouped) = split_kept code orders h.1 in
    ((h.0.under_code, stock), (h.0.grouped, grouped))

buffered-All :
    (code : ℕ) (buffer : Dict (List Order))
    → Buffers buffer
    → All (IsKept code) (buffered code buffer)
buffered-All code [] h = tt
buffered-All code ((k, orders) ∷ buffer) h = elim (Bool-cases (k == code)) [
  | inl here ↦
      let same : k ≡ code = ground arith in
      rw (here, All) (subst (λ c. All (IsKept c) orders) same h.0)
  | inr elsewhere ↦ rw (elsewhere, All) (buffered-All code buffer h.1)
]

put-Buffers :
    (code : ℕ) (orders : List Order) (buffer : Dict (List Order))
    → All (IsKept code) orders
    → Buffers buffer
    → Buffers (put code orders buffer)
put-Buffers code orders [] h k = (h, tt)
put-Buffers code orders ((j, old) ∷ buffer) h k = elim (Bool-cases (j == code)) [
  | inl here ↦
      let same : code ≡ j = ground arith in rw here (subst (λ c. All (IsKept c) orders) same h, k.1)
  | inr elsewhere ↦ rw elsewhere (k.0, put-Buffers code orders buffer h k.1)
]

count-put :
    (P : Order → Bool) (code : ℕ) (new : List Order) (buffer : Dict (List Order))
    → count_groups P (put code new buffer) + count P (buffered code buffer)
      ≡ count_groups P buffer + count P new
count-put P code new [] = ground arith
count-put P code new (e ∷ buffer) = ground (arith, count-put P code new buffer)

single_orders : (v : Division) (o : Order) → (add_order_to v o empty_batch).1.orders ≡ o ∷ []
unfolding add_order_to add_after
single_orders v o =
    (update_statistics-fields v (record empty_batch {
      stock_code = some o.stock_code;
      batch_type = some o.order_type;
      orders = o ∷ [];
    })).0

module _ (v : Division) (s : BatchingStrategy) (won : ℕ)
    (smart : s.enable_smart_batching ≡ true) where
  hand_out-keeps :
      (P : Order → Bool) (batches : List OrderBatch) (a : OrderBatchAggregator)
      → let (b, a') = hand_out v s won batches a in
        (held P a' + returned P b ≡ held P a + count_batches P batches)
        × (a'.order_buffer ≡ a.order_buffer)
  unfolding hand_out
  hand_out-keeps P [] a = (omega arith, refl)
  hand_out-keeps P (b ∷ batches) a =
      (omega (arith, sum_of-append (λ x. count P x.orders) a.ready_batches batches), refl)

  create_of-keeps :
      (P : Order → Bool) (code : ℕ) (orders : List Order) (a : OrderBatchAggregator)
      → All (IsKept code) orders
      → let (b, a') = create_of v s won code orders a in
        (held P a' + returned P b ≡ held P a + count P orders) × (a'.order_buffer ≡ a.order_buffer)
  unfolding create_of batches_of
  create_of-keeps P code [] a h = (omega arith, refl)
  create_of-keeps P code (o ∷ orders) a h =
      let (stock, grouped) = split_kept code (o ∷ orders) h in
      let (all, _) = smart_batch_orders-keeps v s won P code (o ∷ orders) stock grouped in
      let (handed, same) = hand_out-keeps P (batches_of v s won (o ∷ orders)) _ in
      let used : batches_of v s won (o ∷ orders) ≡ smart_batch_orders v s won (o ∷ orders) =
        rw (smart, batches_of) refl in
      (omega (arith, handed, ap (λ x. count_batches P x) used, all), same)

  -- The batches of a stock take its orders out of the buffer, and hold each once.
  pub create_batch-keeps :
      (P : Order → Bool) (code : ℕ) (a : OrderBatchAggregator)
      → Buffers a.order_buffer
      → let (b, a') = create_batch v s won code a in
        (held P a' + returned P b ≡ held P a) × Buffers a'.order_buffer
  unfolding create_batch
  create_batch-keeps P code a h =
      let (kept, all, buffers) = take_out-keeps P code a.order_buffer h in
      let (made, same) =
        create_of-keeps P code (take_out code a.order_buffer).0
          (record a { order_buffer = (take_out code a.order_buffer).1 }) all in
      (omega (arith, made, kept), rw same buffers)

  pub add_order-keeps :
      (P : Order → Bool) (o : Order) (a : OrderBatchAggregator)
      → IsGrouped o
      → Buffers a.order_buffer
      → let (b, a') = add_order v s won o a in
        (held P a' + returned P b ≡ held P a + one_if (P o)) × Buffers a'.order_buffer
  unfolding add_order
  add_order-keeps P o a g h = elim (Bool-cases (member o.stock_code s.priority_symbols)) [
    | inl first ↦ rw first (omega (arith, ap (λ x. count P x) (single_orders v o)), h)
    | inr usual ↦ elim (Bool-cases (leb s.max_batch_size (length orders))) [
      | inl full ↦
          let (kept, buffers) = create_batch-keeps P o.stock_code a' buffered_now in
          rw (usual, full) (omega (arith, kept, grows), buffers)
      | inr room ↦ elim (Bool-cases (length orders == 1)) [
        | inl new ↦ rw (usual, room, new) (omega (arith, grows), buffered_now)
        | inr old ↦ rw (usual, room, old) (omega (arith, grows), buffered_now)
      ]
    ]
  ]
    where
      before : List Order
      before = buffered o.stock_code a.order_buffer

      orders : List Order
      orders = before ++ o ∷ []

      a' : OrderBatchAggregator
      a' = record a { order_buffer = put o.stock_code orders a.order_buffer }

      buffered_now : Buffers (put o.stock_code orders a.order_buffer)
      buffered_now =
          put-Buffers o.stock_code orders a.order_buffer
            (All-append (IsKept o.stock_code) before (o ∷ [])
              (buffered-All o.stock_code a.order_buffer h)
              (record { under_code = refl; grouped = g }, tt))
            h

      grows : held P a' ≡ held P a + one_if (P o)
      grows = omega (
        arith,
        count-put P o.stock_code orders a.order_buffer,
        sum_of-append (λ x. one_if (P x)) before (o ∷ []),
      )

  put_ready-keeps :
      (P : Order → Bool) (b : Option OrderBatch) (a : OrderBatchAggregator)
      → (held P (put_ready v s won b a) ≡ held P a + returned P b)
        × ((put_ready v s won b a).order_buffer ≡ a.order_buffer)
  unfolding put_ready
  put_ready-keeps P none a = (omega arith, refl)
  put_ready-keeps P (some b) a =
      (omega (arith, sum_of-append (λ x. count P x.orders) a.ready_batches (b ∷ [])), refl)

  -- A flush of any stocks moves orders from the buffers to the ready batches, and loses none.
  pub flush_stocks-keeps :
      (P : Order → Bool) (codes : List ℕ) (a : OrderBatchAggregator)
      → Buffers a.order_buffer
      → (held P (flush_stocks v s won codes a) ≡ held P a)
        × Buffers (flush_stocks v s won codes a).order_buffer
  unfolding flush_stocks
  flush_stocks-keeps P [] a h = (refl, h)
  flush_stocks-keeps P (code ∷ codes) a h =
      let (made, buffers) = create_batch-keeps P code a h in
      let b = (create_batch v s won code a).0 in
      let a' = (create_batch v s won code a).1 in
      let (ready, same) = put_ready-keeps P b a' in
      let (rest, buffers') =
        flush_stocks-keeps P codes (put_ready v s won b a') (rw same buffers) in
      (omega (arith, rest, ready, made), buffers')
