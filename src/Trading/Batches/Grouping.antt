-- ===== src/Trading/Batches/Grouping.antt =====
-- What the grouping of src/services/order_batch_aggregator.py does with the orders.
use auto_trading.Prelude.{
  ℕ, suc, ◌+◌, ◌<◌, ◌≡◌, inl, inr, refl, ap, Bool, true, false, Option, none, some, List, [], ◌∷◌,
  ◌++◌, map, All, All-append, sum_of-append, ◌==◌, Bool-cases, Dict, get, put, values, Values,
  Values-put, Values-get, Option-cases, arith,
}
use auto_trading.Trading.Division.{Division}
use auto_trading.Trading.Models.{Order, OrderType, buy, sell, PriceType, market, limit, same_type}
use auto_trading.Trading.Batches.{
  BatchingStrategy, empty_batch, fill_batch, append_at, group_at, place_by, group_by_price,
  price_range, side_batches, of_type, smart_batch_orders,
}
use auto_trading.Trading.Batches.Filling.{
  one_if, count, count_batches, count_groups, IsFor, IsUniform, fill_batch-keeps,
}

-- The order has a group: it is a market order, or its price is above zero.
abbrev pub HasGroup : PriceType → Option ℕ → Type 0
HasGroup market price = Unit
HasGroup limit none = ⊥
HasGroup limit (some price) = 0 < price

abbrev pub IsGrouped : Order → Type 0
IsGrouped o = HasGroup o.price_type o.limit_price

-- A group of orders for one stock and side, with one at least.
abbrev Group : ℕ → OrderType → List Order → Type 0
Group code type [] = ⊥
Group code type (o ∷ orders) = IsFor code type o × All (IsFor code type) orders

All-Group :
    (code : ℕ) (type : OrderType) (orders : List Order)
    → Group code type orders
    → All (IsFor code type) orders
All-Group code type [] h = absurd h
All-Group code type (o ∷ orders) h = h

Group-snoc :
    (code : ℕ) (type : OrderType) (orders : List Order) (o : Order)
    → All (IsFor code type) orders
    → IsFor code type o
    → Group code type (orders ++ o ∷ [])
Group-snoc code type [] o h k = (k, tt)
Group-snoc code type (x ∷ orders) o h k =
    (h.0, All-append (IsFor code type) orders (o ∷ []) h.1 (k, tt))

module _ (v : Division) (s : BatchingStrategy) (won : ℕ) where
  count-put :
      (P : Order → Bool) (key : ℕ) (new : List Order) (groups : Dict (List Order))
      → count_groups P (put key new groups) + count P (group_at v s won key groups)
        ≡ count_groups P groups + count P new
  count-put P key new [] = ground arith
  count-put P key new (e ∷ groups) = ground (arith, count-put P key new groups)

  count-append_at :
      (P : Order → Bool) (key : ℕ) (o : Order) (groups : Dict (List Order))
      → count_groups P (append_at v s won key o groups) ≡ one_if (P o) + count_groups P groups
  unfolding append_at
  count-append_at P key o groups =
      let old = group_at v s won key groups in
      omega (
        arith,
        count-put P key (old ++ o ∷ []) groups,
        sum_of-append (λ x. one_if (P x)) old (o ∷ []),
      )

  group_at-All :
      (code : ℕ) (type : OrderType) (key : ℕ) (groups : Dict (List Order))
      → Values (Group code type) groups
      → All (IsFor code type) (group_at v s won key groups)
  group_at-All code type key groups h = elim (Option-cases (get key groups)) [
    | inl missing ↦ rw (missing, All) tt
    | inr (orders, found) ↦
        rw (found, All)
          (All-Group code type orders (Values-get (Group code type) key orders groups h found))
  ]

  append_at-Values :
      (code : ℕ) (type : OrderType) (key : ℕ) (o : Order) (groups : Dict (List Order))
      → IsFor code type o
      → Values (Group code type) groups
      → Values (Group code type) (append_at v s won key o groups)
  unfolding append_at
  append_at-Values code type key o groups k h =
      Values-put (Group code type) key _ groups
        (Group-snoc code type _ o (group_at-All code type key groups h) k) h

  place_by-Values :
      (t : PriceType) (price : Option ℕ) (code : ℕ) (type : OrderType) (o : Order)
      (groups : Dict (List Order))
      → IsFor code type o
      → Values (Group code type) groups
      → Values (Group code type) (place_by v s won t price o groups)
  unfolding place_by
  place_by-Values market price code type o groups k h = append_at-Values code type 0 o groups k h
  place_by-Values limit none code type o groups k h = h
  place_by-Values limit (some price) code type o groups k h = elim (Bool-cases (price == 0)) [
    | inl zero_price ↦ rw zero_price h
    | inr positive ↦
        rw positive (append_at-Values code type (suc (price_range v s won price)) o groups k h)
  ]

  count-place_by :
      (P : Order → Bool) (t : PriceType) (price : Option ℕ) (o : Order) (groups : Dict (List Order))
      → HasGroup t price
      → count_groups P (place_by v s won t price o groups) ≡ one_if (P o) + count_groups P groups
  unfolding place_by
  count-place_by P market price o groups h = count-append_at P 0 o groups
  count-place_by P limit none o groups h = absurd h
  count-place_by P limit (some price) o groups h =
      rw (positive-not_zero price h) (count-append_at P (suc (price_range v s won price)) o groups)
    where
      positive-not_zero : (n : ℕ) → 0 < n → (n == 0) ≡ false
      positive-not_zero n h = ground arith

  group_by_price-Values :
      (code : ℕ) (type : OrderType) (orders : List Order) (groups : Dict (List Order))
      → All (IsFor code type) orders
      → Values (Group code type) groups
      → Values (Group code type) (group_by_price v s won orders groups)
  unfolding group_by_price
  group_by_price-Values code type [] groups h k = k
  group_by_price-Values code type (o ∷ orders) groups h k =
      group_by_price-Values code type orders _ h.1
        (place_by-Values o.price_type o.limit_price code type o groups h.0 k)

  count-group_by_price :
      (P : Order → Bool) (orders : List Order) (groups : Dict (List Order))
      → All IsGrouped orders
      → count_groups P (group_by_price v s won orders groups)
        ≡ count P orders + count_groups P groups
  unfolding group_by_price
  count-group_by_price P [] groups h = omega arith
  count-group_by_price P (o ∷ orders) groups h = omega (
    arith,
    count-group_by_price P orders (place_by v s won o.price_type o.limit_price o groups) h.1,
    count-place_by P o.price_type o.limit_price o groups h.0,
  )

  batches_of_groups :
      (P : Order → Bool) (code : ℕ) (type : OrderType) (groups : Dict (List Order))
      → Values (Group code type) groups
      → let batches = map (λ group. fill_batch v group empty_batch) (values groups) in
        (count_batches P batches ≡ count_groups P groups) × All IsUniform batches
  batches_of_groups P code type [] h = (refl, tt)
  batches_of_groups P code type ((key, []) ∷ groups) h = absurd h.0
  batches_of_groups P code type ((key, o ∷ orders) ∷ groups) h =
      let (kept, uniform) = fill_batch-keeps v code type o orders h.0 in
      let (rest, all) = batches_of_groups P code type groups h.1 in
      (omega (arith, rest, ap (λ x. count P x) kept), (uniform, all))

  -- The batches of one side hold each of its orders once.
  side_batches-keeps :
      (P : Order → Bool) (code : ℕ) (type : OrderType) (orders : List Order)
      → All (IsFor code type) orders
      → All IsGrouped orders
      → let batches = side_batches v s won orders in
        (count_batches P batches ≡ count P orders) × All IsUniform batches
  unfolding side_batches
  side_batches-keeps P code type [] h g = (refl, tt)
  side_batches-keeps P code type (o ∷ orders) h g = elim (Bool-cases s.enable_price_grouping) [
    | inl grouping ↦
        let groups = group_by_price v s won (o ∷ orders) [] in
        let (kept, uniform) =
          batches_of_groups P code type groups
            (group_by_price-Values code type (o ∷ orders) [] h tt) in
        rw grouping (omega (arith, kept, count-group_by_price P (o ∷ orders) [] g), uniform)
    | inr whole ↦
        let (kept, uniform) = fill_batch-keeps v code type o orders h in
        rw whole (omega (arith, ap (λ x. count P x) kept), (uniform, tt))
  ]

  of_type-IsFor :
      (code : ℕ) (type : OrderType) (orders : List Order)
      → All (λ o. o.stock_code ≡ code) orders
      → All IsGrouped orders
      → All (IsFor code type) (of_type v s won type orders)
        × All IsGrouped (of_type v s won type orders)
  unfolding of_type
  of_type-IsFor code type [] h g = (tt, tt)
  of_type-IsFor code type (o ∷ orders) h g =
      let (all, grouped) = of_type-IsFor code type orders h.1 g.1 in
      elim (Bool-cases (same_type o.order_type type)) [
        | inl same ↦ rw same (
          (record { its_stock = h.0; its_type = true-same o.order_type type same }, all),
          (g.0, grouped),
        )
        | inr other ↦ rw other (all, grouped)
      ]
    where
      true-same : (t u : OrderType) → same_type t u ≡ true → t ≡ u
      true-same buy buy e = refl
      true-same buy sell e = cc
      true-same sell buy e = cc
      true-same sell sell e = refl

  count-of_type :
      (P : Order → Bool) (orders : List Order)
      → count P (of_type v s won buy orders) + count P (of_type v s won sell orders)
        ≡ count P orders
  unfolding of_type
  count-of_type P [] = refl
  count-of_type P (o ∷ orders) = ground (arith, count-of_type P orders)

  -- Of orders for one stock that are market orders or have a price above zero, the batches hold
  -- each order once, whatever is counted, and each batch is for one stock and one side.
  pub smart_batch_orders-keeps :
      (P : Order → Bool) (code : ℕ) (orders : List Order)
      → All (λ o. o.stock_code ≡ code) orders
      → All IsGrouped orders
      → let batches = smart_batch_orders v s won orders in
        (count_batches P batches ≡ count P orders) × All IsUniform batches
  unfolding smart_batch_orders
  smart_batch_orders-keeps P code orders h g =
      let (buys, buys_grouped) = of_type-IsFor code buy orders h g in
      let (sells, sells_grouped) = of_type-IsFor code sell orders h g in
      let (kept, uniform) = side_batches-keeps P code buy _ buys buys_grouped in
      let (kept', uniform') = side_batches-keeps P code sell _ sells sells_grouped in
      (
        omega (
          arith,
          kept,
          kept',
          count-of_type P orders,
          sum_of-append (λ b. count P b.orders) (side_batches v s won (of_type v s won buy orders))
              (side_batches v s won (of_type v s won sell orders)),
        ),
        All-append IsUniform _ _ uniform uniform',
      )
