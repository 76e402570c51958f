-- ===== src/Trading/Batches.antt =====
-- The grouping of orders into batches (src/services/order_batch_aggregator.py). A batch's identifier
-- and time of creation, and the averages and rates of the metrics, which no decision reads, are left
-- out. A price range is a number above zero, and 0 stands for the group of market orders.
pub mod Filling
pub mod Grouping
pub mod Aggregator
pub mod Conservation
pub mod Delivery
pub mod Timer
pub mod Bounds
pub mod Statistics
use auto_trading.Prelude.{
  ℕ, suc, ◌+◌, ◌-◌, ◌*◌, ◌/◌, min, max, Bool, true, false, ◌&&◌, Option, none, some, List, [], ◌∷◌,
  ◌++◌, map, length, ◌==◌, ltb, leb, if◌then◌else◌, Dict, get, put, values,
}
use auto_trading.Trading.Division.{Division}
use auto_trading.Trading.Models.{Order, OrderType, buy, sell, PriceType, market, limit, same_type}
use auto_trading.Trading.Risk.{one}

pub record OrderBatch : Type 0 where
  pub stock_code : Option ℕ
  pub orders : List Order
  pub batch_type : Option OrderType
  pub total_quantity : ℕ
  pub average_price : Option ℕ
  pub min_price : Option ℕ
  pub max_price : Option ℕ

abbrev pub empty_batch : OrderBatch
empty_batch = record {
  stock_code = none;
  orders = [];
  batch_type = none;
  total_quantity = 0;
  average_price = none;
  min_price = none;
  max_price = none;
}

-- `batch_timeout` is in microseconds, `price_tolerance` a number of millionths, at most 1.
pub record BatchingStrategy : Type 0 where
  pub max_batch_size : ℕ
  pub batch_timeout : ℕ
  pub enable_price_grouping : Bool
  pub price_tolerance : ℕ
  pub enable_smart_batching : Bool
  pub priority_symbols : List ℕ

-- The limit price of a limit order that has one above zero.
unfoldable pub priced : PriceType → Option ℕ → Option ℕ
priced market price = none
priced limit none = none
priced limit (some price) = if price == 0 then none else some price

unfoldable pub sum_quantities : List Order → ℕ
sum_quantities [] = 0
sum_quantities (o ∷ orders) = o.quantity + sum_quantities orders

-- The price, the value and the quantity of the limit orders; a limit order without a price counts
-- for the quantity alone.
unfoldable pub limit_prices : List Order → List ℕ
limit_prices [] = []
limit_prices (o ∷ orders) =
    let rest = limit_prices orders in
    elim (priced o.price_type o.limit_price) [ none ↦ rest | some price ↦ price ∷ rest ]

unfoldable pub limit_value : List Order → ℕ
limit_value [] = 0
limit_value (o ∷ orders) =
    let rest = limit_value orders in
    elim (priced o.price_type o.limit_price) [
      | none ↦ rest
      | some price ↦ price * o.quantity + rest
    ]

abbrev pub is_limit : PriceType → Bool
is_limit market = false
is_limit limit = true

unfoldable pub limit_quantity : List Order → ℕ
limit_quantity [] = 0
limit_quantity (o ∷ orders) =
    let rest = limit_quantity orders in if is_limit o.price_type then o.quantity + rest else rest

unfoldable pub least : ℕ → List ℕ → ℕ
least price [] = price
least price (p ∷ prices) = least (min price p) prices

unfoldable pub greatest : ℕ → List ℕ → ℕ
greatest price [] = price
greatest price (p ∷ prices) = greatest (max price p) prices

module _ (v : Division) where
  unfoldable pub with_prices : List ℕ → OrderBatch → OrderBatch
  unfolding limit_value limit_quantity least greatest
  with_prices [] b = b
  with_prices (price ∷ prices) b =
      let b' = record b {
        min_price = some (least price prices);
        max_price = some (greatest price prices);
      } in
      if limit_quantity b.orders == 0 then b' else record b' {
        average_price = some (v.quotient (limit_value b.orders) (limit_quantity b.orders));
      }

  -- `_update_statistics`, of a batch that is not empty.
  unfoldable pub update_statistics : OrderBatch → OrderBatch
  unfolding with_prices sum_quantities limit_prices
  update_statistics b =
      with_prices (limit_prices b.orders) (record b { total_quantity = sum_quantities b.orders })

  abbrev pub same_stock : Option ℕ → ℕ → Bool
  same_stock none stock_code = false
  same_stock (some code) stock_code = code == stock_code

  abbrev pub same_side : Option OrderType → OrderType → Bool
  same_side none side = false
  same_side (some type) side = same_type type side

  unfoldable pub add_after : List Order → Order → OrderBatch → Bool × OrderBatch
  unfolding update_statistics
  add_after [] o b = (
    true,
    update_statistics (record b {
      stock_code = some o.stock_code;
      batch_type = some o.order_type;
      orders = o ∷ [];
    }),
  )
  add_after (x ∷ orders) o b =
      if same_stock b.stock_code o.stock_code
      then (if same_side b.batch_type o.order_type
          then (true, update_statistics (record b { orders = (x ∷ orders) ++ o ∷ [] }))
          else (false, b))
      else (false, b)

  -- `OrderBatch.add_order`
  unfoldable pub add_order_to : Order → OrderBatch → Bool × OrderBatch
  unfolding add_after
  add_order_to o b = add_after b.orders o b

  -- The loops that add orders to a batch, and do not look at the result.
  unfoldable pub fill_batch : List Order → OrderBatch → OrderBatch
  unfolding add_order_to
  fill_batch [] b = b
  fill_batch (o ∷ orders) b = fill_batch orders (add_order_to o b).1

  -- `OrderBatch.merge`; `none` is its ValueError. Two batches of no stock and no type agree.
  abbrev pub same_stocks : Option ℕ → Option ℕ → Bool
  same_stocks none none = true
  same_stocks none (some _) = false
  same_stocks (some _) none = false
  same_stocks (some a) (some b) = a == b

  abbrev pub same_sides : Option OrderType → Option OrderType → Bool
  same_sides none none = true
  same_sides none (some _) = false
  same_sides (some _) none = false
  same_sides (some a) (some b) = same_type a b

  abbrev pub can_merge : OrderBatch → OrderBatch → Bool
  can_merge a b = same_stocks a.stock_code b.stock_code && same_sides a.batch_type b.batch_type

  abbrev pub if_any : List Order → OrderBatch → OrderBatch → OrderBatch
  if_any [] b b' = b
  if_any (_ ∷ _) b b' = b'

  unfoldable pub merge : OrderBatch → OrderBatch → Option OrderBatch
  unfolding update_statistics
  merge a b =
      let both = record empty_batch {
        stock_code = a.stock_code;
        batch_type = a.batch_type;
        orders = a.orders ++ b.orders;
      } in
      if can_merge a b then some (if_any both.orders both (update_statistics both)) else none

  -- `won` is the number of units of a price in one won.
  module _ (s : BatchingStrategy) (won : ℕ) where
    -- `_get_price_range`
    abbrev pub price_range : ℕ → ℕ
    price_range price = price * (one - s.price_tolerance) / (100 * won * one) * 100

    abbrev pub group_at : ℕ → Dict (List Order) → List Order
    group_at key groups = elim (get key groups) [ none ↦ [] | some orders ↦ orders ]

    -- `price_groups[key].append(order)` on a `defaultdict`.
    unfoldable pub append_at : ℕ → Order → Dict (List Order) → Dict (List Order)
    append_at key o groups = put key (group_at key groups ++ o ∷ []) groups

    unfoldable pub place_by : PriceType → Option ℕ → Order → Dict (List Order) → Dict (List Order)
    unfolding append_at
    place_by market price o groups = append_at 0 o groups
    place_by limit none o groups = groups
    place_by limit (some price) o groups =
        if price == 0 then groups else append_at (suc (price_range price)) o groups

    -- `_group_by_price`
    unfoldable pub group_by_price : List Order → Dict (List Order) → Dict (List Order)
    unfolding place_by
    group_by_price [] groups = groups
    group_by_price (o ∷ orders) groups =
        group_by_price orders (place_by o.price_type o.limit_price o groups)

    unfoldable pub side_batches : List Order → List OrderBatch
    unfolding group_by_price fill_batch
    side_batches [] = []
    side_batches (o ∷ orders) =
        if s.enable_price_grouping
        then map (λ group. fill_batch group empty_batch) (values (group_by_price (o ∷ orders) []))
        else fill_batch (o ∷ orders) empty_batch ∷ []

    unfoldable pub of_type : OrderType → List Order → List Order
    of_type type [] = []
    of_type type (o ∷ orders) =
        let rest = of_type type orders in if same_type o.order_type type then o ∷ rest else rest

    -- `_smart_batch_orders`
    unfoldable pub smart_batch_orders : List Order → List OrderBatch
    unfolding side_batches of_type
    smart_batch_orders orders =
        side_batches (of_type buy orders) ++ side_batches (of_type sell orders)
