-- ===== src/Trading/Batches/Filling.antt =====
-- One batch of src/services/order_batch_aggregator.py: which orders it takes.
use auto_trading.Prelude.{
  ℕ, ◌≡◌, refl, sym, ap, ◌∙◌, Bool, true, false, some, List, [], ◌∷◌, ◌++◌, All, sum_of, Dict,
  arith,
}
use mathlib.Core.List.{append_assoc, append-nil}
use auto_trading.Trading.Division.{Division}
use auto_trading.Trading.Models.{Order, OrderType, buy, sell, same_type}
use auto_trading.Trading.Batches.{
  OrderBatch, empty_batch, with_prices, update_statistics, limit_prices, sum_quantities, add_after,
  add_order_to, fill_batch, same_stock, same_side,
}

abbrev pub one_if : Bool → ℕ
one_if true = 1
one_if false = 0

-- How many of the orders have that property.
abbrev pub count : (Order → Bool) → List Order → ℕ
count P orders = sum_of (λ o. one_if (P o)) orders

abbrev pub count_batches : (Order → Bool) → List OrderBatch → ℕ
count_batches P batches = sum_of (λ b. count P b.orders) batches

abbrev pub count_groups : (Order → Bool) → Dict (List Order) → ℕ
count_groups P groups = sum_of (λ e. count P e.1) groups

-- An order of that stock and side.
pub record IsFor (code : ℕ) (type : OrderType) (o : Order) : Type 0 where
  pub its_stock : o.stock_code ≡ code
  pub its_type : o.order_type ≡ type

-- A batch whose orders are all of its stock and its side.
pub record IsUniform (b : OrderBatch) : Type 0 where
  pub code : ℕ
  pub type : OrderType
  pub its_code : b.stock_code ≡ some code
  pub its_side : b.batch_type ≡ some type
  pub all_for : All (IsFor code type) b.orders

pub update_statistics-fields :
    (v : Division) (b : OrderBatch)
    → ((update_statistics v b).orders ≡ b.orders)
      × ((update_statistics v b).stock_code ≡ b.stock_code)
      × ((update_statistics v b).batch_type ≡ b.batch_type)
unfolding update_statistics with_prices
update_statistics-fields v b = by_prices (limit_prices b.orders)
  where
    by_prices :
        (prices : List ℕ)
        → let b' = with_prices v prices (record b { total_quantity = sum_quantities b.orders }) in
          (b'.orders ≡ b.orders) × (b'.stock_code ≡ b.stock_code) × (b'.batch_type ≡ b.batch_type)
    by_prices [] = (refl, refl, refl)
    by_prices (price ∷ prices) = ground arith

same_self : (t : OrderType) → same_type t t ≡ true
same_self buy = refl
same_self sell = refl

-- One more order of a batch's stock and side.
add_order_to-next :
    (v : Division) (code : ℕ) (type : OrderType) (x o : Order) (done : List Order) (b : OrderBatch)
    → b.orders ≡ x ∷ done
    → b.stock_code ≡ some code
    → b.batch_type ≡ some type
    → IsFor code type o
    → let (added, b') = add_order_to v o b in
      (added ≡ true)
      × (b'.orders ≡ (x ∷ done) ++ o ∷ [])
      × (b'.stock_code ≡ some code)
      × (b'.batch_type ≡ some type)
unfolding add_order_to add_after
add_order_to-next v code type x o done b e f g h =
    let (kept, stock, side) =
      update_statistics-fields v (record b { orders = (x ∷ done) ++ o ∷ [] }) in
    let here : same_stock v b.stock_code o.stock_code ≡ true = rw f (ground (arith, h.its_stock)) in
    let there : same_side v b.batch_type o.order_type ≡ true =
      rw (g, h.its_type) (same_self type) in
    rw (e, add_after, here, there) (refl, kept, stock ∙ f, side ∙ g)

fill_batch-more :
    (v : Division) (code : ℕ) (type : OrderType) (orders : List Order) (x : Order)
    (done : List Order) (b : OrderBatch)
    → b.orders ≡ x ∷ done
    → b.stock_code ≡ some code
    → b.batch_type ≡ some type
    → All (IsFor code type) orders
    → let b' = fill_batch v orders b in
      (b'.orders ≡ (x ∷ done) ++ orders) × (b'.stock_code ≡ some code) × (b'.batch_type ≡ some type)
unfolding fill_batch
fill_batch-more v code type [] x done b e f g h = (e ∙ sym (append-nil (x ∷ done)), f, g)
fill_batch-more v code type (o ∷ orders) x done b e f g h =
    let (added, kept, stock, side) = add_order_to-next v code type x o done b e f g h.0 in
    let (all, stock', side') =
      fill_batch-more v code type orders x (done ++ o ∷ []) (add_order_to v o b).1 kept stock side
        h.1 in
    (all ∙ append_assoc (x ∷ done) (o ∷ []) orders, stock', side')

-- Orders for one stock and side all go into their batch, in order.
pub fill_batch-keeps :
    (v : Division) (code : ℕ) (type : OrderType) (o : Order) (orders : List Order)
    → All (IsFor code type) (o ∷ orders)
    → let b = fill_batch v (o ∷ orders) empty_batch in (b.orders ≡ o ∷ orders) × IsUniform b
unfolding fill_batch add_order_to add_after
fill_batch-keeps v code type o orders h =
    let b = record empty_batch {
      stock_code = some o.stock_code;
      batch_type = some o.order_type;
      orders = o ∷ [];
    } in
    let (kept, stock, side) = update_statistics-fields v b in
    let (all, stock', side') =
      fill_batch-more v code type orders o [] (update_statistics v b) kept
        (stock ∙ ap (λ x. some x) h.0.its_stock) (side ∙ ap (λ x. some x) h.0.its_type) h.1 in
    (
      all,
      record { code = code; type = type; its_code = stock'; its_side = side'; all_for = rw all h },
    )
