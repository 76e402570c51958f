-- ===== src/Trading/Checks/Duplicates.antt =====
-- What the duplicate check of src/services/duplicate_checker.py finds.
use auto_trading.Prelude.{
  ℕ, ◌<◌, ◌≡◌, ◌↔◌, ◌⊎◌, inl, inr, refl, true, false, none, some, [], ◌∷◌, Dict, Values, Bool-cases,
  arith,
}
use auto_trading.Trading.Models.{Order, OrderType}
use auto_trading.Trading.Checks.{
  competes, check_duplicate, get_pending_order_count, has_pending_buy_order, has_pending_sell_order,
}

-- The dict has that item.
abbrev pub Entry : ℕ → Order → Dict Order → Type 0
Entry i o [] = ⊥
Entry i o ((j, p) ∷ orders) = (j ≡ i) × (p ≡ o) ⊎ Entry i o orders

-- The check reports an order exactly if it competes: a reported id is that of a pending order for
-- the stock and the side that has not ended, and where none is reported every pending order is for
-- another stock or side, or has ended.
pub check_duplicate-cases :
    (stock_code : ℕ) (type : OrderType) (orders : Dict Order)
    → ((order_id : ℕ) × (o : Order) × (check_duplicate stock_code type orders
          ≡ (true, some order_id))
        × Entry order_id o orders
        × (competes stock_code type o ≡ true))
      ⊎ ((check_duplicate stock_code type orders ≡ (false, none))
          × Values (λ o. competes stock_code type o ≡ false) orders)
unfolding check_duplicate
check_duplicate-cases stock_code type [] = inr (refl, tt)
check_duplicate-cases stock_code type ((i, o) ∷ orders) =
    elim (Bool-cases (competes stock_code type o)) [
      | inl e ↦ inl (i, o, rw e, inl (refl, refl), e)
      | inr e ↦ elim (check_duplicate-cases stock_code type orders) [
        | inl (j, p, found, entry, f) ↦ inl (j, p, rw e found, inr entry, f)
        | inr (found, all) ↦ inr (rw e found, (e, all))
      ]
    ]

-- The stock has pending orders exactly if one of its two sides is under way.
has_pending_iff :
    (stock_code : ℕ) (orders : Dict Order)
    → (0 < get_pending_order_count stock_code orders) ↔ (
        (has_pending_buy_order stock_code orders ≡ true)
        ⊎ (has_pending_sell_order stock_code orders ≡ true))
unfolding get_pending_order_count has_pending_buy_order has_pending_sell_order
has_pending_iff stock_code [] = ground arith
has_pending_iff stock_code ((i, o) ∷ orders) = ground (arith, has_pending_iff stock_code orders)
