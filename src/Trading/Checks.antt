-- ===== src/Trading/Checks.antt =====
-- The checks that an order passes before it is submitted (src/services/order_validator.py,
-- src/services/duplicate_checker.py).
pub mod Duplicates
pub mod Acceptance
use auto_trading.Prelude.{
  ℕ, ◌+◌, ◌*◌, Bool, true, false, not, ◌&&◌, Option, none, some, [], ◌∷◌, ◌==◌, ltb, if◌then◌else◌,
  Dict,
}
use auto_trading.Prelude.Int.{pos, ltb_ℤ}
use auto_trading.Trading.Models.{
  Order, OrderType, PriceType, buy, sell, market, limit, Message, cash_short, quantity_below_one,
  daily_loss, no_position, quantity_short, limit_price_missing, limit_price_not_positive,
  is_terminal, same_type, Account, Position, is_daily_loss_limit_exceeded,
}

unfoldable pub validate_buy_order : Account → Order → (current_price : ℕ) → Bool × Option Message
validate_buy_order a o current_price =
    if ltb_ℤ a.cash_balance (pos (current_price * o.quantity))
    then (false, some cash_short)
    else if ltb o.quantity 1
    then (false, some quantity_below_one)
    else if is_daily_loss_limit_exceeded a
    then (false, some daily_loss)
    else (true, none)

unfoldable pub validate_sell_order : Option Position → Order → Bool × Option Message
validate_sell_order none o = (false, some no_position)
validate_sell_order (some p) o =
    if ltb p.quantity o.quantity
    then (false, some quantity_short)
    else if ltb o.quantity 1
    then (false, some quantity_below_one)
    else (true, none)

unfoldable pub price_check : PriceType → Option ℕ → Bool × Option Message
price_check market _ = (true, none)
price_check limit none = (false, some limit_price_missing)
price_check limit (some price) =
    if price == 0 then (false, some limit_price_not_positive) else (true, none)

unfoldable pub validate_order_price : Order → Bool × Option Message
unfolding price_check
validate_order_price o = price_check o.price_type o.limit_price

-- Whether an order is under way for that stock and on that side.
abbrev pub competes : (stock_code : ℕ) → OrderType → Order → Bool
competes stock_code type o =
    (o.stock_code == stock_code) && same_type o.order_type type && not (is_terminal o.status)

-- `check_duplicate`, over the dict of pending orders.
unfoldable pub check_duplicate : (stock_code : ℕ) → OrderType → Dict Order → Bool × Option ℕ
check_duplicate stock_code type [] = (false, none)
check_duplicate stock_code type ((order_id, o) ∷ orders) =
    if competes stock_code type o
    then (true, some order_id)
    else check_duplicate stock_code type orders

pub get_pending_order_count : (stock_code : ℕ) → Dict Order → ℕ
get_pending_order_count stock_code [] = 0
get_pending_order_count stock_code ((_, o) ∷ orders) =
    let here : ℕ = if (o.stock_code == stock_code) && not (is_terminal o.status) then 1 else 0 in
    here + get_pending_order_count stock_code orders

pub has_pending_buy_order : (stock_code : ℕ) → Dict Order → Bool
unfolding check_duplicate
has_pending_buy_order stock_code orders = (check_duplicate stock_code buy orders).0

pub has_pending_sell_order : (stock_code : ℕ) → Dict Order → Bool
unfolding check_duplicate
has_pending_sell_order stock_code orders = (check_duplicate stock_code sell orders).0
