-- ===== src/Trading/Checks/Acceptance.antt =====
-- When the checks of src/services/order_validator.py let an order pass.
use auto_trading.Prelude.{ℕ, ◌*◌, ◌≤◌, ◌≡◌, ◌↔◌, true, Option, none, some, refl, arith}
use auto_trading.Prelude.Int.{pos, ◌≤ℤ◌, ◌-ℤ◌}
use auto_trading.Trading.Models.{Order, Account, Position, is_daily_loss_limit_exceeded}
use auto_trading.Trading.Checks.{validate_buy_order, validate_sell_order}

-- A buy order passes exactly if the cash covers its cost at the current price, it is for one share
-- at least, and the day's loss is within the account's limit.
validate_buy_order_iff :
    (a : Account) (o : Order) (price : ℕ)
    → (validate_buy_order a o price ≡ (true, none)) ↔ (
        (pos (price * o.quantity) ≤ℤ a.cash_balance)
        × (1 ≤ o.quantity)
        × (pos 0 -ℤ pos a.daily_loss_limit ≤ℤ a.daily_pnl))
unfolding validate_buy_order is_daily_loss_limit_exceeded
validate_buy_order_iff a o price = ground arith

-- A sell order passes exactly if there is a position that holds its quantity, of one at least.
validate_sell_order_iff :
    (p : Option Position) (o : Order)
    → (validate_sell_order p o ≡ (true, none))
      ↔ ((q : Position) × (p ≡ some q) × (1 ≤ o.quantity) × (o.quantity ≤ q.quantity))
unfolding validate_sell_order
validate_sell_order_iff none o = (λ e. cc, λ (q, e, _, _). cc)
validate_sell_order_iff (some p) o =
    (λ e. (p, refl, ground arith, ground arith), λ (q, e, one, enough). ground arith)
