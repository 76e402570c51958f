-- ===== src/Trading/Models/Positions.antt =====
-- Positions and accounts (src/models/position.py, src/models/account.py).
pub mod Averages
use auto_trading.Prelude.{
  ℕ, ◌+◌, ◌-◌, ◌*◌, Bool, true, false, Option, none, some, ◌==◌, ltb, leb, if◌then◌else◌,
}
use auto_trading.Prelude.Int.{ℤ, pos, ◌-ℤ◌, ltb_ℤ, sub_ℕ}
use auto_trading.Trading.Division.{Division, rounded}

pub record Position : Type 0 where
  pub account_number : ℕ
  pub stock_code : ℕ
  pub quantity : ℕ
  pub average_buy_price : ℕ
  pub current_price : ℕ
  pub strategy_name : Option ℕ
  pub opened_at : ℕ
  pub updated_at : ℕ
  pub stop_loss_price : Option ℕ
  pub take_profit_price : Option ℕ

unfoldable pub evaluation_amount : Position → ℕ
evaluation_amount p = p.current_price * p.quantity

-- `(current_price - average_buy_price) * quantity`, by its two products.
unfoldable pub unrealized_pnl : Position → ℤ
unrealized_pnl p = sub_ℕ (p.current_price * p.quantity) (p.average_buy_price * p.quantity)

unfoldable pub update_price : (price now : ℕ) → Position → Position
update_price price now p = record p { current_price = price; updated_at = now }

unfoldable pub add_quantity : Division → (additional price now : ℕ) → Position → Position
add_quantity v additional price now p =
    let total_cost =
      rounded v (rounded v (p.average_buy_price * p.quantity) + rounded v (price * additional)) in
    let quantity = p.quantity + additional in
    record p {
      quantity = quantity;
      average_buy_price = v.quotient total_cost quantity;
      updated_at = now;
    }

pub data PositionError : Type 0 where
  reduce_exceeds price_not_positive price_not_below price_not_above : PositionError

pub data Checked (A : Type 0) : Type 0 where
  done : A → Checked A
  raised : PositionError → Checked A

unfoldable pub reduce_quantity : (reduce now : ℕ) → Position → Checked Position
reduce_quantity reduce now p =
    if ltb p.quantity reduce
    then raised reduce_exceeds
    else done (record p { quantity = p.quantity - reduce; updated_at = now })

unfoldable pub set_stop_loss : (price now : ℕ) → Position → Checked Position
set_stop_loss price now p =
    if price == 0
    then raised price_not_positive
    else if leb p.current_price price
    then raised price_not_below
    else done (record p { stop_loss_price = some price; updated_at = now })

unfoldable pub set_take_profit : (price now : ℕ) → Position → Checked Position
set_take_profit price now p =
    if price == 0
    then raised price_not_positive
    else if leb price p.current_price
    then raised price_not_above
    else done (record p { take_profit_price = some price; updated_at = now })

unfoldable pub check_stop_loss_triggered : Position → Bool
check_stop_loss_triggered p = elim p.stop_loss_price [
  | none ↦ false
  | some price ↦ leb p.current_price price
]

unfoldable pub check_take_profit_triggered : Position → Bool
check_take_profit_triggered p = elim p.take_profit_price [
  | none ↦ false
  | some price ↦ leb price p.current_price
]

pub record Account : Type 0 where
  pub account_number : ℕ
  pub cash_balance : ℤ
  pub total_asset_value : ℤ
  pub total_pnl : ℤ
  pub daily_pnl : ℤ
  pub daily_loss_limit : ℕ
  pub updated_at : ℕ

-- `daily_pnl < -daily_loss_limit`
unfoldable pub is_daily_loss_limit_exceeded : Account → Bool
unfolding ◌-ℤ◌
is_daily_loss_limit_exceeded a = ltb_ℤ a.daily_pnl (pos 0 -ℤ pos a.daily_loss_limit)
