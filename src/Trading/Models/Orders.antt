-- ===== src/Trading/Models/Orders.antt =====
-- Orders (src/models/order.py, src/models/__init__.py).
use auto_trading.Prelude.{
  ℕ, ◌*◌, Bool, true, false, Option, none, some, ◌==◌, ltb, not, if◌then◌else◌,
}

pub data OrderType : Type 0 where
  buy sell : OrderType

pub data OrderStatus : Type 0 where
  pending submitted partially_filled filled cancelled rejected failed : OrderStatus

pub data PriceType : Type 0 where
  market limit : PriceType

-- The texts of errors and warnings, by what they say.
pub data Message : Type 0 where
  -- src/services/order_validator.py
  cash_short quantity_below_one daily_loss no_position quantity_short : Message
  limit_price_missing limit_price_not_positive : Message
  -- src/services/risk_manager.py
  loss_limit_exceeded loss_limit_near concentration_exceeded : Message
  stop_trading : Message → Message
  both : Message → Message → Message
  -- src/services/order_executor.py
  duplicate_of : ℕ → Message
  risk : Message → Message
  order_failed rate_limited unexpected order_not_found : Message
  already_ended : OrderStatus → Message
  -- src/simulator
  invalid_stock_code insufficient_balance insufficient_quantity limit_price_required : Message
  api_timeout sold_too_many : Message

pub record Order : Type 0 where
  pub order_id : ℕ
  pub account_number : ℕ
  pub stock_code : ℕ
  pub order_type : OrderType
  pub price_type : PriceType
  pub quantity : ℕ
  pub limit_price : Option ℕ
  pub status : OrderStatus
  pub filled_quantity : ℕ
  pub filled_price : Option ℕ
  pub strategy_name : Option ℕ
  pub created_at : ℕ
  pub submitted_at : Option ℕ
  pub filled_at : Option ℕ
  pub error_message : Option Message

-- `is_terminal_state`, and the sets `terminal_states` of the services.
abbrev pub is_terminal : OrderStatus → Bool
is_terminal pending = false
is_terminal submitted = false
is_terminal partially_filled = false
is_terminal filled = true
is_terminal cancelled = true
is_terminal rejected = true
is_terminal failed = true

abbrev pub same_type : OrderType → OrderType → Bool
same_type buy buy = true
same_type buy sell = false
same_type sell buy = false
same_type sell sell = true

-- The validator of `limit_price`, on a value that is given.
pub validate_limit_price : PriceType → Option ℕ → Bool
validate_limit_price limit none = false
validate_limit_price _ _ = true

-- The validator of `filled_quantity`.
pub validate_filled_quantity : (quantity filled_quantity : ℕ) → Bool
validate_filled_quantity quantity filled_quantity = not (ltb quantity filled_quantity)

pub is_fully_filled : Order → Bool
is_fully_filled o = o.filled_quantity == o.quantity

unfoldable pub calculate_total_cost : Order → ℕ
calculate_total_cost o = elim o.filled_price [
  | none ↦ 0
  | some price ↦ (if o.filled_quantity == 0 then 0 else price * o.filled_quantity)
]
