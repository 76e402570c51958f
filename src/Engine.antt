-- ===== src/Engine.antt =====
-- The strategy engine (src/services/strategy_engine.py): its state, and what it asks of a strategy.
-- A capital is a number of millionths of the price unit, as a product with a ratio is.
pub mod Turns
pub mod Registry
pub mod Books
use auto_trading.Prelude.{
  ℕ, ◌*◌, ◌-◌, ◌+◌, Bool, Option, none, some, List, [], ◌∷◌, ◌++◌, Dict, get, put, if◌then◌else◌,
  ◌==◌,
}
use auto_trading.Prelude.Int.{ℤ}
use auto_trading.Trading.Division.{Division}
use auto_trading.Trading.Models.{
  Order, OrderType, PriceType, market, limit, pending, Position, Account, Checked, done, raised,
  set_stop_loss, set_take_profit, update_price,
}
use auto_trading.Trading.Risk.{RiskManager, one}
use auto_trading.Trading.Executor.Positions.{OrderExecutor, Client}
use auto_trading.Trading.Executor.Submission.{Report, execute_order}

-- A stock, as far as the engine and the strategies read it; validation keeps its price above zero.
pub record Stock : Type 0 where
  pub stock_code : ℕ
  pub current_price : ℕ
  pub volume : ℕ

-- `BaseStrategy` of src/models/strategy.py: what the engine calls, with `none` where the call
-- raises. An evaluation leaves the strategy as it is.
pub record BaseStrategy (S : Type 0) : Type 0 where
  pub evaluate_buy_signal : S → Stock → Option Bool
  pub evaluate_sell_signal : S → Position → Stock → Option Bool
  pub calculate_position_size : S → Stock → (available_capital : ℤ) → Option (Option ℤ)

-- Of `parameters`, the two that the engine reads.
pub record StrategyConfig : Type 0 where
  pub strategy_name : ℕ
  pub enabled : Bool
  pub class_path : ℕ
  pub symbols : List ℕ
  pub price_type : PriceType
  pub position_size_pct : ℕ
  pub stop_loss_pct : Option ℕ
  pub take_profit_pct : Option ℕ

-- The engine has a dict of its own, or that of the order executor.
pub data Positions : Type 0 where
  own : Dict Position → Positions
  shared : Positions

-- `requests` lists the calls of `execute_order`.
pub record StrategyEngine (S : Type 0) : Type 0 where
  pub strategies : Dict S
  pub strategy_configs : Dict StrategyConfig
  pub risk_manager : RiskManager
  pub account : Option Account
  pub positions : Positions
  pub order_executor : Option OrderExecutor
  pub requests : List Order

-- `positions or {}`, on the dict of the order executor: an empty dict is false.
abbrev pub positions_or : Dict Position → Positions
positions_or [] = own []
positions_or (e ∷ d) = shared

-- What the executor's dict holds.
abbrev pub executor_positions : Option OrderExecutor → Dict Position
executor_positions none = []
executor_positions (some x) = x.positions

-- `StrategyEngine(...)`, given the positions of the order executor.
abbrev pub start :
    {S : Type 0} → RiskManager → Option Account → Option OrderExecutor → StrategyEngine S
start m a x = record {
  strategies = [];
  strategy_configs = [];
  risk_manager = m;
  account = a;
  positions = positions_or (executor_positions x);
  order_executor = x;
  requests = [];
}

abbrev pub held_by : Positions → Option OrderExecutor → Dict Position
held_by (own d) x = d
held_by shared x = executor_positions x

-- `self.positions`
abbrev pub held : {S : Type 0} → StrategyEngine S → Dict Position
held e = held_by e.positions e.order_executor

unfoldable pub put_held : {S : Type 0} (code : ℕ) → Position → StrategyEngine S → StrategyEngine S
put_held code p e = elim e.positions [
  | own d ↦ record e { positions = own (put code p d) }
  | shared ↦ elim e.order_executor [
    | none ↦ e
    | some x ↦ record e { order_executor = some (record x { positions = put code p x.positions }) }
  ]
]

module _ (v : Division) where
  unfoldable pub take_profit_set : Option ℕ → (now : ℕ) → Position → Position
  take_profit_set none now p = p
  take_profit_set (some pct) now p =
      elim (set_take_profit (v.quotient (p.average_buy_price * (one + pct)) one) now p) [
        | done p' ↦ p'
        | raised _ ↦ p
      ]

  -- The two prices of `_set_stop_loss_take_profit`; a refused stop-loss skips the take-profit.
  unfoldable pub levels_set : Option ℕ → Option ℕ → (now : ℕ) → Position → Position
  unfolding take_profit_set
  levels_set none take now p = take_profit_set take now p
  levels_set (some pct) take now p =
      elim (set_stop_loss (v.quotient (p.average_buy_price * (one - pct)) one) now p) [
        | done p' ↦ take_profit_set take now p'
        | raised _ ↦ p
      ]

  -- `_set_stop_loss_take_profit`
  unfoldable pub set_stop_loss_take_profit :
      {S : Type 0} → Order → StrategyConfig → (now : ℕ) → StrategyEngine S → StrategyEngine S
  unfolding levels_set put_held
  set_stop_loss_take_profit o config now e = elim (get o.stock_code (held e)) [
    | none ↦ e
    | some p ↦
        put_held o.stock_code (levels_set config.stop_loss_pct config.take_profit_pct now p) e
  ]

abbrev pub limit_at : PriceType → (price : ℕ) → Option ℕ
limit_at market price = none
limit_at limit price = some price

-- `Order(...)`, which raises on a quantity of 0.
abbrev pub new_order :
    OrderType
    → StrategyConfig
    → (name order_id account_number quantity now : ℕ) → Stock
    → Option Order
new_order side config name order_id account_number quantity now stock =
    if quantity == 0
    then none
    else some (record {
      order_id = order_id;
      account_number = account_number;
      stock_code = stock.stock_code;
      order_type = side;
      price_type = config.price_type;
      quantity = quantity;
      limit_price = limit_at config.price_type stock.current_price;
      status = pending;
      filled_quantity = 0;
      filled_price = none;
      strategy_name = some name;
      created_at = now;
      submitted_at = none;
      filled_at = none;
      error_message = none;
    })
