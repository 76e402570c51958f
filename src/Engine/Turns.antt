-- ===== src/Engine/Turns.antt =====
-- An evaluation of the strategies (`_evaluate_strategies` of src/services/strategy_engine.py). No
-- other task runs during its calls, and what it logs is left out.
pub mod Orders
pub mod Requests
pub mod Unheld
use auto_trading.Prelude.{
  ℕ, Bool, true, false, ◌||◌, Option, none, some, List, [], ◌∷◌, ◌++◌, if◌then◌else◌, ◌==◌, Dict,
  get, has, values,
}
use auto_trading.Prelude.Int.{ℤ, pos, negsuc}
use auto_trading.Trading.Division.{Division}
use auto_trading.Trading.Models.{
  Order, OrderType, buy, sell, OrderStatus, filled, Position, Account, update_price,
  check_stop_loss_triggered, check_take_profit_triggered, same_type,
}
use auto_trading.Trading.Risk.{RiskManager, scale, should_stop_trading}
use auto_trading.Trading.Executor.Positions.{OrderExecutor, Client}
use auto_trading.Trading.Executor.Submission.{Report, execute_order}
use auto_trading.Engine.{
  Stock, BaseStrategy, StrategyConfig, StrategyEngine, held, put_held, set_stop_loss_take_profit,
  new_order,
}

-- The answer of the account cache, or of the client where there is none.
pub data Fetch : Type 0 where
  fetched : Account → Fetch
  missing failing : Fetch

-- What a strategy's turn meets: the client while it buys and while it sells, the account that is
-- fetched, the identifiers of new orders, and the clock.
pub record Turn : Type 0 where
  pub buy_client : Client
  pub sell_client : Client
  pub account : Fetch
  pub buy_id : ℕ
  pub sell_id : ℕ
  pub now : ℕ

-- After the buy signal: `continue`, or on to the sell signal.
pub data Flow : Type 0 where
  next_strategy sell_check : Flow

-- `get_pending_orders_by_stock`, the buys of which stop another buy.
abbrev pub get_pending_orders_by_stock : (code : ℕ) → List Order → List Order
get_pending_orders_by_stock code [] = []
get_pending_orders_by_stock code (o ∷ orders) =
    let rest = get_pending_orders_by_stock code orders in
    if o.stock_code == code then o ∷ rest else rest

abbrev pub any_buy : List Order → Bool
any_buy [] = false
any_buy (o ∷ orders) = same_type o.order_type buy || any_buy orders

-- A quantity that is None, 0 or negative is refused.
abbrev pub positive_size : Option ℤ → Option ℕ
positive_size none = none
positive_size (some (pos n)) = if n == 0 then none else some n
positive_size (some (negsuc n)) = none

abbrev pub is_filled_buy : Order → Bool
is_filled_buy o = elim o.order_type [
  | sell ↦ false
  | buy ↦ elim o.status [ filled ↦ true | _ ↦ false ]
]

module _ {S : Type 0} (face : BaseStrategy S) (v : Division) (m : RiskManager) where
  -- `execute_order`, called; `m` is the executor's own risk manager.
  unfoldable pub request :
      Client → Order → OrderExecutor → StrategyEngine S → Report × StrategyEngine S
  request c o x e =
      let (r, x') = execute_order v m c o x in
      (r, record e { order_executor = some x'; requests = e.requests ++ o ∷ [] })

  unfoldable pub after_buy :
      (success : Bool) → Option Order → Turn → StrategyConfig → StrategyEngine S → StrategyEngine S
  after_buy false f t config e = e
  after_buy true none t config e = e
  after_buy true (some f) t config e =
      if is_filled_buy f then set_stop_loss_take_profit v f config t.now e else e

  unfoldable pub buy_order :
      Option Order
      → OrderExecutor
      → Turn
      → StrategyConfig
      → StrategyEngine S
      → Flow × StrategyEngine S
  unfolding request after_buy
  buy_order none x t config e = (sell_check, e)
  buy_order (some o) x t config e =
      let (r, e') = request t.buy_client o x e in
      (sell_check, after_buy r.success r.returned t config e')

  unfoldable pub buy_sized :
      Option (Option ℤ)
      → ℕ
      → OrderExecutor
      → Turn
      → StrategyConfig
      → Account
      → Stock
      → StrategyEngine S
      → Flow × StrategyEngine S
  unfolding buy_order
  buy_sized none name x t config a stock e = (sell_check, e)
  buy_sized (some size) name x t config a stock e = elim (positive_size size) [
    | none ↦ (next_strategy, e)
    | some quantity ↦
        buy_order (new_order buy config name t.buy_id a.account_number quantity t.now stock) x t
          config e
  ]

  unfoldable pub buy_configured :
      Option StrategyConfig
      → ℕ
      → S
      → OrderExecutor
      → Turn
      → Account
      → Stock
      → StrategyEngine S
      → Flow × StrategyEngine S
  unfolding buy_sized
  buy_configured none name s x t a stock e = (sell_check, e)
  buy_configured (some config) name s x t a stock e =
      buy_sized
        (face.calculate_position_size s stock (scale a.cash_balance config.position_size_pct)) name
        x t config a stock e

  unfoldable pub buy_fetched :
      Fetch → ℕ → S → OrderExecutor → Turn → Stock → StrategyEngine S → Flow × StrategyEngine S
  unfolding buy_configured
  buy_fetched missing name s x t stock e = (next_strategy, e)
  buy_fetched failing name s x t stock e = (sell_check, e)
  buy_fetched (fetched a) name s x t stock e =
      buy_configured (get name e.strategy_configs) name s x t a stock e

  unfoldable pub buy_with :
      Option OrderExecutor → ℕ → S → Turn → Stock → StrategyEngine S → Flow × StrategyEngine S
  unfolding buy_fetched
  buy_with none name s t stock e = (next_strategy, e)
  buy_with (some x) name s t stock e =
      if any_buy (get_pending_orders_by_stock stock.stock_code (values x.pending_orders))
      then (next_strategy, e)
      else buy_fetched t.account name s x t stock e

  unfoldable pub buy_signalled :
      Option Bool → ℕ → S → Turn → Stock → StrategyEngine S → Flow × StrategyEngine S
  unfolding buy_with
  buy_signalled none name s t stock e = (next_strategy, e)
  buy_signalled (some false) name s t stock e = (sell_check, e)
  buy_signalled (some true) name s t stock e = buy_with e.order_executor name s t stock e

  -- The buy signal and what follows it.
  unfoldable pub buy_part : ℕ → S → Turn → Stock → StrategyEngine S → Flow × StrategyEngine S
  unfolding buy_signalled
  buy_part name s t stock e = buy_signalled (face.evaluate_buy_signal s stock) name s t stock e

  unfoldable pub sell_order :
      Option Order → OrderExecutor → Turn → StrategyEngine S → StrategyEngine S
  unfolding request
  sell_order none x t e = e
  sell_order (some o) x t e = (request t.sell_client o x e).1

  unfoldable pub sell_with :
      Option OrderExecutor
      → Option StrategyConfig
      → ℕ
      → Position
      → Turn
      → Stock
      → StrategyEngine S
      → StrategyEngine S
  unfolding sell_order
  sell_with none config name p t stock e = e
  sell_with (some x) none name p t stock e = e
  sell_with (some x) (some config) name p t stock e =
      sell_order (new_order sell config name t.sell_id p.account_number p.quantity t.now stock) x t
        e

  unfoldable pub sell_signalled :
      Option Bool → ℕ → Position → Turn → Stock → StrategyEngine S → StrategyEngine S
  unfolding sell_with
  sell_signalled none name p t stock e = e
  sell_signalled (some signal) name p t stock e =
      if signal || check_stop_loss_triggered p || check_take_profit_triggered p
      then sell_with e.order_executor (get name e.strategy_configs) name p t stock e
      else e

  unfoldable pub sell_held :
      Option Position → ℕ → S → Turn → Stock → StrategyEngine S → StrategyEngine S
  unfolding sell_signalled
  sell_held none name s t stock e = e
  sell_held (some p) name s t stock e =
      sell_signalled (face.evaluate_sell_signal s p stock) name p t stock e

  -- The sell signal and what follows it.
  unfoldable pub sell_part : ℕ → S → Turn → Stock → StrategyEngine S → StrategyEngine S
  unfolding sell_held
  sell_part name s t stock e = sell_held (get stock.stock_code (held e)) name s t stock e

  unfoldable pub go_on : Flow → ℕ → S → Turn → Stock → StrategyEngine S → StrategyEngine S
  unfolding sell_part
  go_on next_strategy name s t stock e = e
  go_on sell_check name s t stock e = sell_part name s t stock e

  -- A strategy's turn of the loop.
  unfoldable pub turn : ℕ → S → Turn → Stock → StrategyEngine S → StrategyEngine S
  unfolding buy_part go_on
  turn name s t stock e = let (flow, e') = buy_part name s t stock e in go_on flow name s t stock e'

  unfoldable pub turns_of : Dict S → (ℕ → Turn) → Stock → StrategyEngine S → StrategyEngine S
  unfolding turn
  turns_of [] t stock e = e
  turns_of ((name, s) ∷ strategies) t stock e =
      turns_of strategies t stock (turn name s (t name) stock e)

  -- The stock's new price goes into the position.
  unfoldable pub follow_price : Stock → (now : ℕ) → StrategyEngine S → StrategyEngine S
  unfolding put_held
  follow_price stock now e = elim (get stock.stock_code (held e)) [
    | none ↦ e
    | some p ↦ put_held stock.stock_code (update_price stock.current_price now p) e
  ]

  -- The risk check stops the evaluation, or its ValueError ends it.
  abbrev pub stops : StrategyEngine S → Bool
  stops e = elim e.account [
    | none ↦ false
    | some a ↦ elim (should_stop_trading v e.risk_manager a (values (held e))) [
      | none ↦ true
      | some (should_stop, _) ↦ should_stop
    ]
  ]

  -- `_evaluate_strategies`
  unfoldable pub evaluate_strategies :
      (t : ℕ → Turn) (now : ℕ) → Stock → StrategyEngine S → StrategyEngine S
  unfolding turns_of follow_price
  evaluate_strategies t now stock e =
      let e' = follow_price stock now e in
      if stops e' then e' else turns_of e'.strategies t stock e'
