-- ===== src/Trading/Executor/Positions.antt =====
-- The executor's state, and how it follows fills in the positions and the account
-- (src/services/order_executor.py).
use auto_trading.Prelude.{ℕ, ◌*◌, Option, none, some, ◌==◌, if◌then◌else◌, Dict, get, put, pop}
use auto_trading.Prelude.Int.{ℤ, sub_ℕ}
use auto_trading.Trading.Division.{Division}
use auto_trading.Trading.Models.{
  Order, OrderType, buy, sell, Position, Account, Checked, done, raised, add_quantity,
  reduce_quantity,
}
use auto_trading.Trading.AccountService.{
  Reply, reply, rate_limit_exceeded, other_error, AccountService, refresh_account, update_daily_pnl,
}

pub record OrderExecutor : Type 0 where
  pub pending_orders : Dict Order
  pub positions : Dict Position
  pub account_service : AccountService

-- What the client does with an order that it is given: it may change the object in place, which
-- `order_left` is afterwards, and it answers. The clients of src/api/kiwoom_client.py and
-- src/simulator/kiwoom_simulator.py answer with that object.
pub record Handling : Type 0 where
  pub order_left : Order
  pub answer : Reply Order

-- What the client does during one call: with each attempt to read the account, with the readings of
-- the price and of the account later on, and with the submission; and the clock. `positions_left` is
-- what the submission leaves of the executor's positions, for a client that holds the same dict, as
-- the one of src/test_auto_sell.py does.
pub record Client : Type 0 where
  pub get_account : ℕ → Reply Account
  pub get_stock_price : Reply ℕ
  pub submit_order : Order → Handling
  pub positions_left : Order → Dict Position → Dict Position
  pub price_on_fill : Reply ℕ
  pub account_on_fill : Reply Account
  pub now : ℕ
  pub today : ℕ

-- `refresh_account` inside a `try` that only logs.
unfoldable pub refresh : Reply Account → OrderExecutor → OrderExecutor
refresh answer s = record s { account_service = (refresh_account answer s.account_service).1 }

-- `(filled_price - average_buy_price) * filled_quantity` of a sell from a position.
abbrev pub realized_pnl : Order → Option ℕ → Option Position → Option ℤ
realized_pnl o none p = none
realized_pnl o (some price) none = none
realized_pnl o (some price) (some p) =
    some (sub_ℕ (price * o.filled_quantity) (p.average_buy_price * o.filled_quantity))

abbrev pub sell_pnl : OrderType → Order → OrderExecutor → Option ℤ
sell_pnl buy o s = none
sell_pnl sell o s = realized_pnl o o.filled_price (get o.stock_code s.positions)

unfoldable pub add_realized : Option ℤ → (today : ℕ) → AccountService → AccountService
add_realized none today a = a
add_realized (some pnl) today a = elim (update_daily_pnl today pnl a) [ none ↦ a | some a' ↦ a' ]

-- `_update_account_on_fill`, after which the result of a sell is in the day's result.
unfoldable pub after_refresh : Reply Account → Client → Order → OrderExecutor → OrderExecutor
unfolding add_realized
after_refresh (reply a) c o s = record s {
  account_service = add_realized (sell_pnl o.order_type o s) c.today s.account_service;
}
after_refresh rate_limit_exceeded c o s = s
after_refresh other_error c o s = s

unfoldable pub update_account_on_fill : Client → Order → OrderExecutor → OrderExecutor
unfolding refresh after_refresh
update_account_on_fill c o s = after_refresh c.account_on_fill c o (refresh c.account_on_fill s)

module _ (v : Division) (c : Client) where
  abbrev pub opened : Order → (price current : ℕ) → Position
  opened o price current = record {
    account_number = o.account_number;
    stock_code = o.stock_code;
    quantity = o.filled_quantity;
    average_buy_price = price;
    current_price = current;
    strategy_name = o.strategy_name;
    opened_at = c.now;
    updated_at = c.now;
    stop_loss_price = none;
    take_profit_price = none;
  }

  -- A failure of the price inquiry ends the update; the exception is logged.
  unfoldable pub open_position : Reply ℕ → Order → (price : ℕ) → OrderExecutor → OrderExecutor
  unfolding refresh
  open_position (reply current) o price s =
      refresh c.account_on_fill
        (record s { positions = put o.stock_code (opened o price current) s.positions })
  open_position rate_limit_exceeded o price s = s
  open_position other_error o price s = s

  unfoldable pub partial_buy : Option Position → Order → (price : ℕ) → OrderExecutor → OrderExecutor
  unfolding refresh open_position
  partial_buy none o price s = open_position c.price_on_fill o price s
  partial_buy (some p) o price s =
      let p' = add_quantity v o.filled_quantity price c.now p in
      refresh c.account_on_fill (record s { positions = put o.stock_code p' s.positions })

  unfoldable pub reduced : Checked Position → Order → OrderExecutor → OrderExecutor
  unfolding refresh
  reduced (raised _) o s = s
  reduced (done p) o s = refresh c.account_on_fill (record s {
    positions =
        if p.quantity == 0 then pop o.stock_code s.positions else put o.stock_code p s.positions;
  })

  unfoldable pub partial_sell : Option Position → Order → OrderExecutor → OrderExecutor
  unfolding refresh reduced
  partial_sell none o s = refresh c.account_on_fill s
  partial_sell (some p) o s = reduced (reduce_quantity o.filled_quantity c.now p) o s

  unfoldable pub partial_by : OrderType → Order → (price : ℕ) → OrderExecutor → OrderExecutor
  unfolding partial_buy partial_sell
  partial_by buy o price s = partial_buy (get o.stock_code s.positions) o price s
  partial_by sell o price s = partial_sell (get o.stock_code s.positions) o s

  unfoldable pub partial_at : Option ℕ → Order → OrderExecutor → OrderExecutor
  unfolding partial_by
  partial_at none o s = s
  partial_at (some price) o s =
      if price == 0
      then s
      else if o.filled_quantity == 0
      then s
      else partial_by o.order_type o price s

  -- `_update_position_on_partial_fill`
  unfoldable pub update_position_on_partial_fill : Order → OrderExecutor → OrderExecutor
  unfolding partial_at
  update_position_on_partial_fill o s = partial_at o.filled_price o s
