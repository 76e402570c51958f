-- ===== src/Trading/Simulator.antt =====
-- The simulated broker (src/simulator): an exchange that fills orders at its prices, and the
-- account and positions that the fills change. An exception is a result of its own, with the state
-- that it leaves. The spread of 0.001 is exact, for prices of whole thousands of the unit.
pub mod Exchange
pub mod Fills
pub mod Settlement
pub mod Accounting
pub mod Holdings
use auto_trading.Prelude.{
  ℕ, ◌+◌, ◌-◌, ◌*◌, ◌/◌, Bool, true, false, Option, none, some, List, [], ◌∷◌, map, ◌==◌, ltb, leb,
  if◌then◌else◌, Dict, get, put, pop, values,
}
use auto_trading.Prelude.Int.{ℤ, pos, ◌+ℤ◌, ◌-ℤ◌, ltb_ℤ}
use auto_trading.Trading.Division.{Division}
use auto_trading.Trading.Models.{
  Order, buy, sell, pending, submitted, filled, rejected, market, limit, Message, no_position,
  invalid_stock_code, insufficient_balance, insufficient_quantity, limit_price_required,
  api_timeout, unexpected, sold_too_many, Position, Account, Checked, done, raised,
  evaluation_amount, unrealized_pnl, add_quantity, reduce_quantity, OrderType, OrderStatus,
  PriceType,
}
use auto_trading.Trading.Simulator.Exchange.{
  FakeExchange, empty_exchange, get_price, execute_order, Outcome, ok, fail,
}

pub data InjectedError : Type 0 where
  inject_insufficient_balance inject_invalid_stock_code inject_api_timeout : InjectedError

pub record KiwoomSimulator : Type 0 where
  pub account : Account
  pub positions : Dict Position
  pub order_history : Dict Order
  pub exchange : FakeExchange
  pub injected_error : Option InjectedError

-- `KiwoomSimulator(initial_balance, account_number)`; the loss limit is 5% of the balance.
pub start : (initial_balance account_number now : ℕ) → KiwoomSimulator
start initial_balance account_number now = record {
  account = record {
    account_number = account_number;
    cash_balance = pos initial_balance;
    total_asset_value = pos initial_balance;
    total_pnl = pos 0;
    daily_pnl = pos 0;
    daily_loss_limit = initial_balance * 5 / 100;
    updated_at = now;
  };
  positions = [];
  order_history = [];
  exchange = empty_exchange;
  injected_error = none;
}

-- A method: the state is kept as it was left when it raised.
abbrev pub Result : Type 0 → Type 0
Result A = Outcome A × KiwoomSimulator

-- `_check_injected_error`: only a mode that raises no exception is cleared.
check_injected_error : Option InjectedError → KiwoomSimulator → Result (Unit {0})
check_injected_error none s = (ok tt, s)
check_injected_error (some inject_insufficient_balance) s = (
  ok tt,
  record s { account = record (s.account) { cash_balance = pos 0 }; injected_error = none },
)
check_injected_error (some inject_invalid_stock_code) s = (fail invalid_stock_code, s)
check_injected_error (some inject_api_timeout) s = (fail api_timeout, s)

pub inject_error : InjectedError → KiwoomSimulator → KiwoomSimulator
inject_error e s = record s { injected_error = some e }

sum_values : List Position → ℕ
sum_values [] = 0
sum_values (p ∷ positions) = evaluation_amount p + sum_values positions

sum_pnl : List Position → ℤ
sum_pnl [] = pos 0
sum_pnl (p ∷ positions) = unrealized_pnl p +ℤ sum_pnl positions

pub get_account : (now : ℕ) → KiwoomSimulator → Account × KiwoomSimulator
unfolding sum_values sum_pnl
get_account now s =
    let a = record (s.account) {
      total_asset_value = s.account.cash_balance +ℤ pos (sum_values (values s.positions));
      total_pnl = sum_pnl (values s.positions);
      updated_at = now;
    } in
    (a, record s { account = a })

reprice : (now : ℕ) → FakeExchange → Dict Position → Dict Position
reprice now x [] = []
reprice now x ((code, p) ∷ positions) =
    let p' : Position = elim (get_price code x) [
      | none ↦ p
      | some price ↦ record p { current_price = price; updated_at = now }
    ] in
    (code, p') ∷ reprice now x positions

pub get_positions : (now : ℕ) → KiwoomSimulator → List Position × KiwoomSimulator
unfolding reprice
get_positions now s =
    let positions = reprice now s.exchange s.positions in
    (values positions, record s { positions = positions })

-- A rejected order is kept in the history, and ValueError raised.
reject : Message → Order → KiwoomSimulator → Result Order
reject message o s =
    let o' = record o { status = rejected; error_message = some message } in
    (fail message, record s { order_history = put o.order_id o' s.order_history })

archive : Order → KiwoomSimulator → Result Order
archive o s = (ok o, record s { order_history = put o.order_id o s.order_history })

module _ (v : Division) (now : ℕ) where
  abbrev pub new_position : Order → (price current : ℕ) → KiwoomSimulator → Position
  new_position o price current s = record {
    account_number = s.account.account_number;
    stock_code = o.stock_code;
    quantity = o.filled_quantity;
    average_buy_price = price;
    current_price = current;
    strategy_name = o.strategy_name;
    opened_at = now;
    updated_at = now;
    stop_loss_price = none;
    take_profit_price = none;
  }

  -- The cost of a filled buy is taken from the cash, and its shares go into the position.
  pub settle_buy : Order → (price current : ℕ) → KiwoomSimulator → KiwoomSimulator
  settle_buy o price current s =
      let cash = s.account.cash_balance -ℤ pos (price * o.filled_quantity) in
      let p : Position = elim (get o.stock_code s.positions) [
        | none ↦ new_position o price current s
        | some held ↦ add_quantity v o.filled_quantity price now held
      ] in
      record s {
        account = record (s.account) { cash_balance = cash };
        positions = put o.stock_code p s.positions;
      }

  -- By the status and the price of the order that the exchange returns.
  book_buy : OrderStatus → Option ℕ → Order → (current : ℕ) → KiwoomSimulator → Result Order
  unfolding archive
  book_buy filled (some price) o current s = archive o (settle_buy o price current s)
  book_buy filled none o current s = (fail unexpected, s)
  book_buy _ _ o current s = archive o s

  execute_buy : Outcome Order → (current : ℕ) → KiwoomSimulator → Result Order
  unfolding book_buy
  execute_buy (fail e) current s = (fail e, s)
  execute_buy (ok o) current s = book_buy o.status o.filled_price o current s

  place_buy : Order → (current : ℕ) → KiwoomSimulator → Result Order
  unfolding reject execute_buy
  place_buy o current s =
      if ltb_ℤ s.account.cash_balance (pos (current * o.quantity))
      then reject insufficient_balance o s
      else execute_buy (execute_order now o s.exchange) current s

  -- The proceeds of a filled sell go to the cash; a position that is sold out is deleted.
  pub settle_sell : Order → (price : ℕ) → Position → KiwoomSimulator → Result (Unit {0})
  settle_sell o price held s =
      let cash = s.account.cash_balance +ℤ pos (price * o.filled_quantity) in
      let paid = record s { account = record (s.account) { cash_balance = cash } } in
      elim (reduce_quantity o.filled_quantity now held) [
        | raised _ ↦ (fail sold_too_many, paid)
        | done p ↦ (
          ok tt,
          record paid {
            positions =
                if p.quantity == 0
                then pop o.stock_code s.positions
                else put o.stock_code p s.positions;
          },
        )
      ]

  finish_sell : Order → Result (Unit {0}) → Result Order
  unfolding archive
  finish_sell o (fail e, s) = (fail e, s)
  finish_sell o (ok _, s) = archive o s

  book_sell : OrderStatus → Option ℕ → Order → Position → KiwoomSimulator → Result Order
  unfolding archive finish_sell
  book_sell filled (some price) o held s = finish_sell o (settle_sell o price held s)
  book_sell filled none o held s = (fail unexpected, s)
  book_sell _ _ o held s = archive o s

  execute_sell : Outcome Order → Position → KiwoomSimulator → Result Order
  unfolding book_sell
  execute_sell (fail e) held s = (fail e, s)
  execute_sell (ok o) held s = book_sell o.status o.filled_price o held s

  place_sell : Order → Option Position → KiwoomSimulator → Result Order
  unfolding reject execute_sell
  place_sell o none s = reject no_position o s
  place_sell o (some held) s =
      if ltb held.quantity o.quantity
      then reject insufficient_quantity o s
      else execute_sell (execute_order now o s.exchange) held s

  place : OrderType → Order → (current : ℕ) → KiwoomSimulator → Result Order
  unfolding place_buy place_sell
  place buy o current s = place_buy o current s
  place sell o current s = place_sell o (get o.stock_code s.positions) s

  submit_at : Option ℕ → Order → KiwoomSimulator → Result Order
  unfolding reject place
  submit_at none o s = reject invalid_stock_code o s
  submit_at (some current) o s = place o.order_type o current s

  submit_checked : Order → KiwoomSimulator → Result Order
  unfolding submit_at
  submit_checked o s =
      let o' = record o { status = submitted; submitted_at = some now } in
      submit_at (get_price o.stock_code s.exchange) o' s

  submit_after : Result (Unit {0}) → Order → Result Order
  unfolding submit_checked
  submit_after (fail e, s) o = (fail e, s)
  submit_after (ok _, s) o = submit_checked o s

  pub submit_order : Order → KiwoomSimulator → Result Order
  unfolding check_injected_error submit_after
  submit_order o s = submit_after (check_injected_error s.injected_error s) o
