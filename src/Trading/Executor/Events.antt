-- ===== src/Trading/Executor/Events.antt =====
-- The executor's event loop (`run` and its handlers in src/services/order_executor.py): the
-- broker's notices of executions and of balances.
use auto_trading.Prelude.{
  ℕ, Bool, true, ◌&&◌, ◌||◌, Option, none, some, List, [], ◌∷◌, ltb, if◌then◌else◌, get, put, pop,
}
use auto_trading.Trading.Division.{Division}
use auto_trading.Trading.Models.{
  Order, OrderStatus, submitted, partially_filled, filled, cancelled, rejected, Position,
  is_terminal,
}
use auto_trading.Trading.Executor.Positions.{
  OrderExecutor, Client, refresh, update_account_on_fill, update_position_on_partial_fill,
}

-- The texts of the broker's order status (src/models/realtime_data.py).
pub data BrokerStatus : Type 0 where
  received executed confirmed cancelled_by rejected_by other_status : BrokerStatus

-- `OrderExecutionData`, as far as the handler reads it; `filled_price` and `unit_filled_price` are
-- 0 where the notice has none.
pub record OrderExecution : Type 0 where
  pub order_id : ℕ
  pub order_status : BrokerStatus
  pub filled_quantity : ℕ
  pub unfilled_quantity : ℕ
  pub filled_price : ℕ
  pub unit_filled_price : ℕ

-- `BalanceUpdateData`; the account number is its first eight digits.
pub record BalanceUpdate : Type 0 where
  pub account_number : ℕ
  pub stock_code : ℕ
  pub is_position_closed : Bool
  pub is_new_position : Bool
  pub holding_quantity : ℕ
  pub average_price : ℕ
  pub current_price : ℕ

-- `status_mapping`
abbrev pub status_of : BrokerStatus → Option OrderStatus
status_of received = some submitted
status_of executed = some filled
status_of confirmed = some submitted
status_of cancelled_by = some cancelled
status_of rejected_by = some rejected
status_of other_status = none

-- The order after the fields of the notice that are above zero are taken over.
abbrev pub noted : OrderExecution → OrderStatus → Order → Order
noted e new_status o =
    let price : Option ℕ =
      if ltb 0 e.unit_filled_price
      then some e.unit_filled_price
      else if ltb 0 e.filled_price
      then some e.filled_price
      else o.filled_price in
    record o {
      status = new_status;
      filled_quantity = if ltb 0 e.filled_quantity then e.filled_quantity else o.filled_quantity;
      filled_price = price;
    }

module _ (v : Division) (c : Client) where
  unfoldable pub finish : OrderStatus → Order → OrderExecutor → OrderExecutor
  finish filled o s = update_account_on_fill c o s
  finish _ o s = s

  -- An order that the notice ends leaves the pending ones; any other stays, changed in place.
  unfoldable pub record_status :
      OrderExecution → (new_status : OrderStatus) → Order → OrderExecutor → OrderExecutor
  unfolding finish
  record_status e new_status o s =
      let o' = noted e new_status o in
      if is_terminal new_status
      then finish new_status o' (record s { pending_orders = pop e.order_id s.pending_orders })
      else if ltb 0 e.unfilled_quantity && ltb 0 e.filled_quantity
      then (let o'' = record o' { status = partially_filled } in
          update_position_on_partial_fill v c o''
            (record s { pending_orders = put e.order_id o'' s.pending_orders }))
      else record s { pending_orders = put e.order_id o' s.pending_orders }

  unfoldable pub record_known :
      Option OrderStatus → OrderExecution → Order → OrderExecutor → OrderExecutor
  unfolding record_status
  record_known none e o s = s
  record_known (some new_status) e o s = record_status e new_status o s

  unfoldable pub handle_found : Option Order → OrderExecution → OrderExecutor → OrderExecutor
  unfolding record_known
  handle_found none e s = s
  handle_found (some o) e s = record_known (status_of e.order_status) e o s

  -- `_handle_order_execution_event`
  unfoldable pub handle_order_execution_event : OrderExecution → OrderExecutor → OrderExecutor
  unfolding handle_found
  handle_order_execution_event e s = handle_found (get e.order_id s.pending_orders) e s

  unfoldable pub held_position : Option Position → BalanceUpdate → Position
  held_position none e = record {
    account_number = e.account_number;
    stock_code = e.stock_code;
    quantity = e.holding_quantity;
    average_buy_price = e.average_price;
    current_price = e.current_price;
    strategy_name = some 0;
    opened_at = c.now;
    updated_at = c.now;
    stop_loss_price = none;
    take_profit_price = none;
  }
  held_position (some p) e = record p {
    quantity = e.holding_quantity;
    average_buy_price = e.average_price;
    current_price = e.current_price;
  }

  -- A new `Position` is validated: its quantity and its prices are above zero.
  abbrev pub can_open : Option Position → BalanceUpdate → Bool
  can_open none e = ltb 0 e.holding_quantity && (ltb 0 e.average_price && ltb 0 e.current_price)
  can_open (some p) e = true

  -- `_handle_balance_update_event`; the strategy of a position that the notice opens is number 0,
  -- which stands for "WebSocket".
  unfoldable pub handle_balance_update_event : BalanceUpdate → OrderExecutor → OrderExecutor
  unfolding refresh held_position
  handle_balance_update_event e s =
      let old = get e.stock_code s.positions in
      if e.is_position_closed
      then refresh c.account_on_fill (record s { positions = pop e.stock_code s.positions })
      else if e.is_new_position || ltb 0 e.holding_quantity
      then (if can_open old e
          then refresh c.account_on_fill
              (record s { positions = put e.stock_code (held_position old e) s.positions })
          else s)
      else refresh c.account_on_fill s

-- What the queue holds.
pub data Event : Type 0 where
  execution : OrderExecution → Event
  balance : BalanceUpdate → Event
  unknown : Event

-- One event of `run`, with what the client answers meanwhile.
unfoldable pub handle : Division → Client → Event → OrderExecutor → OrderExecutor
unfolding handle_order_execution_event handle_balance_update_event
handle v c (execution e) s = handle_order_execution_event v c e s
handle v c (balance e) s = handle_balance_update_event v c e s
handle v c unknown s = s

-- `run`, over the events that it takes from the queue.
unfoldable pub run : Division → List (Client × Event) → OrderExecutor → OrderExecutor
unfolding handle
run v [] s = s
run v ((c, e) ∷ events) s = run v events (handle v c e s)
