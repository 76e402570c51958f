-- ===== src/Trading/Executor/Notices.antt =====
-- The broker's notices of executions (`_handle_order_execution_event` of
-- src/services/order_executor.py).
use auto_trading.Prelude.{◌<◌, ◌≡◌, refl, ap, none, some, get, pop, get-pop_self, arith}
use auto_trading.Trading.Division.{Division}
use auto_trading.Trading.Models.{Order, filled}
use auto_trading.Trading.Executor.Positions.{
  OrderExecutor, Client, refresh, after_refresh, update_account_on_fill,
}
use auto_trading.Trading.Executor.Events.{
  OrderExecution, noted, executed, status_of, finish, record_status, record_known, handle_found,
  handle_order_execution_event,
}
use auto_trading.Trading.Executor.Settled.{update_account-pending}

pub update_account-positions :
    (c : Client) (o : Order) (s : OrderExecutor)
    → (update_account_on_fill c o s).positions ≡ s.positions
unfolding update_account_on_fill refresh after_refresh
update_account-positions c o s = ground arith

executed_notice :
    (v : Division) (c : Client) (e : OrderExecution) (o : Order) (s : OrderExecutor)
    → get e.order_id s.pending_orders ≡ some o
    → e.order_status ≡ executed
    → handle_order_execution_event v c e s
      ≡ update_account_on_fill c
          (noted e filled o)
          (record s { pending_orders = pop e.order_id s.pending_orders })
unfolding handle_order_execution_event
executed_notice v c e o s found status =
    rw (found, handle_found, ap status_of status, record_known, record_status, finish) refl

unknown_notice :
    (v : Division) (c : Client) (e : OrderExecution) (s : OrderExecutor)
    → get e.order_id s.pending_orders ≡ none
    → handle_order_execution_event v c e s ≡ s
unfolding handle_order_execution_event
unknown_notice v c e s missing = rw (missing, handle_found) refl

-- A notice that a pending order was executed, and that a part of it is not filled yet, takes the
-- order from the pending ones and leaves the positions as they are: later notices of that part are
-- for an order that is not known any more, and change nothing.
pub executed_part-forgets :
    (v : Division) (c d : Client) (e later : OrderExecution) (o : Order) (s : OrderExecutor)
    → get e.order_id s.pending_orders ≡ some o
    → e.order_status ≡ executed
    → 0 < e.unfilled_quantity
    → later.order_id ≡ e.order_id
    → let s' = handle_order_execution_event v c e s in
      (get e.order_id s'.pending_orders ≡ none)
      × (s'.positions ≡ s.positions)
      × (handle_order_execution_event v d later s' ≡ s')
executed_part-forgets v c d e later o s found status rest same =
    let s' = handle_order_execution_event v c e s in
    let popped = record s { pending_orders = pop e.order_id s.pending_orders } in
    let is : s' ≡ update_account_on_fill c (noted e filled o) popped =
      executed_notice v c e o s found status in
    let gone : get e.order_id s'.pending_orders ≡ none = rw is (
      rw (update_account-pending c (noted e filled o) popped)
        (get-pop_self e.order_id s.pending_orders)) in
    (
      gone,
      rw is (update_account-positions c (noted e filled o) popped),
      unknown_notice v d later s' (rw same gone),
    )
