-- ===== src/Trading/Executor/Ended.antt =====
-- No order that has ended is pending (src/services/order_executor.py).
use auto_trading.Prelude.{
  ℕ, ◌≡◌, ◌⊎◌, inl, inr, refl, false, ◌&&◌, Option, none, some, List, [], ◌∷◌, ltb, get, Values-put,
  Values-pop, Bool-cases, put, pop, arith,
}
use auto_trading.Trading.Division.{Division}
use auto_trading.Trading.Models.{Order, OrderStatus, partially_filled, filled, is_terminal}
use auto_trading.Trading.Risk.{RiskManager}
use auto_trading.Trading.Executor.Positions.{OrderExecutor, Client}
use auto_trading.Trading.Executor.Submission.{
  execute_order, refused_at_once, cancel_found, cancel_order,
}
use auto_trading.Trading.Executor.Clients.{IsInPlace}
use auto_trading.Trading.Executor.Events.{
  OrderExecution, BalanceUpdate, Event, execution, balance, unknown, status_of, noted, finish,
  record_status, record_known, handle_found, handle_balance_update_event, handle,
}
use auto_trading.Trading.Executor.Settled.{
  NoneEnded, IsOpen, update_account-pending, update_position-pending, by_first_checks-NoneEnded,
}

cancel_found-NoneEnded :
    (r : Option Order) (order_id : ℕ) (s : OrderExecutor)
    → NoneEnded s.pending_orders
    → NoneEnded (cancel_found r order_id s).2.pending_orders
unfolding cancel_found
cancel_found-NoneEnded none order_id s h = h
cancel_found-NoneEnded (some o) order_id s h =
    ground (arith, Values-pop IsOpen order_id s.pending_orders h)

module _ (v : Division) (c : Client) where
  pub finish-pending :
      (st : OrderStatus) (o : Order) (s : OrderExecutor)
      → (finish v c st o s).pending_orders ≡ s.pending_orders
  unfolding finish
  finish-pending filled o s = update_account-pending c o s
  finish-pending _ o s = refl

  -- A notice takes its order from the pending ones, or changes it there into one that has not ended,
  -- for the same stock and side.
  pub record_status-pending :
      (e : OrderExecution) (st : OrderStatus) (o : Order) (s : OrderExecutor)
      → let orders = (record_status v c e st o s).pending_orders in
        (orders ≡ pop e.order_id s.pending_orders)
        ⊎ ((o' : Order) × (orders ≡ put e.order_id o' s.pending_orders)
            × (is_terminal o'.status ≡ false)
            × (o'.stock_code ≡ o.stock_code)
            × (o'.order_type ≡ o.order_type))
  unfolding record_status
  record_status-pending e st o s = elim (Bool-cases (is_terminal st)) [
    | inl ends ↦ inl (rw (ends, record_status) (finish-pending st _ _))
    | inr stays ↦ elim (Bool-cases (ltb 0 e.unfilled_quantity && ltb 0 e.filled_quantity)) [
      | inl part ↦ inr (
        record (noted e st o) { status = partially_filled },
        rw (stays, part, record_status) (update_position-pending v c _ _),
        refl,
        refl,
        refl,
      )
      | inr whole ↦ inr (noted e st o, rw (stays, whole, record_status), stays, refl, refl)
    ]
  ]

  record_status-NoneEnded :
      (e : OrderExecution) (st : OrderStatus) (o : Order) (s : OrderExecutor)
      → NoneEnded s.pending_orders
      → NoneEnded (record_status v c e st o s).pending_orders
  record_status-NoneEnded e st o s h = elim (record_status-pending e st o s) [
    | inl gone ↦ rw gone (Values-pop IsOpen e.order_id s.pending_orders h)
    | inr (o', kept, still, _, _) ↦
        rw kept (Values-put IsOpen e.order_id o' s.pending_orders still h)
  ]

  handle_found-NoneEnded :
      (r : Option Order) (e : OrderExecution) (s : OrderExecutor)
      → NoneEnded s.pending_orders
      → NoneEnded (handle_found v c r e s).pending_orders
  unfolding handle_found record_known
  handle_found-NoneEnded none e s h = h
  handle_found-NoneEnded (some o) e s h = known (status_of e.order_status)
    where
      known : (r : Option OrderStatus) → NoneEnded (record_known v c r e o s).pending_orders
      known none = h
      known (some st) = record_status-NoneEnded e st o s h

-- What the program does with the executor: an order of a strategy, a cancellation, a notice.
pub data Action : Type 0 where
  execute : Client → Order → Action
  cancel : ℕ → Action
  notice : Client → Event → Action

unfoldable pub act : Division → RiskManager → Action → OrderExecutor → OrderExecutor
act v m (execute c o) s = (execute_order v m c o s).1
act v m (cancel order_id) s = (cancel_order order_id s).2
act v m (notice c e) s = handle v c e s

pub balance-pending :
    (v : Division) (c : Client) (b : BalanceUpdate) (s : OrderExecutor)
    → (handle_balance_update_event v c b s).pending_orders ≡ s.pending_orders
unfolding handle_balance_update_event
balance-pending v c b s = ground arith

-- The clients of the submissions treat an order as the program's clients do.
abbrev pub AllInPlace : List Action → Type 0
AllInPlace [] = Unit
AllInPlace (execute c o ∷ actions) = IsInPlace c × AllInPlace actions
AllInPlace (cancel order_id ∷ actions) = AllInPlace actions
AllInPlace (notice c e ∷ actions) = AllInPlace actions

pub act-NoneEnded :
    (v : Division) (m : RiskManager) (a : Action) (actions : List Action) (s : OrderExecutor)
    → AllInPlace (a ∷ actions)
    → NoneEnded s.pending_orders
    → NoneEnded (act v m a s).pending_orders × AllInPlace actions
unfolding act execute_order cancel_order handle
act-NoneEnded v m (execute c o) actions s is h =
    (by_first_checks-NoneEnded v m c (refused_at_once o s) o s is.0 h, is.1)
act-NoneEnded v m (cancel order_id) actions s is h = (cancel_found-NoneEnded _ order_id s h, is)
act-NoneEnded v m (notice c (execution e)) actions s is h =
    (handle_found-NoneEnded v c (get e.order_id s.pending_orders) e s h, is)
act-NoneEnded v m (notice c (balance b)) actions s is h = (rw (balance-pending v c b s) h, is)
act-NoneEnded v m (notice c unknown) actions s is h = (h, is)

unfoldable pub run_actions : Division → RiskManager → List Action → OrderExecutor → OrderExecutor
unfolding act
run_actions v m [] s = s
run_actions v m (a ∷ actions) s = run_actions v m actions (act v m a s)

-- From a state where no order that has ended is pending, however the submissions, the cancellations
-- and the notices follow one another, no order that has ended is among the pending ones. Each client
-- answers a submission with the object that it was given, which is the pending one, or raises: it
-- keeps the order's identifier and does not cancel the order, or it answers that it is pending, under
-- whatever identifier.
pub run_actions-NoneEnded :
    (v : Division) (m : RiskManager) (actions : List Action) (s : OrderExecutor)
    → AllInPlace actions
    → NoneEnded s.pending_orders
    → NoneEnded (run_actions v m actions s).pending_orders
unfolding run_actions
run_actions-NoneEnded v m [] s is h = h
run_actions-NoneEnded v m (a ∷ actions) s is h =
    let (live, is') = act-NoneEnded v m a actions s is h in
    run_actions-NoneEnded v m actions (act v m a s) is' live
