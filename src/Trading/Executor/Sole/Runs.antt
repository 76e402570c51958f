-- ===== src/Trading/Executor/Sole/Runs.antt =====
-- The pending orders of the executor over a run (src/services/order_executor.py).
use auto_trading.Prelude.{
  ℕ, ◌≡◌, ◌∙◌, inl, inr, refl, sym, ap, subst, put, Bool-cases, Option, none, some, List, [], ◌∷◌,
  get, get-put_self,
}
use auto_trading.Trading.Division.{Division}
use auto_trading.Trading.Models.{
  Order, OrderStatus, pending, rate_limited, unexpected, partially_filled, filled, rejected, failed,
  is_terminal, Message,
}
use auto_trading.Trading.Risk.{RiskManager}
use auto_trading.Trading.AccountService.{Reply, reply, rate_limit_exceeded, other_error}
use auto_trading.Trading.Executor.Positions.{OrderExecutor, Client}
use auto_trading.Trading.Executor.Submission.{
  Screening, passed, stopped, invalid, limited, broken, mark_failed, give_up, give_up_sent,
  settle_by, settle, submit, answered, send, mark_submitted, after_screening, by_first_checks,
  execute_order, refused_at_once, screen, cancel_found, cancel_order,
}
use auto_trading.Trading.Executor.Clients.{KeptOrPending, IsInPlace}
use auto_trading.Trading.Executor.Events.{
  OrderExecution, execution, balance, unknown, status_of, record_status, record_known, handle_found,
  handle_order_execution_event, handle,
}
use auto_trading.Trading.Executor.Settled.{
  NoneEnded, update_account-pending, update_position-pending,
}
use auto_trading.Trading.Executor.Ended.{
  record_status-pending, balance-pending, Action, execute, cancel, notice, AllInPlace, act,
  act-NoneEnded, run_actions,
}
use auto_trading.Trading.Executor.Sole.{
  IsSole, IsSole-pop, NoRival, IsSole-put, NoRival-same, not_found-NoRival, refused_at_once-clear,
}

module _ (v : Division) (m : RiskManager) (c : Client) where
  given_up-IsSole :
      (message : Message) (key : ℕ) (o : Order) (s : OrderExecutor)
      → get key s.pending_orders ≡ some o
      → IsSole s.pending_orders
      → IsSole (give_up_sent message key o s).1.pending_orders
  unfolding give_up_sent give_up
  given_up-IsSole message key o s e h =
      let o' = mark_failed message o in
      IsSole-pop o.order_id (put key o' s.pending_orders) (
        IsSole-put key o' s.pending_orders (NoRival-same key o o' s.pending_orders h e refl refl) h)

  -- The given order is pending as the client left it, under the identifier that it has kept.
  settle_by-IsSole :
      (st : OrderStatus) (price : Option ℕ) (key : ℕ) (o : Order) (s : OrderExecutor)
      → o.order_id ≡ key
      → get key s.pending_orders ≡ some o
      → IsSole s.pending_orders
      → IsSole (settle_by v m c st price key o o s).1.pending_orders
  unfolding settle_by
  settle_by-IsSole filled none key o s same e h = given_up-IsSole unexpected key o s e h
  settle_by-IsSole partially_filled none key o s same e h = given_up-IsSole unexpected key o s e h
  settle_by-IsSole filled (some price) key o s same e h =
      rw (update_account-pending c o s) (IsSole-pop o.order_id s.pending_orders h)
  settle_by-IsSole rejected price key o s same e h = IsSole-pop o.order_id s.pending_orders h
  settle_by-IsSole failed price key o s same e h = IsSole-pop o.order_id s.pending_orders h
  settle_by-IsSole partially_filled (some price) key o s same e h =
      let at : get o.order_id s.pending_orders ≡ some o =
        ap (λ k. get k s.pending_orders) same ∙ e in
      rw (update_position-pending v c o s) (
        IsSole-put o.order_id o s.pending_orders
          (NoRival-same o.order_id o o s.pending_orders h at refl refl) h)
  settle_by-IsSole _ price key o s same e h = h

  settle-IsSole :
      (r : Reply Order) (key : ℕ) (o : Order) (s : OrderExecutor)
      → ((f : Order) → r ≡ reply f → f ≡ o)
      → KeptOrPending r key o
      → get key s.pending_orders ≡ some o
      → IsSole s.pending_orders
      → IsSole (settle v m c r key o s).1.pending_orders
  unfolding settle settle_by
  settle-IsSole (reply f) key o s same (inl (kept, live)) e h =
      subst (λ x. IsSole (settle_by v m c x.status x.filled_price key o x s).1.pending_orders)
        (sym (same f refl)) (settle_by-IsSole o.status o.filled_price key o s kept e h)
  settle-IsSole (reply f) key o s same (inr (_, waits)) e h =
      let waits' : f.status ≡ pending = ap (λ x. x.status) (same f refl) ∙ waits in
      subst (λ st. IsSole (settle_by v m c st f.filled_price key o f s).1.pending_orders)
        (sym waits') h
  settle-IsSole rate_limit_exceeded key o s same k e h = given_up-IsSole rate_limited key o s e h
  settle-IsSole other_error key o s same k e h = given_up-IsSole unexpected key o s e h

  send-IsSole :
      (o : Order) (s : OrderExecutor)
      → IsInPlace c
      → NoRival o.order_id o s.pending_orders
      → IsSole s.pending_orders
      → IsSole (send v m c o s).1.pending_orders
  unfolding send answered submit
  send-IsSole o s is alone h =
      let given = mark_submitted v m c o in
      let r = c.submit_order given in
      let d = put o.order_id given s.pending_orders in
      let sole : IsSole d = IsSole-put o.order_id given s.pending_orders alone h in
      settle-IsSole r.answer o.order_id r.order_left _ (is.same_object given)
        (is.kept_or_pending given) (get-put_self o.order_id r.order_left d)
        (IsSole-put o.order_id r.order_left d
          (NoRival-same o.order_id given r.order_left d sole
            (get-put_self o.order_id given s.pending_orders) (is.same_stock given)
            (is.same_type given))
          sole)

  after_screening-IsSole :
      (r : Screening) (o : Order) (s : OrderExecutor)
      → IsInPlace c
      → NoRival o.order_id o s.pending_orders
      → IsSole s.pending_orders
      → IsSole (after_screening v m c r o s).1.pending_orders
  unfolding after_screening give_up
  after_screening-IsSole passed o s is alone h = send-IsSole o s is alone h
  after_screening-IsSole (stopped message) o s is alone h = h
  after_screening-IsSole (invalid message) o s is alone h = h
  after_screening-IsSole limited o s is alone h = IsSole-pop o.order_id s.pending_orders h
  after_screening-IsSole broken o s is alone h = IsSole-pop o.order_id s.pending_orders h

  by_first_checks-IsSole :
      (r : Option Message) (o : Order) (s : OrderExecutor)
      → refused_at_once o s ≡ r
      → IsInPlace c
      → NoneEnded s.pending_orders
      → IsSole s.pending_orders
      → IsSole (by_first_checks v m c r o s).1.pending_orders
  unfolding by_first_checks
  by_first_checks-IsSole (some message) o s e is live h = h
  by_first_checks-IsSole none o s e is live h =
      after_screening-IsSole (screen v m c o s) o s is
        (not_found-NoRival o.order_id o s.pending_orders live (refused_at_once-clear o s e)) h

cancel_found-IsSole :
    (r : Option Order) (order_id : ℕ) (s : OrderExecutor)
    → IsSole s.pending_orders
    → IsSole (cancel_found r order_id s).2.pending_orders
unfolding cancel_found
cancel_found-IsSole none order_id s h = h
cancel_found-IsSole (some o) order_id s h = elim (Bool-cases (is_terminal o.status)) [
  | inl ended ↦ rw (ended, cancel_found) h
  | inr going ↦ rw (going, cancel_found) (IsSole-pop order_id s.pending_orders h)
]

module _ (v : Division) (c : Client) where
  record_status-IsSole :
      (e : OrderExecution) (st : OrderStatus) (o : Order) (s : OrderExecutor)
      → get e.order_id s.pending_orders ≡ some o
      → IsSole s.pending_orders
      → IsSole (record_status v c e st o s).pending_orders
  record_status-IsSole e st o s found h = elim (record_status-pending v c e st o s) [
    | inl gone ↦ rw gone (IsSole-pop e.order_id s.pending_orders h)
    | inr (o', kept, _, stock, side) ↦ rw kept (
        IsSole-put e.order_id o' s.pending_orders
          (NoRival-same e.order_id o o' s.pending_orders h found stock side) h)
  ]

  record_known-IsSole :
      (r : Option OrderStatus) (e : OrderExecution) (o : Order) (s : OrderExecutor)
      → get e.order_id s.pending_orders ≡ some o
      → IsSole s.pending_orders
      → IsSole (record_known v c r e o s).pending_orders
  unfolding record_known
  record_known-IsSole none e o s found h = h
  record_known-IsSole (some st) e o s found h = record_status-IsSole e st o s found h

  handle_found-IsSole :
      (r : Option Order) (e : OrderExecution) (s : OrderExecutor)
      → get e.order_id s.pending_orders ≡ r
      → IsSole s.pending_orders
      → IsSole (handle_found v c r e s).pending_orders
  unfolding handle_found
  handle_found-IsSole none e s found h = h
  handle_found-IsSole (some o) e s found h =
      record_known-IsSole (status_of e.order_status) e o s found h

act-IsSole :
    (v : Division) (m : RiskManager) (a : Action) (actions : List Action) (s : OrderExecutor)
    → AllInPlace (a ∷ actions)
    → NoneEnded s.pending_orders
    → IsSole s.pending_orders
    → IsSole (act v m a s).pending_orders
unfolding act execute_order cancel_order handle handle_order_execution_event
act-IsSole v m (execute c o) actions s is live h =
    by_first_checks-IsSole v m c (refused_at_once o s) o s refl is.0 live h
act-IsSole v m (cancel order_id) actions s is live h =
    cancel_found-IsSole (get order_id s.pending_orders) order_id s h
act-IsSole v m (notice c (execution e)) actions s is live h =
    handle_found-IsSole v c (get e.order_id s.pending_orders) e s refl h
act-IsSole v m (notice c (balance b)) actions s is live h = rw (balance-pending v c b s) h
act-IsSole v m (notice c unknown) actions s is live h = h

-- From a state with no ended order and at most one order for each stock and side pending, where
-- submissions, cancellations and notices do not overlap, at most one order for each stock and side is
-- pending. Each client answers a submission with the object that it was given, which is the pending
-- one, or raises, and leaves its stock and side: it keeps the order's identifier and does not cancel
-- the order, or it answers that it is pending, under whatever identifier.
pub run_actions-IsSole :
    (v : Division) (m : RiskManager) (actions : List Action) (s : OrderExecutor)
    → AllInPlace actions
    → NoneEnded s.pending_orders
    → IsSole s.pending_orders
    → IsSole (run_actions v m actions s).pending_orders
unfolding run_actions
run_actions-IsSole v m [] s is live h = h
run_actions-IsSole v m (a ∷ actions) s is live h =
    let (live', is') = act-NoneEnded v m a actions s is live in
    run_actions-IsSole v m actions (act v m a s) is' live' (act-IsSole v m a actions s is live h)
