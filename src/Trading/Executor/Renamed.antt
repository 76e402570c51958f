-- ===== src/Trading/Executor/Renamed.antt =====
-- An order that the broker takes under a number of its own (`submit_order` of
-- src/api/kiwoom_client.py writes it into the order, and the broker's notices carry it), as the
-- executor follows it (src/services/order_executor.py).
use auto_trading.Prelude.{
  ◌≡◌, ◌≢◌, refl, ap, ◌∙◌, true, false, none, some, get, get-put, get-put_self, arith,
}
use auto_trading.Trading.Division.{Division}
use auto_trading.Trading.Models.{Order, pending}
use auto_trading.Trading.Risk.{RiskManager}
use auto_trading.Trading.AccountService.{reply}
use auto_trading.Trading.Executor.Positions.{OrderExecutor, Client}
use auto_trading.Trading.Executor.Submission.{
  passed, mark_submitted, submit, answered, send, settle, settle_by, after_screening,
  by_first_checks, execute_order, refused_at_once, screen, cancel_found, cancel_order,
}
use auto_trading.Trading.Executor.Events.{
  OrderExecution, handle_found, handle_order_execution_event,
}

module _ (v : Division) (m : RiskManager) (c : Client) where
  pub sends :
      (o : Order) (s : OrderExecutor)
      → refused_at_once o s ≡ none
      → screen v m c o s ≡ passed
      → execute_order v m c o s ≡ send v m c o s
  unfolding execute_order
  sends o s e f = rw (e, by_first_checks, f, after_screening) refl

  -- The executor where the client has answered and nothing is settled.
  abbrev pub at_answer : Order → OrderExecutor → OrderExecutor
  at_answer o s =
      let given = mark_submitted v m c o in
      answered v m c o.order_id given (c.submit_order given).order_left (submit v m c o s)

  -- An order that the client answers to be pending.
  taken :
      (o left : Order) (s : OrderExecutor)
      → (c.submit_order (mark_submitted v m c o)).answer ≡ reply left
      → left.status ≡ pending
      → ((send v m c o s).0.success ≡ true) × ((send v m c o s).1 ≡ at_answer o s)
  unfolding send settle settle_by
  taken o left s answer waits =
      let o' = (c.submit_order (mark_submitted v m c o)).order_left in
      let s' = at_answer o s in
      let done =
        ap (λ r. settle v m c r o.order_id o' s') answer
        ∙ ap (λ st. settle_by v m c st left.filled_price o.order_id o' left s') waits in
      (ap (λ x. x.0.success) done, ap (λ x. x.1) done)

-- An order that passes the checks, and that the client answers to be pending under an identifier that
-- no pending order has, is reported as done and stays pending under the identifier that it had
-- before: a notice that carries the new identifier changes nothing at all, and with it the order
-- cannot be cancelled either.
pub renamed_order-unheard :
    (v : Division) (m : RiskManager) (c d : Client) (o left : Order) (e : OrderExecution)
    (s : OrderExecutor)
    → refused_at_once o s ≡ none
    → screen v m c o s ≡ passed
    → c.submit_order (mark_submitted v m c o) ≡ record { order_left = left; answer = reply left }
    → left.status ≡ pending
    → left.order_id ≢ o.order_id
    → get left.order_id s.pending_orders ≡ none
    → e.order_id ≡ left.order_id
    → let (r, s') = execute_order v m c o s in
      (r.success ≡ true)
      × (get o.order_id s'.pending_orders ≡ some left)
      × (handle_order_execution_event v d e s' ≡ s')
      × ((cancel_order left.order_id s').0 ≡ false)
      × ((cancel_order left.order_id s').2 ≡ s')
unfolding submit answered handle_order_execution_event handle_found cancel_order cancel_found
renamed_order-unheard v m c d o left e s free go answer waits differ fresh its =
    let (success, at) = taken v m c o left s (ap (λ h. h.answer) answer) waits in
    let all = sends v m c o s free go in
    let s' = (execute_order v m c o s).1 in
    let is : s' ≡ at_answer v m c o s = ap (λ x. x.1) all ∙ at in
    let first = (submit v m c o s).pending_orders in
    let found : get o.order_id s'.pending_orders ≡ some left =
      ap (λ x. get o.order_id x.pending_orders) is
      ∙ get-put_self o.order_id (c.submit_order (mark_submitted v m c o)).order_left first
      ∙ ap (λ h. some h.order_left) answer in
    let missing : get left.order_id s'.pending_orders ≡ none =
      ap (λ x. get left.order_id x.pending_orders) is
      ∙ get-put left.order_id o.order_id (c.submit_order (mark_submitted v m c o)).order_left first
      ∙ ground (
        arith,
        differ,
        fresh,
        get-put left.order_id o.order_id (mark_submitted v m c o) s.pending_orders,
      ) in
    let unheard : get e.order_id s'.pending_orders ≡ none =
      ap (λ k. get k s'.pending_orders) its ∙ missing in
    (
      ap (λ x. x.0.success) all ∙ success,
      found,
      ap (λ r. handle_found v d r e s') unheard,
      ap (λ r. (cancel_found r left.order_id s').0) missing,
      ap (λ r. (cancel_found r left.order_id s').2) missing,
    )
