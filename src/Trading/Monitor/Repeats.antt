-- ===== src/Trading/Monitor/Repeats.antt =====
-- What an order that is filled at once leaves behind (src/services/order_executor.py), and so what
-- the next round of the monitor finds (src/services/risk_monitor.py).
use auto_trading.Prelude.{
  ℕ, ◌≡◌, inl, inr, refl, sym, ap, ◌∙◌, true, false, none, some, [], ◌∷◌, Dict, put, pop, Values,
  arith,
}
use auto_trading.Trading.Division.{Division}
use auto_trading.Trading.Models.{Order, OrderType, filled}
use auto_trading.Trading.Risk.{RiskManager}
use auto_trading.Trading.Checks.{competes, check_duplicate, validate_order_price}
use auto_trading.Trading.Checks.Duplicates.{check_duplicate-cases}
use auto_trading.Trading.AccountService.{Reply, reply, rate_limit_exceeded, other_error}
use auto_trading.Trading.Executor.Positions.{OrderExecutor, Client}
use auto_trading.Trading.Executor.Submission.{
  passed, execute_order, settle, settle_by, give_up, give_up_sent, send, answered, refused_at_once,
  first_checks, screen, screen_account, screen_risk, screen_price, screen_type, mark_submitted,
  submit,
}
use auto_trading.Trading.Executor.Clients.{put-put, Values-pop-put}
use auto_trading.Trading.Executor.Renamed.{sends, at_answer}
use auto_trading.Trading.Executor.Notices.{update_account-positions}
use auto_trading.Trading.Executor.Settled.{update_account-pending}
use auto_trading.Trading.Executor.Sole.{refused_at_once-clear}

check_duplicate-none :
    (stock_code : ℕ) (type : OrderType) (d : Dict Order)
    → Values (λ o. competes stock_code type o ≡ false) d
    → check_duplicate stock_code type d ≡ (false, none)
unfolding check_duplicate
check_duplicate-none stock_code type [] h = refl
check_duplicate-none stock_code type ((i, o) ∷ d) h =
    rw h.0 (check_duplicate-none stock_code type d h.1)

module _ (v : Division) (m : RiskManager) (c : Client) where
  settle-sent :
      (r : Reply Order) (key : ℕ) (o : Order) (s : OrderExecutor)
      → (settle v m c r key o s).0.sent ≡ true
  unfolding settle settle_by give_up_sent give_up
  settle-sent (reply f) key o s = ground arith
  settle-sent rate_limit_exceeded key o s = refl
  settle-sent other_error key o s = refl

  -- An order that the client fills at once.
  fills :
      (o f : Order) (price : ℕ) (s : OrderExecutor)
      → refused_at_once o s ≡ none
      → screen v m c o s ≡ passed
      → (c.submit_order (mark_submitted v m c o)).answer ≡ reply f
      → f.status ≡ filled
      → f.filled_price ≡ some price
      → execute_order v m c o s
        ≡ settle_by v m c filled
            (some price)
            o.order_id
            (c.submit_order (mark_submitted v m c o)).order_left
            f
            (at_answer v m c o s)
  unfolding send settle
  fills o f price s e g answer status at_price =
      let o' = (c.submit_order (mark_submitted v m c o)).order_left in
      let k = o.order_id in
      let s' = at_answer v m c o s in
      sends v m c o s e g
      ∙ ap (λ r. settle v m c r k o' s') answer
      ∙ ap (λ st. settle_by v m c st f.filled_price k o' f s') status
      ∙ ap (λ fp. settle_by v m c filled fp k o' f s') at_price

  screen-positions :
      (o : Order) (s t : OrderExecutor)
      → t.positions ≡ s.positions
      → screen v m c o t ≡ screen v m c o s
  unfolding screen screen_account screen_risk screen_price screen_type
  screen-positions o s t e = ground (arith, e)

-- A filled order leaves the positions as they were, and no order for its stock and side.
after_fill :
    (v : Division) (m : RiskManager) (c : Client) (o p f : Order) (price : ℕ) (s : OrderExecutor)
    → refused_at_once o s ≡ none
    → refused_at_once p s ≡ none
    → screen v m c o s ≡ passed
    → c.positions_left (mark_submitted v m c o) s.positions ≡ s.positions
    → (c.submit_order (mark_submitted v m c o)).answer ≡ reply f
    → f.status ≡ filled
    → f.filled_price ≡ some price
    → f.order_id ≡ o.order_id
    → let (r, s') = execute_order v m c o s in
      (r.success ≡ true) × (s'.positions ≡ s.positions) × (refused_at_once p s' ≡ none)
unfolding settle_by submit answered refused_at_once
after_fill v m c o p f price s e h g own answer status at_price same = (
  ap (λ x. x.0.success) done,
  ap (λ x. x.1.positions) done ∙ update_account-positions c f s1 ∙ own,
  again,
)
  where
    left : Order
    left = (c.submit_order (mark_submitted v m c o)).order_left

    s1 : OrderExecutor
    s1 = at_answer v m c o s

    done : execute_order v m c o s ≡ settle_by v m c filled (some price) o.order_id left f s1
    done = fills v m c o f price s e g answer status at_price

    gone :
        (execute_order v m c o s).1.pending_orders
        ≡ pop o.order_id (put o.order_id left s.pending_orders)
    gone =
        ap (λ x. x.1.pending_orders) done
        ∙ ap (λ x. pop f.order_id x) (update_account-pending c f s1)
        ∙ ap (λ k. pop k s1.pending_orders) same
        ∙ ap (λ x. pop o.order_id x)
            (put-put o.order_id (mark_submitted v m c o) left s.pending_orders)

    again : refused_at_once p (execute_order v m c o s).1 ≡ none
    again = elim (check_duplicate-cases p.stock_code p.order_type s.pending_orders) [
      | inl (i, q, found, _, _) ↦ absurd (cc (found, refused_at_once-clear p s h))
      | inr (clear, all) ↦
          let clear' : check_duplicate p.stock_code p.order_type
                (execute_order v m c o s).1.pending_orders
              ≡ (false, none) =
            ap (λ d. check_duplicate p.stock_code p.order_type d) gone
            ∙ check_duplicate-none p.stock_code p.order_type _ (
                Values-pop-put (λ x. competes p.stock_code p.order_type x ≡ false) o.order_id left
                  s.pending_orders all) in
          ap (λ x. first_checks (validate_order_price p) x) (clear' ∙ sym clear) ∙ h
    ]

-- An order that the client returns at once as filled, at a price and under its identifier, and
-- without changing the executor's positions itself, is reported as done, but the positions stay as
-- they were: where the checks let another order pass before, such as the same sale again, they let it
-- pass again, and it is sent as well. The clients of the program have positions of their own; a
-- client that shares the executor's dict, as the one of the script test_auto_sell.py, is excluded.
pub filled_order-repeats :
    (v : Division) (m : RiskManager) (c d : Client) (o p f : Order) (price : ℕ) (s : OrderExecutor)
    → refused_at_once o s ≡ none
    → refused_at_once p s ≡ none
    → screen v m c o s ≡ passed
    → screen v m d p s ≡ passed
    → c.positions_left (mark_submitted v m c o) s.positions ≡ s.positions
    → (c.submit_order (mark_submitted v m c o)).answer ≡ reply f
    → f.status ≡ filled
    → f.filled_price ≡ some price
    → f.order_id ≡ o.order_id
    → let (r, s') = execute_order v m c o s in
      (r.success ≡ true) × (s'.positions ≡ s.positions) × ((execute_order v m d p s').0.sent ≡ true)
unfolding send
filled_order-repeats v m c d o p f price s e h g k own answer status at_price same =
    let (success, kept, free) =
      after_fill v m c o p f price s e h g own answer status at_price same in
    let s' = (execute_order v m c o s).1 in
    let go = screen-positions v m d p s s' kept ∙ k in
    (success, kept, ap (λ x. x.0.sent) (sends v m d p s' free go) ∙ settle-sent v m d _ _ _ _)
