-- ===== src/Trading/Executor/Settled.antt =====
-- What a submission leaves among the pending orders (src/services/order_executor.py).
use auto_trading.Prelude.{
  ℕ, ◌≡◌, inl, inr, refl, ap, sym, ◌∙◌, ◌≢◌, subst, false, Option, none, some, Values, Values-put,
  Values-pop, Dict, put, pop, arith,
}
use auto_trading.Trading.Division.{Division}
use auto_trading.Trading.Models.{
  Order, OrderStatus, pending, submitted, partially_filled, filled, rejected, failed, cancelled,
  is_terminal, Message, rate_limited, unexpected,
}
use auto_trading.Trading.Risk.{RiskManager}
use auto_trading.Trading.AccountService.{Reply, reply, rate_limit_exceeded, other_error}
use auto_trading.Trading.Executor.Positions.{
  OrderExecutor, Client, update_account_on_fill, update_position_on_partial_fill,
}
use auto_trading.Trading.Executor.Submission.{
  Screening, passed, stopped, invalid, limited, broken, give_up, give_up_sent, mark_failed,
  mark_submitted, submit, answered, send, settle_by, settle, after_screening, by_first_checks,
  screen,
}
use auto_trading.Trading.Executor.Clients.{KeptOrPending, IsInPlace, put-put, Values-pop-put}

-- The invariant.
abbrev pub NoneEnded : Dict Order → Type 0
NoneEnded orders = Values (λ o. is_terminal o.status ≡ false) orders

-- What follows a fill leaves the pending orders alone.
pub update_account-pending :
    (c : Client) (o : Order) (s : OrderExecutor)
    → (update_account_on_fill c o s).pending_orders ≡ s.pending_orders
unfolding update_account_on_fill
update_account-pending c o s = ground arith

pub update_position-pending :
    (v : Division) (c : Client) (o : Order) (s : OrderExecutor)
    → (update_position_on_partial_fill v c o s).pending_orders ≡ s.pending_orders
unfolding update_position_on_partial_fill
update_position-pending v c o s = ground arith

abbrev pub IsOpen : Order → Type 0
IsOpen o = is_terminal o.status ≡ false

popped :
    (key : ℕ) (o : Order) (d : Dict Order)
    → o.order_id ≡ key
    → NoneEnded d
    → NoneEnded (pop o.order_id (put key o d))
popped key o d same h =
    subst (λ k. NoneEnded (pop k (put key o d))) (sym same) (Values-pop-put IsOpen key o d h)

given_up :
    (message : Message) (key : ℕ) (o : Order) (d : Dict Order)
    → o.order_id ≡ key
    → NoneEnded d
    → NoneEnded (pop o.order_id (put key (mark_failed message o) (put key o d)))
given_up message key o d same h =
    let o' = mark_failed message o in
    subst (λ x. NoneEnded (pop o.order_id x)) (sym (put-put key o o' d))
      (subst (λ k. NoneEnded (pop k (put key o' d))) (sym same) (Values-pop-put IsOpen key o' d h))

module _ (v : Division) (m : RiskManager) (c : Client) where
  -- The given order is pending as the client left it, under the identifier that it has kept.
  settle_by-NoneEnded :
      (st : OrderStatus) (price : Option ℕ) (key : ℕ) (o : Order) (s : OrderExecutor)
      (d : Dict Order)
      → s.pending_orders ≡ put key o d
      → NoneEnded d
      → o.order_id ≡ key
      → o.status ≡ st
      → st ≢ cancelled
      → NoneEnded (settle_by v m c st price key o o s).1.pending_orders
  unfolding settle_by give_up_sent give_up
  settle_by-NoneEnded filled none key o s d at h same e live =
      rw at (given_up unexpected key o d same h)
  settle_by-NoneEnded partially_filled none key o s d at h same e live =
      rw at (given_up unexpected key o d same h)
  settle_by-NoneEnded filled (some price) key o s d at h same e live =
      rw (update_account-pending c o s, at) (popped key o d same h)
  settle_by-NoneEnded rejected price key o s d at h same e live = rw at (popped key o d same h)
  settle_by-NoneEnded failed price key o s d at h same e live = rw at (popped key o d same h)
  settle_by-NoneEnded partially_filled (some price) key o s d at h same e live =
      let going : IsOpen o = ap is_terminal e in
      rw (update_position-pending v c o s, at)
        (Values-put IsOpen o.order_id o (put key o d) going (Values-put IsOpen key o d going h))
  settle_by-NoneEnded pending price key o s d at h same e live =
      rw at (Values-put IsOpen key o d (ap is_terminal e) h)
  settle_by-NoneEnded submitted price key o s d at h same e live =
      rw at (Values-put IsOpen key o d (ap is_terminal e) h)
  settle_by-NoneEnded cancelled price key o s d at h same e live = absurd (live refl)

  settle-NoneEnded :
      (r : Reply Order) (key : ℕ) (o : Order) (s : OrderExecutor) (d : Dict Order)
      → s.pending_orders ≡ put key o d
      → NoneEnded d
      → ((f : Order) → r ≡ reply f → f ≡ o)
      → KeptOrPending r key o
      → NoneEnded (settle v m c r key o s).1.pending_orders
  unfolding settle settle_by give_up_sent give_up
  settle-NoneEnded (reply f) key o s d at h same (inl (kept, live)) =
      subst (λ x. NoneEnded (settle_by v m c x.status x.filled_price key o x s).1.pending_orders)
        (sym (same f refl))
        (settle_by-NoneEnded o.status o.filled_price key o s d at h kept refl live)
  settle-NoneEnded (reply f) key o s d at h same (inr (_, waits)) =
      let waits' : f.status ≡ pending = ap (λ x. x.status) (same f refl) ∙ waits in
      subst (λ st. NoneEnded (settle_by v m c st f.filled_price key o f s).1.pending_orders)
        (sym waits') (rw at (Values-put IsOpen key o d (ap is_terminal waits) h))
  settle-NoneEnded rate_limit_exceeded key o s d at h same (inl (kept, live)) =
      rw at (given_up rate_limited key o d kept h)
  settle-NoneEnded other_error key o s d at h same (inl (kept, live)) =
      rw at (given_up unexpected key o d kept h)
  settle-NoneEnded rate_limit_exceeded key o s d at h same (inr (answers, _)) = absurd (cc)
  settle-NoneEnded other_error key o s d at h same (inr (answers, _)) = absurd (cc)

  send-NoneEnded :
      (o : Order) (s : OrderExecutor)
      → IsInPlace c
      → NoneEnded s.pending_orders
      → NoneEnded (send v m c o s).1.pending_orders
  unfolding send answered submit
  send-NoneEnded o s is h =
      let given = mark_submitted v m c o in
      let r = c.submit_order given in
      settle-NoneEnded r.answer o.order_id r.order_left _ (put o.order_id given s.pending_orders)
        refl (Values-put IsOpen o.order_id given s.pending_orders refl h) (is.same_object given)
        (is.kept_or_pending given)

  after_screening-NoneEnded :
      (r : Screening) (o : Order) (s : OrderExecutor)
      → IsInPlace c
      → NoneEnded s.pending_orders
      → NoneEnded (after_screening v m c r o s).1.pending_orders
  unfolding after_screening give_up
  after_screening-NoneEnded passed o s is h = send-NoneEnded o s is h
  after_screening-NoneEnded (stopped message) o s is h = h
  after_screening-NoneEnded (invalid message) o s is h = h
  after_screening-NoneEnded limited o s is h = Values-pop IsOpen o.order_id s.pending_orders h
  after_screening-NoneEnded broken o s is h = Values-pop IsOpen o.order_id s.pending_orders h

  pub by_first_checks-NoneEnded :
      (r : Option Message) (o : Order) (s : OrderExecutor)
      → IsInPlace c
      → NoneEnded s.pending_orders
      → NoneEnded (by_first_checks v m c r o s).1.pending_orders
  unfolding by_first_checks
  by_first_checks-NoneEnded (some message) o s is h = h
  by_first_checks-NoneEnded none o s is h = after_screening-NoneEnded (screen v m c o s) o s is h
