-- ===== src/Trading/Executor/Sole.antt =====
-- The protection against duplicate orders (src/services/order_executor.py,
-- src/services/duplicate_checker.py).
pub mod Runs
use auto_trading.Prelude.{
  ℕ, ◌≡◌, ◌≢◌, ◌⊎◌, inl, inr, refl, sym, ◌∙◌, ap, subst, Bool, true, false, Option, none, some,
  List, [], ◌∷◌, ◌==◌, if◌then◌else◌, Dict, get, put, pop, get-put, get-pop, Values, Values-get,
  Bool-cases, arith,
}
use auto_trading.Trading.Division.{Division}
use auto_trading.Trading.Models.{
  Order, OrderType, buy, sell, OrderStatus, submitted, partially_filled, filled, cancelled,
  rejected, failed, pending, is_terminal, same_type, Message, PriceType, market, limit,
  limit_price_missing, limit_price_not_positive,
}
use auto_trading.Trading.Risk.{RiskManager}
use auto_trading.Trading.Checks.{competes, check_duplicate, validate_order_price, price_check}
use auto_trading.Trading.Checks.Duplicates.{check_duplicate-cases}
use auto_trading.Trading.Simulator.Fills.{SameOrder}
use auto_trading.Trading.AccountService.{Reply, reply, rate_limit_exceeded, other_error}
use auto_trading.Trading.Executor.Positions.{OrderExecutor, Client, update_position_on_partial_fill}
use auto_trading.Trading.Executor.Submission.{
  Report, Screening, passed, stopped, invalid, limited, broken, give_up, settle_by, settle, submit,
  mark_submitted, after_screening, by_first_checks, execute_order, refused_at_once, first_checks,
  screen, cancel_found, cancel_order,
}
use auto_trading.Trading.Executor.Events.{
  OrderExecution, Event, execution, balance, unknown, status_of, record_status, record_known,
  handle_found, handle_order_execution_event, handle,
}
use auto_trading.Trading.Executor.Settled.{
  NoneEnded, update_account-pending, update_position-pending,
}
use auto_trading.Trading.Executor.Ended.{
  record_status-pending, balance-pending, Action, execute, cancel, notice, act, act-NoneEnded,
  run_actions,
}

-- At most one order for each stock and side is pending.
abbrev pub IsSole : Dict Order → Type 0
IsSole orders =
    (i j : ℕ) (o p : Order)
    → get i orders ≡ some o
    → get j orders ≡ some p
    → o.stock_code ≡ p.stock_code
    → o.order_type ≡ p.order_type
    → i ≡ j

pub IsSole-pop : (k : ℕ) (d : Dict Order) → IsSole d → IsSole (pop k d)
IsSole-pop k d h i j o p e f stock side =
    h i j o p (ground (arith, get-pop i k d)) (ground (arith, get-pop j k d)) stock side

-- No other pending order is for the stock and the side of that one.
abbrev pub NoRival : ℕ → Order → Dict Order → Type 0
NoRival k o d =
    (j : ℕ) (p : Order)
    → get j d ≡ some p
    → p.stock_code ≡ o.stock_code
    → p.order_type ≡ o.order_type
    → k ≡ j

pub IsSole-put :
    (k : ℕ) (o : Order) (d : Dict Order) → NoRival k o d → IsSole d → IsSole (put k o d)
IsSole-put k o d alone h i j x y e f stock side =
    ground (arith, get-put i k o d, get-put j k o d, alone i x, alone j y, h i j x y)

-- An order that replaces one for the same stock and side.
pub NoRival-same :
    (k : ℕ) (o o' : Order) (d : Dict Order)
    → IsSole d
    → get k d ≡ some o
    → o'.stock_code ≡ o.stock_code
    → o'.order_type ≡ o.order_type
    → NoRival k o' d
NoRival-same k o o' d h e stock side j p f stock' side' =
    h k j o p e f (sym (stock' ∙ stock)) (sym (side' ∙ side))

type-same : (t u : OrderType) → t ≡ u → same_type t u ≡ true
type-same buy buy e = refl
type-same buy sell e = cc
type-same sell buy e = cc
type-same sell sell e = refl

competes-true :
    (p : Order) (stock_code : ℕ) (type : OrderType)
    → p.stock_code ≡ stock_code
    → p.order_type ≡ type
    → is_terminal p.status ≡ false
    → competes stock_code type p ≡ true
competes-true p stock_code type e f g = ground (arith, type-same p.order_type type f)

-- Where the check reports nothing and no ended order is pending, there is no rival.
pub not_found-NoRival :
    (k : ℕ) (o : Order) (d : Dict Order)
    → NoneEnded d
    → (check_duplicate o.stock_code o.order_type d).0 ≡ false
    → NoRival k o d
not_found-NoRival k o d live clear j p e stock side =
    elim (check_duplicate-cases o.stock_code o.order_type d) [
      | inl (i, q, found, _, _) ↦ absurd (cc found)
      | inr (_, all) ↦
          let rival =
            competes-true p o.stock_code o.order_type stock side
              (Values-get (λ x. is_terminal x.status ≡ false) j p d live e) in
          let no_rival =
            Values-get (λ x. competes o.stock_code o.order_type x ≡ false) j p d all e in
          absurd (cc)
    ]

price_check-says :
    (t : PriceType) (price : Option ℕ)
    → (price_check t price ≡ (true, none))
      ⊎ ((m : Message) × (price_check t price ≡ (false, some m)))
unfolding price_check
price_check-says market price = inl refl
price_check-says limit none = inr (limit_price_missing, refl)
price_check-says limit (some price) = elim (Bool-cases (price == 0)) [
  | inl zero_price ↦ inr (limit_price_not_positive, rw zero_price)
  | inr positive ↦ inl (rw positive)
]

pub refused_at_once-clear :
    (o : Order) (s : OrderExecutor)
    → refused_at_once o s ≡ none
    → (check_duplicate o.stock_code o.order_type s.pending_orders).0 ≡ false
unfolding refused_at_once first_checks validate_order_price
refused_at_once-clear o s e =
    elim (check_duplicate-cases o.stock_code o.order_type s.pending_orders) [
      | inr (clear, _) ↦ rw clear
      | inl (i, q, found, _, _) ↦ elim (price_check-says o.price_type o.limit_price) [
        | inl fine ↦ absurd (cc (rw (found, fine, refused_at_once, first_checks) at e))
        | inr (m, bad) ↦ absurd (cc (rw (found, bad, refused_at_once, first_checks) at e))
      ]
    ]

-- An order for whose stock and side another that has not ended is pending is refused with a message:
-- nothing is sent, and the executor stays as it was.
pub execute_order-refuses_rival :
    (v : Division) (m : RiskManager) (c : Client) (o p : Order) (i : ℕ) (s : OrderExecutor)
    → get i s.pending_orders ≡ some p
    → p.stock_code ≡ o.stock_code
    → p.order_type ≡ o.order_type
    → is_terminal p.status ≡ false
    → let (r, s') = execute_order v m c o s in
      (r.success ≡ false) × (r.sent ≡ false) × (r.message ≢ none) × (s' ≡ s)
unfolding execute_order by_first_checks
execute_order-refuses_rival v m c o p i s e stock side live = by_result (refused_at_once o s) refl
  where
    by_result :
        (r : Option Message)
        → refused_at_once o s ≡ r
        → let (report, s') = by_first_checks v m c r o s in
          (report.success ≡ false) × (report.sent ≡ false) × (report.message ≢ none) × (s' ≡ s)
    by_result (some message) h = (refl, refl, λ x. cc, refl)
    by_result none h = elim (check_duplicate-cases o.stock_code o.order_type s.pending_orders) [
      | inl (j, q, found, _, _) ↦ absurd (cc (found, refused_at_once-clear o s h))
      | inr (_, all) ↦
          let rival = competes-true p o.stock_code o.order_type stock side live in
          let no_rival =
            Values-get (λ x. competes o.stock_code o.order_type x ≡ false) i p s.pending_orders all
              e in
          absurd (cc)
    ]
