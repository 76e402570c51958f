-- ===== src/Trading/Executor/Submission.antt =====
-- How the executor submits and cancels an order (`execute_order` and `cancel_order` of
-- src/services/order_executor.py). The order of the caller is one object with the pending one and
-- with the one that the client is given, and is changed in place: a report holds it as it is
-- afterwards, and so do the pending orders, under the identifier that it had before the call.
use auto_trading.Prelude.{
  ℕ, Bool, true, false, Option, none, some, if◌then◌else◌, get, put, pop, values,
}
use auto_trading.Trading.Division.{Division}
use auto_trading.Trading.Models.{
  Order, OrderType, buy, sell, OrderStatus, submitted, partially_filled, filled, rejected, failed,
  Message, duplicate_of, risk, order_failed, rate_limited, unexpected, order_not_found,
  already_ended, Account, is_terminal,
}
use auto_trading.Trading.Checks.{
  validate_order_price, check_duplicate, validate_buy_order, validate_sell_order,
}
use auto_trading.Trading.Risk.{RiskManager, should_stop_trading}
use auto_trading.Trading.AccountService.{Reply, reply, rate_limit_exceeded, other_error}
use auto_trading.Trading.Executor.Positions.{
  OrderExecutor, Client, update_account_on_fill, update_position_on_partial_fill,
}
use auto_trading.Trading.Executor.Retry.{account_with_retry}

-- The result of `execute_order`; `sent` says whether the client was given the order.
pub record Report : Type 0 where
  pub success : Bool
  pub message : Option Message
  pub returned : Option Order
  pub order : Order
  pub sent : Bool

-- The checks before the first call of the client: the price, and the duplicates.
unfoldable pub first_checks : Bool × Option Message → Bool × Option ℕ → Option Message
first_checks (false, message) found = message
first_checks (true, _) (true, some order_id) = some (duplicate_of order_id)
first_checks (true, _) (true, none) = none
first_checks (true, _) (false, _) = none

unfoldable pub refused_at_once : Order → OrderExecutor → Option Message
unfolding first_checks
refused_at_once o s =
    first_checks (validate_order_price o)
      (check_duplicate o.stock_code o.order_type s.pending_orders)

-- How the checks that need the client end.
pub data Screening : Type 0 where
  passed : Screening
  stopped : Option Message → Screening
  invalid : Option Message → Screening
  limited broken : Screening

unfoldable pub verdict : Bool × Option Message → Screening
verdict (true, _) = passed
verdict (false, message) = invalid message

unfoldable pub screen_type : OrderType → Account → Order → (price : ℕ) → OrderExecutor → Screening
unfolding verdict
screen_type buy a o price s = verdict (validate_buy_order a o price)
screen_type sell a o price s = verdict (validate_sell_order (get o.stock_code s.positions) o)

unfoldable pub screen_price : Reply ℕ → Account → Order → OrderExecutor → Screening
unfolding screen_type
screen_price (reply price) a o s = screen_type o.order_type a o price s
screen_price rate_limit_exceeded a o s = limited
screen_price other_error a o s = broken

unfoldable pub screen_risk :
    Option (Bool × Option Message) → Client → Account → Order → OrderExecutor → Screening
unfolding screen_price
screen_risk none c a o s = broken
screen_risk (some (true, message)) c a o s = stopped message
screen_risk (some (false, _)) c a o s = screen_price c.get_stock_price a o s

unfoldable pub mark_failed : Message → Order → Order
mark_failed message o = record o { status = failed; error_message = some message }

unfoldable pub mark_rejected : Option Message → Order → Order
mark_rejected message o = record o { status = rejected; error_message = message }

-- The two `except` clauses: the order has failed, and is pending no longer.
unfoldable pub give_up : Message → (sent : Bool) → Order → OrderExecutor → Report × OrderExecutor
unfolding mark_failed
give_up message sent o s = (
  record {
    success = false;
    message = some message;
    returned = none;
    order = mark_failed message o;
    sent = sent;
  },
  record s { pending_orders = pop o.order_id s.pending_orders },
)

-- The order that was given is pending under its first identifier `key`, whatever the client made of
-- its identifier since, and what is written into it is seen there.
unfoldable pub give_up_sent : Message → (key : ℕ) → Order → OrderExecutor → Report × OrderExecutor
unfolding give_up mark_failed
give_up_sent message key o s =
    give_up message true o
      (record s { pending_orders = put key (mark_failed message o) s.pending_orders })

unfoldable pub refuse : Option Message → Order → OrderExecutor → Report × OrderExecutor
refuse message o s =
    (record { success = false; message = message; returned = none; order = o; sent = false }, s)

abbrev pub or_failed : Option Message → Option Message
or_failed none = some order_failed
or_failed (some m) = some m

module _ (v : Division) (m : RiskManager) (c : Client) where
  unfoldable pub screen_account : Reply Account → Order → OrderExecutor → Screening
  unfolding screen_risk
  screen_account (reply a) o s =
      screen_risk (should_stop_trading v m a (values s.positions)) c a o s
  screen_account rate_limit_exceeded o s = limited
  screen_account other_error o s = broken

  unfoldable pub screen : Order → OrderExecutor → Screening
  unfolding screen_account account_with_retry
  screen o s = screen_account (account_with_retry 3 c.get_account).0 o s

  abbrev pub accepted : Order → Order → Report
  accepted o f = record {
    success = true;
    message = none;
    returned = some f;
    order = o;
    sent = true;
  }

  -- By the status and the price of the order that the client returns; to log a fill without a price
  -- raises TypeError.
  unfoldable pub settle_by :
      OrderStatus
      → Option ℕ
      → (key : ℕ) → (o returned : Order) → OrderExecutor
      → Report × OrderExecutor
  unfolding give_up_sent
  settle_by filled none key o f s = give_up_sent unexpected key o s
  settle_by partially_filled none key o f s = give_up_sent unexpected key o s
  settle_by filled (some price) key o f s =
      let s' = update_account_on_fill c f s in
      (accepted o f, record s' { pending_orders = pop f.order_id s'.pending_orders })
  settle_by rejected price key o f s = (
    record (accepted o f) { success = false; message = or_failed f.error_message },
    record s { pending_orders = pop f.order_id s.pending_orders },
  )
  settle_by failed price key o f s = (
    record (accepted o f) { success = false; message = or_failed f.error_message },
    record s { pending_orders = pop f.order_id s.pending_orders },
  )
  settle_by partially_filled (some price) key o f s =
      let s' = update_position_on_partial_fill v c f s in
      (accepted o f, record s' { pending_orders = put f.order_id f s'.pending_orders })
  settle_by _ price key o f s = (accepted o f, s)

  unfoldable pub settle : Reply Order → (key : ℕ) → Order → OrderExecutor → Report × OrderExecutor
  unfolding settle_by give_up_sent
  settle (reply f) key o s = settle_by f.status f.filled_price key o f s
  settle rate_limit_exceeded key o s = give_up_sent rate_limited key o s
  settle other_error key o s = give_up_sent unexpected key o s

  -- The order is pending from its submission on, before the client answers.
  abbrev pub mark_submitted : Order → Order
  mark_submitted o = record o { status = submitted; submitted_at = some c.now }

  unfoldable pub submit : Order → OrderExecutor → OrderExecutor
  submit o s = record s { pending_orders = put o.order_id (mark_submitted o) s.pending_orders }

  -- After the client's call, the pending order is what the client made of it.
  unfoldable pub answered : (key : ℕ) → (given left : Order) → OrderExecutor → OrderExecutor
  answered key given left s = record s {
    pending_orders = put key left s.pending_orders;
    positions = c.positions_left given s.positions;
  }

  unfoldable pub send : Order → OrderExecutor → Report × OrderExecutor
  unfolding settle submit answered
  send o s =
      let given = mark_submitted o in
      let h = c.submit_order given in
      settle h.answer o.order_id h.order_left (answered o.order_id given h.order_left (submit o s))

  unfoldable pub after_screening : Screening → Order → OrderExecutor → Report × OrderExecutor
  unfolding send refuse give_up mark_rejected
  after_screening passed o s = send o s
  after_screening (stopped message) o s =
      let noted : Option Message = elim message [ none ↦ none | some x ↦ some (risk x) ] in
      let (r, s') = refuse message o s in (record r { order = mark_rejected noted o }, s')
  after_screening (invalid message) o s =
      let (r, s') = refuse message o s in (record r { order = mark_rejected message o }, s')
  after_screening limited o s = give_up rate_limited false o s
  after_screening broken o s = give_up unexpected false o s

  unfoldable pub by_first_checks : Option Message → Order → OrderExecutor → Report × OrderExecutor
  unfolding after_screening screen refuse
  by_first_checks (some message) o s = refuse (some message) o s
  by_first_checks none o s = after_screening (screen o s) o s

  -- `execute_order`
  unfoldable pub execute_order : Order → OrderExecutor → Report × OrderExecutor
  unfolding refused_at_once by_first_checks
  execute_order o s = by_first_checks (refused_at_once o s) o s

unfoldable pub cancel_found :
    Option Order → (order_id : ℕ) → OrderExecutor → Bool × Option Message × OrderExecutor
cancel_found none order_id s = (false, some order_not_found, s)
cancel_found (some o) order_id s =
    if is_terminal o.status
    then (false, some (already_ended o.status), s)
    else (true, none, record s { pending_orders = pop order_id s.pending_orders })

-- `cancel_order`; the broker is not told.
unfoldable pub cancel_order : (order_id : ℕ) → OrderExecutor → Bool × Option Message × OrderExecutor
unfolding cancel_found
cancel_order order_id s = cancel_found (get order_id s.pending_orders) order_id s
