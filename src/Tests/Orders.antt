-- ===== src/Tests/Orders.antt =====
-- The order executor on samples.
use auto_trading.Prelude.{
  ℕ, zero, suc, ◌+◌, ◌≡◌, ◌≢◌, inl, inr, refl, true, false, none, some, List, [], ◌∷◌, Dict, get,
  arith,
}
use auto_trading.Prelude.Int.{◌-ℤ◌, ◌+ℤ◌}
use auto_trading.Trading.Division.{floor}
use auto_trading.Trading.Models.{
  Order, buy, sell, pending, submitted, Account, is_daily_loss_limit_exceeded, evaluation_amount,
}
use auto_trading.Trading.Checks.{
  check_duplicate, validate_buy_order, validate_order_price, price_check,
}
use auto_trading.Trading.Risk.{
  should_stop_trading, check_daily_loss_limit, check_position_concentration, scan_concentration,
  scale, start_of_day,
}
use auto_trading.Trading.AccountService.{Reply, reply, rate_limit_exceeded}
use auto_trading.Trading.Simulator.Exchange.{fill}
use auto_trading.Trading.Executor.Positions.{OrderExecutor, Client}
use auto_trading.Trading.Executor.Clients.{IsInPlace}
use auto_trading.Trading.Executor.Retry.{
  account_from, account_with_retry, Ends, account_with_retry-Ends,
}
use auto_trading.Trading.Executor.Submission.{
  execute_order, refused_at_once, first_checks, screen, screen_account, screen_risk, screen_price,
  screen_type, verdict, passed, cancel_order,
}
use auto_trading.Trading.Executor.Events.{
  OrderExecution, executed, execution, handle_order_execution_event,
}
use auto_trading.Trading.Executor.Settled.{NoneEnded}
use auto_trading.Trading.Executor.Ended.{
  Action, execute, cancel, notice, run_actions, run_actions-NoneEnded,
}
use auto_trading.Trading.Executor.Sole.{IsSole, execute_order-refuses_rival}
use auto_trading.Trading.Executor.Sole.Runs.{run_actions-IsSole}
use auto_trading.Trading.Executor.Races.{Calls, begun, sent, Steps, overlap_breaks_IsSole}
use auto_trading.Trading.Executor.Renamed.{renamed_order-unheard}
use auto_trading.Trading.Executor.Notices.{executed_part-forgets}
use auto_trading.Tests.Samples.{an_order, a_position, an_account, a_manager}

-- A client that fills every order at 110,000, with three millions in cash.
abbrev pub a_client : Client
a_client = record {
  get_account = λ _. reply (an_account 3_000_000);
  get_stock_price = reply 110_000;
  submit_order = λ o. record { order_left = fill 110_000 9 o; answer = reply (fill 110_000 9 o) };
  positions_left = λ o positions. positions;
  price_on_fill = reply 110_000;
  account_on_fill = reply (an_account 2_000_000);
  now = 9;
  today = 1;
}

-- An order that the broker has taken, under an identifier of its own.
abbrev taken : Order → Order
taken o = record o { order_id = 70 + o.order_id; status = pending; submitted_at = some 9 }

-- A client that sends the orders to a broker.
abbrev a_broker_client : Client
a_broker_client = record a_client {
  submit_order = λ o. record { order_left = taken o; answer = reply (taken o) };
}

abbrev pub an_executor : Dict Order → OrderExecutor
an_executor orders = record {
  pending_orders = orders;
  positions = (5, a_position) ∷ [];
  account_service = record { cached_account = none; daily_pnl_reset_date = none };
}

-- An order that waits at the broker.
abbrev waiting_order : Order
waiting_order = record (an_order 1 buy) { status = submitted; submitted_at = some 5 }

-- The broker executed four of its ten shares.
abbrev a_notice : (filled_quantity unfilled_quantity : ℕ) → OrderExecution
a_notice filled_quantity unfilled_quantity = record {
  order_id = 1;
  order_status = executed;
  filled_quantity = filled_quantity;
  unfilled_quantity = unfilled_quantity;
  filled_price = 110_000;
  unit_filled_price = 0;
}

abbrev some_actions : List Action
some_actions =
    execute a_client (an_order 2 sell)
    ∷ notice a_client (execution (a_notice 10 0))
    ∷ execute a_broker_client (an_order 3 buy)
    ∷ cancel 1
    ∷ execute a_client (an_order 4 buy)
    ∷ []

filling-IsInPlace : IsInPlace a_client
unfolding fill
filling-IsInPlace = record {
  same_stock = λ o. refl;
  same_type = λ o. refl;
  same_object = λ o f e. cc;
  kept_or_pending = λ o. inl (refl, λ e. cc);
}

broker-IsInPlace : IsInPlace a_broker_client
broker-IsInPlace = record {
  same_stock = λ o. refl;
  same_type = λ o. refl;
  same_object = λ o f e. cc;
  kept_or_pending = λ o. inr (refl, refl);
}

run_actions-NoneEnded_example :
    NoneEnded
      (run_actions floor a_manager some_actions
        (an_executor ((1, waiting_order) ∷ []))).pending_orders
run_actions-NoneEnded_example =
    run_actions-NoneEnded floor a_manager some_actions (an_executor ((1, waiting_order) ∷ []))
      (filling-IsInPlace, (broker-IsInPlace, (filling-IsInPlace, tt))) (refl, tt)

waiting-IsSole : IsSole ((1, waiting_order) ∷ [])
waiting-IsSole i j o p e f stock side = ground arith

run_actions-IsSole_example :
    IsSole
      (run_actions floor a_manager some_actions
        (an_executor ((1, waiting_order) ∷ []))).pending_orders
run_actions-IsSole_example =
    run_actions-IsSole floor a_manager some_actions (an_executor ((1, waiting_order) ∷ []))
      (filling-IsInPlace, (broker-IsInPlace, (filling-IsInPlace, tt))) (refl, tt) waiting-IsSole

execute_order-refuses_rival_example :
    let (r, s') =
      execute_order floor a_manager a_client
        (an_order 2 buy)
        (an_executor ((1, waiting_order) ∷ [])) in
    (r.success ≡ false)
    × (r.sent ≡ false)
    × (r.message ≢ none)
    × (s' ≡ an_executor ((1, waiting_order) ∷ []))
execute_order-refuses_rival_example =
    execute_order-refuses_rival floor a_manager a_client (an_order 2 buy) waiting_order 1
      (an_executor ((1, waiting_order) ∷ [])) refl refl refl refl

free : (order_id : ℕ) → refused_at_once (an_order order_id buy) (an_executor []) ≡ none
unfolding refused_at_once first_checks validate_order_price price_check check_duplicate
free order_id = refl

may_go :
    (order_id : ℕ)
    → screen floor a_manager a_client (an_order order_id buy) (an_executor []) ≡ passed
unfolding screen screen_account screen_risk screen_price screen_type verdict account_with_retry
    account_from should_stop_trading validate_buy_order check_daily_loss_limit
    check_position_concentration scan_concentration scale start_of_day ◌-ℤ◌ ◌+ℤ◌
    is_daily_loss_limit_exceeded evaluation_amount
may_go order_id = refl

may_go_to_broker :
    (order_id : ℕ)
    → screen floor a_manager a_broker_client (an_order order_id buy) (an_executor []) ≡ passed
unfolding screen screen_account screen_risk screen_price screen_type verdict account_with_retry
    account_from should_stop_trading validate_buy_order check_daily_loss_limit
    check_position_concentration scan_concentration scale start_of_day ◌-ℤ◌ ◌+ℤ◌
    is_daily_loss_limit_exceeded evaluation_amount
may_go_to_broker order_id = refl

overlap_breaks_IsSole_example :
    (x : Calls) × Steps floor a_manager a_client a_client
      (an_order 1 buy)
      (an_order 2 buy)
      (record { first = begun; second = begun; executor = an_executor [] })
      x
    × (x.first ≡ sent)
    × (x.second ≡ sent)
    × (¬ (IsSole x.executor.pending_orders))
overlap_breaks_IsSole_example =
    overlap_breaks_IsSole floor a_manager a_client a_client (an_order 1 buy) (an_order 2 buy)
      (an_executor []) (free 1) (free 2) (may_go 1) (may_go 2) (λ e. absurd (ground (arith, e)))
      refl refl

executed_part-forgets_example :
    let s' =
      handle_order_execution_event floor a_client
        (a_notice 4 6)
        (an_executor ((1, waiting_order) ∷ [])) in
    (get 1 s'.pending_orders ≡ none)
    × (s'.positions ≡ (5, a_position) ∷ [])
    × (handle_order_execution_event floor a_client (a_notice 10 0) s' ≡ s')
executed_part-forgets_example =
    executed_part-forgets floor a_client a_client (a_notice 4 6) (a_notice 10 0) waiting_order
      (an_executor ((1, waiting_order) ∷ [])) refl refl (omega arith) refl

-- A client whose first answer is held back by the rate limit.
abbrev slow : ℕ → Reply Account
slow zero = rate_limit_exceeded
slow (suc n) = reply (an_account 0)

account_with_retry-Ends_example : Ends 3 0 slow (account_with_retry 3 slow)
account_with_retry-Ends_example = account_with_retry-Ends 3 slow

renamed_order-unheard_example :
    let (r, s') = execute_order floor a_manager a_broker_client (an_order 1 buy) (an_executor []) in
    let left = taken (record (an_order 1 buy) { status = submitted; submitted_at = some 9 }) in
    (r.success ≡ true)
    × (get 1 s'.pending_orders ≡ some left)
    × (handle_order_execution_event floor a_client (record (a_notice 10 0) { order_id = 71 }) s'
        ≡ s')
    × ((cancel_order 71 s').0 ≡ false)
    × ((cancel_order 71 s').2 ≡ s')
renamed_order-unheard_example =
    renamed_order-unheard floor a_manager a_broker_client a_client (an_order 1 buy)
      (taken (record (an_order 1 buy) { status = submitted; submitted_at = some 9 }))
      (record (a_notice 10 0) { order_id = 71 }) (an_executor []) (free 1) (may_go_to_broker 1) refl
      refl (λ e. absurd (ground (arith, e))) refl refl
