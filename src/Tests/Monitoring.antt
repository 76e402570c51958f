-- ===== src/Tests/Monitoring.antt =====
-- Rounds of the risk monitor on samples.
use auto_trading.Prelude.{ℕ, ◌+◌, ◌≡◌, refl, true, none, some, [], ◌∷◌, Dict, All}
use auto_trading.Prelude.Int.{◌+ℤ◌, ◌-ℤ◌}
use auto_trading.Trading.Division.{floor}
use auto_trading.Trading.Models.{
  Order, sell, submitted, Position, market, update_price, check_stop_loss_triggered,
  check_take_profit_triggered, evaluation_amount,
}
use auto_trading.Trading.Risk.{
  monitor_all_positions, check_position_trigger, should_stop_trading, check_daily_loss_limit,
  check_position_concentration, scan_concentration, scale, start_of_day,
}
use auto_trading.Trading.Checks.{
  check_duplicate, validate_sell_order, validate_order_price, price_check,
}
use auto_trading.Trading.AccountService.{reply}
use auto_trading.Trading.Simulator.Exchange.{fill}
use auto_trading.Trading.Executor.Positions.{OrderExecutor, Client}
use auto_trading.Trading.Executor.Retry.{account_from, account_with_retry}
use auto_trading.Trading.Executor.Submission.{
  execute_order, refused_at_once, first_checks, screen, screen_account, screen_risk, screen_price,
  screen_type, verdict, passed,
}
use auto_trading.Trading.Monitor.{sell_order, updated, update_all_positions_price, monitor_round}
use auto_trading.Trading.Monitor.Sales.{IsUnsent, monitor_round-waits}
use auto_trading.Trading.Monitor.Repeats.{filled_order-repeats}
use auto_trading.Tests.Samples.{an_order, a_position, an_account, a_manager}

abbrev a_client : Client
a_client = record {
  get_account = λ _. reply (an_account 0);
  get_stock_price = reply 85_000;
  submit_order = λ o. record { order_left = fill 85_000 9 o; answer = reply (fill 85_000 9 o) };
  positions_left = λ o positions. positions;
  price_on_fill = reply 85_000;
  account_on_fill = reply (an_account 0);
  now = 9;
  today = 1;
}

-- The position, with a stop-loss at 90,000.
abbrev guarded : Position
guarded = record a_position { stop_loss_price = some 90_000 }

abbrev an_executor : Dict Order → OrderExecutor
an_executor orders = record {
  pending_orders = orders;
  positions = (5, guarded) ∷ [];
  account_service = record { cached_account = none; daily_pnl_reset_date = none };
}

abbrev a_sale : Order
a_sale = record (an_order 1 sell) { status = submitted; submitted_at = some 5 }

monitor_round-waits_example :
    let (reports, s) =
      monitor_round floor a_manager market
        (λ _. reply 85_000)
        9
        (λ _. a_client)
        (λ n. n + 2)
        (an_executor ((1, a_sale) ∷ [])) in
    All IsUnsent reports
    × (s ≡ record (an_executor ((1, a_sale) ∷ [])) {
      positions = (5, record guarded { current_price = 85_000; updated_at = 9 }) ∷ [];
    })
unfolding update_all_positions_price updated update_price monitor_all_positions
    check_position_trigger check_stop_loss_triggered check_take_profit_triggered
monitor_round-waits_example =
    monitor_round-waits floor a_manager market (λ _. reply 85_000) 9 (λ _. a_client) (λ n. n + 2)
      (an_executor ((1, a_sale) ∷ []))
      (
        record {
          order_id = 1;
          order = a_sale;
          found = refl;
          its_stock = refl;
          its_side = refl;
          going = refl;
        },
        tt,
      )

abbrev a_sell : (order_id : ℕ) → Order
a_sell order_id = sell_order market order_id 9 guarded

free : (order_id : ℕ) → refused_at_once (a_sell order_id) (an_executor []) ≡ none
unfolding refused_at_once first_checks validate_order_price price_check check_duplicate
free order_id = refl

may_go :
    (order_id : ℕ) → screen floor a_manager a_client (a_sell order_id) (an_executor []) ≡ passed
unfolding screen screen_account screen_risk screen_price screen_type verdict account_with_retry
    account_from should_stop_trading validate_sell_order check_daily_loss_limit
    check_position_concentration scan_concentration scale start_of_day ◌-ℤ◌ ◌+ℤ◌ evaluation_amount
may_go order_id = refl

filled_order-repeats_example :
    let (r, s') = execute_order floor a_manager a_client (a_sell 1) (an_executor []) in
    (r.success ≡ true)
    × (s'.positions ≡ (5, guarded) ∷ [])
    × ((execute_order floor a_manager a_client (a_sell 2) s').0.sent ≡ true)
unfolding fill
filled_order-repeats_example =
    filled_order-repeats floor a_manager a_client a_client (a_sell 1) (a_sell 2)
      (fill 85_000 9 (record (a_sell 1) { status = submitted; submitted_at = some 9 })) 85_000
      (an_executor []) (free 1) (free 2) (may_go 1) (may_go 2) refl refl refl refl refl
