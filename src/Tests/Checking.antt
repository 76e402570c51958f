-- ===== src/Tests/Checking.antt =====
-- The checks of orders, positions and risks on samples.
use auto_trading.Prelude.{◌≤◌, ◌<◌, ◌≡◌, ◌↔◌, refl, Option, none, some, [], ◌∷◌, Dict, arith}
use auto_trading.Prelude.Int.{pos, ◌-ℤ◌}
use auto_trading.Trading.Division.{floor}
use auto_trading.Trading.Models.{
  Order, buy, Position, Account, add_quantity, set_stop_loss, set_take_profit, update_price,
  Message,
}
use auto_trading.Trading.Models.Positions.Averages.{add_quantity-between}
use auto_trading.Trading.Risk.{
  check_daily_loss_limit, should_stop_trading, check_position_trigger, stop_loss, take_profit,
}
use auto_trading.Trading.Risk.Stops.{should_stop_trading-decides}
use auto_trading.Trading.Risk.Triggers.{check_position_trigger_iff}
use auto_trading.Tests.Samples.{an_order, a_position, an_account, a_manager}

abbrev one_order : Dict Order
one_order = (1, an_order 1 buy) ∷ []

add_quantity-between_example :
    let p' = add_quantity floor 5 130_000 0 a_position in
    (p'.quantity ≡ 25) × (100_000 ≤ p'.average_buy_price) × (p'.average_buy_price ≤ 130_000)
add_quantity-between_example =
    add_quantity-between floor 5 130_000 0 100_000 130_000 a_position (omega arith) (λ k h. refl)
      (λ k h. refl) (omega arith) (omega arith) (omega arith) (omega arith)

-- With a stop-loss at 90,000 and a take-profit at 130,000.
abbrev guarded : Position
guarded = record a_position {
  stop_loss_price = some 90_000;
  take_profit_price = some 130_000;
  updated_at = 2;
}

check_position_trigger_iff_example :
    let later = update_price 85_000 3 guarded in
    (check_position_trigger guarded ≡ none)
    × ((check_position_trigger later ≡ some stop_loss) ↔ (85_000 ≤ 90_000))
    × ((check_position_trigger later ≡ some take_profit) ↔ (130_000 ≤ 85_000))
    × ((check_position_trigger later ≡ none) ↔ ((90_000 < 85_000) × (85_000 < 130_000)))
unfolding set_stop_loss set_take_profit
check_position_trigger_iff_example =
    check_position_trigger_iff a_position
      (record a_position { stop_loss_price = some 90_000; updated_at = 1 }) guarded 90_000 130_000 1
      2 85_000 3 refl refl

-- The account after a loss of 600,000 from 10,600,000.
abbrev a_loser : Account
a_loser = record (an_account 0) { daily_pnl = pos 0 -ℤ pos 600_000 }

should_stop_trading-decides_example :
    (message : Option Message) × (should_stop_trading floor a_manager a_loser (a_position ∷ [])
      ≡ some ((check_daily_loss_limit a_manager a_loser).0, message))
should_stop_trading-decides_example =
    should_stop_trading-decides floor a_manager a_loser (a_position ∷ [])
      (record { loss_positive = omega arith; loss_at_most_one = omega arith })
