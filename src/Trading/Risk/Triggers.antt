-- ===== src/Trading/Risk/Triggers.antt =====
-- The price limits of a position (src/models/position.py) and the triggers that watch them
-- (src/services/risk_manager.py).
use auto_trading.Prelude.{ℕ, ◌≤◌, ◌<◌, ◌≡◌, ◌↔◌, none, some, arith}
use auto_trading.Trading.Models.{
  Position, done, set_stop_loss, set_take_profit, update_price, check_stop_loss_triggered,
  check_take_profit_triggered,
}
use auto_trading.Trading.Risk.{stop_loss, take_profit, check_position_trigger}

-- Once both limits have been accepted at the same price, the triggers exclude one another, and
-- neither fires yet: at any later price the stop-loss fires exactly at or below its limit, the
-- take-profit exactly at or above its own, and nothing exactly between the two.
pub check_position_trigger_iff :
    (p q r : Position) (stop take set_at set_later price now : ℕ)
    → set_stop_loss stop set_at p ≡ done q
    → set_take_profit take set_later q ≡ done r
    → let later = update_price price now r in
      (check_position_trigger r ≡ none)
      × ((check_position_trigger later ≡ some stop_loss) ↔ (price ≤ stop))
      × ((check_position_trigger later ≡ some take_profit) ↔ (take ≤ price))
      × ((check_position_trigger later ≡ none) ↔ ((stop < price) × (price < take)))
unfolding set_stop_loss set_take_profit update_price check_position_trigger
    check_stop_loss_triggered check_take_profit_triggered
check_position_trigger_iff p q r stop take set_at set_later price now e f = ground arith
