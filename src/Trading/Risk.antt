-- ===== src/Trading/Risk.antt =====
-- The risk manager (src/services/risk_manager.py). A ratio is a number of millionths, and a product
-- with a ratio a number of millionths of the unit of its other factor.
pub mod Stops
pub mod Triggers
use auto_trading.Prelude.{
  ℕ, suc, ◌+◌, ◌-◌, ◌*◌, Bool, true, false, ◌&&◌, Option, none, some, List, [], ◌∷◌, ltb, leb,
  if◌then◌else◌,
}
use auto_trading.Prelude.Int.{ℤ, pos, negsuc, pos_part, neg_part, sub_ℕ, ◌-ℤ◌, ltb_ℤ}
use auto_trading.Trading.Division.{Division}
use auto_trading.Trading.Models.{
  Account, Position, evaluation_amount, check_stop_loss_triggered, check_take_profit_triggered,
  Message, loss_limit_exceeded, loss_limit_near, concentration_exceeded, stop_trading, both,
}

-- The ratio 1.
abbrev pub one : ℕ
one = 1_000_000

pub record RiskManager : Type 0 where
  pub daily_loss_limit_pct : ℕ
  pub max_position_concentration : ℕ
  pub warning_threshold : ℕ

abbrev is_ratio : ℕ → Bool
is_ratio r = ltb 0 r && leb r one

-- The constructor, which raises ValueError on a ratio that is not in (0, 1].
pub make : (loss concentration warning : ℕ) → Option RiskManager
make loss concentration warning =
    if is_ratio loss && (is_ratio concentration && is_ratio warning)
    then some (record {
      daily_loss_limit_pct = loss;
      max_position_concentration = concentration;
      warning_threshold = warning;
    })
    else none

-- The product of an amount and a ratio.
unfoldable pub scale : ℤ → ℕ → ℤ
scale a r = sub_ℕ (pos_part a * r) (neg_part a * r)

-- The assets at the start of the day, or the assets now where that is not positive.
unfoldable pub start_of_day : Account → ℤ
unfolding ◌-ℤ◌
start_of_day a =
    let start = a.total_asset_value -ℤ a.daily_pnl in
    if ltb_ℤ (pos 0) start then start else a.total_asset_value

unfoldable pub check_daily_loss_limit : RiskManager → Account → Bool × Option Message
unfolding scale
check_daily_loss_limit m a =
    let loss_limit_amount = scale (start_of_day a) m.daily_loss_limit_pct in
    let current_loss = neg_part a.daily_pnl in
    if ltb_ℤ (pos (current_loss * one)) loss_limit_amount
    then (if ltb_ℤ (pos (current_loss * one * one)) (scale loss_limit_amount m.warning_threshold)
        then (false, none)
        else (false, some loss_limit_near))
    else (true, some loss_limit_exceeded)

module _ (v : Division) (m : RiskManager) where
  unfoldable pub scan_concentration : List Position → (total : ℕ) → Bool × Option Message
  scan_concentration [] total = (false, none)
  scan_concentration (p ∷ positions) total =
      if ltb m.max_position_concentration (v.quotient (evaluation_amount p * one) total)
      then (true, some concentration_exceeded)
      else scan_concentration positions total

  -- It raises ValueError, here `none`, where the assets are not positive.
  unfoldable pub check_position_concentration : List Position → ℤ → Option (Bool × Option Message)
  unfolding scan_concentration
  check_position_concentration positions total =
      if ltb_ℤ (pos 0) total then some (scan_concentration positions (pos_part total)) else none

  abbrev pub joined : Option Message → Option Message → Option Message
  joined none none = none
  joined none (some n) = some n
  joined (some n) none = some n
  joined (some n) (some k) = some (both n k)

  warnings : Option Message → Option (Bool × Option Message) → Option (Bool × Option Message)
  warnings loss none = none
  warnings loss (some (_, concentration)) = some (false, joined loss concentration)

  -- `none` is the ValueError of the concentration check.
  unfoldable pub should_stop_trading : Account → List Position → Option (Bool × Option Message)
  unfolding warnings
  should_stop_trading a positions =
      let (exceeded, message) = check_daily_loss_limit m a in
      if exceeded
      then some (true, some (stop_trading loss_limit_exceeded))
      else warnings message (check_position_concentration positions a.total_asset_value)

pub data TriggerAction : Type 0 where
  stop_loss take_profit : TriggerAction

-- A stop-loss goes before a take-profit.
unfoldable pub check_position_trigger : Position → Option TriggerAction
check_position_trigger p =
    if check_stop_loss_triggered p
    then some stop_loss
    else if check_take_profit_triggered p
    then some take_profit
    else none

unfoldable pub monitor_all_positions : List Position → List (Position × TriggerAction)
unfolding check_position_trigger
monitor_all_positions [] = []
monitor_all_positions (p ∷ positions) =
    let rest = monitor_all_positions positions in
    elim (check_position_trigger p) [ none ↦ rest | some action ↦ (p, action) ∷ rest ]
