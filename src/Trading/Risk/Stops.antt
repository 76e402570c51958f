-- ===== src/Trading/Risk/Stops.antt =====
-- When the risk manager of src/services/risk_manager.py stops trading.
use auto_trading.Prelude.{
  ℕ, ◌*◌, ◌≤◌, ◌<◌, ◌≡◌, ◌↔◌, ap, refl, inl, inr, Bool, Bool-cases, true, false, Option, none, some,
  List, [], ◌∷◌, All, arith,
}
use native.Mathlib.Nat.{mul-le-mul, mul-le-mul_right}
use auto_trading.Prelude.Int.{ℤ, pos, negsuc, pos_part, neg_part, ◌+ℤ◌, ◌-ℤ◌, ltb_ℤ, ◌≤ℤ◌, int_laws}
use auto_trading.Trading.Division.{Division}
use auto_trading.Trading.Models.{
  Account, Position, evaluation_amount, Message, stop_trading, loss_limit_exceeded,
}
use auto_trading.Trading.Risk.{
  one, RiskManager, scale, start_of_day, check_daily_loss_limit, scan_concentration,
  check_position_concentration, should_stop_trading, joined,
}

-- A manager that its constructor accepts.
pub record IsValid (m : RiskManager) : Type 0 where
  pub loss_positive : 0 < m.daily_loss_limit_pct
  pub loss_at_most_one : m.daily_loss_limit_pct ≤ one

difference_known : (t d : ℤ) (n : ℕ) → t ≡ pos n +ℤ d → t -ℤ d ≡ pos n
difference_known t d n e = omega (int_laws, ap pos_part e, ap neg_part e)

start_of_day-known :
    (a : Account) (start : ℕ)
    → 0 < start
    → a.total_asset_value ≡ pos start +ℤ a.daily_pnl
    → start_of_day a ≡ pos start
unfolding start_of_day
start_of_day-known a start positive e =
    let known = difference_known a.total_asset_value a.daily_pnl start e in ground arith

-- With positive assets at the start of the day, the check stops trading exactly when the day's loss
-- has reached the limit's share of those assets.
check_daily_loss_limit_iff :
    (m : RiskManager) (a : Account) (start : ℕ)
    → 0 < start
    → a.total_asset_value ≡ pos start +ℤ a.daily_pnl
    → ((check_daily_loss_limit m a).0 ≡ true)
      ↔ (start * m.daily_loss_limit_pct ≤ neg_part a.daily_pnl * one)
unfolding check_daily_loss_limit
check_daily_loss_limit_iff m a start positive e =
    let known = start_of_day-known a start positive e in ground arith

start_of_day-le :
    (a : Account) → a.total_asset_value ≤ℤ pos 0 → start_of_day a ≤ℤ pos (neg_part a.daily_pnl)
unfolding start_of_day
start_of_day-le a broke = ground arith

scale-le : (s : ℤ) (loss r : ℕ) → s ≤ℤ pos loss → r ≤ one → scale s r ≤ℤ pos (loss * one)
unfolding scale
scale-le (pos n) loss r h k = let p = mul-le-mul h k in ground arith
scale-le (negsuc n) loss r h k = ground arith

-- Trading stops whenever the assets are not positive.
stops_when_broke :
    (m : RiskManager) (a : Account)
    → IsValid m
    → a.total_asset_value ≤ℤ pos 0
    → (check_daily_loss_limit m a).0 ≡ true
unfolding check_daily_loss_limit
stops_when_broke m a h broke =
    let bounded =
      scale-le (start_of_day a) (neg_part a.daily_pnl) m.daily_loss_limit_pct
        (start_of_day-le a broke) h.loss_at_most_one in
    ground arith

quotient-le :
    (v : Division) (a d hi : ℕ) → 0 < d → v.fits hi ≡ true → a ≤ hi * d → v.quotient a d ≤ hi
quotient-le v a d hi positive fit above =
    rw (v.exact hi d fit positive) at
      (v.monotone a d (hi * d) d positive positive (mul-le-mul_right d above))

scan_concentration-quiet :
    (v : Division) (m : RiskManager) (positions : List Position) (total : ℕ)
    → 0 < total
    → v.fits m.max_position_concentration ≡ true
    → All (λ p. evaluation_amount p * one ≤ m.max_position_concentration * total) positions
    → scan_concentration v m positions total ≡ (false, none)
unfolding scan_concentration
scan_concentration-quiet v m [] total positive fit small = refl
scan_concentration-quiet v m (p ∷ positions) total positive fit small = ground (
  arith,
  quotient-le v (evaluation_amount p * one) total m.max_position_concentration positive fit small.0,
  scan_concentration-quiet v m positions total positive fit small.1,
)

-- Where the day's loss does not stop trading, the concentration check returns.
concentration_returns :
    (v : Division) (m : RiskManager) (a : Account) (positions : List Position)
    → IsValid m
    → (check_daily_loss_limit m a).0 ≡ false
    → (found : Bool × Option Message) × (check_position_concentration v m positions
          a.total_asset_value
        ≡ some found)
unfolding check_position_concentration
concentration_returns v m a positions h go = elim (Bool-cases (ltb_ℤ (pos 0) a.total_asset_value)) [
  | inl worth ↦ (scan_concentration v m positions (pos_part a.total_asset_value), rw worth)
  | inr broke ↦ absurd (cc (stops_when_broke m a h (ground arith)))
]

-- No false alarm: where every position's value is at most the limit's share of positive assets, and
-- the precision represents the limit, the concentration check returns no warning, however the
-- quotients are rounded.
check_position_concentration-quiet :
    (v : Division) (m : RiskManager) (positions : List Position) (total : ℕ)
    → 0 < total
    → v.fits m.max_position_concentration ≡ true
    → All (λ p. evaluation_amount p * one ≤ m.max_position_concentration * total) positions
    → check_position_concentration v m positions (pos total) ≡ some (false, none)
unfolding check_position_concentration
check_position_concentration-quiet v m positions total positive fit small =
    let quiet = scan_concentration-quiet v m positions total positive fit small in ground arith

-- With a loss limit above 0 and at most 1, a decision to stop or go on is always reached: the ValueError that the concentration check raises
-- on assets that are not positive never leaves `should_stop_trading`, since trading stops before;
-- and it stops exactly when the check of the day's loss says so, whatever the concentration.
pub should_stop_trading-decides :
    (v : Division) (m : RiskManager) (a : Account) (positions : List Position)
    → IsValid m
    → (message : Option Message) × (should_stop_trading v m a positions
        ≡ some ((check_daily_loss_limit m a).0, message))
unfolding should_stop_trading
should_stop_trading-decides v m a positions h = elim (Bool-cases (check_daily_loss_limit m a).0) [
  | inl stop ↦ (some (stop_trading loss_limit_exceeded), rw (stop, should_stop_trading))
  | inr go ↦
      let (found, e) = concentration_returns v m a positions h go in
      (joined v m (check_daily_loss_limit m a).1 found.1, rw (go, should_stop_trading, e))
]
