-- ===== src/Strategies/Vwap.antt =====
-- The strategy on the volume-weighted average price (src/strategies/vwap_deviation.py), with a period
-- above zero.
use auto_trading.Prelude.{
  ℕ, ◌+◌, ◌*◌, ◌≤◌, ◌<◌, ◌≡◌, refl, Bool, false, ◌||◌, Option, none, some, List, [], ◌∷◌, length,
  sum_of, All, ◌==◌, ltb, if◌then◌else◌, Dict, arith,
}
use auto_trading.Prelude.Int.{ℤ, pos}
use native.Mathlib.Nat.{mul-le-mul_right}
use auto_trading.Trading.Division.{
  Division, rounded, quotient_bounds, rounded_bounds, FitsUpTo, FitsUpTo-self,
}
use auto_trading.Trading.Models.{Position}
use auto_trading.Trading.Risk.{one}
use auto_trading.Engine.{Stock, BaseStrategy}
use auto_trading.Strategies.{leb_ℤ, neg, signed_ratio, exits, shares, or_none}
use auto_trading.Strategies.Charts.{ChartData, chart_of, last_of}

pub record VwapDeviation : Type 0 where
  pub buy_threshold : ℕ
  pub sell_threshold : ℕ
  pub vwap_period : ℕ
  pub target_profit_pct : ℕ
  pub stop_loss_pct : ℕ
  pub chart_data_cache : Dict (List ChartData)

abbrev pub total_volume : List ChartData → ℕ
total_volume chart = sum_of (λ x. x.volume) chart

module _ (v : Division) where
  abbrev pub typical_price : ChartData → ℕ
  typical_price x =
      v.quotient (rounded v (rounded v (x.high_price + x.low_price) + x.close_price)) 3

  -- The loop, from the sum so far.
  abbrev pub weighted_from : (total : ℕ) → List ChartData → ℕ
  weighted_from total [] = total
  weighted_from total (x ∷ chart) =
      weighted_from (rounded v (total + rounded v (typical_price x * x.volume))) chart

  abbrev pub weighted_sum : List ChartData → ℕ
  weighted_sum chart = weighted_from 0 chart

  unfoldable pub calculate_vwap : (vwap_period : ℕ) → List ChartData → Option ℕ
  calculate_vwap vwap_period chart =
      let recent = last_of vwap_period chart in
      if ltb (length chart) vwap_period
      then none
      else if total_volume recent == 0
      then none
      else some (v.quotient (weighted_sum recent) (total_volume recent))

  unfoldable pub calculate_deviation : (current_price vwap : ℕ) → ℤ
  unfolding signed_ratio
  calculate_deviation current_price vwap =
      if vwap == 0 then pos 0 else signed_ratio v current_price vwap vwap

  abbrev pub deviates : (ℤ → Bool) → (current_price : ℕ) → Option ℕ → Bool
  deviates test current_price none = false
  deviates test current_price (some vwap) = test (calculate_deviation current_price vwap)

  unfoldable pub vwap_signal : (ℤ → Bool) → VwapDeviation → Stock → Bool
  unfolding calculate_vwap calculate_deviation
  vwap_signal test s stock =
      let chart = chart_of stock.stock_code s.chart_data_cache in
      if ltb (length chart) s.vwap_period
      then false
      else deviates test stock.current_price (calculate_vwap s.vwap_period chart)

  unfoldable pub vwap_buy : VwapDeviation → Stock → Bool
  unfolding vwap_signal
  vwap_buy s stock = vwap_signal (λ deviation. leb_ℤ deviation (neg s.buy_threshold)) s stock

  unfoldable pub vwap_sell : VwapDeviation → Position → Stock → Bool
  unfolding vwap_signal
  vwap_sell s p stock =
      exits v s.stop_loss_pct s.target_profit_pct p
      || vwap_signal (λ deviation. leb_ℤ (pos s.sell_threshold) deviation) s stock

  unfoldable pub vwap_size : VwapDeviation → Stock → (available : ℤ) → Option ℤ
  unfolding shares
  vwap_size s stock available =
      if stock.current_price == 0
      then none
      else or_none (shares v available one stock.current_price)

  -- What the engine calls.
  abbrev pub vwap_deviation : BaseStrategy VwapDeviation
  vwap_deviation = record {
    evaluate_buy_signal = λ s stock. some (vwap_buy s stock);
    evaluate_sell_signal = λ s p stock. some (vwap_sell s p stock);
    calculate_position_size = λ s stock available. some (vwap_size s stock available);
  }

  abbrev pub Between : (lo hi : ℕ) → ChartData → Type 0
  Between lo hi x =
      (lo ≤ x.high_price)
      × (x.high_price ≤ hi)
      × (lo ≤ x.low_price)
      × (x.low_price ≤ hi)
      × (lo ≤ x.close_price)
      × (x.close_price ≤ hi)

  typical_price-bounds :
      (lo hi count : ℕ) (x : ChartData)
      → 3 ≤ count
      → FitsUpTo v count lo
      → FitsUpTo v count hi
      → Between lo hi x
      → (lo ≤ typical_price x) × (typical_price x ≤ hi)
  typical_price-bounds lo hi count x three flo fhi h =
      let (p, p') =
        rounded_bounds v (x.high_price + x.low_price) (lo * 2) (hi * 2)
          (flo 2 (omega (arith, three))) (fhi 2 (omega (arith, three))) (omega (arith, h))
          (omega (arith, h)) in
      let (q, q') =
        rounded_bounds v (rounded v (x.high_price + x.low_price) + x.close_price) (lo * 3) (hi * 3)
          (flo 3 three) (fhi 3 three) (omega (arith, h, p)) (omega (arith, h, p')) in
      quotient_bounds v _ 3 lo hi (omega arith)
        (FitsUpTo-self v lo count (omega (arith, three)) flo)
        (FitsUpTo-self v hi count (omega (arith, three)) fhi) q q'

  weighted_from-bounds :
      (lo hi count volume total : ℕ) (chart : List ChartData)
      → 3 ≤ count
      → volume + total_volume chart ≤ count
      → FitsUpTo v count lo
      → FitsUpTo v count hi
      → lo * volume ≤ total
      → total ≤ hi * volume
      → All (Between lo hi) chart
      → (lo * (volume + total_volume chart) ≤ weighted_from total chart)
        × (weighted_from total chart ≤ hi * (volume + total_volume chart))
  weighted_from-bounds lo hi count volume total [] three within flo fhi a b h =
      (omega (arith, a), omega (arith, b))
  weighted_from-bounds lo hi count volume total (x ∷ chart) three within flo fhi a b (h, k) =
      let (t, t') = typical_price-bounds lo hi count x three flo fhi h in
      let (p, p') =
        rounded_bounds v (typical_price x * x.volume) (lo * x.volume) (hi * x.volume)
          (flo x.volume (omega (arith, within))) (fhi x.volume (omega (arith, within)))
          (mul-le-mul_right x.volume t) (mul-le-mul_right x.volume t') in
      let next = total + rounded v (typical_price x * x.volume) in
      let (q, q') =
        rounded_bounds v next (lo * (volume + x.volume)) (hi * (volume + x.volume))
          (flo (volume + x.volume) (omega (arith, within)))
          (fhi (volume + x.volume) (omega (arith, within))) (omega (arith, a, p))
          (omega (arith, b, p')) in
      let (c, c') =
        weighted_from-bounds lo hi count (volume + x.volume) (rounded v next) chart three
          (omega (arith, within)) flo fhi q q' k in
      (omega (arith, c), omega (arith, c'))

  -- The average price, where there is one, lies between any two bounds of all the prices of the
  -- period whose multiples, up to the volume of the period and three more, the precision of the
  -- context represents, as it does whole won; and there is one as soon as the period's data are
  -- there and anything at all was traded. Every sum, product and quotient on the way is rounded.
  pub calculate_vwap-bounds :
      (vwap_period lo hi : ℕ) (chart : List ChartData)
      → vwap_period ≤ length chart
      → 0 < total_volume (last_of vwap_period chart)
      → FitsUpTo v (3 + total_volume (last_of vwap_period chart)) lo
      → FitsUpTo v (3 + total_volume (last_of vwap_period chart)) hi
      → All (Between lo hi) (last_of vwap_period chart)
      → (vwap : ℕ) × (calculate_vwap vwap_period chart ≡ some vwap) × (lo ≤ vwap) × (vwap ≤ hi)
  unfolding calculate_vwap
  calculate_vwap-bounds vwap_period lo hi chart enough traded flo fhi between =
      let recent = last_of vwap_period chart in
      let count = 3 + total_volume recent in
      let (below, above) =
        weighted_from-bounds lo hi count 0 0 recent (omega arith) (omega arith) flo fhi
          (omega arith) (omega arith) between in
      let bounds =
        quotient_bounds v (weighted_sum recent) (total_volume recent) lo hi traded
          (FitsUpTo-self v lo count (omega arith) flo) (FitsUpTo-self v hi count (omega arith) fhi)
          (omega (arith, below)) (omega (arith, above)) in
      let enough' : ltb (length chart) vwap_period ≡ false = ground (arith, enough) in
      let traded' : (total_volume recent == 0) ≡ false = ground (arith, traded) in
      (
        v.quotient (weighted_sum recent) (total_volume recent),
        rw (enough', calculate_vwap, traded') refl,
        bounds.0,
        bounds.1,
      )
