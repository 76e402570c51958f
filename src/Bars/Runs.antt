-- ===== src/Bars/Runs.antt =====
-- A collector that processes many ticks (src/services/minute_bar_collector.py).
use auto_trading.Prelude.{
  ℕ, ◌≤◌, ◌<◌, ◌≡◌, inl, inr, refl, sym, ap, ◌∙◌, subst, true, false, Option, List, [], ◌∷◌, ◌==◌,
  All, if◌then◌else◌, Bool-cases, arith,
}
use native.Mathlib.Decide.{ℕ_discrete}
use auto_trading.Bars.{TickData}
use auto_trading.Bars.Collector.{
  MinuteBarCollector, start, put_bar, complete_found, complete_bar, update_found, update_bar,
  update_bars, process_tick,
}
use auto_trading.Bars.Series.{
  feed, series, no_bars, InOrder, last_time, Series, fresh, series-Series,
}
use auto_trading.Bars.Refinement.{view, IsKeyed, times, update_bars_others, update_bars-view}

-- The intervals themselves are never changed.
update_bars-supported_intervals :
    (intervals : List ℕ) (tick : TickData) (s : MinuteBarCollector)
    → (update_bars intervals tick s).1.supported_intervals ≡ s.supported_intervals
unfolding update_bars update_bar update_found complete_bar complete_found put_bar
update_bars-supported_intervals [] tick s = refl
update_bars-supported_intervals (j ∷ intervals) tick s =
    let kept : (update_bar j tick s).supported_intervals ≡ s.supported_intervals = ground arith in
    elim (Bool-cases (j == 0)) [
      | inl zero_interval ↦ rw zero_interval refl
      | inr nonzero ↦
          rw nonzero (update_bars-supported_intervals intervals tick (update_bar j tick s) ∙ kept)
    ]

unfoldable pub process_ticks : List TickData → MinuteBarCollector → MinuteBarCollector
unfolding process_tick
process_ticks [] s = s
process_ticks (tick ∷ ticks) s = process_ticks ticks (process_tick tick s)

-- The ticks of one stock.
abbrev pub ticks_of : ℕ → List TickData → List TickData
ticks_of code [] = []
ticks_of code (t ∷ ticks) =
    let rest = ticks_of code ticks in if t.stock_code == code then t ∷ rest else rest

process_tick-view :
    (tick : TickData) (s : MinuteBarCollector) (code i : ℕ)
    → All (λ j. 0 < j) s.supported_intervals
    → IsKeyed s
    → times i s.supported_intervals ≡ 1
    → let s' = process_tick tick s in
      IsKeyed s'
      × (s'.supported_intervals ≡ s.supported_intervals)
      × (view code i s'
          ≡ (if tick.stock_code == code then feed i tick (view code i s) else view code i s))
unfolding process_tick
process_tick-view tick s code i pos k once = elim (ℕ_discrete tick.stock_code code) [
  | yes same ↦
      let (done, keyed, fed) = update_bars-view intervals tick s i pos k once in
      let its : (tick.stock_code == code) ≡ true = ground arith in
      rw (done, its) (keyed, kept, subst (λ c. view c i s' ≡ feed i tick (view c i s)) same fed)
  | no differs ↦
      let (done, keyed, alone) = update_bars_others intervals tick s code i pos k (inl differs) in
      let others : (tick.stock_code == code) ≡ false = ground arith in
      rw (done, others) (keyed, kept, alone)
]
  where
    intervals : List ℕ
    intervals = s.supported_intervals

    s' : MinuteBarCollector
    s' = (update_bars intervals tick s).1

    kept : s'.supported_intervals ≡ s.supported_intervals
    kept = update_bars-supported_intervals intervals tick s

pub process_ticks-view :
    (ticks : List TickData) (s : MinuteBarCollector) (code i : ℕ)
    → All (λ j. 0 < j) s.supported_intervals
    → IsKeyed s
    → times i s.supported_intervals ≡ 1
    → view code i (process_ticks ticks s) ≡ series i (ticks_of code ticks) (view code i s)
unfolding process_ticks series
process_ticks-view [] s code i pos k once = refl
process_ticks-view (tick ∷ ticks) s code i pos k once =
    let (keyed, kept, seen) = process_tick-view tick s code i pos k once in
    process_ticks-view ticks (process_tick tick s) code i
      (subst (λ l. All (λ j. 0 < j) l) (sym kept) pos) keyed
      (subst (λ l. times i l ≡ 1) (sym kept) once)
    ∙ elim (Bool-cases (tick.stock_code == code)) [
      | inl its ↦ rw its (ap (series i (ticks_of code ticks)) (seen ∙ rw its refl))
      | inr others ↦ rw others (ap (series i (ticks_of code ticks)) (seen ∙ rw others refl))
    ]

pub process_ticks-IsKeyed :
    (ticks : List TickData) (s : MinuteBarCollector) (code i : ℕ)
    → All (λ j. 0 < j) s.supported_intervals
    → IsKeyed s
    → times i s.supported_intervals ≡ 1
    → IsKeyed (process_ticks ticks s)
unfolding process_ticks
process_ticks-IsKeyed [] s code i pos k once = k
process_ticks-IsKeyed (tick ∷ ticks) s code i pos k once =
    let (keyed, kept, seen) = process_tick-view tick s code i pos k once in
    process_ticks-IsKeyed ticks (process_tick tick s) code i
      (subst (λ l. All (λ j. 0 < j) l) (sym kept) pos) keyed
      (subst (λ l. times i l ≡ 1) (sym kept) once)

InOrder-earlier :
    (time later : ℕ) (ticks : List TickData)
    → time ≤ later
    → InOrder later ticks
    → InOrder time ticks
InOrder-earlier time later [] before ordered = tt
InOrder-earlier time later (x ∷ ticks) before ordered =
    (omega (arith, before, ordered.0), ordered.1)

ticks_of-InOrder :
    (code time : ℕ) (ticks : List TickData)
    → InOrder time ticks
    → InOrder time (ticks_of code ticks)
ticks_of-InOrder code time [] ordered = tt
ticks_of-InOrder code time (x ∷ ticks) ordered = elim (Bool-cases (x.stock_code == code)) [
  | inl its ↦ rw its (ordered.0, ticks_of-InOrder code x.timestamp ticks ordered.1)
  | inr others ↦ rw others (
      InOrder-earlier time x.timestamp (ticks_of code ticks) ordered.0
        (ticks_of-InOrder code x.timestamp ticks ordered.1))
]

times-above :
    (i : ℕ) (intervals : List ℕ) → All (λ j. 0 < j) intervals → times i intervals ≡ 1 → 0 < i
times-above i [] pos once = absurd (ground arith)
times-above i (j ∷ intervals) pos once = elim (ℕ_discrete j i) [
  | yes here ↦ omega (arith, pos.0, here)
  | no elsewhere ↦ times-above i intervals pos.1 (ground arith)
]

-- A collector that has just been made, over distinct intervals above zero, is fed ticks whose
-- times never go back. Then for each stock and each of the intervals, the completed bars and the
-- active one cut the stock's own ticks into pieces, in order and without a gap: each bar has
-- its piece's first and last price as open and close, its greatest and least as high and low,
-- its total volume and count, and a window that all the piece's ticks lie in.
pub process_ticks-Series :
    (intervals : Option (List ℕ)) (ticks : List TickData) (code i : ℕ)
    → All (λ j. 0 < j) (start intervals).supported_intervals
    → times i (start intervals).supported_intervals ≡ 1
    → InOrder 0 ticks
    → Series i
        (last_time 0 (ticks_of code ticks))
        (ticks_of code ticks)
        (view code i (process_ticks ticks (start intervals)))
process_ticks-Series intervals ticks code i pos once ordered =
    subst (λ v. Series i (last_time 0 (ticks_of code ticks)) (ticks_of code ticks) v)
      (sym (process_ticks-view ticks (start intervals) code i pos (λ c j b e. ground arith) once))
      (series-Series i 0 (ticks_of code ticks) [] no_bars
        (times-above i (start intervals).supported_intervals pos once)
        (ticks_of-InOrder code 0 ticks ordered) (fresh refl refl refl))
