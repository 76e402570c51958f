-- ===== src/Bars/Refinement.antt =====
-- The collector makes, for each stock and interval, the series of its ticks
-- (src/services/minute_bar_collector.py).
use auto_trading.Prelude.{
  ℕ, suc, ◌<◌, ◌≡◌, ◌≢◌, ◌⊎◌, inl, inr, refl, sym, ap, ◌∙◌, Bool, true, false, ◌&&◌, Option, none,
  some, List, [], ◌∷◌, ◌++◌, ◌==◌, All, leb, if◌then◌else◌, Bool-cases, Dict, get, put, pop,
  get-put, get-pop, arith,
}
use native.Mathlib.Decide.{ℕ_discrete}
use auto_trading.Bars.{TickData, MinuteBar, update, open_bar}
use auto_trading.Bars.Collector.{
  MinuteBarCollector, bars_at, put_bar, complete_found, complete_bar, update_found, update_bar,
  update_bars,
}
use auto_trading.Bars.Series.{Bars, feed_found, feed}

abbrev pub is_of : (code interval : ℕ) → MinuteBar → Bool
is_of code interval b = (b.stock_code == code) && (b.interval_minutes == interval)

-- The bars of one stock and one interval.
abbrev pub select : (code interval : ℕ) → List MinuteBar → List MinuteBar
select code interval [] = []
select code interval (b ∷ bars) =
    let rest = select code interval bars in if is_of code interval b then b ∷ rest else rest

-- What a collector holds for one stock and one interval.
abbrev pub view : (code interval : ℕ) → MinuteBarCollector → Bars
view code interval s = record {
  done = select code interval s.completed_bars;
  current = get interval (bars_at code s.active_bars);
}

-- A bar stands under its stock and its interval.
abbrev pub IsKeyed : MinuteBarCollector → Type 0
IsKeyed s =
    (code interval : ℕ) (b : MinuteBar)
    → get interval (bars_at code s.active_bars) ≡ some b
    → (b.stock_code ≡ code) × (b.interval_minutes ≡ interval)

pub select-snoc :
    (code interval : ℕ) (bars : List MinuteBar) (b : MinuteBar)
    → select code interval (bars ++ b ∷ []) ≡ (
        if is_of code interval b
        then select code interval bars ++ b ∷ []
        else select code interval bars)
select-snoc code interval [] b = ground arith
select-snoc code interval (x ∷ bars) b = ground (arith, select-snoc code interval bars b)

pub Bars-path : {s t : Bars} → s.done ≡ t.done → s.current ≡ t.current → s ≡ t
Bars-path p q = λ i. record { done = p i; current = q i }

-- What an assignment to a stock's bars shows under each key.
assigned :
    (code c i : ℕ) (d : Dict MinuteBar) (active : Dict (Dict MinuteBar))
    → get i (bars_at c (put code d active))
      ≡ (if code == c then get i d else get i (bars_at c active))
assigned code c i d active = ground (arith, get-put c code d active)

-- A bar that is put shows under its key alone.
put_bar-current :
    (code interval c i : ℕ) (b : MinuteBar) (s : MinuteBarCollector)
    → get i (bars_at c (put_bar code interval b s).active_bars)
      ≡ (if (code == c) && (interval == i) then some b else get i (bars_at c s.active_bars))
unfolding put_bar
put_bar-current code interval c i b s =
    let bars = bars_at code s.active_bars in
    assigned code c i (put interval b bars) s.active_bars ∙ elim (ℕ_discrete code c) [
      | yes same ↦
          let moved : get i bars ≡ get i (bars_at c s.active_bars) =
            ap (λ k. get i (bars_at k s.active_bars)) same in
          ground (arith, get-put i interval b bars, moved)
      | no differs ↦ ground arith
    ]

pub complete-current :
    (code interval c i : ℕ) (b : MinuteBar) (s : MinuteBarCollector)
    → get i (bars_at c (complete_found (some b) code interval s).active_bars)
      ≡ (if (code == c) && (interval == i) then none else get i (bars_at c s.active_bars))
unfolding complete_found
complete-current code interval c i b s =
    let bars = bars_at code s.active_bars in
    assigned code c i (pop interval bars) s.active_bars ∙ elim (ℕ_discrete code c) [
      | yes same ↦
          let moved : get i bars ≡ get i (bars_at c s.active_bars) =
            ap (λ k. get i (bars_at k s.active_bars)) same in
          ground (arith, get-pop i interval bars, moved)
      | no differs ↦ ground arith
    ]

-- A tick for that stock and interval.
update_found-view :
    (found : Option MinuteBar) (interval : ℕ) (tick : TickData) (s : MinuteBarCollector)
    → get interval (bars_at tick.stock_code s.active_bars) ≡ found
    → IsKeyed s
    → view tick.stock_code interval (update_found found interval tick s)
      ≡ feed_found interval tick found (view tick.stock_code interval s)
unfolding update_found complete_bar complete_found put_bar
update_found-view none interval tick s e k = Bars-path refl (
    put_bar-current tick.stock_code interval tick.stock_code interval (open_bar interval tick) s
    ∙ ground arith)
update_found-view (some b) interval tick s e k = elim (Bool-cases (leb b.end_time tick.timestamp)) [
  | inl over ↦
      let code = tick.stock_code in
      let completed : complete_bar code interval s ≡ complete_found (some b) code interval s =
        ap (λ r. complete_found r code interval s) e in
      let (its_code, its_interval) = k code interval b e in
      rw over (
        Bars-path
          (ap (λ x. select code interval x.completed_bars) completed
            ∙ select-snoc code interval s.completed_bars b
            ∙ ground (arith, its_code, its_interval))
          (put_bar-current code interval code interval (open_bar interval tick)
              (complete_bar code interval s)
            ∙ ground arith))
  | inr still ↦ rw still (
      Bars-path refl (
        put_bar-current tick.stock_code interval tick.stock_code interval (update tick b) s
        ∙ ground arith))
]

-- A tick for another stock or another interval.
update_found_other :
    (found : Option MinuteBar) (interval : ℕ) (tick : TickData) (s : MinuteBarCollector) (c i : ℕ)
    → get interval (bars_at tick.stock_code s.active_bars) ≡ found
    → IsKeyed s
    → ((tick.stock_code == c) && (interval == i)) ≡ false
    → view c i (update_found found interval tick s) ≡ view c i s
unfolding update_found complete_bar complete_found put_bar
update_found_other none interval tick s c i e k other =
    Bars-path refl
      (put_bar-current tick.stock_code interval c i (open_bar interval tick) s ∙ rw other refl)
update_found_other (some b) interval tick s c i e k other =
    elim (Bool-cases (leb b.end_time tick.timestamp)) [
      | inl over ↦
          let code = tick.stock_code in
          let completed : complete_bar code interval s ≡ complete_found (some b) code interval s =
            ap (λ r. complete_found r code interval s) e in
          let (its_code, its_interval) = k code interval b e in
          rw over (
            Bars-path
              (ap (λ x. select c i x.completed_bars) completed
                ∙ select-snoc c i s.completed_bars b
                ∙ ground (arith, its_code, its_interval, other))
              (put_bar-current code interval c i (open_bar interval tick)
                  (complete_bar code interval s)
                ∙ rw other (
                    ap (λ x. get i (bars_at c x.active_bars)) completed
                    ∙ complete-current code interval c i b s
                    ∙ rw other refl)))
      | inr still ↦ rw still (
          Bars-path refl
            (put_bar-current tick.stock_code interval c i (update tick b) s ∙ rw other refl))
    ]

-- The bar that a tick leaves in its series is of the tick's stock.
feed_found_keyed :
    (found : Option MinuteBar) (interval : ℕ) (tick : TickData) (v : Bars) (b : MinuteBar)
    → ((x : MinuteBar)
        → found ≡ some x
        → (x.stock_code ≡ tick.stock_code) × (x.interval_minutes ≡ interval))
    → (feed_found interval tick found v).current ≡ some b
    → (b.stock_code ≡ tick.stock_code) × (b.interval_minutes ≡ interval)
unfolding open_bar update
feed_found_keyed none interval tick v b k e = ground (arith, e)
feed_found_keyed (some x) interval tick v b k e = ground (arith, e, k x refl)

update_bar-IsKeyed :
    (interval : ℕ) (tick : TickData) (s : MinuteBarCollector)
    → IsKeyed s
    → IsKeyed (update_bar interval tick s)
unfolding update_bar
update_bar-IsKeyed interval tick s k c i b e =
    elim (Bool-cases ((tick.stock_code == c) && (interval == i))) [
      | inr other ↦ k c i b (
          sym (ap (λ x. x.current) (update_found_other found interval tick s c i refl k other)) ∙ e)
      | inl here ↦
          let code : tick.stock_code ≡ c = ground arith in
          let its_interval : interval ≡ i = ground arith in
          let e' : get interval (bars_at tick.stock_code (update_bar interval tick s).active_bars)
              ≡ some b =
            ap (λ x. get interval (bars_at x (update_bar interval tick s).active_bars)) code
            ∙ ap (λ x. get x (bars_at c (update_bar interval tick s).active_bars)) its_interval
            ∙ e in
          let (p, q) =
            feed_found_keyed found interval tick (view tick.stock_code interval s) b
              (k tick.stock_code interval)
              (sym (ap (λ x. x.current) (update_found-view found interval tick s refl k)) ∙ e') in
          (p ∙ code, q ∙ its_interval)
    ]
  where
    found : Option MinuteBar
    found = get interval (bars_at tick.stock_code s.active_bars)

abbrev pub times : ℕ → List ℕ → ℕ
times i [] = 0
times i (j ∷ intervals) = if j == i then suc (times i intervals) else times i intervals

-- All the intervals of a tick: those that are another's leave a series alone.
pub update_bars_others :
    (intervals : List ℕ) (tick : TickData) (s : MinuteBarCollector) (c i : ℕ)
    → All (λ j. 0 < j) intervals
    → IsKeyed s
    → (tick.stock_code ≢ c) ⊎ (times i intervals ≡ 0)
    → let (done, s') = update_bars intervals tick s in
      (done ≡ true) × IsKeyed s' × (view c i s' ≡ view c i s)
unfolding update_bars update_bar
update_bars_others [] tick s c i pos k other = (refl, k, refl)
update_bars_others (j ∷ intervals) tick s c i pos k other =
    let nonzero : (j == 0) ≡ false = ground (arith, pos.0) in
    let apart : ((tick.stock_code == c) && (j == i)) ≡ false = ground (arith, other) in
    let other' : (tick.stock_code ≢ c) ⊎ (times i intervals ≡ 0) = ground (arith, other) in
    let found = get j (bars_at tick.stock_code s.active_bars) in
    let (done, keyed, rest) =
      update_bars_others intervals tick (update_bar j tick s) c i pos.1
        (update_bar-IsKeyed j tick s k) other' in
    rw nonzero (done, keyed, rest ∙ update_found_other found j tick s c i refl k apart)

pub update_bars-view :
    (intervals : List ℕ) (tick : TickData) (s : MinuteBarCollector) (i : ℕ)
    → All (λ j. 0 < j) intervals
    → IsKeyed s
    → times i intervals ≡ 1
    → let (done, s') = update_bars intervals tick s in
      (done ≡ true)
      × IsKeyed s'
      × (view tick.stock_code i s' ≡ feed i tick (view tick.stock_code i s))
unfolding update_bars update_bar feed
update_bars-view [] tick s i pos k once = absurd (ground arith)
update_bars-view (j ∷ intervals) tick s i pos k once =
    let code = tick.stock_code in
    let nonzero : (j == 0) ≡ false = ground (arith, pos.0) in
    let found = get j (bars_at code s.active_bars) in
    let s' = update_bar j tick s in
    let keyed = update_bar-IsKeyed j tick s k in
    rw nonzero (elim (ℕ_discrete j i) [
      | yes here ↦
          let (done, keyed', rest) =
            update_bars_others intervals tick s' code i pos.1 keyed (inr (ground arith)) in
          let fed : view code i s' ≡ feed i tick (view code i s) =
            ap (λ x. view code x s') (sym here)
            ∙ update_found-view found j tick s refl k
            ∙ ap (λ x. feed x tick (view code x s)) here in
          (done, keyed', rest ∙ fed)
      | no elsewhere ↦
          let apart : ((code == code) && (j == i)) ≡ false = ground arith in
          let (done, keyed', fed) =
            update_bars-view intervals tick s' i pos.1 keyed (ground arith) in
          (
            done,
            keyed',
            fed ∙ ap (λ x. feed i tick x) (update_found_other found j tick s code i refl k apart),
          )
    ])
