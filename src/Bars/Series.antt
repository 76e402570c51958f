-- ===== src/Bars/Series.antt =====
-- What the bars of one stock and one interval are to be: a series of ticks, cut at the windows
-- (src/services/minute_bar_collector.py).
use auto_trading.Prelude.{
  ℕ, ◌+◌, ◌*◌, ◌/◌, ◌%◌, ◌≤◌, ◌<◌, ◌≡◌, inl, inr, refl, sym, ap, ◌∙◌, subst, min, max, Option, none,
  some, List, [], ◌∷◌, ◌++◌, length, length-append, sum_of, sum_of-append, All, All-append, leb,
  if◌then◌else◌, Bool-cases, arith,
}
use mathlib.Core.List.{append_assoc, append-nil}
use native.Mathlib.Nat.{div-mul-le_self}
use auto_trading.Bars.{
  TickData, MinuteBar, minute, hour, window_start, window_end, update, open_bar,
}

-- A time lies in its window.
pub window-bounds :
    (t interval : ℕ) → 0 < interval → (window_start t interval ≤ t) × (t < window_end t interval)
unfolding window_start
window-bounds t interval pos =
    let q = t % hour / minute in
    let below = div-mul-le_self q interval in
    let above : q < q / interval * interval + interval = grind arith in
    (omega (arith, below), omega (arith, above))

abbrev pub last_price : TickData → List TickData → ℕ
last_price t [] = t.price
last_price t (u ∷ ticks) = last_price u ticks

abbrev pub greatest_price : TickData → List TickData → ℕ
greatest_price t [] = t.price
greatest_price t (u ∷ ticks) = max t.price (greatest_price u ticks)

abbrev pub least_price : TickData → List TickData → ℕ
least_price t [] = t.price
least_price t (u ∷ ticks) = min t.price (least_price u ticks)

-- The bar sums up these ticks, all of which lie in its window, which is that of the first.
pub record IsBar (interval : ℕ) (b : MinuteBar) (t : TickData) (ticks : List TickData)
    : Type 0 where
  pub starts : b.start_time ≡ window_start t.timestamp interval
  pub ends : b.end_time ≡ window_end t.timestamp interval
  pub opens : b.open_price ≡ t.price
  pub closes : b.close_price ≡ last_price t ticks
  pub highest : b.high_price ≡ greatest_price t ticks
  pub lowest : b.low_price ≡ least_price t ticks
  pub traded : b.volume ≡ sum_of (λ x. x.volume) (t ∷ ticks)
  pub counted : b.tick_count ≡ length (t ∷ ticks)
  pub within : All (λ x. (b.start_time ≤ x.timestamp) × (x.timestamp < b.end_time)) (t ∷ ticks)

greatest_price-snoc :
    (t : TickData) (ticks : List TickData) (x : TickData)
    → greatest_price t (ticks ++ x ∷ []) ≡ max (greatest_price t ticks) x.price
greatest_price-snoc t [] x = refl
greatest_price-snoc t (u ∷ ticks) x = omega (arith, greatest_price-snoc u ticks x)

least_price-snoc :
    (t : TickData) (ticks : List TickData) (x : TickData)
    → least_price t (ticks ++ x ∷ []) ≡ min (least_price t ticks) x.price
least_price-snoc t [] x = refl
least_price-snoc t (u ∷ ticks) x = omega (arith, least_price-snoc u ticks x)

last_price-snoc :
    (t : TickData) (ticks : List TickData) (x : TickData) → last_price t (ticks ++ x ∷ []) ≡ x.price
last_price-snoc t [] x = refl
last_price-snoc t (u ∷ ticks) x = last_price-snoc u ticks x

pub open_bar-IsBar :
    (interval : ℕ) (t : TickData) → 0 < interval → IsBar interval (open_bar interval t) t []
unfolding open_bar
open_bar-IsBar interval t pos = record {
  starts = refl;
  ends = refl;
  opens = refl;
  closes = refl;
  highest = refl;
  lowest = refl;
  traded = omega arith;
  counted = refl;
  within = (window-bounds t.timestamp interval pos, tt);
}

pub update-IsBar :
    (interval : ℕ) (b : MinuteBar) (t : TickData) (ticks : List TickData) (x : TickData)
    → IsBar interval b t ticks
    → b.start_time ≤ x.timestamp
    → x.timestamp < b.end_time
    → IsBar interval (update x b) t (ticks ++ x ∷ [])
unfolding update
update-IsBar interval b t ticks x h late early = record {
  starts = h.starts;
  ends = h.ends;
  opens = h.opens;
  closes = sym (last_price-snoc t ticks x);
  highest = rw (h.highest, greatest_price-snoc t ticks x) refl;
  lowest = rw (h.lowest, least_price-snoc t ticks x) refl;
  traded = omega (arith, h.traded, sum_of-append (λ y. y.volume) ticks (x ∷ []));
  counted = omega (arith, h.counted, length-append ticks (x ∷ []));
  within =
      All-append (λ y. (b.start_time ≤ y.timestamp) × (y.timestamp < b.end_time)) (t ∷ ticks)
        (x ∷ []) h.within ((late, early), tt);
}

-- The bars that are done, and the one that ticks still go into.
pub record Bars : Type 0 where
  pub done : List MinuteBar
  pub current : Option MinuteBar

abbrev pub no_bars : Bars
no_bars = record { done = []; current = none }

-- The next tick of the series.
abbrev pub feed_found : (interval : ℕ) → TickData → Option MinuteBar → Bars → Bars
feed_found interval tick none s = record s { current = some (open_bar interval tick) }
feed_found interval tick (some b) s =
    if leb b.end_time tick.timestamp
    then record { done = s.done ++ b ∷ []; current = some (open_bar interval tick) }
    else record s { current = some (update tick b) }

unfoldable pub feed : (interval : ℕ) → TickData → Bars → Bars
feed interval tick s = feed_found interval tick s.current s

-- A list of ticks, cut into pieces that the bars sum up, in order.
pub data Cut (interval : ℕ) : List TickData → List MinuteBar → Type 0 where
  uncut : Cut interval [] []
  piece :
      {ticks all : List TickData} {bars : List MinuteBar} (b : MinuteBar) (t : TickData)
      (more : List TickData)
      → Cut interval ticks bars
      → IsBar interval b t more
      → all ≡ ticks ++ t ∷ more
      → Cut interval all (bars ++ b ∷ [])

-- The bars of the series sum up these ticks; the last came no later than the time.
pub data Series (interval time : ℕ) (all : List TickData) (s : Bars) : Type 0 where
  fresh : all ≡ [] → s.done ≡ [] → s.current ≡ none → Series interval time all s
  going :
      (ticks more : List TickData) (b : MinuteBar) (t : TickData)
      → Cut interval ticks s.done
      → IsBar interval b t more
      → s.current ≡ some b
      → b.start_time ≤ time
      → all ≡ ticks ++ t ∷ more
      → Series interval time all s

-- The tick comes no earlier than those before it.
pub feed-Series :
    (interval time : ℕ) (all : List TickData) (s : Bars) (x : TickData)
    → 0 < interval
    → time ≤ x.timestamp
    → Series interval time all s
    → Series interval x.timestamp (all ++ x ∷ []) (feed interval x s)
unfolding feed open_bar window_start update
feed-Series interval time all s x pos ordered (fresh e f g) =
    subst (λ c. Series interval x.timestamp (all ++ x ∷ []) (feed_found interval x c s)) (sym g)
      (going [] [] (open_bar interval x) x (subst (λ d. Cut interval [] d) (sym f) uncut)
        (open_bar-IsBar interval x pos) refl (window-bounds x.timestamp interval pos).0
        (ap (λ (l : List TickData). l ++ x ∷ []) e))
feed-Series interval time all s x pos ordered (going ticks more b t cut is cur late e) =
    subst (λ c. Series interval x.timestamp (all ++ x ∷ []) (feed_found interval x c s)) (sym cur)
      (elim (Bool-cases (leb b.end_time x.timestamp)) [
        | inl over ↦ rw over (
            going (ticks ++ t ∷ more) [] (open_bar interval x) x (piece b t more cut is refl)
              (open_bar-IsBar interval x pos) refl (window-bounds x.timestamp interval pos).0
              (ap (λ (l : List TickData). l ++ x ∷ []) e))
        | inr still ↦ rw still (
            going ticks (more ++ x ∷ []) (update x b) t cut
              (update-IsBar interval b t more x is (omega arith) (ground arith)) refl (omega arith)
              (ap (λ (l : List TickData). l ++ x ∷ []) e ∙ append_assoc ticks (t ∷ more) (x ∷ [])))
      ])

-- The series that a list of ticks makes.
unfoldable pub series : (interval : ℕ) → List TickData → Bars → Bars
series interval [] s = s
series interval (x ∷ ticks) s = series interval ticks (feed interval x s)

-- The clock does not go back from one tick to the next.
abbrev pub InOrder : (time : ℕ) → List TickData → Type 0
InOrder time [] = Unit
InOrder time (x ∷ ticks) = (time ≤ x.timestamp) × InOrder x.timestamp ticks

abbrev pub last_time : (time : ℕ) → List TickData → ℕ
last_time time [] = time
last_time time (x ∷ ticks) = last_time x.timestamp ticks

pub series-Series :
    (interval time : ℕ) (ticks all : List TickData) (s : Bars)
    → 0 < interval
    → InOrder time ticks
    → Series interval time all s
    → Series interval (last_time time ticks) (all ++ ticks) (series interval ticks s)
unfolding series
series-Series interval time [] all s pos ordered h =
    subst (λ l. Series interval time l s) (sym (append-nil all)) h
series-Series interval time (x ∷ ticks) all s pos ordered h =
    subst
      (λ l.
        Series interval (last_time x.timestamp ticks) l (series interval ticks (feed interval x s)))
      (append_assoc all (x ∷ []) ticks)
      (series-Series interval x.timestamp ticks (all ++ x ∷ []) (feed interval x s) pos ordered.1
        (feed-Series interval time all s x pos ordered.0 h))
