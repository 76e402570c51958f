-- ===== src/Bars/Closing.antt =====
-- What the end of a collector leaves (`_complete_all_bars` of src/services/minute_bar_collector.py).
use auto_trading.Prelude.{
  ℕ, ◌<◌, ◌≡◌, refl, sym, ap, ◌∙◌, subst, Bool, true, false, ◌&&◌, ◌||◌, Option, none, some, List,
  [], ◌∷◌, ◌++◌, ◌==◌, All, Bool-cases, inl, inr, Dict, get, keys, arith,
}
use auto_trading.Bars.{TickData, MinuteBar}
use auto_trading.Bars.Collector.{
  MinuteBarCollector, start, bars_at, complete_found, complete_bar, complete_intervals,
  complete_stocks, complete_all_bars,
}
use auto_trading.Bars.Series.{Bars, Series, fresh, going, Cut, uncut, piece, InOrder, last_time}
use auto_trading.Bars.Refinement.{view, IsKeyed, select-snoc, Bars-path, complete-current, times}
use auto_trading.Bars.Runs.{process_ticks, process_ticks-Series, process_ticks-IsKeyed, ticks_of}

-- The bar that was open is done.
abbrev pub finish_of : Option MinuteBar → Bars → Bars
finish_of none s = s
finish_of (some b) s = record { done = s.done ++ b ∷ []; current = none }

abbrev pub finish : Bars → Bars
finish s = finish_of s.current s

abbrev pub finish_if : Bool → Bars → Bars
finish_if true s = finish s
finish_if false s = s

abbrev pub is_in : ℕ → List ℕ → Bool
is_in k [] = false
is_in k (x ∷ xs) = (x == k) || is_in k xs

finish_if-again : (a b : Bool) (s : Bars) → finish_if b (finish_if a s) ≡ finish_if (a || b) s
finish_if-again true true s = twice s.current refl
  where
    twice : (o : Option MinuteBar) → s.current ≡ o → finish (finish_of o s) ≡ finish_of o s
    twice none is = ap (λ x. finish_of x s) is
    twice (some b) is = refl
finish_if-again true false s = refl
finish_if-again false true s = refl
finish_if-again false false s = refl

complete_found-view :
    (found : Option MinuteBar) (code interval c i : ℕ) (s : MinuteBarCollector)
    → get interval (bars_at code s.active_bars) ≡ found
    → IsKeyed s
    → view c i (complete_found found code interval s)
      ≡ finish_if ((code == c) && (interval == i)) (view c i s)
unfolding complete_found
complete_found-view found code interval c i s is k =
    elim (Bool-cases ((code == c) && (interval == i))) [
      | inr other ↦ rw other (elsewhere found is other)
      | inl here ↦
          let code_is : code ≡ c = ground arith in
          let interval_is : interval ≡ i = ground arith in
          let moved : get i (bars_at c s.active_bars) ≡ found =
            ap (λ x. get i (bars_at x s.active_bars)) (sym code_is)
            ∙ ap (λ x. get x (bars_at code s.active_bars)) (sym interval_is)
            ∙ is in
          rw here (there found is here ∙ sym (ap (λ o. finish_of o (view c i s)) moved))
    ]
  where
    elsewhere :
        (o : Option MinuteBar)
        → get interval (bars_at code s.active_bars) ≡ o
        → ((code == c) && (interval == i)) ≡ false
        → view c i (complete_found o code interval s) ≡ view c i s
    elsewhere none at other = refl
    elsewhere (some b) at other =
        let (its_code, its_interval) = k code interval b at in
        Bars-path
          (select-snoc c i s.completed_bars b ∙ ground (arith, its_code, its_interval, other))
          (complete-current code interval c i b s ∙ rw other refl)

    there :
        (o : Option MinuteBar)
        → get interval (bars_at code s.active_bars) ≡ o
        → ((code == c) && (interval == i)) ≡ true
        → view c i (complete_found o code interval s) ≡ finish_of o (view c i s)
    there none at here = refl
    there (some b) at here =
        let (its_code, its_interval) = k code interval b at in
        Bars-path
          (select-snoc c i s.completed_bars b ∙ ground (arith, its_code, its_interval, here))
          (complete-current code interval c i b s ∙ rw here refl)

complete_bar-view :
    (code interval c i : ℕ) (s : MinuteBarCollector)
    → IsKeyed s
    → view c i (complete_bar code interval s)
      ≡ finish_if ((code == c) && (interval == i)) (view c i s)
unfolding complete_bar
complete_bar-view code interval c i s k =
    complete_found-view (get interval (bars_at code s.active_bars)) code interval c i s refl k

-- A bar that is still there was there before.
complete_bar-IsKeyed :
    (code interval : ℕ) (s : MinuteBarCollector)
    → IsKeyed s
    → IsKeyed (complete_bar code interval s)
complete_bar-IsKeyed code interval s k c i b at =
    let seen = ap (λ x. x.current) (complete_bar-view code interval c i s k) in
    k c i b (still ((code == c) && (interval == i)) (sym seen ∙ at))
  where
    still : (a : Bool) → (finish_if a (view c i s)).current ≡ some b → (view c i s).current ≡ some b
    still false e = e
    still true e = open_one (view c i s).current refl e
      where
        open_one :
            (o : Option MinuteBar)
            → (view c i s).current ≡ o
            → (finish_of o (view c i s)).current ≡ some b
            → (view c i s).current ≡ some b
        open_one none is e = e
        open_one (some x) is e = absurd (ground (arith, e))

both_of : (a b c : Bool) → ((a && b) || (a && c)) ≡ (a && (b || c))
both_of true b c = refl
both_of false b c = refl

-- To finish where a bar is open is to finish.
finish_if-open :
    (a : Bool) (v : Bars)
    → ((b : MinuteBar) → v.current ≡ some b → a ≡ true)
    → finish_if a v ≡ finish v
finish_if-open true v h = refl
finish_if-open false v h = shut v.current refl
  where
    shut : (o : Option MinuteBar) → v.current ≡ o → v ≡ finish v
    shut none is = sym (ap (λ o. finish_of o v) is)
    shut (some b) is = absurd (ground (arith, h b is))

complete_intervals-view :
    (code : ℕ) (intervals : List ℕ) (c i : ℕ) (s : MinuteBarCollector)
    → IsKeyed s
    → IsKeyed (complete_intervals code intervals s)
      × (view c i (complete_intervals code intervals s)
          ≡ finish_if ((code == c) && is_in i intervals) (view c i s))
unfolding complete_intervals
complete_intervals-view code [] c i s k =
    let nothing : false ≡ ((code == c) && false) = ground arith in
    (k, ap (λ a. finish_if a (view c i s)) nothing)
complete_intervals-view code (j ∷ intervals) c i s k =
    let s' = complete_bar code j s in
    let (keyed, rest) =
      complete_intervals-view code intervals c i s' (complete_bar-IsKeyed code j s k) in
    let one_of : (((code == c) && (j == i)) || ((code == c) && is_in i intervals))
        ≡ ((code == c) && is_in i (j ∷ intervals)) =
      both_of (code == c) (j == i) (is_in i intervals) in
    (
      keyed,
      rest
          ∙ ap (finish_if ((code == c) && is_in i intervals)) (complete_bar-view code j c i s k)
          ∙ finish_if-again ((code == c) && (j == i)) ((code == c) && is_in i intervals)
              (view c i s)
          ∙ ap (λ a. finish_if a (view c i s)) one_of,
    )

-- A bar that is there stands under one of the keys.
is_in-keys : {V : Type 0} (k : ℕ) (d : Dict V) (x : V) → get k d ≡ some x → is_in k (keys d) ≡ true
is_in-keys k [] x e = absurd (ground (arith, e))
is_in-keys k (y ∷ d) x e = ground (arith, e, is_in-keys k d x)

-- All bars of a stock.
complete_stock-view :
    (code c i : ℕ) (s : MinuteBarCollector)
    → IsKeyed s
    → let s' = complete_intervals code (keys (bars_at code s.active_bars)) s in
      IsKeyed s' × (view c i s' ≡ finish_if (code == c) (view c i s))
complete_stock-view code c i s k =
    let intervals = keys (bars_at code s.active_bars) in
    let (keyed, seen) = complete_intervals-view code intervals c i s k in
    (
      keyed,
      seen ∙ elim (Bool-cases (code == c)) [
        | inr other ↦ rw other refl
        | inl here ↦
            let code_is : c ≡ code = ground arith in
            rw here (
              finish_if-open (is_in i intervals) (view c i s) (λ b at.
                is_in-keys i (bars_at code s.active_bars) b
                  (ap (λ x. get i (bars_at x s.active_bars)) (sym code_is) ∙ at)))
      ],
    )

complete_stocks-view :
    (codes : List ℕ) (c i : ℕ) (s : MinuteBarCollector)
    → IsKeyed s
    → view c i (complete_stocks codes s) ≡ finish_if (is_in c codes) (view c i s)
unfolding complete_stocks
complete_stocks-view [] c i s k = refl
complete_stocks-view (code ∷ codes) c i s k =
    let s' = complete_intervals code (keys (bars_at code s.active_bars)) s in
    let (keyed, seen) = complete_stock-view code c i s k in
    complete_stocks-view codes c i s' keyed
    ∙ ap (finish_if (is_in c codes)) seen
    ∙ finish_if-again (code == c) (is_in c codes) (view c i s)

complete_all_bars-view :
    (c i : ℕ) (s : MinuteBarCollector)
    → IsKeyed s
    → view c i (complete_all_bars s) ≡ finish (view c i s)
unfolding complete_all_bars
complete_all_bars-view c i s k =
    complete_stocks-view (keys s.active_bars) c i s k
    ∙ finish_if-open (is_in c (keys s.active_bars)) (view c i s)
        (λ b at. listed b (get c s.active_bars) refl at)
  where
    listed :
        (b : MinuteBar) (o : Option (Dict MinuteBar))
        → get c s.active_bars ≡ o
        → get i (elim o [ none ↦ [] | some bars ↦ bars ]) ≡ some b
        → is_in c (keys s.active_bars) ≡ true
    listed b none is at = absurd (ground (arith, at))
    listed b (some bars) is at = is_in-keys c s.active_bars bars is

finish-current : (s : Bars) → (finish s).current ≡ none
finish-current s = none_open s.current refl
  where
    none_open : (o : Option MinuteBar) → s.current ≡ o → (finish_of o s).current ≡ none
    none_open none is = is
    none_open (some b) is = refl

-- The open bar is the last piece.
finish-Cut :
    (i time : ℕ) (all : List TickData) (s : Bars) → Series i time all s → Cut i all (finish s).done
finish-Cut i time all s (fresh e f g) =
    subst (λ l. Cut i l (finish s).done) (sym e)
      (subst (λ o. Cut i [] (finish_of o s).done) (sym g) (subst (λ d. Cut i [] d) (sym f) uncut))
finish-Cut i time all s (going ticks more b t cut is cur late e) =
    subst (λ o. Cut i all (finish_of o s).done) (sym cur) (piece b t more cut is e)

-- A collector that has just been made, over distinct intervals above zero, is fed ticks whose
-- times never go back, and ends. Then for each stock and each of the intervals no bar is left open,
-- and the completed bars cut all the stock's ticks into pieces, in order and without a gap: each bar
-- has its piece's first and last price as open and close, its greatest and least as high and low,
-- its total volume and count, and a window that all the piece's ticks lie in.
pub complete_all_bars-Cut :
    (intervals : Option (List ℕ)) (ticks : List TickData) (code i : ℕ)
    → All (λ j. 0 < j) (start intervals).supported_intervals
    → times i (start intervals).supported_intervals ≡ 1
    → InOrder 0 ticks
    → let s' = complete_all_bars (process_ticks ticks (start intervals)) in
      ((view code i s').current ≡ none) × Cut i (ticks_of code ticks) (view code i s').done
complete_all_bars-Cut intervals ticks code i pos once ordered =
    let s = process_ticks ticks (start intervals) in
    let keyed =
      process_ticks-IsKeyed ticks (start intervals) code i pos (λ c j b e. absurd (ground arith))
        once in
    let closed = complete_all_bars-view code i s keyed in
    let cut =
      finish-Cut i (last_time 0 (ticks_of code ticks)) (ticks_of code ticks) (view code i s)
        (process_ticks-Series intervals ticks code i pos once ordered) in
    (
      ap (λ x. x.current) closed ∙ finish-current (view code i s),
      subst (λ x. Cut i (ticks_of code ticks) x.done) (sym closed) cut,
    )
