-- ===== src/Bars/Collector.antt =====
-- The class `MinuteBarCollector` of src/services/minute_bar_collector.py. The queues are lists.
use auto_trading.Prelude.{
  ℕ, ◌+◌, Bool, true, false, Option, none, some, List, [], ◌∷◌, ◌++◌, ◌==◌, leb, if◌then◌else◌,
  Dict, get, put, pop, keys,
}
use auto_trading.Bars.{TickData, MinuteBar, update, open_bar}

pub record MinuteBarCollector : Type 0 where
  pub supported_intervals : List ℕ
  pub active_bars : Dict (Dict MinuteBar)
  pub completed_bars : List MinuteBar
  pub tick_buffer : List TickData
  pub ticks_processed : ℕ
  pub bars_completed : ℕ
  pub errors : ℕ

-- `MinuteBarCollector(supported_intervals)`; an empty list is as good as none.
abbrev pub intervals_or : List ℕ → List ℕ
intervals_or [] = 1 ∷ 5 ∷ 10 ∷ 30 ∷ 60 ∷ []
intervals_or (i ∷ intervals) = i ∷ intervals

abbrev pub start : Option (List ℕ) → MinuteBarCollector
start intervals = record {
  supported_intervals = elim intervals [ none ↦ intervals_or [] | some l ↦ intervals_or l ];
  active_bars = [];
  completed_bars = [];
  tick_buffer = [];
  ticks_processed = 0;
  bars_completed = 0;
  errors = 0;
}

-- An entry of the `defaultdict`.
abbrev pub bars_at : ℕ → Dict (Dict MinuteBar) → Dict MinuteBar
bars_at code active = elim (get code active) [ none ↦ [] | some bars ↦ bars ]

unfoldable pub add_tick : TickData → MinuteBarCollector → MinuteBarCollector
add_tick tick s = record s { tick_buffer = s.tick_buffer ++ tick ∷ [] }

unfoldable pub put_bar : (code interval : ℕ) → MinuteBar → MinuteBarCollector → MinuteBarCollector
put_bar code interval bar s = record s {
  active_bars = put code (put interval bar (bars_at code s.active_bars)) s.active_bars;
}

unfoldable pub complete_found :
    Option MinuteBar → (code interval : ℕ) → MinuteBarCollector → MinuteBarCollector
complete_found none code interval s = s
complete_found (some bar) code interval s = record s {
  active_bars = put code (pop interval (bars_at code s.active_bars)) s.active_bars;
  completed_bars = s.completed_bars ++ bar ∷ [];
  bars_completed = s.bars_completed + 1;
}

-- `_complete_bar`
unfoldable pub complete_bar : (code interval : ℕ) → MinuteBarCollector → MinuteBarCollector
unfolding complete_found
complete_bar code interval s =
    complete_found (get interval (bars_at code s.active_bars)) code interval s

unfoldable pub update_found :
    Option MinuteBar → (interval : ℕ) → TickData → MinuteBarCollector → MinuteBarCollector
unfolding complete_bar put_bar update open_bar
update_found none interval tick s = put_bar tick.stock_code interval (open_bar interval tick) s
update_found (some bar) interval tick s =
    if leb bar.end_time tick.timestamp
    then put_bar tick.stock_code interval (open_bar interval tick)
        (complete_bar tick.stock_code interval s)
    else put_bar tick.stock_code interval (update tick bar) s

unfoldable pub update_bar : (interval : ℕ) → TickData → MinuteBarCollector → MinuteBarCollector
unfolding update_found
update_bar interval tick s =
    update_found (get interval (bars_at tick.stock_code s.active_bars)) interval tick s

-- `_update_bars`: the result is false where an interval of 0 raises ZeroDivisionError.
unfoldable pub update_bars : List ℕ → TickData → MinuteBarCollector → Bool × MinuteBarCollector
unfolding update_bar
update_bars [] tick s = (true, s)
update_bars (interval ∷ intervals) tick s =
    let rest = update_bars intervals tick (update_bar interval tick s) in
    if interval == 0 then (false, s) else rest

-- A tick in `_process_ticks`.
unfoldable pub process_tick : TickData → MinuteBarCollector → MinuteBarCollector
unfolding update_bars
process_tick tick s =
    let (done, s') = update_bars s.supported_intervals tick s in
    if done
    then record s' { ticks_processed = s'.ticks_processed + 1 }
    else record s' { errors = s'.errors + 1 }

abbrev pub is_over : (now : ℕ) → Option MinuteBar → Bool
is_over now none = false
is_over now (some bar) = leb bar.end_time now

unfoldable pub check_stock : (now code : ℕ) → List ℕ → MinuteBarCollector → MinuteBarCollector
unfolding complete_bar
check_stock now code [] s = s
check_stock now code (interval ∷ intervals) s = check_stock now code intervals (
    if is_over now (get interval (bars_at code s.active_bars))
    then complete_bar code interval s
    else s)

unfoldable pub check_stocks : (now : ℕ) → List ℕ → MinuteBarCollector → MinuteBarCollector
unfolding check_stock
check_stocks now [] s = s
check_stocks now (code ∷ codes) s =
    check_stocks now codes (check_stock now code (keys (bars_at code s.active_bars)) s)

-- `_check_completed_bars`, which runs where no tick has come for a second.
unfoldable pub check_completed_bars : (now : ℕ) → MinuteBarCollector → MinuteBarCollector
unfolding check_stocks
check_completed_bars now s = check_stocks now (keys s.active_bars) s

unfoldable pub complete_intervals : (code : ℕ) → List ℕ → MinuteBarCollector → MinuteBarCollector
unfolding complete_bar
complete_intervals code [] s = s
complete_intervals code (interval ∷ intervals) s =
    complete_intervals code intervals (complete_bar code interval s)

unfoldable pub complete_stocks : List ℕ → MinuteBarCollector → MinuteBarCollector
unfolding complete_intervals
complete_stocks [] s = s
complete_stocks (code ∷ codes) s =
    complete_stocks codes (complete_intervals code (keys (bars_at code s.active_bars)) s)

-- `_complete_all_bars`, at the end of `stop`.
unfoldable pub complete_all_bars : MinuteBarCollector → MinuteBarCollector
unfolding complete_stocks
complete_all_bars s = complete_stocks (keys s.active_bars) s

-- `get_completed_bars`
unfoldable pub get_completed_bars : MinuteBarCollector → List MinuteBar × MinuteBarCollector
get_completed_bars s = (s.completed_bars, record s { completed_bars = [] })
