-- ===== src/Tests/Feeds.antt =====
-- The event bus, the cache of names and the aggregation on samples.
use auto_trading.Prelude.{
  ℕ, ◌+◌, ◌≡◌, true, some, List, [], ◌∷◌, map, length, ltb, if◌then◌else◌, arith,
}
use auto_trading.Trading.Division.{floor}
use auto_trading.Bars.{MinuteBar}
use auto_trading.Aggregation.{AggregatedData, minute_5, traded, aggregate_bars}
use auto_trading.Aggregation.Conservation.{Holds, aggregate_bars-Holds}
use auto_trading.Events.{BaseEvent, start, publish}
use auto_trading.Events.Subscriptions.{
  Operation, on, on_all, off, published, effects, count, run_operations, publish-calls,
}
use auto_trading.StockInfo.{StockInfoCache, Asking, get_sync, get_name, set_name, store_answer}
use auto_trading.StockInfo.Lifetime.{Use, sets, gets, use_all, get_name-set_name}

abbrev an_event : BaseEvent
an_event = record { event_id = 1; event_type = 4 }

abbrev some_subscriptions : List Operation
some_subscriptions = on 4 7 ∷ on 4 7 ∷ on_all 7 ∷ off 4 7 ∷ published true an_event ∷ []

publish-calls_example :
    (handlers : List ℕ) × ((publish true an_event
        (run_operations some_subscriptions (start true))).0
      ≡ map (λ h. (h, an_event)) handlers)
    × ((h : ℕ)
        → let x = effects 4 h some_subscriptions (record { typed = 0; to_all = 0 }) in
          count h handlers ≡ x.typed + x.to_all)
publish-calls_example = publish-calls true true some_subscriptions an_event

abbrev a_cache : StockInfoCache
a_cache = record { has_client = true; cache_ttl = 10; cache = [] }

abbrev an_asking : Asking
an_asking = record { first_look = 25; second_look = 26; stored_at = 27; answer = some 9 }

abbrev other_uses : List Use
other_uses = sets 21 6 4 ∷ gets an_asking 8 ∷ []

get_name-set_name_example :
    let s' = use_all other_uses (set_name 20 5 3 a_cache) in
    (get_sync 25 5 s' ≡ (if ltb 25 (20 + 10) then 3 else 0))
    × (get_name an_asking 5 s' ≡ (
        if ltb 25 (20 + 10)
        then (3, s')
        else if true
        then (if ltb 26 (20 + 10) then (3, s') else store_answer (some 9) 27 5 s')
        else (0, s')))
get_name-set_name_example =
    get_name-set_name 20 5 3 other_uses a_cache an_asking (ground arith, (ground arith, tt))

abbrev a_bar : (start_time volume : ℕ) → MinuteBar
a_bar start_time volume = record {
  stock_code = 5;
  interval_minutes = 1;
  start_time = start_time;
  end_time = start_time + 60_000_000;
  open_price = 100;
  high_price = 110;
  low_price = 90;
  close_price = 105;
  volume = volume;
  tick_count = 2;
}

-- Of 10:01, 10:00 and 10:07.
abbrev some_bars : List MinuteBar
some_bars = a_bar 36_060_000_000 3 ∷ a_bar 36_000_000_000 4 ∷ a_bar 36_420_000_000 5 ∷ []

aggregate_bars-Holds_example :
    (out : List AggregatedData) × (aggregate_bars floor minute_5 some_bars ≡ some out)
    × Holds (traded some_bars) (length some_bars) out
aggregate_bars-Holds_example = aggregate_bars-Holds floor minute_5 some_bars (omega arith)
