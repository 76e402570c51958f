-- ===== src/Events.antt =====
-- The event bus (src/events/event_bus.py). Handlers and types are numbers; what a handler does, and
-- its failure, which the bus swallows, are left out. The store is a parameter: whether it takes an
-- event is an argument, and what it took is a list.
pub mod Subscriptions
use auto_trading.Prelude.{
  ℕ, suc, ◌+◌, ◌-◌, Bool, true, false, Option, none, some, List, [], ◌∷◌, ◌++◌, map, length, ◌==◌,
  if◌then◌else◌, Dict, get, put,
}

-- `BaseEvent`, as far as the bus reads it.
pub record BaseEvent : Type 0 where
  pub event_id : ℕ
  pub event_type : ℕ

pub record EventBus : Type 0 where
  pub event_store : Option (List BaseEvent)
  pub subscribers : Dict (List ℕ)
  pub global_subscribers : List ℕ

-- `EventBus(event_store)`, over an empty store.
abbrev pub start : (with_store : Bool) → EventBus
start with_store = record {
  event_store = if with_store then some [] else none;
  subscribers = [];
  global_subscribers = [];
}

-- An entry of the `defaultdict`.
abbrev pub handlers_of : (event_type : ℕ) → Dict (List ℕ) → List ℕ
handlers_of event_type d = elim (get event_type d) [ none ↦ [] | some handlers ↦ handlers ]

unfoldable pub subscribe : (event_type handler : ℕ) → EventBus → EventBus
subscribe event_type handler b = record b {
  subscribers = put event_type (handlers_of event_type b.subscribers ++ handler ∷ []) b.subscribers;
}

unfoldable pub subscribe_all : (handler : ℕ) → EventBus → EventBus
subscribe_all handler b = record b { global_subscribers = b.global_subscribers ++ handler ∷ [] }

-- `list.remove`, whose ValueError the bus swallows.
abbrev pub remove : ℕ → List ℕ → List ℕ
remove handler [] = []
remove handler (h ∷ handlers) = if h == handler then handlers else h ∷ remove handler handlers

unfoldable pub unsubscribe : (event_type handler : ℕ) → EventBus → EventBus
unsubscribe event_type handler b = elim (get event_type b.subscribers) [
  | none ↦ b
  | some handlers ↦ record b {
    subscribers = put event_type (remove handler handlers) b.subscribers;
  }
]

unfoldable pub unsubscribe_all : (handler : ℕ) → EventBus → EventBus
unsubscribe_all handler b = record b { global_subscribers = remove handler b.global_subscribers }

unfoldable pub clear_subscribers : EventBus → EventBus
clear_subscribers b = record b { subscribers = []; global_subscribers = [] }

-- `get_subscriber_count`
abbrev pub get_subscriber_count : Option ℕ → EventBus → ℕ
get_subscriber_count none b = length b.global_subscribers
get_subscriber_count (some event_type) b = length (handlers_of event_type b.subscribers)

-- The handlers that an event goes to, in order.
abbrev pub all_handlers : (event_type : ℕ) → EventBus → List ℕ
all_handlers event_type b = handlers_of event_type b.subscribers ++ b.global_subscribers

-- `publish`, with the calls of handlers that it makes; a failure of the store is swallowed.
unfoldable pub publish : (stored : Bool) → BaseEvent → EventBus → List (ℕ × BaseEvent) × EventBus
publish stored event b = (
  map (λ h. (h, event)) (all_handlers event.event_type b),
  record b {
    event_store = elim b.event_store [
      | none ↦ none
      | some events ↦ some (if stored then events ++ event ∷ [] else events)
    ];
  },
)
