-- ===== src/Events/Subscriptions.antt =====
-- Which handlers an event reaches (src/events/event_bus.py).
use auto_trading.Prelude.{
  ℕ, suc, ◌+◌, ◌-◌, ◌≡◌, refl, sym, ap, ◌∙◌, Bool, true, ◌&&◌, none, some, List, [], ◌∷◌, ◌++◌, map,
  ◌==◌, if◌then◌else◌, Dict, get, put, get-put, Bool-cases, Option-cases, inl, inr, arith,
}
use auto_trading.Events.{
  BaseEvent, EventBus, start, handlers_of, subscribe, subscribe_all, remove, unsubscribe,
  unsubscribe_all, clear_subscribers, all_handlers, publish,
}

pub data Operation : Type 0 where
  on : (event_type handler : ℕ) → Operation
  on_all : (handler : ℕ) → Operation
  off : (event_type handler : ℕ) → Operation
  off_all : (handler : ℕ) → Operation
  cleared : Operation
  published : (stored : Bool) → BaseEvent → Operation

unfoldable pub operate : Operation → EventBus → EventBus
operate (on event_type handler) b = subscribe event_type handler b
operate (on_all handler) b = subscribe_all handler b
operate (off event_type handler) b = unsubscribe event_type handler b
operate (off_all handler) b = unsubscribe_all handler b
operate cleared b = clear_subscribers b
operate (published stored event) b = (publish stored event b).1

unfoldable pub run_operations : List Operation → EventBus → EventBus
run_operations [] b = b
run_operations (o ∷ operations) b = run_operations operations (operate o b)

-- The abstract view of a bus, for one handler and one type: how often the handler is subscribed to the
-- type, and how often to all.
pub record Subscribed : Type 0 where
  pub typed : ℕ
  pub to_all : ℕ

-- What an operation is to do to it.
abbrev pub effect : (event_type handler : ℕ) → Operation → Subscribed → Subscribed
effect t h (on event_type handler) x =
    if (event_type == t) && (handler == h) then record x { typed = x.typed + 1 } else x
effect t h (off event_type handler) x =
    if (event_type == t) && (handler == h) then record x { typed = x.typed - 1 } else x
effect t h (on_all handler) x = if handler == h then record x { to_all = x.to_all + 1 } else x
effect t h (off_all handler) x = if handler == h then record x { to_all = x.to_all - 1 } else x
effect t h cleared x = record { typed = 0; to_all = 0 }
effect t h (published stored event) x = x

abbrev pub effects : (event_type handler : ℕ) → List Operation → Subscribed → Subscribed
effects t h [] x = x
effects t h (o ∷ operations) x = effects t h operations (effect t h o x)

abbrev pub count : ℕ → List ℕ → ℕ
count h [] = 0
count h (x ∷ handlers) = if x == h then suc (count h handlers) else count h handlers

abbrev pub subscribed : (event_type handler : ℕ) → EventBus → Subscribed
subscribed t h b = record {
  typed = count h (handlers_of t b.subscribers);
  to_all = count h b.global_subscribers;
}

count-append : (h : ℕ) (xs ys : List ℕ) → count h (xs ++ ys) ≡ count h xs + count h ys
count-append h [] ys = omega arith
count-append h (x ∷ xs) ys = ground (arith, count-append h xs ys)

count-remove :
    (h k : ℕ) (xs : List ℕ)
    → count h (remove k xs) ≡ (if k == h then count h xs - 1 else count h xs)
count-remove h k [] = ground arith
count-remove h k (x ∷ xs) = ground (arith, count-remove h k xs)

handlers_of-put :
    (t k : ℕ) (handlers : List ℕ) (d : Dict (List ℕ))
    → handlers_of t (put k handlers d) ≡ (if k == t then handlers else handlers_of t d)
handlers_of-put t k handlers d = ground (arith, get-put t k handlers d)

Subscribed-path : {x y : Subscribed} → x.typed ≡ y.typed → x.to_all ≡ y.to_all → x ≡ y
Subscribed-path p q = λ i. record { typed = p i; to_all = q i }

eq_of : (a b : ℕ) → (a == b) ≡ true → a ≡ b
eq_of a b h = ground arith

subscribe-typed :
    (t h k handler : ℕ) (d : Dict (List ℕ))
    → count h (handlers_of t (put k (handlers_of k d ++ handler ∷ []) d)) ≡ (
        if (k == t) && (handler == h)
        then count h (handlers_of t d) + 1
        else count h (handlers_of t d))
subscribe-typed t h k handler d =
    ap (count h) (handlers_of-put t k (handlers_of k d ++ handler ∷ []) d)
    ∙ elim (Bool-cases (k == t)) [
      | inr other ↦ rw other refl
      | inl same ↦
          let moved : count h (handlers_of k d) ≡ count h (handlers_of t d) =
            ap (λ x. count h (handlers_of x d)) (ground arith) in
          rw same
            (ground (arith, count-append h (handlers_of k d) (handlers_of-one handler), moved))
    ]
  where
    handlers_of-one : ℕ → List ℕ
    handlers_of-one x = x ∷ []

operate-subscribed :
    (t h : ℕ) (o : Operation) (b : EventBus)
    → subscribed t h (operate o b) ≡ effect t h o (subscribed t h b)
unfolding operate subscribe subscribe_all unsubscribe unsubscribe_all clear_subscribers publish
operate-subscribed t h (on event_type handler) b =
    Subscribed-path (subscribe-typed t h event_type handler b.subscribers ∙ ground arith)
      (ground arith)
operate-subscribed t h (on_all handler) b =
    Subscribed-path (ground arith)
      (count-append h b.global_subscribers (handler ∷ []) ∙ ground arith)
operate-subscribed t h (off event_type handler) b =
    elim (Option-cases (get event_type b.subscribers)) [
      | inl unknown ↦ rw (unknown, unsubscribe) (Subscribed-path (nothing unknown) (ground arith))
      | inr (handlers, found) ↦
          let its : handlers_of event_type b.subscribers ≡ handlers =
            ap (λ o. elim o [ none ↦ [] | some l ↦ l ]) found in
          rw (found, unsubscribe)
            (Subscribed-path
              (ap (count h) (handlers_of-put t event_type (remove handler handlers) b.subscribers)
                ∙ removed handlers its)
              (ground arith))
    ]
  where
    before : ℕ
    before = count h (handlers_of t b.subscribers)

    after : ℕ
    after = (effect t h (off event_type handler) (subscribed t h b)).typed

    nothing : get event_type b.subscribers ≡ none → before ≡ after
    nothing unknown = elim (Bool-cases (event_type == t)) [
      | inr other ↦ ground arith
      | inl same ↦
          let here : get t b.subscribers ≡ none =
            ap (λ k. get k b.subscribers) (sym (eq_of event_type t same)) ∙ unknown in
          let empty : before ≡ 0 = ap (λ o. count h (elim o [ none ↦ [] | some l ↦ l ])) here in
          ground (arith, empty)
    ]

    removed :
        (handlers : List ℕ)
        → handlers_of event_type b.subscribers ≡ handlers
        → count h (if event_type == t then remove handler handlers else handlers_of t b.subscribers)
          ≡ after
    removed handlers its = elim (Bool-cases (event_type == t)) [
      | inr other ↦ rw other (ground arith)
      | inl same ↦
          let moved : before ≡ count h handlers =
            ap (λ k. count h (handlers_of k b.subscribers)) (sym (eq_of event_type t same))
            ∙ ap (count h) its in
          rw same (count-remove h handler handlers ∙ ground (arith, moved))
    ]
operate-subscribed t h (off_all handler) b =
    Subscribed-path (ground arith) (count-remove h handler b.global_subscribers ∙ ground arith)
operate-subscribed t h cleared b = refl
operate-subscribed t h (published stored event) b = refl

run_operations-subscribed :
    (t h : ℕ) (operations : List Operation) (b : EventBus)
    → subscribed t h (run_operations operations b) ≡ effects t h operations (subscribed t h b)
unfolding run_operations
run_operations-subscribed t h [] b = refl
run_operations-subscribed t h (o ∷ operations) b =
    run_operations-subscribed t h operations (operate o b)
    ∙ ap (effects t h operations) (operate-subscribed t h o b)

-- After any subscriptions, cancellations, clearings and publications on a new bus, an event is
-- handed to handlers alone and unchanged, and to each handler as often as it is then subscribed to the
-- event's type and to all events, counting one for each subscription and one less, but not below
-- none, for each cancellation since the last clearing; whether the store takes the event or not.
pub publish-calls :
    (with_store stored : Bool) (operations : List Operation) (event : BaseEvent)
    → (handlers : List ℕ) × ((publish stored event (run_operations operations (start with_store))).0
        ≡ map (λ h. (h, event)) handlers)
      × ((h : ℕ)
          → let x = effects event.event_type h operations (record { typed = 0; to_all = 0 }) in
            count h handlers ≡ x.typed + x.to_all)
unfolding publish
publish-calls with_store stored operations event =
    let b = run_operations operations (start with_store) in
    let t = event.event_type in
    (
      all_handlers t b,
      refl,
      λ h.
          count-append h (handlers_of t b.subscribers) b.global_subscribers
          ∙ ap (λ x. x.typed + x.to_all)
              (run_operations-subscribed t h operations (start with_store)),
    )
