-- ===== src/ApiLimiter/Window.antt =====
-- The limit that the broker sets, and that `_wait_for_slot` of src/api/rate_limiter.py keeps.
use auto_trading.Prelude.{
  ℕ, ◌+◌, ◌≤◌, ◌<◌, ◌≡◌, ◌⊎◌, refl, sym, ◌∙◌, ap, subst, if◌then◌else◌, true, false, Option, none,
  some, List, [], ◌∷◌, ◌++◌, length, length-append, All, All-append, Bool-cases, leb, ltb, leb→le,
  ltb→lt, inl, inr, arith,
}
use mathlib.Core.Path.{subst₂}
use mathlib.Core.List.{append_assoc}
use auto_trading.ApiLimiter.{
  RateLimiter, start, prune, append_bounded, wait_until, due, wait_for_slot, count_sleep,
  count_wait,
}

module _ (limit window : ℕ) where
  -- Times of grants, oldest first, such that each came when fewer than `limit` of those before it
  -- were less than a window old.
  pub data Paced : List ℕ → Type 0 where
    none_yet : Paced []
    grant :
        (aged recent : List ℕ) (time : ℕ) {times : List ℕ}
        → Paced (aged ++ recent)
        → All (λ t. t + window ≤ time) aged
        → length recent < limit
        → times ≡ (aged ++ recent) ++ time ∷ []
        → Paced times

-- The history keeps all the grants but some that are a window old at that time.
record Keeps (times : List ℕ) (clock : ℕ) (l : RateLimiter) : Type 0 where
  aged : List ℕ
  split : times ≡ aged ++ l.request_history
  past : All (λ t. t + l.time_window ≤ clock) aged
  short : length l.request_history ≤ l.max_requests

All-later : (w c d : ℕ) (ts : List ℕ) → c ≤ d → All (λ t. t + w ≤ c) ts → All (λ t. t + w ≤ d) ts
All-later w c d [] h a = tt
All-later w c d (t ∷ ts) h a = (omega arith, All-later w c d ts h a.1)

-- The pruned times are a window old.
prune_splits :
    (now w : ℕ) (history : List ℕ)
    → (gone : List ℕ) × (history ≡ gone ++ prune now w history)
      × All (λ t. t + w ≤ now) gone
      × (length (prune now w history) ≤ length history)
unfolding prune
prune_splits now w [] = ([], refl, tt, omega arith)
prune_splits now w (t ∷ history) = elim (Bool-cases (leb (t + w) now)) [
  | inl old ↦
      let (gone, e, a, h) = prune_splits now w history in
      (t ∷ gone, rw old (ap (λ (x : List ℕ). t ∷ x) e), (leb→le _ _ old, a), rw old (omega arith))
  | inr young ↦ ([], rw young, tt, rw young (omega arith))
]

-- The sleep lasts: when `_wait_for_slot` goes on, the time that it waits for has come.
abbrev pub Awake : ℕ → Option ℕ → Type 0
Awake wake none = Unit
Awake wake (some due) = due ≤ wake

abbrev oldest : List ℕ → List ℕ
oldest [] = []
oldest (t ∷ history) = t ∷ []

-- Of a history where a place is free, or whose oldest time is a window old, all that an append
-- drops is a window old.
append_bounded-splits :
    (n wake w : ℕ) (history : List ℕ)
    → 0 < n
    → length history ≤ n
    → (length history < n) ⊎ All (λ t. t + w ≤ wake) (oldest history)
    → (gone recent : List ℕ) × (history ≡ gone ++ recent)
      × (append_bounded n wake history ≡ recent ++ wake ∷ [])
      × All (λ t. t + w ≤ wake) gone
      × (length recent < n)
unfolding append_bounded
append_bounded-splits n wake w [] pos fits old = ([], [], refl, ground arith, tt, pos)
append_bounded-splits n wake w (h ∷ history) pos fits old =
    elim (Bool-cases (ltb (length (h ∷ history)) n)) [
      | inl room ↦ ([], h ∷ history, refl, rw room, tt, ltb→lt _ _ room)
      | inr full ↦ (h ∷ [], history, refl, rw full, old_head full old, omega arith)
    ]
  where
    old_head :
        ltb (length (h ∷ history)) n ≡ false
        → (length (h ∷ history) < n) ⊎ All (λ t. t + w ≤ wake) (h ∷ [])
        → All (λ t. t + w ≤ wake) (h ∷ [])
    old_head full (inl room) = absurd (ground arith)
    old_head full (inr a) = a

due-old :
    (n w now wake : ℕ) (history : List ℕ)
    → 0 < n
    → now ≤ wake
    → Awake wake (due n w now history)
    → (length history < n) ⊎ All (λ t. t + w ≤ wake) (oldest history)
unfolding due
due-old n w now wake [] pos h a = inl pos
due-old n w now wake (t ∷ history) pos h a = elim (Bool-cases (leb n (length (t ∷ history)))) [
  | inl full ↦ elim (Bool-cases (ltb now (t + w))) [
    | inl early ↦ inr (rw (full, early) at a, tt)
    | inr late ↦ inr (ground arith, tt)
  ]
  | inr room ↦ inl (ground arith)
]

wait_for_slot-fields :
    (now wake : ℕ) (l : RateLimiter)
    → 0 < l.max_requests
    → let (granted, l') = wait_for_slot now wake l in
      let kept = prune now l.time_window l.request_history in
      (granted ≡ true)
      × (l'.request_history ≡ append_bounded l.max_requests wake kept)
      × (l'.max_requests ≡ l.max_requests)
      × (l'.time_window ≡ l.time_window)
unfolding wait_for_slot count_sleep count_wait
wait_for_slot-fields now wake l pos = ground arith

regroup : (a b c d : List ℕ) → a ++ (b ++ (c ++ d)) ≡ ((a ++ b) ++ c) ++ d
regroup a b c d = simp append_assoc

-- One grant: the limiter goes on to keep all but grants that are a window old, and the new grant
-- is within the limit.
wait_for_slot-grants :
    (times : List ℕ) (clock now wake : ℕ) (l : RateLimiter)
    → 0 < l.max_requests
    → clock ≤ now
    → now ≤ wake
    → Awake wake (wait_until now l)
    → Keeps times clock l
    → Paced l.max_requests l.time_window times
    → let (granted, l') = wait_for_slot now wake l in
      (granted ≡ true)
      × Keeps (times ++ wake ∷ []) wake l'
      × Paced l.max_requests l.time_window (times ++ wake ∷ [])
      × (l'.max_requests ≡ l.max_requests)
      × (l'.time_window ≡ l.time_window)
wait_for_slot-grants times clock now wake l pos ordered later awake k paced =
    let w = l.time_window in
    let n = l.max_requests in
    let (gone, e, old, shrunk) = prune_splits now w l.request_history in
    let kept = prune now w l.request_history in
    let full = due-old n w now wake kept pos later (unfold wait_until in awake) in
    let (dropped, recent, f, g, a, few) =
      append_bounded-splits n wake w kept pos (omega (arith, shrunk, k.short)) full in
    let (granted, history, same_max, same_window) = wait_for_slot-fields now wake l pos in
    let gone_all = (k.aged ++ gone) ++ dropped in
    let split : times ≡ gone_all ++ recent =
      k.split
      ∙ ap (λ (x : List ℕ). k.aged ++ x) (e ∙ ap (λ (x : List ℕ). gone ++ x) f)
      ∙ regroup k.aged gone dropped recent in
    let aged_all =
      All-append (λ t. t + w ≤ wake) (k.aged ++ gone) dropped
        (All-append (λ t. t + w ≤ wake) k.aged gone
          (All-later w clock wake k.aged (omega arith) k.past)
          (All-later w now wake gone later old))
        a in
    let stored = history ∙ g in
    (
      granted,
      record {
        aged = gone_all;
        split = rw (stored, split) (append_assoc gone_all recent (wake ∷ []));
        past = rw same_window aged_all;
        short = rw (stored, same_max) (omega (arith, length-append recent (wake ∷ [])));
      },
      grant gone_all recent wake (subst (Paced n w) split paced) aged_all few
          (ap (λ (ts : List ℕ). ts ++ wake ∷ []) split),
      same_max,
      same_window,
    )

-- A run of the limiter: the readings of the clock at the start and at the end of each wait.
abbrev pub Waits : Type 0
Waits = List (ℕ × ℕ)

-- The times of the grants, after those before, and the limiter then.
pub run : Waits → List ℕ → RateLimiter → List ℕ × RateLimiter
run [] times l = (times, l)
run ((now, wake) ∷ waits) times l =
    let (granted, l') = wait_for_slot now wake l in
    run waits (if granted then times ++ wake ∷ [] else times) l'

-- The clock does not go back, and every sleep lasts until the time that it waits for.
abbrev pub Sleeps : ℕ → Waits → RateLimiter → Type 0
Sleeps clock [] l = Unit
Sleeps clock ((now, wake) ∷ waits) l =
    (clock ≤ now)
    × (now ≤ wake)
    × Awake wake (wait_until now l)
    × Sleeps wake waits (wait_for_slot now wake l).1

run-Keeps :
    (waits : Waits) (times : List ℕ) (clock : ℕ) (l : RateLimiter) (n w : ℕ)
    → 0 < n
    → l.max_requests ≡ n
    → l.time_window ≡ w
    → Sleeps clock waits l
    → Keeps times clock l
    → Paced n w times
    → Paced n w (run waits times l).0 × (length (run waits times l).0 ≡ length times + length waits)
unfolding run
run-Keeps [] times clock l n w pos en ew s k paced = (paced, omega arith)
run-Keeps ((now, wake) ∷ waits) times clock l n w pos en ew (ordered, later, awake, s) k paced =
    let paced' = subst₂ (λ a b. Paced a b times) (sym en) (sym ew) paced in
    let (granted, k', p, same_max, same_window) =
      wait_for_slot-grants times clock now wake l (omega arith) ordered later awake k paced' in
    let l' = (wait_for_slot now wake l).1 in
    let ih =
      run-Keeps waits (times ++ wake ∷ []) wake l' n w pos (same_max ∙ en) (same_window ∙ ew) s k'
        (subst₂ (λ a b. Paced a b (times ++ wake ∷ [])) en ew p) in
    rw (granted, run) (ih.0, omega (arith, ih.1, length-append times (wake ∷ [])))

-- The rate limit: from a fresh limiter, with a clock that does not go back and sleeps that last,
-- every call of `_wait_for_slot` is granted, and every grant comes when fewer than `max_requests`
-- of the earlier grants are less than a time window old.
pub run-Paced :
    (limit window clock : ℕ) (waits : Waits)
    → 0 < limit
    → Sleeps clock waits (start limit window)
    → let times = (run waits [] (start limit window)).0 in
      Paced limit window times × (length times ≡ length waits)
run-Paced limit window clock waits pos s =
    let (paced, all) =
      run-Keeps waits [] clock (start limit window) limit window pos refl refl s
        (record { aged = []; split = refl; past = tt; short = omega arith }) none_yet in
    (paced, omega (arith, all))
