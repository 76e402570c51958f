-- ===== src/ApiLimiter.antt =====
-- The request limiter of the broker's API (src/api/rate_limiter.py): a queue of requests by
-- priority, and a window over the times of the latest grants. Times are whole microseconds.
pub mod Window
pub mod Counts
use auto_trading.Prelude.{
  ℕ, suc, ◌+◌, ◌-◌, ◌*◌, ◌/◌, max, ◌≤◌, Bool, true, false, not, ◌&&◌, Option, none, some, List, [],
  ◌∷◌, ◌++◌, ltb, leb, ◌==◌, if◌then◌else◌, length, map,
}

pub data RequestPriority : Type 0 where
  critical high medium low background : RequestPriority

-- The value of a priority: a low number goes first.
abbrev pub value : RequestPriority → ℕ
value critical = 1
value high = 2
value medium = 3
value low = 4
value background = 5

-- The future of a request: `done` where its caller has given it up, or it has been answered.
pub data FutureState : Type 0 where
  waiting granted cancelled : FutureState

pub record PriorityRequest : Type 0 where
  pub priority : RequestPriority
  pub created_at : ℕ
  pub future : FutureState

-- `_priority_stats`
pub record PriorityStats : Type 0 where
  pub critical_count : ℕ
  pub high_count : ℕ
  pub medium_count : ℕ
  pub low_count : ℕ
  pub background_count : ℕ

pub record RateLimiter : Type 0 where
  pub max_requests : ℕ
  pub time_window : ℕ
  -- Oldest first; a deque whose length is at most `max_requests`.
  pub request_history : List ℕ
  pub total_requests : ℕ
  pub total_wait_time : ℕ
  pub max_wait_time : ℕ
  pub priority_stats : PriorityStats

-- `RateLimiter(max_requests, time_window)`
abbrev pub start : ℕ → ℕ → RateLimiter
start max_requests time_window = record {
  max_requests = max_requests;
  time_window = time_window;
  request_history = [];
  total_requests = 0;
  total_wait_time = 0;
  max_wait_time = 0;
  priority_stats = record {
    critical_count = 0;
    high_count = 0;
    medium_count = 0;
    low_count = 0;
    background_count = 0;
  };
}

-- The loop that pops the times that the window has passed.
unfoldable pub prune : (now window : ℕ) → List ℕ → List ℕ
prune now window [] = []
prune now window (t ∷ history) =
    let rest = prune now window history in if leb (t + window) now then rest else t ∷ history

-- `append` on a deque of bounded length, which drops the oldest item where it is full.
unfoldable pub append_bounded : (maxlen : ℕ) → ℕ → List ℕ → List ℕ
append_bounded maxlen t [] = if maxlen == 0 then [] else t ∷ []
append_bounded maxlen t (h ∷ history) =
    if ltb (length (h ∷ history)) maxlen then h ∷ (history ++ t ∷ []) else history ++ t ∷ []

-- The time to wait for, in a history from which the old times are pruned.
unfoldable pub due : (max_requests window now : ℕ) → List ℕ → Option ℕ
due max_requests window now [] = none
due max_requests window now (t ∷ history) =
    if leb max_requests (length (t ∷ history)) && ltb now (t + window)
    then some (t + window)
    else none

-- The time until which `_wait_for_slot` sleeps, if it finds the window full at `now`.
unfoldable pub wait_until : ℕ → RateLimiter → Option ℕ
unfolding prune due
wait_until now l = due l.max_requests l.time_window now (prune now l.time_window l.request_history)

unfoldable pub count_wait : ℕ → RateLimiter → RateLimiter
count_wait wait l = record l {
  total_wait_time = l.total_wait_time + wait;
  max_wait_time = max l.max_wait_time wait;
}

unfoldable pub count_sleep : ℕ → Option ℕ → RateLimiter → RateLimiter
count_sleep now none l = l
count_sleep now (some due) l = count_wait (due - now) l

-- `_wait_for_slot`, with the clock's readings at its start and after the sleep. It is `false` where
-- `request_history[0]` raises IndexError, which needs `max_requests` to be 0.
unfoldable pub wait_for_slot : (now wake : ℕ) → RateLimiter → Bool × RateLimiter
unfolding prune append_bounded wait_until count_wait count_sleep
wait_for_slot now wake l =
    let history = prune now l.time_window l.request_history in
    let l' = count_sleep now (wait_until now l) l in
    if l.max_requests == 0 then (false, record l { request_history = history }) else (
      true,
      record l' {
        request_history = append_bounded l.max_requests wake history;
        total_requests = l.total_requests + 1;
      },
    )

pub count_priority : RequestPriority → PriorityStats → PriorityStats
count_priority critical s = record s { critical_count = s.critical_count + 1 }
count_priority high s = record s { high_count = s.high_count + 1 }
count_priority medium s = record s { medium_count = s.medium_count + 1 }
count_priority low s = record s { low_count = s.low_count + 1 }
count_priority background s = record s { background_count = s.background_count + 1 }

-- `future.done()` and `set_result`.
abbrev pub answer : FutureState → FutureState
answer waiting = granted
answer granted = granted
answer cancelled = cancelled

abbrev is_done : FutureState → Bool
is_done waiting = false
is_done granted = true
is_done cancelled = true

-- One round of `_process_requests` for the request that the queue gave at `taken`; the readings
-- `now` and `wake` are those of `_wait_for_slot`. A failed wait leaves the request unanswered.
pub process : (taken now wake : ℕ) → PriorityRequest → RateLimiter → PriorityRequest × RateLimiter
unfolding wait_for_slot count_wait count_priority
process taken now wake r l =
    let (slot, l') = wait_for_slot now wake l in
    if slot && not (is_done r.future)
    then (
      record r { future = answer r.future },
      record (count_wait (taken - r.created_at) l') {
        priority_stats = count_priority r.priority l'.priority_stats;
      },
    )
    else (r, l')

-- `update_rate_limit`: the new deque keeps the latest times.
keep_last : ℕ → List ℕ → List ℕ
keep_last n [] = []
keep_last n (t ∷ history) =
    let rest = keep_last n history in if leb (length (t ∷ history)) n then t ∷ history else rest

pub update_rate_limit : ℕ → RateLimiter → RateLimiter
unfolding keep_last
update_rate_limit n l = record l {
  max_requests = n;
  request_history = keep_last n l.request_history;
}

-- The shutdown of `_process_requests`: every request left in the queue is cancelled.
abbrev cancel : PriorityRequest → PriorityRequest
cancel r = if is_done r.future then r else record r { future = cancelled }

pub shutdown : List PriorityRequest → List PriorityRequest
shutdown queue = map cancel queue
