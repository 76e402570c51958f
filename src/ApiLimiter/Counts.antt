-- ===== src/ApiLimiter/Counts.antt =====
-- The statistics of the request processor of src/api/rate_limiter.py.
use auto_trading.Prelude.{ℕ, suc, ◌+◌, ◌<◌, ◌≡◌, refl, List, [], ◌∷◌, length, map, arith}
use auto_trading.ApiLimiter.{
  RateLimiter, PriorityRequest, PriorityStats, RequestPriority, FutureState, waiting, granted,
  cancelled, answer, wait_for_slot, count_wait, count_sleep, count_priority, process,
}

-- A round of the processor: the reading of the clock when the queue gave the request, those of
-- the wait for a slot, and the request as it is after the wait.
pub record Round : Type 0 where
  pub taken : ℕ
  pub now : ℕ
  pub wake : ℕ
  pub request : PriorityRequest

-- The futures of the requests after the rounds, in order, and the limiter.
pub run_rounds : List Round → RateLimiter → List FutureState × RateLimiter
run_rounds [] l = ([], l)
run_rounds (r ∷ rounds) l =
    let (request, l') = process r.taken r.now r.wake r.request l in
    let (futures, l'') = run_rounds rounds l' in (request.future ∷ futures, l'')

abbrev pub counted : PriorityStats → ℕ
counted s = s.critical_count + s.high_count + s.medium_count + s.low_count + s.background_count

abbrev is_waiting : FutureState → ℕ
is_waiting waiting = 1
is_waiting granted = 0
is_waiting cancelled = 0

abbrev pub waiting_in : List Round → ℕ
waiting_in [] = 0
waiting_in (r ∷ rounds) = is_waiting r.request.future + waiting_in rounds

count_priority-counted :
    (p : RequestPriority) (s : PriorityStats) → counted (count_priority p s) ≡ suc (counted s)
unfolding count_priority
count_priority-counted p s = ground arith

process-counts :
    (r : Round) (l : RateLimiter)
    → 0 < l.max_requests
    → let (request, l') = process r.taken r.now r.wake r.request l in
      (request.future ≡ answer r.request.future)
      × (l'.max_requests ≡ l.max_requests)
      × (l'.total_requests ≡ suc l.total_requests)
      × (counted l'.priority_stats ≡ is_waiting r.request.future + counted l.priority_stats)
unfolding process wait_for_slot count_sleep count_wait
process-counts r l pos = ground (arith, count_priority-counted r.request.priority l.priority_stats)

-- With a limit above zero, every round answers its request unless it was cancelled before; each
-- takes a slot and counts as a request, the cancelled ones included, while the counts by priority
-- grow by the requests that were still waiting.
run_rounds-counts :
    (rounds : List Round) (l : RateLimiter)
    → 0 < l.max_requests
    → let (futures, l') = run_rounds rounds l in
      (futures ≡ map (λ r. answer r.request.future) rounds)
      × (l'.total_requests ≡ l.total_requests + length rounds)
      × (counted l'.priority_stats ≡ counted l.priority_stats + waiting_in rounds)
unfolding run_rounds
run_rounds-counts [] l pos = (refl, omega arith, omega arith)
run_rounds-counts (r ∷ rounds) l pos =
    let (answered, same, total, by_priority) = process-counts r l pos in
    let l' = (process r.taken r.now r.wake r.request l).1 in
    let (futures, total', by_priority') = run_rounds-counts rounds l' (omega arith) in
    (rw (answered, futures), omega (arith, total, total'), omega (arith, by_priority, by_priority'))
