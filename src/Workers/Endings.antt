-- ===== src/Workers/Endings.antt =====
-- Where a pool's own steps lead, for each way in which the processor answers
-- (src/services/order_worker_pool.py).
use auto_trading.Prelude.{
  ℕ, zero, suc, ◌≤◌, ◌<◌, ◌≡◌, ◌⊎◌, refl, sym, ap, ◌∙◌, subst, List, [], ◌∷◌, ◌++◌, length, All,
  ltb, ltb→lt, leb, Bool-cases, inl, inr, arith,
}
use auto_trading.Workers.{
  OrderTask, PoolConfig, Hand, working, requeueing, OrderWorkerPool, Answer, process_order, requeue,
  Step, take_task, finish_task, put_again,
}
use auto_trading.Workers.Counts.{task_of, IsCounted, Step-IsCounted}
use auto_trading.Workers.Progress.{steps_left, IsStuck, Step-fewer, Step-workers}

-- Where the step hands in an answer, it is the one that is given for the state.
abbrev pub Obeys :
    {c : PoolConfig} {s s' : OrderWorkerPool} → (OrderWorkerPool → Answer) → Step c s s' → Type 0
Obeys answer (take_task t before after is bound free) = Unit
Obeys {s = s} answer (finish_task a t before after is) = a ≡ answer s
Obeys answer (put_again t before after is room) = Unit

-- The pool's own steps where the processor answers in this way.
pub data AnsweredRun (c : PoolConfig) (answer : OrderWorkerPool → Answer)
    : ℕ → OrderWorkerPool → OrderWorkerPool → Type 0 where
  ended : (s : OrderWorkerPool) → AnsweredRun c answer 0 s s
  followed :
      (n : ℕ) (s r t : OrderWorkerPool) (step : Step c s r)
      → Obeys answer step
      → AnsweredRun c answer n r t
      → AnsweredRun c answer (suc n) s t

greatest :
    (t : OrderTask) (tasks : List OrderTask)
    → (u : OrderTask) × (before : List OrderTask) × (after : List OrderTask) × (t ∷ tasks
        ≡ before ++ u ∷ after)
      × All (λ x. x.priority ≤ u.priority) (t ∷ tasks)
greatest t [] = (t, [], [], refl, (omega arith, tt))
greatest t (x ∷ tasks) =
    let (u, before, after, is, bound) = greatest x tasks in
    elim (Bool-cases (leb u.priority t.priority)) [
      | inl first ↦ (t, [], x ∷ tasks, refl, (omega arith, weaker (x ∷ tasks) bound (ground arith)))
      | inr later ↦ (u, t ∷ before, after, ap (λ l. t ∷ l) is, (ground arith, bound))
    ]
  where
    weaker :
        {a b : ℕ} (l : List OrderTask)
        → All (λ y. y.priority ≤ a) l
        → a ≤ b
        → All (λ y. y.priority ≤ b) l
    weaker [] h le = tt
    weaker (y ∷ l) h le = (omega (arith, h.0, le), weaker l h.1 le)

-- A hand that works, if there is one.
find_working :
    (hands : List Hand)
    → All (λ h. h ≡ requeueing (task_of h)) hands
      ⊎ ((t : OrderTask) × (before : List Hand) × (after : List Hand) × (hands
            ≡ before ++ working t ∷ after))
find_working [] = inl tt
find_working (working t ∷ hands) = inr (t, [], hands, refl)
find_working (requeueing t ∷ hands) = elim (find_working hands) [
  | inl waiting ↦ inl (refl, waiting)
  | inr (u, before, after, is) ↦
      inr (u, requeueing t ∷ before, after, ap (λ l. requeueing t ∷ l) is)
]

module _ (c : PoolConfig) (answer : OrderWorkerPool → Answer) where
  -- A free worker takes a task, if there is one.
  taken :
      (s : OrderWorkerPool) (q : List OrderTask)
      → s.queue ≡ q
      → length s.hands < s.workers
      → (q ≡ []) ⊎ ((s' : OrderWorkerPool) × (step : Step c s s') × Obeys answer step)
  taken s [] is free = inl refl
  taken s (t ∷ q) is free =
      let (u, before, after, split_at, bound) = greatest t q in
      inr (
        record s { queue = before ++ after; hands = working u ∷ s.hands },
        take_task u before after (is ∙ split_at)
            (subst (λ l. All (λ x. x.priority ≤ u.priority) l) (sym is) bound) free,
        tt,
      )

  -- There is room, and no hand works.
  with_room :
      (s : OrderWorkerPool) (hands : List Hand)
      → s.hands ≡ hands
      → All (λ h. h ≡ requeueing (task_of h)) hands
      → 0 < s.workers
      → length s.queue < c.max_queue_size
      → ((s.queue ≡ []) × (s.hands ≡ []))
        ⊎ ((s' : OrderWorkerPool) × (step : Step c s s') × Obeys answer step)
  with_room s [] is waiting staffed room = elim (taken s s.queue refl (rw is staffed)) [
    | inl none_left ↦ inl (none_left, is)
    | inr step ↦ inr step
  ]
  with_room s (h ∷ hands) is waiting staffed room = inr (
    requeue (task_of h) [] hands s,
    put_again (task_of h) [] hands (is ∙ ap (λ x. x ∷ hands) waiting.0) room,
    tt,
  )

  -- A pool with a worker has no task left, or makes a step whatever the processor answers next, or
  -- is stuck: all its workers wait for room in the full queue.
  Step-next :
      (s : OrderWorkerPool)
      → 0 < s.workers
      → 0 < c.max_queue_size
      → ((s.queue ≡ []) × (s.hands ≡ []))
        ⊎ ((s' : OrderWorkerPool) × (step : Step c s s') × Obeys answer step)
        ⊎ IsStuck c s
  Step-next s staffed sized = elim (find_working s.hands) [
    | inr (t, before, after, is) ↦ inr (
        inl (
          process_order (answer s) t before after s,
          finish_task (answer s) t before after is,
          refl,
        ))
    | inl waiting ↦ elim (Bool-cases (ltb (length s.queue) c.max_queue_size)) [
      | inl room ↦
          elim (with_room s s.hands refl waiting staffed
            (ltb→lt (length s.queue) c.max_queue_size room)) [
              | inl finished ↦ inl finished
              | inr step ↦ inr (inl step)
            ]
      | inr full ↦ elim (Bool-cases (ltb (length s.hands) s.workers)) [
        | inr nobody ↦ inr (
            inr (record {
              full = ground (arith, full);
              all_wait = waiting;
              nobody_free = ground (arith, nobody);
            }))
        | inl free ↦ elim (taken s s.queue refl (ltb→lt (length s.hands) s.workers free)) [
          | inr step ↦ inr (inl step)
          | inl none_left ↦ absurd (ground (arith, full, sized, ap (λ l. length l) none_left))
        ]
      ]
    ]
  ]

  -- A run of the pool to where no task is left, or it is stuck.
  pub record Ending (s : OrderWorkerPool) : Type 0 where
    pub steps : ℕ
    pub last : OrderWorkerPool
    pub run : AnsweredRun c answer steps s last
    pub few : steps ≤ steps_left s
    pub ends : ((last.queue ≡ []) × (last.hands ≡ [])) ⊎ IsStuck c last

  one_more :
      (s r : OrderWorkerPool) (step : Step c s r)
      → Obeys answer step
      → steps_left r < steps_left s
      → Ending r
      → Ending s
  one_more s r step obeys fewer e = record {
    steps = suc e.steps;
    last = e.last;
    run = followed e.steps s r e.last step obeys e.run;
    few = omega (arith, e.few, fewer);
    ends = e.ends;
  }

  within-Ending :
      (k : ℕ) (s : OrderWorkerPool)
      → IsCounted c s
      → 0 < s.workers
      → 0 < c.max_queue_size
      → steps_left s ≤ k
      → Ending s
  within-Ending zero s counted staffed sized bound = elim (Step-next s staffed sized) [
    | inl finished ↦ record {
      steps = 0;
      last = s;
      run = ended s;
      few = omega arith;
      ends = inl finished;
    }
    | inr (inr stuck) ↦ record {
      steps = 0;
      last = s;
      run = ended s;
      few = omega arith;
      ends = inr stuck;
    }
    | inr (inl (r, step, obeys)) ↦ absurd (omega (arith, bound, Step-fewer c s r counted step))
  ]
  within-Ending (suc k) s counted staffed sized bound = elim (Step-next s staffed sized) [
    | inl finished ↦ record {
      steps = 0;
      last = s;
      run = ended s;
      few = omega arith;
      ends = inl finished;
    }
    | inr (inr stuck) ↦ record {
      steps = 0;
      last = s;
      run = ended s;
      few = omega arith;
      ends = inr stuck;
    }
    | inr (inl (r, step, obeys)) ↦
        let fewer = Step-fewer c s r counted step in
        one_more s r step obeys fewer (
          within-Ending k r (Step-IsCounted c s r step counted)
            (omega (arith, staffed, Step-workers c s r step)) sized (omega (arith, bound, fewer)))
  ]

  -- However the processor answers, given by the state: from every state that counts rightly, as every
  -- state that is reached does, a pool with a worker and a queue of a size above zero goes on by its
  -- own steps, with these answers, until no task is left or it is stuck, in at most three steps for
  -- each execution that is still due.
  pub Run-Ending :
      (s : OrderWorkerPool) → IsCounted c s → 0 < s.workers → 0 < c.max_queue_size → Ending s
  Run-Ending s counted staffed sized =
      within-Ending (steps_left s) s counted staffed sized (omega arith)
