-- ===== src/Strategies/Charts.antt =====
-- The charts that a strategy keeps (`set_chart_data` and `add_chart_data` of src/strategies); all
-- strategies that have charts keep them in this way.
use auto_trading.Prelude.{
  ℕ, zero, suc, ◌-◌, ◌<◌, ◌≡◌, refl, ◌≢◌, Bool, false, ◌||◌, Option, none, some, List, [], ◌∷◌,
  ◌++◌, length, ◌==◌, leb, if◌then◌else◌, Dict, get, put, All, Values, Values-put, Values-get,
  Bool-cases, inl, inr, arith,
}

pub record ChartData : Type 0 where
  pub stock_code : ℕ
  pub interval : ℕ
  pub timestamp : ℕ
  pub open_price : ℕ
  pub high_price : ℕ
  pub low_price : ℕ
  pub close_price : ℕ
  pub volume : ℕ

-- `sorted(data, key=lambda x: x.timestamp)`, which is stable.
abbrev pub insert : ChartData → List ChartData → List ChartData
insert x [] = x ∷ []
insert x (y ∷ chart) = if leb x.timestamp y.timestamp then x ∷ y ∷ chart else y ∷ insert x chart

unfoldable pub sort_by_time : List ChartData → List ChartData
sort_by_time [] = []
sort_by_time (x ∷ chart) = insert x (sort_by_time chart)

unfoldable pub set_chart_data :
    (code : ℕ) → List ChartData → Dict (List ChartData) → Dict (List ChartData)
unfolding sort_by_time
set_chart_data code chart cache = put code (sort_by_time chart) cache

abbrev pub chart_of : (code : ℕ) → Dict (List ChartData) → List ChartData
chart_of code cache = elim (get code cache) [ none ↦ [] | some chart ↦ chart ]

abbrev pub is_known : (timestamp : ℕ) → List ChartData → Bool
is_known timestamp [] = false
is_known timestamp (x ∷ chart) = (x.timestamp == timestamp) || is_known timestamp chart

unfoldable pub add_chart_data :
    (code : ℕ) → ChartData → Dict (List ChartData) → Dict (List ChartData)
unfolding sort_by_time
add_chart_data code x cache =
    let chart = chart_of code cache in
    put code (if is_known x.timestamp chart then chart else sort_by_time (chart ++ x ∷ [])) cache

-- `prices[-n:]`, for n above zero, and `prices[:-n]`.
abbrev pub drop {ℓ} : {A : Type ℓ} → ℕ → List A → List A
drop n [] = []
drop n (x ∷ xs) = elim n [ zero ↦ x ∷ xs | suc k ↦ drop k xs ]

abbrev pub take {ℓ} : {A : Type ℓ} → ℕ → List A → List A
take n [] = []
take n (x ∷ xs) = elim n [ zero ↦ [] | suc k ↦ x ∷ take k xs ]

abbrev pub last_of {ℓ} : {A : Type ℓ} → ℕ → List A → List A
last_of n xs = drop (length xs - n) xs

abbrev pub all_but {ℓ} : {A : Type ℓ} → ℕ → List A → List A
all_but n xs = take (length xs - n) xs

-- Each time comes once, in order.
abbrev pub IsChart : List ChartData → Type 0
IsChart [] = Unit
IsChart (x ∷ chart) = All (λ y. x.timestamp < y.timestamp) chart × IsChart chart

abbrev pub Distinct : List ChartData → Type 0
Distinct [] = Unit
Distinct (x ∷ chart) = All (λ y. x.timestamp ≢ y.timestamp) chart × Distinct chart

All-insert :
    (P : ChartData → Type 0) (x : ChartData) (chart : List ChartData)
    → P x
    → All P chart
    → All P (insert x chart)
All-insert P x [] p h = (p, tt)
All-insert P x (y ∷ chart) p h = elim (Bool-cases (leb x.timestamp y.timestamp)) [
  | inl before ↦ rw before (p, h)
  | inr after ↦ rw after (h.0, All-insert P x chart p h.1)
]

All-sort_by_time :
    (P : ChartData → Type 0) (chart : List ChartData) → All P chart → All P (sort_by_time chart)
unfolding sort_by_time
All-sort_by_time P [] h = h
All-sort_by_time P (x ∷ chart) h =
    All-insert P x (sort_by_time chart) h.0 (All-sort_by_time P chart h.1)

All-weaken :
    (x y : ChartData) (chart : List ChartData)
    → x.timestamp < y.timestamp
    → All (λ z. y.timestamp < z.timestamp) chart
    → All (λ z. x.timestamp < z.timestamp) chart
All-weaken x y [] before h = h
All-weaken x y (z ∷ chart) before h = (omega (arith, before, h.0), All-weaken x y chart before h.1)

insert-IsChart :
    (x : ChartData) (chart : List ChartData)
    → All (λ y. x.timestamp ≢ y.timestamp) chart
    → IsChart chart
    → IsChart (insert x chart)
insert-IsChart x [] new h = (tt, tt)
insert-IsChart x (y ∷ chart) new h = elim (Bool-cases (leb x.timestamp y.timestamp)) [
  | inl before ↦
      let less : x.timestamp < y.timestamp = ground (arith, new.0) in
      rw before ((less, All-weaken x y chart less h.0), h)
  | inr after ↦ rw after (
    All-insert (λ z. y.timestamp < z.timestamp) x chart (ground arith) h.0,
    insert-IsChart x chart new.1 h.1,
  )
]

sort_by_time-IsChart : (chart : List ChartData) → Distinct chart → IsChart (sort_by_time chart)
unfolding sort_by_time
sort_by_time-IsChart [] h = h
sort_by_time-IsChart (x ∷ chart) h =
    insert-IsChart x (sort_by_time chart)
      (All-sort_by_time (λ y. x.timestamp ≢ y.timestamp) chart h.0) (sort_by_time-IsChart chart h.1)

Distinct-append :
    (x : ChartData) (chart : List ChartData)
    → is_known x.timestamp chart ≡ false
    → IsChart chart
    → Distinct (chart ++ x ∷ [])
Distinct-append x [] new h = (tt, tt)
Distinct-append x (y ∷ chart) new h =
    (apart chart h.0, Distinct-append x chart (ground (arith, new)) h.1)
  where
    apart :
        (l : List ChartData)
        → All (λ z. y.timestamp < z.timestamp) l
        → All (λ z. y.timestamp ≢ z.timestamp) (l ++ x ∷ [])
    apart [] k = (ground (arith, new), tt)
    apart (z ∷ l) k = (ground (arith, k.0), apart l k.1)

-- A call of `set_chart_data` or of `add_chart_data`.
pub data Update : Type 0 where
  set_chart : (code : ℕ) → List ChartData → Update
  add_chart : (code : ℕ) → ChartData → Update

unfoldable pub updates : List Update → Dict (List ChartData) → Dict (List ChartData)
updates [] cache = cache
updates (set_chart code chart ∷ rest) cache = updates rest (set_chart_data code chart cache)
updates (add_chart code x ∷ rest) cache = updates rest (add_chart_data code x cache)

-- The charts that are set as a whole have no time twice.
abbrev pub AllDistinct : List Update → Type 0
AllDistinct [] = Unit
AllDistinct (set_chart code chart ∷ rest) = Distinct chart × AllDistinct rest
AllDistinct (add_chart code x ∷ rest) = AllDistinct rest

chart_of-IsChart :
    (code : ℕ) (cache : Dict (List ChartData))
    → Values IsChart cache
    → IsChart (chart_of code cache)
chart_of-IsChart code cache h = found (get code cache) refl
  where
    found :
        (o : Option (List ChartData))
        → get code cache ≡ o
        → IsChart (elim o [ none ↦ [] | some chart ↦ chart ])
    found none is = tt
    found (some chart) is = Values-get IsChart code chart cache h is

add_chart_data-IsChart :
    (code : ℕ) (x : ChartData) (cache : Dict (List ChartData))
    → Values IsChart cache
    → Values IsChart (add_chart_data code x cache)
unfolding add_chart_data
add_chart_data-IsChart code x cache h =
    let chart = chart_of code cache in
    let old = chart_of-IsChart code cache h in
    elim (Bool-cases (is_known x.timestamp chart)) [
      | inl known ↦ rw (known, add_chart_data) (Values-put IsChart code chart cache old h)
      | inr new ↦
          rw (new, add_chart_data)
            (Values-put IsChart code (sort_by_time (chart ++ x ∷ [])) cache
              (sort_by_time-IsChart (chart ++ x ∷ []) (Distinct-append x chart new old)) h)
    ]

-- Charts are set, each without a time that comes twice, and data are added one by one, in any
-- number, order and mixture and with any times. Then every chart that a strategy keeps has its data
-- in the order of time, each time once.
pub updates-IsChart :
    (calls : List Update) (cache : Dict (List ChartData))
    → AllDistinct calls
    → Values IsChart cache
    → Values IsChart (updates calls cache)
unfolding updates set_chart_data
updates-IsChart [] cache distinct h = h
updates-IsChart (set_chart code chart ∷ rest) cache distinct h =
    updates-IsChart rest (set_chart_data code chart cache) distinct.1
      (Values-put IsChart code (sort_by_time chart) cache (sort_by_time-IsChart chart distinct.0) h)
updates-IsChart (add_chart code x ∷ rest) cache distinct h =
    updates-IsChart rest (add_chart_data code x cache) distinct
      (add_chart_data-IsChart code x cache h)
