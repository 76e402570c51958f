-- ===== src/StockInfo/Lifetime.antt =====
-- How long a name stays (src/services/stock_info_cache.py).
use auto_trading.Prelude.{
  ℕ, ◌+◌, ◌≡◌, ◌≢◌, refl, sym, ap, ◌∙◌, Bool, true, false, Option, none, some, List, [], ◌∷◌, ltb,
  if◌then◌else◌, get, get-put_self, get-put_ne, Bool-cases, inl, inr, All, arith,
}
use auto_trading.StockInfo.{
  StockInfoCache, is_fresh, fresh_name, get_sync, Asking, store_answer, ask, ask_client, look,
  get_name, set_name,
}

-- What is done to the cache for the other stocks.
pub data Use : Type 0 where
  sets : (now code name : ℕ) → Use
  gets : Asking → (code : ℕ) → Use

abbrev pub stock_of : Use → ℕ
stock_of (sets now code name) = code
stock_of (gets a code) = code

unfoldable pub use_cache : Use → StockInfoCache → StockInfoCache
use_cache (sets now code name) s = set_name now code name s
use_cache (gets a code) s = (get_name a code s).1

unfoldable pub use_all : List Use → StockInfoCache → StockInfoCache
use_all [] s = s
use_all (u ∷ uses) s = use_all uses (use_cache u s)

-- An entry, and the lifetime, as they are.
abbrev pub Keeps : ℕ → (before after : StockInfoCache) → Type 0
Keeps code s s' =
    (get code s'.cache ≡ get code s.cache)
    × (s'.cache_ttl ≡ s.cache_ttl)
    × (s'.has_client ≡ s.has_client)

get_name-Keeps :
    (a : Asking) (code other : ℕ) (s : StockInfoCache)
    → other ≢ code
    → Keeps code s (get_name a other s).1
unfolding get_name
get_name-Keeps a code other s differs = looked (fresh_name a.first_look other s)
  where
    asked : (o : Option ℕ) → Keeps code s (store_answer o a.stored_at other s).1
    asked none = (refl, refl, refl)
    asked (some name) = (
      get-put_ne code other (record { name = name; cached_at = a.stored_at }) s.cache
          (λ e. differs (sym e)),
      refl,
      refl,
    )

    under_lock : (o : Option ℕ) → Keeps code s (ask o a other s).1
    under_lock none = asked a.answer
    under_lock (some name) = (refl, refl, refl)

    with_client : (b : Bool) → Keeps code s (ask_client b a other s).1
    with_client false = (refl, refl, refl)
    with_client true = under_lock (fresh_name a.second_look other s)

    looked : (o : Option ℕ) → Keeps code s (look o a other s).1
    looked none = with_client s.has_client
    looked (some name) = (refl, refl, refl)

use_cache-Keeps :
    (u : Use) (code : ℕ) (s : StockInfoCache) → stock_of u ≢ code → Keeps code s (use_cache u s)
unfolding use_cache set_name
use_cache-Keeps (sets now other name) code s differs = (
  get-put_ne code other (record { name = name; cached_at = now }) s.cache (λ e. differs (sym e)),
  refl,
  refl,
)
use_cache-Keeps (gets a other) code s differs = get_name-Keeps a code other s differs

use_all-Keeps :
    (uses : List Use) (code : ℕ) (s : StockInfoCache)
    → All (λ u. stock_of u ≢ code) uses
    → Keeps code s (use_all uses s)
unfolding use_all
use_all-Keeps [] code s h = (refl, refl, refl)
use_all-Keeps (u ∷ uses) code s h =
    let (p, q, r) = use_all-Keeps uses code (use_cache u s) h.1 in
    let (p', q', r') = use_cache-Keeps u code s h.0 in (p ∙ p', q ∙ q', r ∙ r')

-- A name is stored for a stock, and the cache is used for any other stocks. Until its lifetime is
-- over, the stock's name is read back, by either reader, without a change. From then on get_sync has
-- no name for it; get has none either where there is no client, and stores and returns the
-- client's answer otherwise, unless its second look is still within the lifetime.
pub get_name-set_name :
    (now code name : ℕ) (uses : List Use) (s : StockInfoCache) (a : Asking)
    → All (λ u. stock_of u ≢ code) uses
    → let s' = use_all uses (set_name now code name s) in
      let over = now + s.cache_ttl in
      (get_sync a.first_look code s' ≡ (if ltb a.first_look over then name else 0))
      × (get_name a code s' ≡ (
          if ltb a.first_look over
          then (name, s')
          else if s.has_client
          then (if ltb a.second_look over
              then (name, s')
              else store_answer a.answer a.stored_at code s')
          else (0, s')))
unfolding get_sync get_name set_name
get_name-set_name now code name uses s a others = (
  ap (λ o. elim o [ none ↦ 0 | some n ↦ n ]) (at a.first_look) ∙ synced,
  ap (λ o. look o a code s') (at a.first_look) ∙ looked,
)
  where
    s' : StockInfoCache
    s' = use_all uses (set_name now code name s)

    kept : Keeps code (set_name now code name s) s'
    kept = use_all-Keeps uses code (set_name now code name s) others

    stored : get code s'.cache ≡ some (record { name = name; cached_at = now })
    stored = kept.0 ∙ get-put_self code (record { name = name; cached_at = now }) s.cache

    at : (t : ℕ) → fresh_name t code s' ≡ (if ltb t (now + s.cache_ttl) then some name else none)
    at t =
        ap
          (λ o. elim o [
            | none ↦ none
            | some c ↦ (if is_fresh t s'.cache_ttl c then some c.name else none)
          ])
          stored
        ∙ ap (λ ttl. if ltb t (now + ttl) then some name else none) kept.1

    over : ℕ
    over = now + s.cache_ttl

    synced :
        elim (if ltb a.first_look over then some name else none) [ none ↦ 0 | some n ↦ n ]
        ≡ (if ltb a.first_look over then name else 0)
    synced = ground arith

    second :
        ask (fresh_name a.second_look code s') a code s'
        ≡ (if ltb a.second_look over then (name, s') else store_answer a.answer a.stored_at code s')
    second =
        ap (λ o. ask o a code s') (at a.second_look) ∙ elim (Bool-cases (ltb a.second_look over)) [
          | inl young ↦ rw young refl
          | inr old ↦ rw old refl
        ]

    asked :
        (b : Bool)
        → ask_client b a code s' ≡ (
            if b
            then (if ltb a.second_look over
                then (name, s')
                else store_answer a.answer a.stored_at code s')
            else (0, s'))
    asked true = second
    asked false = refl

    looked : look (if ltb a.first_look over then some name else none) a code s' ≡ (
        if ltb a.first_look over
        then (name, s')
        else if s.has_client
        then (if ltb a.second_look over
            then (name, s')
            else store_answer a.answer a.stored_at code s')
        else (0, s'))
    looked = elim (Bool-cases (ltb a.first_look over)) [
      | inl young ↦ rw young refl
      | inr old ↦ rw old (ap (λ b. ask_client b a code s') kept.2 ∙ asked s.has_client)
    ]
