-- ===== src/StockInfo.antt =====
-- The cache of stock names (src/services/stock_info_cache.py). Names are numbers, 0 for the empty one.
-- The locks only keep two calls for one stock from asking the client at once; in the model no other
-- call runs between the looks of one.
pub mod Lifetime
use auto_trading.Prelude.{
  ℕ, ◌+◌, Bool, true, false, Option, none, some, List, [], ◌∷◌, map, length, ltb, if◌then◌else◌,
  Dict, get, put,
}

-- A name and the time when it was stored.
pub record Cached : Type 0 where
  pub name : ℕ
  pub cached_at : ℕ

pub record StockInfoCache : Type 0 where
  pub has_client : Bool
  pub cache_ttl : ℕ
  pub cache : Dict Cached

abbrev pub start : (has_client : Bool) (cache_ttl : ℕ) → StockInfoCache
start has_client cache_ttl = record { has_client = has_client; cache_ttl = cache_ttl; cache = [] }

-- `now - cached_at < cache_ttl`, also for a time that lies ahead.
abbrev pub is_fresh : (now cache_ttl : ℕ) → Cached → Bool
is_fresh now cache_ttl c = ltb now (c.cached_at + cache_ttl)

-- The name in the cache, if it is fresh.
abbrev pub fresh_name : (now : ℕ) → (code : ℕ) → StockInfoCache → Option ℕ
fresh_name now code s = elim (get code s.cache) [
  | none ↦ none
  | some c ↦ (if is_fresh now s.cache_ttl c then some c.name else none)
]

unfoldable pub get_sync : (now code : ℕ) → StockInfoCache → ℕ
get_sync now code s = elim (fresh_name now code s) [ none ↦ 0 | some name ↦ name ]

-- The readings of the clock at the first look, at that under the lock and when the name is stored,
-- and the client's answer, `none` where it raises.
pub record Asking : Type 0 where
  pub first_look : ℕ
  pub second_look : ℕ
  pub stored_at : ℕ
  pub answer : Option ℕ

abbrev pub store_answer : Option ℕ → (now code : ℕ) → StockInfoCache → ℕ × StockInfoCache
store_answer none now code s = (0, s)
store_answer (some name) now code s =
    (name, record s { cache = put code (record { name = name; cached_at = now }) s.cache })

abbrev pub ask : Option ℕ → Asking → (code : ℕ) → StockInfoCache → ℕ × StockInfoCache
ask (some name) a code s = (name, s)
ask none a code s = store_answer a.answer a.stored_at code s

abbrev pub ask_client : Bool → Asking → (code : ℕ) → StockInfoCache → ℕ × StockInfoCache
ask_client false a code s = (0, s)
ask_client true a code s = ask (fresh_name a.second_look code s) a code s

abbrev pub look : Option ℕ → Asking → (code : ℕ) → StockInfoCache → ℕ × StockInfoCache
look (some name) a code s = (name, s)
look none a code s = ask_client s.has_client a code s

-- `get`
unfoldable pub get_name : Asking → (code : ℕ) → StockInfoCache → ℕ × StockInfoCache
get_name a code s = look (fresh_name a.first_look code s) a code s

unfoldable pub set_name : (now code name : ℕ) → StockInfoCache → StockInfoCache
set_name now code name s = record s {
  cache = put code (record { name = name; cached_at = now }) s.cache;
}

-- `set_many`, all with one time.
unfoldable pub set_many : (now : ℕ) → Dict ℕ → StockInfoCache → StockInfoCache
unfolding set_name
set_many now [] s = s
set_many now ((code, name) ∷ mappings) s = set_many now mappings (set_name now code name s)

abbrev pub clear : StockInfoCache → StockInfoCache
clear s = record s { cache = [] }

abbrev pub get_cached_count : StockInfoCache → ℕ
get_cached_count s = length s.cache

abbrev pub fresh_names : (now cache_ttl : ℕ) → Dict Cached → Dict ℕ
fresh_names now cache_ttl [] = []
fresh_names now cache_ttl ((code, c) ∷ cache) =
    let rest = fresh_names now cache_ttl cache in
    if is_fresh now cache_ttl c then (code, c.name) ∷ rest else rest

abbrev pub get_all_cached : (now : ℕ) → StockInfoCache → Dict ℕ
get_all_cached now s = fresh_names now s.cache_ttl s.cache
