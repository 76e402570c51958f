-- ===== src/Engine/Books.antt =====
-- How order books reach the strategies (`_convert_order_book_data` and `_distribute_order_book` of
-- src/services/strategy_engine.py).
pub mod Delivery
use auto_trading.Prelude.{
  ℕ, zero, suc, ◌≡◌, refl, ap, Bool, true, false, ◌||◌, not, Option, none, some, List, [], ◌∷◌,
  ◌==◌, if◌then◌else◌, map, Dict, get, Bool-cases, inl, inr, arith,
}
use auto_trading.Engine.{StrategyConfig, StrategyEngine}
use auto_trading.Strategies.Charts.{take}
use auto_trading.Strategies.Imbalance.{OrderBookLevel, OrderBook}

pub record OrderBookData : Type 0 where
  pub stock_code : ℕ
  pub ask_prices : List ℕ
  pub ask_quantities : List ℕ
  pub bid_prices : List ℕ
  pub bid_quantities : List ℕ
  pub total_ask_quantity : ℕ
  pub total_bid_quantity : ℕ
  pub timestamp : ℕ

-- What arrives: a book of the engine's own kind, or the data of the WebSocket.
pub data BookMessage : Type 0 where
  book : OrderBook → BookMessage
  received : OrderBookData → BookMessage

-- The first `left` levels; a level with a price of 0 raises ValidationError, here `none`.
unfoldable pub levels_of : (left : ℕ) (prices quantities : List ℕ) → Option (List OrderBookLevel)
levels_of zero prices quantities = some []
levels_of (suc left) [] quantities = some []
levels_of (suc left) (p ∷ prices) [] = some []
levels_of (suc left) (p ∷ prices) (q ∷ quantities) =
    let rest = levels_of left prices quantities in
    if p == 0
    then none
    else elim rest [ none ↦ none | some l ↦ some (record { price = p; quantity = q } ∷ l) ]

unfoldable pub convert_order_book_data : OrderBookData → Option OrderBook
unfolding levels_of
convert_order_book_data d = elim (levels_of 10 d.ask_prices d.ask_quantities) [
  | none ↦ none
  | some asks ↦ elim (levels_of 10 d.bid_prices d.bid_quantities) [
    | none ↦ none
    | some bids ↦ some (record {
      stock_code = d.stock_code;
      ask_levels = asks;
      bid_levels = bids;
      total_ask_quantity = d.total_ask_quantity;
      total_bid_quantity = d.total_bid_quantity;
      timestamp = d.timestamp;
    })
  ]
]

abbrev pub is_listed : (code : ℕ) → List ℕ → Bool
is_listed code [] = false
is_listed code (x ∷ symbols) = (x == code) || is_listed code symbols

-- `config and stock_code not in config.symbols`
abbrev pub is_skipped : (code : ℕ) → Option StrategyConfig → Bool
is_skipped code none = false
is_skipped code (some config) = not (is_listed code config.symbols)

-- A strategy's `set_order_book`, where it has one.
module _ {S : Type 0} (set_order_book : S → Option (ℕ → OrderBook → S)) where
  abbrev pub set_where_had : ℕ → OrderBook → S → Option (ℕ → OrderBook → S) → S
  set_where_had code b s none = s
  set_where_had code b s (some set) = set code b

  abbrev pub delivered : ℕ → OrderBook → Option StrategyConfig → S → S
  delivered code b config s =
      if is_skipped code config then s else set_where_had code b s (set_order_book s)

  unfoldable pub distribute_each : ℕ → OrderBook → Dict StrategyConfig → Dict S → Dict S
  distribute_each code b configs [] = []
  distribute_each code b configs (e ∷ strategies) =
      (e.0, delivered code b (get e.0 configs) e.1) ∷ distribute_each code b configs strategies

  unfoldable pub deliver : Option OrderBook → ℕ → StrategyEngine S → StrategyEngine S
  unfolding distribute_each
  deliver none code e = e
  deliver (some b) code e = record e {
    strategies = distribute_each code b e.strategy_configs e.strategies;
  }

  -- `_distribute_order_book`
  unfoldable pub distribute_order_book : BookMessage → StrategyEngine S → StrategyEngine S
  unfolding deliver convert_order_book_data
  distribute_order_book (book b) e = deliver (some b) b.stock_code e
  distribute_order_book (received d) e = deliver (convert_order_book_data d) d.stock_code e

abbrev pub zip : List ℕ → List ℕ → List (ℕ × ℕ)
zip [] ys = []
zip (x ∷ xs) [] = []
zip (x ∷ xs) (y ∷ ys) = (x, y) ∷ zip xs ys

abbrev pub level : ℕ × ℕ → OrderBookLevel
level (p, q) = record { price = p; quantity = q }

abbrev pub all_priced : List (ℕ × ℕ) → Bool
all_priced [] = true
all_priced ((p, q) ∷ pairs) = if p == 0 then false else all_priced pairs

-- The levels of one side of a book are its first prices and quantities in pairs, up to the number
-- asked for and to the end of the shorter list, and the conversion fails exactly where one of
-- these prices is 0.
pub levels_of-zip :
    (left : ℕ) (prices quantities : List ℕ)
    → let pairs = take left (zip prices quantities) in
      levels_of left prices quantities ≡ (if all_priced pairs then some (map level pairs) else none)
unfolding levels_of
levels_of-zip zero [] quantities = refl
levels_of-zip zero (p ∷ prices) [] = refl
levels_of-zip zero (p ∷ prices) (q ∷ quantities) = refl
levels_of-zip (suc left) [] quantities = refl
levels_of-zip (suc left) (p ∷ prices) [] = refl
levels_of-zip (suc left) (p ∷ prices) (q ∷ quantities) =
    rw (levels_of-zip left prices quantities) (ground arith)

module _ {S : Type 0} (set_order_book : S → Option (ℕ → OrderBook → S)) where
  pub distribute_each-get :
      (code : ℕ) (b : OrderBook) (configs : Dict StrategyConfig) (strategies : Dict S) (name : ℕ)
      → get name (distribute_each set_order_book code b configs strategies)
        ≡ elim (get name strategies) [
          | none ↦ none
          | some s ↦ some (delivered set_order_book code b (get name configs) s)
        ]
  unfolding distribute_each
  distribute_each-get code b configs [] name = refl
  distribute_each-get code b configs (e ∷ strategies) name = elim (Bool-cases (e.0 == name)) [
    | inl here ↦
        let its : e.0 ≡ name = ground arith in
        rw here (ap (λ k. some (delivered set_order_book code b (get k configs) e.1)) its)
    | inr elsewhere ↦ rw elsewhere (distribute_each-get code b configs strategies name)
  ]
