-- ===== src/Engine/Books/Delivery.antt =====
-- Which strategies an order book reaches, and what they are given (`_distribute_order_book` and
-- `_convert_order_book_data` of src/services/strategy_engine.py).
use auto_trading.Prelude.{
  ℕ, ◌≡◌, ◌<◌, ◌⊎◌, inl, inr, refl, ◌∙◌, true, false, Option, none, some, List, [], ◌∷◌, ◌==◌, map,
  get, All, Bool-cases, Option-cases, arith,
}
use auto_trading.Engine.{StrategyConfig, StrategyEngine}
use auto_trading.Strategies.Charts.{take}
use auto_trading.Strategies.Imbalance.{OrderBook}
use auto_trading.Engine.Books.{
  OrderBookData, BookMessage, book, received, levels_of, convert_order_book_data, is_listed,
  is_skipped, delivered, deliver, distribute_order_book, zip, level, all_priced, levels_of-zip,
  distribute_each-get,
}

-- The first ten prices and quantities of a side in pairs, up to the end of the shorter list.
abbrev pub first_ten : (prices quantities : List ℕ) → List (ℕ × ℕ)
first_ten prices quantities = take 10 (zip prices quantities)

abbrev pub AllPriced : List (ℕ × ℕ) → Type 0
AllPriced pairs = All (λ e. 0 < e.0) pairs

-- The book that the data describe: the asks from the asks, the bids from the bids, and both with
-- prices above zero.
pub record IsBookOf (d : OrderBookData) (b : OrderBook) : Type 0 where
  pub its_stock : b.stock_code ≡ d.stock_code
  pub its_asks : b.ask_levels ≡ map level (first_ten d.ask_prices d.ask_quantities)
  pub its_bids : b.bid_levels ≡ map level (first_ten d.bid_prices d.bid_quantities)
  pub asks_priced : AllPriced (first_ten d.ask_prices d.ask_quantities)
  pub bids_priced : AllPriced (first_ten d.bid_prices d.bid_quantities)
  pub its_ask_total : b.total_ask_quantity ≡ d.total_ask_quantity
  pub its_bid_total : b.total_bid_quantity ≡ d.total_bid_quantity
  pub its_time : b.timestamp ≡ d.timestamp

-- The message is for this stock, and is this book or describes it.
abbrev pub Carries : BookMessage → (code : ℕ) → OrderBook → Type 0
Carries (book c) code b = (code ≡ c.stock_code) × (b ≡ c)
Carries (received d) code b = (code ≡ d.stock_code) × IsBookOf d b

-- The message holds a level with a price of zero.
abbrev pub IsBroken : BookMessage → Type 0
IsBroken (book c) = ⊥
IsBroken (received d) =
    (¬ AllPriced (first_ten d.ask_prices d.ask_quantities))
    ⊎ (¬ AllPriced (first_ten d.bid_prices d.bid_quantities))

abbrev pub code_of : BookMessage → ℕ
code_of (book c) = c.stock_code
code_of (received d) = d.stock_code

-- The symbol is one of the list.
abbrev pub Lists : List ℕ → ℕ → Type 0
Lists [] code = ⊥
Lists (x ∷ symbols) code = (x ≡ code) ⊎ Lists symbols code

-- The strategy has no configuration, or one that lists the stock.
abbrev pub Watches : (code : ℕ) → Option StrategyConfig → Type 0
Watches code none = Unit
Watches code (some config) = Lists config.symbols code

-- What a message makes of the strategy that stands under a name: where the strategy has a setter for
-- books and watches the stock, and the message is not broken, it is set to the message's book; and
-- one of the three fails where it is as it was.
pub data Delivered {S : Type 0} (set_order_book : S → Option (ℕ → OrderBook → S)) (x : BookMessage)
    (config : Option StrategyConfig) : Option S → Option S → Type 0 where
  absent : Delivered set_order_book x config none none
  reached :
      (s : S) (set : ℕ → OrderBook → S) (code : ℕ) (b : OrderBook)
      → set_order_book s ≡ some set
      → Watches code config
      → Carries x code b
      → Delivered set_order_book x config (some s) (some (set code b))
  without_setter :
      (s : S) → set_order_book s ≡ none → Delivered set_order_book x config (some s) (some s)
  not_watching :
      (s : S) → ¬ Watches (code_of x) config → Delivered set_order_book x config (some s) (some s)
  broken : (s : S) → IsBroken x → Delivered set_order_book x config (some s) (some s)

is_listed-true : (code : ℕ) (l : List ℕ) → is_listed code l ≡ true → Lists l code
is_listed-true code [] h = absurd (cc)
is_listed-true code (x ∷ l) h = elim (Bool-cases (x == code)) [
  | inl here ↦ inl (ground (arith, here))
  | inr elsewhere ↦ inr (is_listed-true code l (rw elsewhere at h))
]

is_listed-false : (code : ℕ) (l : List ℕ) → is_listed code l ≡ false → ¬ Lists l code
is_listed-false code [] h k = k
is_listed-false code (x ∷ l) h (inl here) = absurd (ground (arith, h, here))
is_listed-false code (x ∷ l) h (inr k) = elim (Bool-cases (x == code)) [
  | inl here ↦ absurd (cc (rw here at h))
  | inr elsewhere ↦ is_listed-false code l (rw elsewhere at h) k
]

all_priced-true : (l : List (ℕ × ℕ)) → all_priced l ≡ true → AllPriced l
all_priced-true [] h = tt
all_priced-true ((p, q) ∷ l) h = elim (Bool-cases (p == 0)) [
  | inl nothing ↦ absurd (cc (rw nothing at h))
  | inr priced ↦ (ground (arith, priced), all_priced-true l (rw priced at h))
]

all_priced-false : (l : List (ℕ × ℕ)) → all_priced l ≡ false → ¬ AllPriced l
all_priced-false [] h k = cc
all_priced-false ((p, q) ∷ l) h (priced, k) = elim (Bool-cases (p == 0)) [
  | inl nothing ↦ absurd (ground (arith, nothing, priced))
  | inr some_price ↦ all_priced-false l (rw some_price at h) k
]

-- One side of the book.
levels_of-cases :
    (prices quantities : List ℕ)
    → let pairs = first_ten prices quantities in
      (AllPriced pairs × (levels_of 10 prices quantities ≡ some (map level pairs)))
      ⊎ ((¬ AllPriced pairs) × (levels_of 10 prices quantities ≡ none))
levels_of-cases prices quantities =
    let pairs = first_ten prices quantities in
    elim (Bool-cases (all_priced pairs)) [
      | inl priced ↦
          inl (all_priced-true pairs priced, levels_of-zip 10 prices quantities ∙ rw priced refl)
      | inr unpriced ↦
          inr
            (all_priced-false pairs unpriced, levels_of-zip 10 prices quantities ∙ rw unpriced refl)
    ]

convert_order_book_data-cases :
    (d : OrderBookData)
    → ((b : OrderBook) × (convert_order_book_data d ≡ some b) × IsBookOf d b)
      ⊎ (IsBroken (received d) × (convert_order_book_data d ≡ none))
unfolding convert_order_book_data
convert_order_book_data-cases d = elim (levels_of-cases d.ask_prices d.ask_quantities) [
  | inr (unpriced, fails) ↦ inr (inl unpriced, rw (fails, convert_order_book_data) refl)
  | inl (asks, made) ↦ elim (levels_of-cases d.bid_prices d.bid_quantities) [
    | inr (unpriced, fails) ↦ inr (inr unpriced, rw (made, convert_order_book_data, fails) refl)
    | inl (bids, made') ↦ inl (
      record {
        stock_code = d.stock_code;
        ask_levels = map level (first_ten d.ask_prices d.ask_quantities);
        bid_levels = map level (first_ten d.bid_prices d.bid_quantities);
        total_ask_quantity = d.total_ask_quantity;
        total_bid_quantity = d.total_bid_quantity;
        timestamp = d.timestamp;
      },
      rw (made, convert_order_book_data, made') refl,
      record {
        its_stock = refl;
        its_asks = refl;
        its_bids = refl;
        asks_priced = asks;
        bids_priced = bids;
        its_ask_total = refl;
        its_bid_total = refl;
        its_time = refl;
      },
    )
  ]
]

Watches-cases :
    (code : ℕ) (config : Option StrategyConfig)
    → (Watches code config × (is_skipped code config ≡ false))
      ⊎ ((¬ Watches code config) × (is_skipped code config ≡ true))
Watches-cases code none = inl (tt, refl)
Watches-cases code (some config) = elim (Bool-cases (is_listed code config.symbols)) [
  | inl listed ↦ inl (is_listed-true code config.symbols listed, rw listed refl)
  | inr unlisted ↦ inr (is_listed-false code config.symbols unlisted, rw unlisted refl)
]

module _ {S : Type 0} (set_order_book : S → Option (ℕ → OrderBook → S)) where
  delivered-Delivered :
      (x : BookMessage) (b : OrderBook) (config : Option StrategyConfig) (s : S)
      → Carries x (code_of x) b
      → Delivered set_order_book x config
          (some s)
          (some (delivered set_order_book (code_of x) b config s))
  delivered-Delivered x b config s carries = elim (Watches-cases (code_of x) config) [
    | inr (unwatched, skipped) ↦ rw skipped (not_watching s unwatched)
    | inl (watched, goes) ↦ elim (Option-cases (set_order_book s)) [
      | inl nothing ↦ rw (goes, nothing) (without_setter s nothing)
      | inr (set, has) ↦ rw (goes, has) (reached s set (code_of x) b has watched carries)
    ]
  ]

  deliver-Delivered :
      (x : BookMessage) (b : OrderBook) (e : StrategyEngine S) (name : ℕ)
      → Carries x (code_of x) b
      → Delivered set_order_book x
          (get name e.strategy_configs)
          (get name e.strategies)
          (get name (deliver set_order_book (some b) (code_of x) e).strategies)
  unfolding deliver
  deliver-Delivered x b e name carries =
      rw (distribute_each-get set_order_book (code_of x) b e.strategy_configs e.strategies name)
        (by_strategy (get name e.strategies))
    where
      by_strategy :
          (o : Option S)
          → Delivered set_order_book x (get name e.strategy_configs) o (elim o [
            | none ↦ none
            | some s ↦ some (delivered set_order_book (code_of x) b (get name e.strategy_configs) s)
          ])
      by_strategy none = absent
      by_strategy (some s) = delivered-Delivered x b (get name e.strategy_configs) s carries

  untouched :
      (x : BookMessage) (config : Option StrategyConfig) (o : Option S)
      → IsBroken x
      → Delivered set_order_book x config o o
  untouched x config none h = absent
  untouched x config (some s) h = broken s h

  -- An order book, as it is or as the data of the WebSocket describe it with up to ten levels on each
  -- side, is set in exactly the strategies that have a setter for it and that have no configuration
  -- or one that lists the book's stock. The others stay as they were, as do all where one of the
  -- prices to convert is zero. No strategy comes or goes.
  pub distribute_order_book-Delivered :
      (x : BookMessage) (e : StrategyEngine S) (name : ℕ)
      → Delivered set_order_book x
          (get name e.strategy_configs)
          (get name e.strategies)
          (get name (distribute_order_book set_order_book x e).strategies)
  unfolding distribute_order_book
  distribute_order_book-Delivered (book b) e name = deliver-Delivered (book b) b e name (refl, refl)
  distribute_order_book-Delivered (received d) e name = elim (convert_order_book_data-cases d) [
    | inl (b, made, is) ↦ rw made (deliver-Delivered (received d) b e name (refl, is))
    | inr (broken_levels, fails) ↦
        rw (fails, deliver)
          (untouched (received d) (get name e.strategy_configs) (get name e.strategies)
            broken_levels)
  ]
