-- ===== src/Strategies/Imbalance.antt =====
-- Order books and the strategy on them (src/models/order_book.py,
-- src/strategies/order_book_imbalance.py).
pub mod Bounds
use auto_trading.Prelude.{
  ℕ, ◌+◌, ◌*◌, Bool, true, false, ◌||◌, ◌&&◌, Option, none, some, List, [], ◌∷◌, ◌==◌, ltb, leb,
  if◌then◌else◌, Dict, get, put,
}
use auto_trading.Prelude.Int.{ℤ, pos, ltb_ℤ}
use auto_trading.Trading.Division.{Division}
use auto_trading.Trading.Models.{Position}
use auto_trading.Trading.Risk.{one, scale}
use auto_trading.Engine.{Stock, BaseStrategy}
use auto_trading.Strategies.{unit, leb_ℤ, neg, signed_ratio, exits, shares, or_none}

pub record OrderBookLevel : Type 0 where
  pub price : ℕ
  pub quantity : ℕ

pub record OrderBook : Type 0 where
  pub stock_code : ℕ
  pub ask_levels : List OrderBookLevel
  pub bid_levels : List OrderBookLevel
  pub total_ask_quantity : ℕ
  pub total_bid_quantity : ℕ
  pub timestamp : ℕ

abbrev pub best : List OrderBookLevel → ℕ
best [] = 0
best (level ∷ levels) = level.price

abbrev pub get_best_bid : OrderBook → ℕ
get_best_bid b = best b.bid_levels

abbrev pub get_best_ask : OrderBook → ℕ
get_best_ask b = best b.ask_levels

-- The thresholds are ratios, the sell threshold by its absolute value; the position size is in
-- millionths, as the engine's is.
pub record OrderBookImbalance : Type 0 where
  pub buy_threshold : ℕ
  pub sell_threshold : ℕ
  pub max_spread_pct : ℕ
  pub target_profit_pct : ℕ
  pub stop_loss_pct : ℕ
  pub position_size_pct : ℕ
  pub order_book_cache : Dict OrderBook

-- The checks of `__init__`.
abbrev pub is_allowed : OrderBookImbalance → Bool
is_allowed s =
    leb s.buy_threshold unit
    && leb s.sell_threshold unit
    && ltb 0 s.position_size_pct
    && leb s.position_size_pct one

abbrev pub set_order_book : (code : ℕ) → OrderBook → OrderBookImbalance → OrderBookImbalance
set_order_book code b s = record s { order_book_cache = put code b s.order_book_cache }

abbrev pub get_order_book : (code : ℕ) → OrderBookImbalance → Option OrderBook
get_order_book code s = get code s.order_book_cache

module _ (v : Division) where
  unfoldable pub get_imbalance_ratio : OrderBook → ℤ
  unfolding signed_ratio
  get_imbalance_ratio b =
      let total = b.total_bid_quantity + b.total_ask_quantity in
      if total == 0 then pos 0 else signed_ratio v b.total_bid_quantity b.total_ask_quantity total

  -- `get_spread() / best_ask`, for a best ask above zero.
  unfoldable pub spread_pct : OrderBook → ℤ
  unfolding signed_ratio
  spread_pct b =
      if get_best_bid b == 0
      then pos 0
      else signed_ratio v (get_best_ask b) (get_best_bid b) (get_best_ask b)

  abbrev pub buys_on : OrderBookImbalance → Option OrderBook → Bool
  buys_on s none = false
  buys_on s (some b) =
      if ltb_ℤ (get_imbalance_ratio b) (pos s.buy_threshold)
      then false
      else if get_best_ask b == 0
      then false
      else if ltb_ℤ (pos s.max_spread_pct) (spread_pct b)
      then false
      else true

  unfoldable pub imbalance_buy : OrderBookImbalance → Stock → Bool
  unfolding get_imbalance_ratio spread_pct
  imbalance_buy s stock = buys_on s (get_order_book stock.stock_code s)

  abbrev pub sells_on : OrderBookImbalance → Option OrderBook → Bool
  sells_on s none = false
  sells_on s (some b) = leb_ℤ (get_imbalance_ratio b) (neg s.sell_threshold)

  unfoldable pub imbalance_sell : OrderBookImbalance → Position → Stock → Bool
  unfolding get_imbalance_ratio
  imbalance_sell s p stock =
      exits v s.stop_loss_pct s.target_profit_pct p
      || sells_on s (get_order_book stock.stock_code s)

  abbrev pub size_on : OrderBookImbalance → (available : ℤ) → Option OrderBook → Option ℤ
  size_on s available none = none
  size_on s available (some b) =
      if get_best_ask b == 0
      then none
      else or_none (shares v (scale available s.position_size_pct) (one * one) (get_best_ask b))

  unfoldable pub imbalance_size : OrderBookImbalance → Stock → (available : ℤ) → Option ℤ
  unfolding shares
  imbalance_size s stock available =
      if stock.current_price == 0
      then none
      else size_on s available (get_order_book stock.stock_code s)

  -- What the engine calls.
  abbrev pub order_book_imbalance : BaseStrategy OrderBookImbalance
  order_book_imbalance = record {
    evaluate_buy_signal = λ s stock. some (imbalance_buy s stock);
    evaluate_sell_signal = λ s p stock. some (imbalance_sell s p stock);
    calculate_position_size = λ s stock available. some (imbalance_size s stock available);
  }
