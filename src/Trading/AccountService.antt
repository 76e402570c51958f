-- ===== src/Trading/AccountService.antt =====
-- The account cache (src/services/account_service.py). The provider is the broker's client: what it
-- answers to a call is an argument.
use auto_trading.Prelude.{ℕ, Bool, false, Option, none, some, ltb, if◌then◌else◌}
use auto_trading.Prelude.Int.{ℤ, pos, ◌+ℤ◌}
use auto_trading.Trading.Models.{Account}

-- The outcome of a call of the broker's client: an answer, RateLimitExceededError, or another
-- exception.
pub data Reply (A : Type 0) : Type 0 where
  reply : A → Reply A
  rate_limit_exceeded other_error : Reply A

pub record AccountService : Type 0 where
  pub cached_account : Option Account
  -- The day for which the daily result is counted.
  pub daily_pnl_reset_date : Option ℕ

-- `get_account(refresh=True)`, by the provider's answer; a raise leaves the cache as it was.
unfoldable pub refresh_account : Reply Account → AccountService → Reply Account × AccountService
refresh_account (reply a) s = (reply a, record s { cached_account = some a })
refresh_account rate_limit_exceeded s = (rate_limit_exceeded, s)
refresh_account other_error s = (other_error, s)

unfoldable pub cached :
    Option Account → Reply Account → AccountService → Reply Account × AccountService
unfolding refresh_account
cached (some a) answer s = (reply a, s)
cached none answer s = refresh_account answer s

-- `get_account()`: the provider is asked only where nothing is cached.
unfoldable pub get_account : Reply Account → AccountService → Reply Account × AccountService
unfolding cached
get_account answer s = cached s.cached_account answer s

-- Whether the account's day is over, so that the daily result starts anew.
abbrev pub new_day : Option ℕ → (today : ℕ) → Bool
new_day none today = false
new_day (some date) today = ltb date today

-- The day after a change of the result: it moves forward only.
abbrev pub counted_day : Option ℕ → (today : ℕ) → ℕ
counted_day none today = today
counted_day (some date) today = if ltb date today then today else date

unfoldable pub add_pnl : Option Account → (today : ℕ) → ℤ → AccountService → Option AccountService
add_pnl none today change s = none
add_pnl (some a) today change s =
    let base : ℤ = if new_day s.daily_pnl_reset_date today then pos 0 else a.daily_pnl in
    some (record {
      cached_account = some (record a { daily_pnl = base +ℤ change });
      daily_pnl_reset_date = some (counted_day s.daily_pnl_reset_date today);
    })

-- `update_daily_pnl`; `none` is the RuntimeError where no account is cached.
unfoldable pub update_daily_pnl : (today : ℕ) → ℤ → AccountService → Option AccountService
unfolding add_pnl
update_daily_pnl today change s = add_pnl s.cached_account today change s

unfoldable pub clear_cache : AccountService → AccountService
clear_cache s = record s { cached_account = none }
