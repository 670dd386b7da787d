-- ===== src/RateLimit.antt =====
-- services/api_gateway/rate_limiter.py: the sliding window of sixty seconds of each client, tier and
-- scope. An instant of the monotonic clock is a number of microseconds, without the rounding of a
-- float; `str.upper` and `str.strip` are arguments.
pub mod Log
pub mod Middleware
pub mod Handled
pub mod Window
use icici_breeze_api_trading.Prelude.{
  ℕ, ◌+◌, ◌-◌, ◌/◌, Bool, true, false, ◌&&◌, List, [], ◌∷◌, ◌++◌, ltb, leb, ◌==◌, if◌then◌else◌,
  length,
}
use icici_breeze_api_trading.Prelude.Int.{ℤ, pos, leb_ℤ}
use icici_breeze_api_trading.Prelude.Result.{Result, ok, err, other_error}
use icici_breeze_api_trading.Contracts.{Text, Time}

pub record Settings : Type 0 where
  pub rate_limit_enabled : Bool
  pub rate_limit_login_per_minute : ℤ
  pub rate_limit_orders_per_minute : ℤ
  pub rate_limit_general_per_minute : ℤ

-- The texts "AUTH" and "COMMANDS".
abbrev pub auth_word : Text
auth_word = 1

abbrev pub commands_word : Text
commands_word = 2

pub record Key : Type 0 where
  pub client_id : Text
  pub tier : Text
  pub scope : Text

abbrev pub same_key : Key → Key → Bool
same_key a b = (a.client_id == b.client_id) && ((a.tier == b.tier) && (a.scope == b.scope))

-- `_history`, a dictionary whose missing entries are empty queues.
abbrev pub History : Type 0
History = List (Key × List Time)

abbrev pub queue_of : Key → History → List Time
queue_of k [] = []
queue_of k ((j, q) ∷ h) = if same_key j k then q else queue_of k h

abbrev pub put_queue : Key → List Time → History → History
put_queue k q [] = (k, q) ∷ []
put_queue k q ((j, p) ∷ h) = if same_key j k then (j, q) ∷ h else (j, p) ∷ put_queue k q h

-- What `check_rate_limit` returns: whether the request may pass, and `retry_after` in seconds.
abbrev pub Answer : Type 0
Answer = Result (Bool × ℕ)

abbrev pub second : ℕ
second = 1000000

abbrev pub window : ℕ
window = 60000000

abbrev pub ceil_seconds : ℕ → ℕ
ceil_seconds t = (t + 999999) / second

abbrev pub at_least_one : ℕ → ℕ
at_least_one n = if ltb 1 n then n else 1

-- The oldest instant is above `now - window` here, so that the difference is not negative.
abbrev pub retry_after : Time → Time → ℕ
retry_after oldest now = at_least_one (ceil_seconds (oldest + window - now))

-- The loop that drops the instants outside the window from the front of the queue.
unfoldable pub evict : Time → List Time → List Time
evict now [] = []
evict now (t ∷ q) = let rest = evict now q in if leb (t + window) now then rest else t ∷ q

-- `queue[0]` raises an `IndexError` where a limit below one meets an empty queue.
abbrev pub refuse : Time → List Time → Answer
refuse now [] = err other_error
refuse now (oldest ∷ q) = ok (false, retry_after oldest now)

abbrev pub admit : ℤ → Time → List Time → Answer × List Time
admit limit now q =
    if leb_ℤ limit (pos (length q)) then (refuse now q, q) else (ok (true, 0), q ++ (now ∷ []))

unfoldable pub limit_for_tier : Settings → Text → ℤ
limit_for_tier s tier_upper =
    if tier_upper == auth_word
    then s.rate_limit_login_per_minute
    else if tier_upper == commands_word
    then s.rate_limit_orders_per_minute
    else s.rate_limit_general_per_minute

-- The part under the lock.
unfoldable pub check_key : ℤ → Key → Time → History → Answer × History
unfolding evict
check_key limit k now h =
    let (a, q) = admit limit now (evict now (queue_of k h)) in (a, put_queue k q h)

module _ (upper strip : Text → Text) where
  unfoldable pub key_of : Text → Text → Text → Key
  key_of client tier scope = record { client_id = client; tier = upper tier; scope = strip scope }

  unfoldable pub check_rate_limit :
      Settings → Text → Text → Text → Time → History → Answer × History
  unfolding check_key limit_for_tier key_of
  check_rate_limit s client tier scope now h =
      if s.rate_limit_enabled
      then check_key (limit_for_tier s (upper tier)) (key_of client tier scope) now h
      else (ok (true, 0), h)

unfoldable pub reset : History → History
reset h = []
