-- ===== src/RateLimit/Middleware.antt =====
-- services/api_gateway/middleware.py: RateLimitMiddleware, which asks the limiter before the rest of
-- the application sees a request. Tests and parts of texts, and the `sub` of a token, are arguments.
-- The limiter and the settings are the same, whether `get_services` has them or not.
use icici_breeze_api_trading.Prelude.{
  ℕ, Bool, true, false, not, ◌||◌, Option, none, some, List, [], ◌∷◌, ◌++◌, ◌==◌, if◌then◌else◌,
  any,
}
use icici_breeze_api_trading.Prelude.Result.{Result, ok, err}
use icici_breeze_api_trading.Contracts.{Text, Time}
use icici_breeze_api_trading.RateLimit.{
  Settings, History, Answer, auth_word, commands_word, check_rate_limit,
}

-- A header that is missing or empty is none.
pub record Request : Type 0 where
  pub is_options : Bool
  pub path : Text
  pub authorization : Option Text
  pub forwarded : Option Text
  pub client_host : Option Text

-- `bearer` is the token after "Bearer ", `unverified_sub` the `sub` of a token that decodes,
-- `first_address` the part before the first comma; the keys are the texts after their prefixes.
pub record Strings : Type 0 where
  pub starts_with : Text → Text → Bool
  pub bearer : Text → Option Text
  pub unverified_sub : Text → Option Text
  pub first_address : Text → Text
  pub user_key : Text → Text
  pub ip_key : Text → Text
  pub upper : Text → Text
  pub strip : Text → Text

abbrev pub general_word : Text
general_word = 3

-- "" and the local address.
abbrev empty_text : Text
empty_text = 0

abbrev local_address : Text
local_address = 4

-- The beginnings of the paths of a tier: the session's login is one path.
abbrev pub auth_path : Text
auth_path = 10

abbrev pub login_path : Text
login_path = 11

abbrev pub orders_path : Text
orders_path = 12

abbrev risk_path : Text
risk_path = 13

abbrev live_gate_path : Text
live_gate_path = 14

-- Documentation and health.
abbrev open_paths : List Text
open_paths = 15 ∷ (16 ∷ (17 ∷ (18 ∷ [])))

pub data Response : Type 0 where
  answered : (status : ℕ) → Response
  too_many_requests : (tier : Text) (retry_after : ℕ) → Response

-- The audit event RATE_LIMIT_EXCEEDED.
pub record Exceeded : Type 0 where
  pub client_id : Text
  pub tier : Text
  pub scope : Text
  pub path : Text
  pub retry_after : ℕ

-- What a request meets: the limiter, the bus and the rest of the application.
pub record Edge (W : Type 0) : Type 0 where
  pub history : History
  pub bus : List Exceeded
  pub app : W

module _ (str : Strings) where
  unfoldable pub determine_tier : Text → Text
  determine_tier path =
      if str.starts_with path auth_path || (path == login_path)
      then auth_word
      else if str.starts_with path orders_path
          || (str.starts_with path risk_path || str.starts_with path live_gate_path)
      then commands_word
      else general_word

  abbrev sub_of : Option Text → Option Text
  sub_of none = none
  sub_of (some token) = str.unverified_sub token

  abbrev token_of : Option Text → Option Text
  token_of none = none
  token_of (some header) = str.bearer header

  abbrev host_id : Option Text → Text
  host_id none = str.ip_key local_address
  host_id (some host) = str.ip_key host

  abbrev address_id : Option Text → Option Text → Text
  address_id none host = host_id host
  address_id (some forwarded) host = str.ip_key (str.strip (str.first_address forwarded))

  abbrev subject_id : Option Text → Request → Text
  subject_id none req = address_id req.forwarded req.client_host
  subject_id (some sub) req = str.user_key sub

  unfoldable pub get_client_id : Request → Text
  get_client_id req = subject_id (sub_of (token_of req.authorization)) req

  abbrev pub scope_of : Text → Text
  scope_of path = if determine_tier path == general_word then path else empty_text

  -- Methods and paths that no limit holds for.
  abbrev pub is_exempt : Request → Bool
  is_exempt req = req.is_options || any (λ p. req.path == p) open_paths

  module _ {W : Type 0} (call_next : Request → W → Result Response × W) where
    abbrev pub forward : Request → Edge W → Result Response × Edge W
    forward req e = let (a, w) = call_next req e.app in (a, record e { app = w })

    abbrev pub exceeded : Request → ℕ → Exceeded
    exceeded req retry_after = record {
      client_id = get_client_id req;
      tier = determine_tier req.path;
      scope = scope_of req.path;
      path = req.path;
      retry_after = retry_after;
    }

    abbrev pub too_many : Request → ℕ → Edge W → Result Response × Edge W
    too_many req n e = (
      ok (too_many_requests (determine_tier req.path) n),
      record e { bus = e.bus ++ (exceeded req n ∷ []) },
    )

    abbrev pub obey : Answer → Request → Edge W → Result Response × Edge W
    obey (err x) req e = (err x, e)
    obey (ok (true, _)) req e = forward req e
    obey (ok (false, n)) req e = too_many req n e

    abbrev pub ask : Settings → Request → Time → History → Answer × History
    ask s req now h =
        check_rate_limit str.upper str.strip s (get_client_id req) (determine_tier req.path)
          (scope_of req.path) now h

    unfoldable pub dispatch : Settings → Request → Time → Edge W → Result Response × Edge W
    unfolding get_client_id determine_tier check_rate_limit
    dispatch s req now e =
        if not s.rate_limit_enabled || is_exempt req
        then forward req e
        else let (a, h) = ask s req now e.history in obey a req (record e { history = h })
