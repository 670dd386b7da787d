-- ===== src/LiveGate.antt =====
-- services/risk/live_gate.py, `LiveTradingGate`: the server-side authorization of LIVE trading. The
-- audit events that it publishes are a field; the ids and tokens that it draws at random, the
-- instant of each `utc_now` and Python's `str.strip` are arguments.
pub mod Window
pub mod TwoStep
use icici_breeze_api_trading.Prelude.{
  ℕ, ◌+◌, Bool, true, false, not, ◌&&◌, ◌||◌, Option, none, some, List, [], ◌∷◌, ◌++◌, ltb, leb,
  ◌==◌, if◌then◌else◌, any,
}
use icici_breeze_api_trading.Prelude.Int.{ℤ, pos, ◌+ℤ◌, ◌*ℤ◌, ltb_ℤ, leb_ℤ, min_ℤ}
use icici_breeze_api_trading.Prelude.Result.{Error, Result, ok, err, permission_denied}
use icici_breeze_api_trading.Contracts.{
  Text, Time, AuditEvent, live_activation_challenge_issued, live_mode_activated, live_mode_revoked,
}

pub record Challenge : Type 0 where
  pub challenge_token : Text
  pub operator_id : Text
  pub account_id : Text
  pub duration_minutes : ℤ
  pub expires_at : ℤ

pub record LiveGate : Type 0 where
  pub configured_enabled : Bool
  pub local_single_user_mode : Bool
  pub authorized : Bool
  pub expires_at : Option ℤ
  pub allowed_accounts : List Text
  pub pending_challenges : List (Text × Challenge)
  pub audit : List AuditEvent

-- `timedelta(minutes=m)` in microseconds.
abbrev pub minutes : ℤ → ℤ
minutes m = m *ℤ pos 60000000

-- The dictionary of challenges.
abbrev pub get_challenge : Text → List (Text × Challenge) → Option Challenge
get_challenge k [] = none
get_challenge k ((j, c) ∷ d) = if j == k then some c else get_challenge k d

abbrev pub put_challenge : Text → Challenge → List (Text × Challenge) → List (Text × Challenge)
put_challenge k c [] = (k, c) ∷ []
put_challenge k c ((j, b) ∷ d) = if j == k then (k, c) ∷ d else (j, b) ∷ put_challenge k c d

abbrev pub delete_challenge : Text → List (Text × Challenge) → List (Text × Challenge)
delete_challenge k [] = []
delete_challenge k ((j, b) ∷ d) =
    let rest = delete_challenge k d in if j == k then rest else (j, b) ∷ rest

-- The window is open while the instant lies before its end.
abbrev pub in_window : Option ℤ → Time → Bool
in_window none now = false
in_window (some e) now = not (leb_ℤ e (pos now))

unfoldable pub is_live_active : Time → LiveGate → Bool
is_live_active now g =
    if g.local_single_user_mode
    then g.configured_enabled
    else if not g.configured_enabled || not g.authorized
    then false
    else in_window g.expires_at now

abbrev pub is_allowed : Text → List Text → Bool
is_allowed a = any (λ b. b == a)

abbrev pub is_nonempty : List Text → Bool
is_nonempty [] = false
is_nonempty (_ ∷ _) = true

-- `validate_live_order`, without the message.
unfoldable pub validate_live_order : Time → Text → LiveGate → Bool
unfolding is_live_active
validate_live_order now account_id g =
    if not (is_live_active now g)
    then false
    else if is_nonempty g.allowed_accounts && not (is_allowed account_id g.allowed_accounts)
    then false
    else true

abbrev pub new_challenge : Time → Text → Text → ℤ → Text → Challenge
new_challenge now operator_id account_id duration token = record {
  challenge_token = token;
  operator_id = operator_id;
  account_id = account_id;
  duration_minutes = min_ℤ duration (pos 480);
  expires_at = pos now +ℤ minutes (pos 5);
}

-- `request_activation_challenge`; `id` and `token` are the two that it draws and returns.
unfoldable pub request_activation_challenge :
    Time → Text → Text → ℤ → Text → Text → LiveGate → Result (Text × Text) × LiveGate
request_activation_challenge now operator_id account_id duration id token g =
    if not g.configured_enabled
    then (err permission_denied, g)
    else if not (is_allowed account_id g.allowed_accounts)
    then (err permission_denied, g)
    else (
      ok (id, token),
      record g {
        pending_challenges =
            put_challenge id (new_challenge now operator_id account_id duration token)
              g.pending_challenges;
        audit = g.audit ++ (live_activation_challenge_issued ∷ []);
      },
    )

abbrev pub open_window : Time → Text → Challenge → LiveGate → LiveGate
open_window now id c g = record g {
  authorized = true;
  expires_at = some (pos now +ℤ minutes c.duration_minutes);
  pending_challenges = delete_challenge id g.pending_challenges;
  audit = g.audit ++ (live_mode_activated ∷ []);
}

-- The checks of `confirm_activation` on the challenge that it found.
unfoldable pub confirm_challenge :
    Time → Text → Text → Text → Option Challenge → LiveGate → Bool × LiveGate
confirm_challenge now id token operator_id none g = (false, g)
confirm_challenge now id token operator_id (some c) g =
    if ltb_ℤ c.expires_at (pos now)
    then (false, record g { pending_challenges = delete_challenge id g.pending_challenges })
    else if not (c.challenge_token == token)
    then (false, g)
    else if not (c.operator_id == operator_id)
    then (false, g)
    else if not g.configured_enabled
    then (false, g)
    else if not (is_allowed c.account_id g.allowed_accounts)
    then (false, g)
    else (true, open_window now id c g)

-- `confirm_activation`
unfoldable pub confirm_activation :
    (Text → Text) → Time → Text → Text → Text → LiveGate → Bool × LiveGate
unfolding confirm_challenge
confirm_activation strip now id token operator_id g =
    confirm_challenge now id (strip token) operator_id (get_challenge id g.pending_challenges) g

unfoldable pub revoke_live_mode : LiveGate → LiveGate
revoke_live_mode g = record g {
  authorized = false;
  expires_at = none;
  pending_challenges = [];
  audit = g.audit ++ (live_mode_revoked ∷ []);
}
