-- ===== src/Tests/Sessions.antt =====
-- Logins and tickets through services/auth/service.py.
use icici_breeze_api_trading.Prelude.{
  ℕ, ◌+◌, ◌≡◌, refl, true, false, none, some, List, [], ◌∷◌, ◌==◌,
}
use icici_breeze_api_trading.Prelude.Result.{ok, err, other_error}
use icici_breeze_api_trading.Auth.{
  UserRow, RefreshRow, TicketRow, trader, get_active_refresh_token, read_ticket,
}
use icici_breeze_api_trading.Auth.Service.{
  AuthService, AuthSettings, Crypto, Draw, principal_of, refresh_tokens,
  validate_and_consume_ws_ticket,
}
use icici_breeze_api_trading.Auth.Rotation.{
  log_in, refresh, take_ticket, handshake, run, run_all, refresh_once,
}
use icici_breeze_api_trading.Auth.Seeding.{
  DefaultUser, StartSettings, StartsSafely, seed_default_users_if_empty, strict_start,
}
use icici_breeze_api_trading.Auth.Tickets.{ticket_once}

abbrev crypto : Crypto
crypto = record {
  hash_token = λ t. t + 1000;
  verify_password = λ p h _. p == h;
  create_access_token = λ p. p.user_id;
  normal = λ n. n;
}

abbrev settings : AuthSettings
settings = record {
  access_token_expire_minutes = 15;
  refresh_token_expire_days = 7;
  ws_ticket_expire_seconds = 60;
}

abbrev draw : ℕ → ℕ → ℕ → Draw
draw now id token = record { now = now; id = id; token = token }

abbrev one_trader : UserRow
one_trader = record {
  user_id = 4;
  username = 5;
  password_hash = 6;
  salt = 0;
  role = trader;
  is_active = true;
}

abbrev one_user : AuthService
one_user = record {
  repo = record { users = one_trader ∷ []; refresh_tokens = []; ws_tickets = [] };
  audit = [];
}

abbrev logged_in : AuthService
logged_in = run crypto settings (log_in 5 6 (draw 100 1 71)) one_user

abbrev first_row : RefreshRow
first_row = record {
  token_id = 1;
  user_id = 4;
  token_hash = 1071;
  expires_at = 604800000100;
  revoked_at = none;
}

is_live : get_active_refresh_token (crypto.hash_token 71) 200 logged_in.repo ≡ some first_row
unfolding run get_active_refresh_token
is_live = refl

refresh_once_example :
    refresh_tokens crypto settings 71
      (draw 300 3 73)
      (run_all crypto settings (refresh 71 (draw 200 2 72) ∷ []) logged_in)
    ≡ (ok none, run_all crypto settings (refresh 71 (draw 200 2 72) ∷ []) logged_in)
refresh_once_example =
    refresh_once crypto settings 71 (draw 200 2 72) (draw 300 3 73) logged_in first_row [] is_live
      (refl, tt)

abbrev ticketed_user : AuthService
ticketed_user = run crypto settings (take_ticket (principal_of one_trader) (draw 100 8 81)) one_user

abbrev first_ticket : TicketRow
first_ticket = record {
  ticket_id = 8;
  ticket_hash = 1081;
  user_id = 4;
  role = trader;
  expires_at = 60000100;
  used_at = none;
}

is_claimable : read_ticket (crypto.hash_token 81) 200 ticketed_user.repo ≡ some first_ticket
unfolding run read_ticket
is_claimable = refl

ticket_once_example :
    (validate_and_consume_ws_ticket crypto settings 81 300
      (run_all crypto settings (handshake 81 200 ∷ []) ticketed_user)).0
    ≡ none
ticket_once_example =
    ticket_once crypto settings 81 200 300 ticketed_user first_ticket [] is_claimable

abbrev known : List DefaultUser
known =
    record { username = 5; password = 6; role = trader; id = 40; password_hash = 6; salt = 0 } ∷ []

abbrev production : StartSettings
production = record {
  is_production = true;
  live_trading_enabled = false;
  local_single_user_mode = false;
}

-- The trader still has the password that the repository ships.
known_password_refused :
    seed_default_users_if_empty crypto.verify_password known production one_user.repo
    ≡ (err other_error, one_user.repo)
unfolding seed_default_users_if_empty
known_password_refused = refl

strict_start_example : StartsSafely crypto.verify_password known production one_user.repo
strict_start_example = strict_start crypto.verify_password known production one_user.repo refl
