-- ===== src/Auth/Service.antt =====
-- services/auth/service.py: login, rotation of refresh tokens, logout and WebSocket tickets. The hash
-- of a token, the check of a password and the signed access token are arguments, as are the texts
-- that are drawn at random. The bus takes each audit event.
use icici_breeze_api_trading.Prelude.{
  ℕ, ◌+◌, ◌*◌, Bool, true, Option, none, some, List, [], ◌∷◌, ◌++◌, if◌then◌else◌,
}
use icici_breeze_api_trading.Prelude.Result.{Result, ok, err, other_error}
use icici_breeze_api_trading.Contracts.{Text, Time}
use icici_breeze_api_trading.Auth.{
  UserRole, UserRow, RefreshRow, TicketRow, AuthRepository, get_user_by_username, get_user_by_id,
  store_refresh_token, get_active_refresh_token, revoke_refresh_token, store_ws_ticket,
  consume_ws_ticket,
}

pub record UserPrincipal : Type 0 where
  pub user_id : Text
  pub username : Text
  pub role : UserRole
  pub is_active : Bool

pub data AuthEvent : Type 0 where
  user_login_failure user_login_success token_refreshed user_logout ws_ticket_issued : AuthEvent
  ws_authentication_failure ws_authentication_success : AuthEvent

pub record AuthService : Type 0 where
  pub repo : AuthRepository
  pub audit : List AuthEvent

-- The lifetimes of the settings.
pub record AuthSettings : Type 0 where
  pub access_token_expire_minutes : ℕ
  pub refresh_token_expire_days : ℕ
  pub ws_ticket_expire_seconds : ℕ

-- What the libraries compute: `hash_token`, `verify_password`, `create_access_token`, and the name
-- stripped and lowered.
pub record Crypto : Type 0 where
  pub hash_token : Text → Text
  pub verify_password : Text → Text → Text → Bool
  pub create_access_token : UserPrincipal → Text
  pub normal : Text → Text

-- What one call draws and reads: the instant, `generate_id` and `generate_opaque_token`.
pub record Draw : Type 0 where
  pub now : Time
  pub id : Text
  pub token : Text

-- The principal, the access token, the refresh token and the seconds that the access token lasts.
pub record Issued : Type 0 where
  pub principal : UserPrincipal
  pub access_token : Text
  pub refresh_token : Text
  pub expires_in : ℕ

abbrev pub principal_of : UserRow → UserPrincipal
principal_of u = record {
  user_id = u.user_id;
  username = u.username;
  role = u.role;
  is_active = u.is_active;
}

abbrev pub noted : AuthEvent → AuthService → AuthService
noted e s = record s { audit = s.audit ++ (e ∷ []) }

abbrev pub active_user : Option UserRow → Option UserRow
active_user none = none
active_user (some u) = if u.is_active then some u else none

module _ (crypto : Crypto) (settings : AuthSettings) where
  open crypto use {hash_token, verify_password, create_access_token, normal}

  abbrev pub issued : UserRow → Draw → Issued
  issued u d = record {
    principal = principal_of u;
    access_token = create_access_token (principal_of u);
    refresh_token = d.token;
    expires_in = settings.access_token_expire_minutes * 60;
  }

  abbrev pub stored :
      AuthEvent
      → Issued
      → Result (Unit {0}) × AuthRepository
      → AuthService
      → Result (Option Issued) × AuthService
  stored e i (ok _, repo) s = (ok (some i), noted e (record s { repo = repo }))
  stored e i (err x, repo) s = (err x, record s { repo = repo })

  -- Tokens for a user: the row of the refresh token, then the audit event.
  abbrev pub issue : AuthEvent → UserRow → Draw → AuthService → Result (Option Issued) × AuthService
  issue e u d s =
      stored e (issued u d)
        (store_refresh_token d.id u.user_id (hash_token d.token)
          (d.now + settings.refresh_token_expire_days * 86400000000) s.repo)
        s

  abbrev pub login :
      Option UserRow → Text → Draw → AuthService → Result (Option Issued) × AuthService
  login none password d s = (ok none, noted user_login_failure s)
  login (some u) password d s =
      if verify_password password u.password_hash u.salt
      then issue user_login_success u d s
      else (ok none, noted user_login_failure s)

  unfoldable pub authenticate :
      Text → Text → Draw → AuthService → Result (Option Issued) × AuthService
  unfolding get_user_by_username store_refresh_token
  authenticate username password d s =
      login (active_user (get_user_by_username normal username s.repo)) password d s

  abbrev pub renew : Option UserRow → Draw → AuthService → Result (Option Issued) × AuthService
  renew none d s = (ok none, s)
  renew (some u) d s = issue token_refreshed u d s

  -- The old token is revoked before the user is read.
  abbrev pub rotate :
      Option RefreshRow → Text → Draw → AuthService → Result (Option Issued) × AuthService
  rotate none h d s = (ok none, s)
  rotate (some t) h d s =
      let repo = (revoke_refresh_token h d.now s.repo).1 in
      renew (active_user (get_user_by_id t.user_id repo)) d (record s { repo = repo })

  unfoldable pub refresh_tokens : Text → Draw → AuthService → Result (Option Issued) × AuthService
  unfolding get_active_refresh_token revoke_refresh_token get_user_by_id store_refresh_token
  refresh_tokens raw d s =
      rotate (get_active_refresh_token (hash_token raw) d.now s.repo) (hash_token raw) d s

  abbrev pub logged_out : Bool × AuthRepository → AuthService → Bool × AuthService
  logged_out (revoked, repo) s = (
    revoked,
    if revoked then noted user_logout (record s { repo = repo }) else record s { repo = repo },
  )

  unfoldable pub logout : Text → Time → AuthService → Bool × AuthService
  unfolding revoke_refresh_token
  logout raw now s = logged_out (revoke_refresh_token (hash_token raw) now s.repo) s

  abbrev pub ticketed :
      Text → Result (Unit {0}) × AuthRepository → AuthService → Result (Text × ℕ) × AuthService
  ticketed raw (ok _, repo) s = (
    ok (raw, settings.ws_ticket_expire_seconds),
    noted ws_ticket_issued (record s { repo = repo }),
  )
  ticketed raw (err x, repo) s = (err x, record s { repo = repo })

  -- The drawn token stands with its prefix "wst_".
  unfoldable pub create_ws_ticket :
      UserPrincipal → Draw → AuthService → Result (Text × ℕ) × AuthService
  unfolding store_ws_ticket
  create_ws_ticket user d s =
      ticketed d.token
        (store_ws_ticket d.id (hash_token d.token) user.user_id user.role
          (d.now + settings.ws_ticket_expire_seconds * 1000000) s.repo)
        s

  abbrev pub admitted : Option UserRow → AuthService → Option UserPrincipal × AuthService
  admitted none s = (none, s)
  admitted (some u) s = (some (principal_of u), noted ws_authentication_success s)

  abbrev pub consumed : Option TicketRow → AuthService → Option UserPrincipal × AuthService
  consumed none s = (none, noted ws_authentication_failure s)
  consumed (some t) s = admitted (active_user (get_user_by_id t.user_id s.repo)) s

  unfoldable pub validate_and_consume_ws_ticket :
      Text → Time → AuthService → Option UserPrincipal × AuthService
  unfolding consume_ws_ticket get_user_by_id
  validate_and_consume_ws_ticket raw now s =
      let (t, repo) = consume_ws_ticket (hash_token raw) now s.repo in
      consumed t (record s { repo = repo })

-- What a signed access token says; its role is a text that may name none.
pub record Claims : Type 0 where
  pub sub : Text
  pub username : Text
  pub role : Option UserRole

abbrev principal_of_claims : Claims → Option UserRole → Result UserPrincipal
principal_of_claims c none = err other_error
principal_of_claims c (some role) =
    ok (record { user_id = c.sub; username = c.username; role = role; is_active = true })

abbrev with_claims : Result Claims → Result UserPrincipal
with_claims (err e) = err e
with_claims (ok c) = principal_of_claims c c.role

-- `decode` is `decode_access_token`, which checks the signature and the expiry; it also stands for
-- the error of a claim that is missing.
unfoldable pub verify_access_token : (Text → Result Claims) → Text → Result UserPrincipal
verify_access_token decode token = with_claims (decode token)
