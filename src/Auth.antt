-- ===== src/Auth.antt =====
-- services/auth/repository.py: the tables of users, refresh tokens and WebSocket tickets. Of the
-- columns `created_at` and `updated_at` no code reads any, and they are left out. A role is one of
-- `UserRole`, by which alone rows are written.
pub mod Service
pub mod Rotation
pub mod Tickets
pub mod Seeding
use icici_breeze_api_trading.Prelude.{
  ℕ, Bool, true, false, not, ◌&&◌, ◌||◌, Option, none, some, List, [], ◌∷◌, ◌++◌, ltb, leb, ◌==◌,
  if◌then◌else◌, find, any, is_some, map,
}
use icici_breeze_api_trading.Prelude.Result.{Result, ok, err, integrity}
use icici_breeze_api_trading.Contracts.{Text, Time}

pub data UserRole : Type 0 where
  admin operator trader read_only : UserRole

pub record UserRow : Type 0 where
  pub user_id : Text
  pub username : Text
  pub password_hash : Text
  pub salt : Text
  pub role : UserRole
  pub is_active : Bool

pub record RefreshRow : Type 0 where
  pub token_id : Text
  pub user_id : Text
  pub token_hash : Text
  pub expires_at : Time
  pub revoked_at : Option Time

pub record TicketRow : Type 0 where
  pub ticket_id : Text
  pub ticket_hash : Text
  pub user_id : Text
  pub role : UserRole
  pub expires_at : Time
  pub used_at : Option Time

pub record AuthRepository : Type 0 where
  pub users : List UserRow
  pub refresh_tokens : List RefreshRow
  pub ws_tickets : List TicketRow

abbrev pub has_id : Text → UserRow → Bool
has_id id u = u.user_id == id

abbrev pub has_name : Text → UserRow → Bool
has_name name u = u.username == name

abbrev pub has_ticket : Text → TicketRow → Bool
has_ticket h t = t.ticket_hash == h

-- `user_id` is a primary key and `username` is unique; the caller has stripped and lowered the name.
unfoldable pub create_user : UserRow → AuthRepository → Result Text × AuthRepository
create_user row r =
    if any (has_id row.user_id) r.users || any (has_name row.username) r.users
    then (err integrity, r)
    else (ok row.user_id, record r { users = r.users ++ (row ∷ []) })

-- `normal` strips and lowers a name.
unfoldable pub get_user_by_username : (Text → Text) → Text → AuthRepository → Option UserRow
get_user_by_username normal name r = find (has_name (normal name)) r.users

unfoldable pub get_user_by_id : Text → AuthRepository → Option UserRow
get_user_by_id id r = find (has_id id) r.users

abbrev pub new_refresh : Text → Text → Text → Time → RefreshRow
new_refresh token_id user_id token_hash expires_at = record {
  token_id = token_id;
  user_id = user_id;
  token_hash = token_hash;
  expires_at = expires_at;
  revoked_at = none;
}

-- The primary key and the foreign key of the row must hold.
unfoldable pub store_refresh_token :
    Text → Text → Text → Time → AuthRepository → Result (Unit {0}) × AuthRepository
store_refresh_token token_id user_id token_hash expires_at r =
    if any (λ t. t.token_id == token_id) r.refresh_tokens || not (any (has_id user_id) r.users)
    then (err integrity, r)
    else (
      ok tt,
      record r {
        refresh_tokens =
            r.refresh_tokens ++ (new_refresh token_id user_id token_hash expires_at ∷ []);
      },
    )

abbrev pub is_revoked : RefreshRow → Bool
is_revoked t = is_some t.revoked_at

abbrev pub is_live : Text → Time → RefreshRow → Bool
is_live h now t = (t.token_hash == h) && (not (is_revoked t) && ltb now t.expires_at)

unfoldable pub get_active_refresh_token : Text → Time → AuthRepository → Option RefreshRow
get_active_refresh_token h now r = find (is_live h now) r.refresh_tokens

abbrev pub revokes : Text → RefreshRow → Bool
revokes h t = (t.token_hash == h) && not (is_revoked t)

abbrev pub revoke_row : Text → Time → RefreshRow → RefreshRow
revoke_row h now t = if revokes h t then record t { revoked_at = some now } else t

-- Whether a row was changed.
unfoldable pub revoke_refresh_token : Text → Time → AuthRepository → Bool × AuthRepository
revoke_refresh_token h now r = (
  any (revokes h) r.refresh_tokens,
  record r { refresh_tokens = map (revoke_row h now) r.refresh_tokens },
)

abbrev pub new_ticket : Text → Text → Text → UserRole → Time → TicketRow
new_ticket ticket_id ticket_hash user_id role expires_at = record {
  ticket_id = ticket_id;
  ticket_hash = ticket_hash;
  user_id = user_id;
  role = role;
  expires_at = expires_at;
  used_at = none;
}

unfoldable pub store_ws_ticket :
    Text → Text → Text → UserRole → Time → AuthRepository → Result (Unit {0}) × AuthRepository
store_ws_ticket ticket_id ticket_hash user_id role expires_at r =
    if any (λ t. t.ticket_id == ticket_id) r.ws_tickets || not (any (has_id user_id) r.users)
    then (err integrity, r)
    else (
      ok tt,
      record r {
        ws_tickets =
            r.ws_tickets ++ (new_ticket ticket_id ticket_hash user_id role expires_at ∷ []);
      },
    )

abbrev pub claimable : Time → Option TicketRow → Option TicketRow
claimable now none = none
claimable now (some t) = if is_some t.used_at || leb t.expires_at now then none else some t

-- The SELECT of `consume_ws_ticket` and its checks.
unfoldable pub read_ticket : Text → Time → AuthRepository → Option TicketRow
read_ticket h now r = claimable now (find (has_ticket h) r.ws_tickets)

abbrev pub mark_used : Text → Time → TicketRow → TicketRow
mark_used id now t = if t.ticket_id == id then record t { used_at = some now } else t

-- Its UPDATE, which does not look at `used_at` again.
unfoldable pub mark_ticket : Text → Time → AuthRepository → AuthRepository
mark_ticket id now r = record r { ws_tickets = map (mark_used id now) r.ws_tickets }

abbrev pub claim_ticket : Option TicketRow → Time → AuthRepository → AuthRepository
claim_ticket none now r = r
claim_ticket (some t) now r = mark_ticket t.ticket_id now r

unfoldable pub consume_ws_ticket : Text → Time → AuthRepository → Option TicketRow × AuthRepository
unfolding read_ticket mark_ticket
consume_ws_ticket h now r = let t = read_ticket h now r in (t, claim_ticket t now r)
