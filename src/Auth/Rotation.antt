-- ===== src/Auth/Rotation.antt =====
-- Sequences of calls of services/auth/service.py, and a refresh token among them.
use icici_breeze_api_trading.Prelude.{
  ◌+◌, ◌*◌, ◌≡◌, refl, false, not, ◌||◌, Option, none, some, List, [], ◌∷◌, inl, inr, ◌==◌, find,
  any, map, All, All-append, Bool-cases, arith,
}
use icici_breeze_api_trading.Prelude.Result.{Result, ok, err}
use icici_breeze_api_trading.Contracts.{Text, Time}
use icici_breeze_api_trading.Auth.{
  UserRole, UserRow, RefreshRow, AuthRepository, has_id, create_user, has_name, TicketRow, is_live,
  revokes, revoke_row, store_refresh_token, get_active_refresh_token, revoke_refresh_token,
  store_ws_ticket, claim_ticket, mark_ticket,
}
use icici_breeze_api_trading.Auth.Service.{
  UserPrincipal, AuthService, AuthSettings, Crypto, Draw, AuthEvent, authenticate, refresh_tokens,
  logout, create_ws_ticket, validate_and_consume_ws_ticket, issue, renew, rotate, login, admitted,
  consumed, ticketed,
}

-- A call of the service, or the registration of a user.
pub data Op : Type 0 where
  log_in : Text → Text → Draw → Op
  refresh : Text → Draw → Op
  log_out : Text → Time → Op
  take_ticket : UserPrincipal → Draw → Op
  handshake : Text → Time → Op
  register : UserRow → Op

module _ (crypto : Crypto) (settings : AuthSettings) where
  unfoldable pub run : Op → AuthService → AuthService
  unfolding authenticate refresh_tokens logout create_ws_ticket validate_and_consume_ws_ticket
      create_user
  run (log_in name password d) s = (authenticate crypto settings name password d s).1
  run (refresh raw d) s = (refresh_tokens crypto settings raw d s).1
  run (log_out raw now) s = (logout crypto settings raw now s).1
  run (take_ticket user d) s = (create_ws_ticket crypto settings user d s).1
  run (handshake raw now) s = (validate_and_consume_ws_ticket crypto settings raw now s).1
  run (register row) s = record s { repo = (create_user row s.repo).1 }

  unfoldable pub run_all : List Op → AuthService → AuthService
  unfolding run
  run_all [] s = s
  run_all (op ∷ ops) s = run_all ops (run op s)

  -- The tokens that the call draws have another hash.
  abbrev pub IsFresh : Text → Op → Type 0
  IsFresh h (log_in name password d) = (crypto.hash_token d.token == h) ≡ false
  IsFresh h (refresh raw d) = (crypto.hash_token d.token == h) ≡ false
  IsFresh h (take_ticket user d) = (crypto.hash_token d.token == h) ≡ false
  IsFresh h _ = Unit

-- No row with the hash can be used.
abbrev IsDead : Text → RefreshRow → Type 0
IsDead h t = revokes h t ≡ false

abbrev pub AllDead : Text → AuthService → Type 0
AllDead h s = All (IsDead h) s.repo.refresh_tokens

revoke-All :
    (h : Text) (now : Time) (rows : List RefreshRow) → All (IsDead h) (map (revoke_row h now) rows)
revoke-All h now [] = tt
revoke-All h now (t ∷ rows) = (one, revoke-All h now rows)
  where
    one : IsDead h (revoke_row h now t)
    one = elim (Bool-cases (revokes h t)) [ inl e ↦ rw e (ground arith) | inr e ↦ rw e e ]

revoke_other :
    (h j : Text) (now : Time) (rows : List RefreshRow)
    → All (IsDead h) rows
    → All (IsDead h) (map (revoke_row j now) rows)
revoke_other h j now [] a = tt
revoke_other h j now (t ∷ rows) (a, rest) = (one, revoke_other h j now rows rest)
  where
    one : IsDead h (revoke_row j now t)
    one = elim (Bool-cases (revokes j t)) [ inl e ↦ rw e (ground arith) | inr e ↦ rw e a ]

not_live : (h : Text) (now : Time) (t : RefreshRow) → IsDead h t → is_live h now t ≡ false
not_live h now t a = ground arith

ticket_rows :
    (h id hash user_id : Text) (role : UserRole) (at : Time) (r : AuthRepository)
    → All (IsDead h) r.refresh_tokens
    → All (IsDead h) (store_ws_ticket id hash user_id role at r).1.refresh_tokens
unfolding store_ws_ticket
ticket_rows h id hash user_id role at r a =
    elim (Bool-cases
      (any (λ t. t.ticket_id == id) r.ws_tickets || not (any (has_id user_id) r.users))) [
        | inl x ↦ rw x a
        | inr x ↦ rw x a
      ]

none_live :
    (h : Text) (now : Time) (rows : List RefreshRow)
    → All (IsDead h) rows
    → find (is_live h now) rows ≡ none
none_live h now [] a = refl
none_live h now (t ∷ rows) (a, rest) = rw (not_live h now t a) (none_live h now rows rest)

module _ (crypto : Crypto) (settings : AuthSettings) (h : Text) where
  issue-AllDead :
      (e : AuthEvent) (u : UserRow) (d : Draw) (s : AuthService)
      → (crypto.hash_token d.token == h) ≡ false
      → AllDead h s
      → AllDead h (issue crypto settings e u d s).1
  unfolding store_refresh_token
  issue-AllDead e u d s fresh a =
      elim (Bool-cases (
        any (λ t. t.token_id == d.id) s.repo.refresh_tokens
        || not (any (has_id u.user_id) s.repo.users))) [
          | inl x ↦ rw x a
          | inr x ↦ rw x (All-append (IsDead h) s.repo.refresh_tokens _ a (rw fresh refl, tt))
        ]

  login-AllDead :
      (u : Option UserRow) (password : Text) (d : Draw) (s : AuthService)
      → (crypto.hash_token d.token == h) ≡ false
      → AllDead h s
      → AllDead h (login crypto settings u password d s).1
  login-AllDead none password d s fresh a = a
  login-AllDead (some u) password d s fresh a =
      elim (Bool-cases (crypto.verify_password password u.password_hash u.salt)) [
        | inl x ↦ rw x (issue-AllDead _ u d s fresh a)
        | inr x ↦ rw x a
      ]

  renew-AllDead :
      (u : Option UserRow) (d : Draw) (s : AuthService)
      → (crypto.hash_token d.token == h) ≡ false
      → AllDead h s
      → AllDead h (renew crypto settings u d s).1
  renew-AllDead none d s fresh a = a
  renew-AllDead (some u) d s fresh a = issue-AllDead _ u d s fresh a

  rotate-AllDead :
      (t : Option RefreshRow) (j : Text) (d : Draw) (s : AuthService)
      → (crypto.hash_token d.token == h) ≡ false
      → AllDead h s
      → AllDead h (rotate crypto settings t j d s).1
  unfolding revoke_refresh_token
  rotate-AllDead none j d s fresh a = a
  rotate-AllDead (some t) j d s fresh a =
      renew-AllDead _ d _ fresh (revoke_other h j d.now s.repo.refresh_tokens a)

  -- Rotation itself, of the token with the hash.
  rotate_kills :
      (t : RefreshRow) (d : Draw) (s : AuthService)
      → (crypto.hash_token d.token == h) ≡ false
      → AllDead h (rotate crypto settings (some t) h d s).1
  unfolding revoke_refresh_token
  rotate_kills t d s fresh = renew-AllDead _ d _ fresh (revoke-All h d.now s.repo.refresh_tokens)

  admitted-AllDead :
      (u : Option UserRow) (s : AuthService)
      → AllDead h s
      → AllDead h (admitted crypto settings u s).1
  admitted-AllDead none s a = a
  admitted-AllDead (some u) s a = a

  handshake-AllDead :
      (t : Option TicketRow) (now : Time) (s : AuthService)
      → AllDead h s
      → AllDead h (consumed crypto settings t (record s { repo = claim_ticket t now s.repo })).1
  unfolding mark_ticket
  handshake-AllDead none now s a = a
  handshake-AllDead (some t) now s a = admitted-AllDead _ _ a

  ticketed-AllDead :
      (raw : Text) (r : Result (Unit {0}) × AuthRepository) (s : AuthService)
      → All (IsDead h) r.1.refresh_tokens
      → AllDead h s
      → AllDead h (ticketed crypto settings raw r s).1
  ticketed-AllDead raw (ok x, repo) s b a = b
  ticketed-AllDead raw (err x, repo) s b a = b

  run-AllDead :
      (op : Op) (s : AuthService)
      → IsFresh crypto settings h op
      → AllDead h s
      → AllDead h (run crypto settings op s)
  unfolding run
  run-AllDead (log_in name password d) s fresh a = login-AllDead _ password d s fresh a
  run-AllDead (refresh raw d) s fresh a = rotate-AllDead _ _ d s fresh a
  run-AllDead (log_out raw now) s fresh a =
      elim (Bool-cases (any (revokes (crypto.hash_token raw)) s.repo.refresh_tokens)) [
        | inl x ↦ rw x (revoke_other h (crypto.hash_token raw) now s.repo.refresh_tokens a)
        | inr x ↦ rw x (revoke_other h (crypto.hash_token raw) now s.repo.refresh_tokens a)
      ]
  run-AllDead (take_ticket user d) s fresh a =
      ticketed-AllDead d.token _ s
        (ticket_rows h d.id (crypto.hash_token d.token) user.user_id user.role
          (d.now + settings.ws_ticket_expire_seconds * 1000000) s.repo a)
        a
  run-AllDead (handshake raw now) s fresh a = handshake-AllDead _ now s a
  run-AllDead (register row) s fresh a =
      elim (Bool-cases
        (any (has_id row.user_id) s.repo.users || any (has_name row.username) s.repo.users)) [
          | inl x ↦ rw x a
          | inr x ↦ rw x a
        ]

  run_all-AllDead :
      (ops : List Op) (s : AuthService)
      → All (IsFresh crypto settings h) ops
      → AllDead h s
      → AllDead h (run_all crypto settings ops s)
  unfolding run_all
  run_all-AllDead [] s fresh a = a
  run_all-AllDead (op ∷ ops) s (f, fresh) a =
      run_all-AllDead ops (run crypto settings op s) fresh (run-AllDead op s f a)

module _ (crypto : Crypto) (settings : AuthSettings) where
  dead_refused :
      (raw : Text) (d : Draw) (s : AuthService)
      → AllDead (crypto.hash_token raw) s
      → refresh_tokens crypto settings raw d s ≡ (ok none, s)
  unfolding refresh_tokens
  dead_refused raw d s a = rw (none_live (crypto.hash_token raw) d.now s.repo.refresh_tokens a) refl

  refresh_kills :
      (raw : Text) (d : Draw) (s : AuthService) (t : RefreshRow)
      → (crypto.hash_token d.token == crypto.hash_token raw) ≡ false
      → get_active_refresh_token (crypto.hash_token raw) d.now s.repo ≡ some t
      → AllDead (crypto.hash_token raw) (run crypto settings (refresh raw d) s)
  unfolding run
  refresh_kills raw d s t fresh live =
      rotated (get_active_refresh_token (crypto.hash_token raw) d.now s.repo) live
    where
      rotated :
          (o : Option RefreshRow)
          → o ≡ some t
          → AllDead (crypto.hash_token raw) (rotate crypto settings o (crypto.hash_token raw) d s).1
      rotated o e = rw e (rotate_kills crypto settings (crypto.hash_token raw) t d s fresh)

  logout_kills :
      (raw : Text) (now : Time) (s : AuthService)
      → AllDead (crypto.hash_token raw) (run crypto settings (log_out raw now) s)
  unfolding run
  logout_kills raw now s =
      elim (Bool-cases (any (revokes (crypto.hash_token raw)) s.repo.refresh_tokens)) [
        | inl x ↦ rw x (revoke-All (crypto.hash_token raw) now s.repo.refresh_tokens)
        | inr x ↦ rw x (revoke-All (crypto.hash_token raw) now s.repo.refresh_tokens)
      ]

  -- A refresh token that was accepted once, whatever it was answered, is refused after any further
  -- calls, and refusing it changes nothing, where the tokens drawn in between have other hashes
  -- than its own.
  pub refresh_once :
      (raw : Text) (d d' : Draw) (s : AuthService) (t : RefreshRow) (ops : List Op)
      → get_active_refresh_token (crypto.hash_token raw) d.now s.repo ≡ some t
      → All (IsFresh crypto settings (crypto.hash_token raw)) (refresh raw d ∷ ops)
      → let s' = run_all crypto settings (refresh raw d ∷ ops) s in
        refresh_tokens crypto settings raw d' s' ≡ (ok none, s')
  unfolding run_all
  refresh_once raw d d' s t ops live (f, fresh) = dead_refused raw d' _ (
      run_all-AllDead crypto settings (crypto.hash_token raw) ops _ fresh
        (refresh_kills raw d s t f live))

  -- A refresh token with which a user logged out is refused after any further calls, and refusing
  -- it changes nothing, where the tokens drawn in between have other hashes than its own.
  pub logout_ends :
      (raw : Text) (now : Time) (d : Draw) (s : AuthService) (ops : List Op)
      → All (IsFresh crypto settings (crypto.hash_token raw)) ops
      → let s' = run_all crypto settings (log_out raw now ∷ ops) s in
        refresh_tokens crypto settings raw d s' ≡ (ok none, s')
  unfolding run_all
  logout_ends raw now d s ops fresh =
      dead_refused raw d _ (
        run_all-AllDead crypto settings (crypto.hash_token raw) ops _ fresh
          (logout_kills raw now s))
