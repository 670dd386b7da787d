-- ===== src/Auth/Tickets.antt =====
-- A WebSocket ticket in sequences of calls of services/auth/service.py, and two handshakes at once.
use mathlib.Core.Path.{subst}
use icici_breeze_api_trading.Prelude.{
  ◌+◌, ◌*◌, ◌≡◌, refl, sym, ap, true, false, not, ◌||◌, Option, none, some, List, [], ◌∷◌, ◌++◌,
  inl, inr, leb, ◌==◌, ==_iff, find, any, map, is_some, Bool-cases,
}
use icici_breeze_api_trading.Prelude.Result.{Result, ok, err}
use icici_breeze_api_trading.Contracts.{Text, Time}
use icici_breeze_api_trading.Auth.{
  UserRole, UserRow, RefreshRow, TicketRow, AuthRepository, has_id, has_name, has_ticket, mark_used,
  claimable, claim_ticket, store_refresh_token, revoke_refresh_token, revokes, store_ws_ticket,
  read_ticket, mark_ticket,
}
use icici_breeze_api_trading.Auth.Service.{
  AuthService, AuthSettings, Crypto, Draw, AuthEvent, validate_and_consume_ws_ticket, issue, renew,
  rotate, login, admitted, consumed, ticketed, ws_authentication_failure,
}
use icici_breeze_api_trading.Auth.Rotation.{
  Op, log_in, refresh, log_out, take_ticket, handshake, register, run, run_all,
}

abbrev IsUsed : Option TicketRow → Type 0
IsUsed none = false ≡ true
IsUsed (some t) = is_some t.used_at ≡ true

-- The row that a hash finds is used.
abbrev pub IsSpent : Text → List TicketRow → Type 0
IsSpent h rows = IsUsed (find (has_ticket h) rows)

IsSpent-append : (h : Text) (rows more : List TicketRow) → IsSpent h rows → IsSpent h (rows ++ more)
IsSpent-append h [] more a = cc
IsSpent-append h (t ∷ rows) more a = elim (Bool-cases (has_ticket h t)) [
  | inl e ↦ rw e (rw e at a)
  | inr e ↦ rw e (IsSpent-append h rows more (rw e at a))
]

mark-hash :
    (h id : Text) (now : Time) (t : TicketRow) → has_ticket h (mark_used id now t) ≡ has_ticket h t
mark-hash h id now t = elim (Bool-cases (t.ticket_id == id)) [
  | inl e ↦ rw e refl
  | inr e ↦ rw e refl
]

mark-used :
    (id : Text) (now : Time) (t : TicketRow)
    → is_some t.used_at ≡ true
    → is_some (mark_used id now t).used_at ≡ true
mark-used id now t a = elim (Bool-cases (t.ticket_id == id)) [ inl e ↦ rw e refl | inr e ↦ rw e a ]

IsSpent-map :
    (h id : Text) (now : Time) (rows : List TicketRow)
    → IsSpent h rows
    → IsSpent h (map (mark_used id now) rows)
IsSpent-map h id now [] a = a
IsSpent-map h id now (t ∷ rows) a = elim (Bool-cases (has_ticket h t)) [
  | inl e ↦ rw (mark-hash h id now t, e) (mark-used id now t (rw e at a))
  | inr e ↦ rw (mark-hash h id now t, e) (IsSpent-map h id now rows (rw e at a))
]

same_id : (u t : TicketRow) → some u ≡ some t → u.ticket_id ≡ t.ticket_id
same_id u t e = cc

marked :
    (now : Time) (u : TicketRow) (id : Text)
    → (u.ticket_id == id) ≡ true
    → is_some (mark_used id now u).used_at ≡ true
marked now u id e = rw e refl

-- The ticket that was found is marked.
map-IsSpent :
    (h : Text) (now : Time) (rows : List TicketRow) (t : TicketRow)
    → find (has_ticket h) rows ≡ some t
    → IsSpent h (map (mark_used t.ticket_id now) rows)
map-IsSpent h now [] t e = cc
map-IsSpent h now (u ∷ rows) t f = elim (Bool-cases (has_ticket h u)) [
  | inl e ↦
      rw (mark-hash h t.ticket_id now u, e)
        (marked now u t.ticket_id ((==_iff u.ticket_id t.ticket_id).1 (same_id u t (rw e at f))))
  | inr e ↦ rw (mark-hash h t.ticket_id now u, e) (map-IsSpent h now rows t (rw e at f))
]

none-some : (t : TicketRow) → none ≡ some t → ⊥
none-some t e = cc

claimed :
    (now : Time) (t : TicketRow) (o : Option TicketRow) → claimable now o ≡ some t → o ≡ some t
claimed now t none e = cc
claimed now t (some u) e = elim (Bool-cases (is_some u.used_at || leb u.expires_at now)) [
  | inl x ↦ absurd (none-some t (rw x at e))
  | inr x ↦ rw x at e
]

spent_unclaimable :
    (h : Text) (now : Time) (o : Option TicketRow) → IsUsed o → claimable now o ≡ none
spent_unclaimable h now none a = refl
spent_unclaimable h now (some t) a = rw a refl

module _ (crypto : Crypto) (settings : AuthSettings) where
  -- Only tickets are written to the table of tickets.
  issue-tickets :
      (e : AuthEvent) (u : UserRow) (d : Draw) (s : AuthService)
      → (issue crypto settings e u d s).1.repo.ws_tickets ≡ s.repo.ws_tickets
  unfolding store_refresh_token
  issue-tickets e u d s =
      elim (Bool-cases (
        any (λ t. t.token_id == d.id) s.repo.refresh_tokens
        || not (any (has_id u.user_id) s.repo.users))) [ inl x ↦ rw x refl | inr x ↦ rw x refl ]

  login-tickets :
      (u : Option UserRow) (password : Text) (d : Draw) (s : AuthService)
      → (login crypto settings u password d s).1.repo.ws_tickets ≡ s.repo.ws_tickets
  login-tickets none password d s = refl
  login-tickets (some u) password d s =
      elim (Bool-cases (crypto.verify_password password u.password_hash u.salt)) [
        | inl x ↦ rw x (issue-tickets _ u d s)
        | inr x ↦ rw x refl
      ]

  renew-tickets :
      (u : Option UserRow) (d : Draw) (s : AuthService)
      → (renew crypto settings u d s).1.repo.ws_tickets ≡ s.repo.ws_tickets
  renew-tickets none d s = refl
  renew-tickets (some u) d s = issue-tickets _ u d s

  rotate-tickets :
      (t : Option RefreshRow) (h : Text) (d : Draw) (s : AuthService)
      → (rotate crypto settings t h d s).1.repo.ws_tickets ≡ s.repo.ws_tickets
  unfolding revoke_refresh_token
  rotate-tickets none h d s = refl
  rotate-tickets (some t) h d s = renew-tickets _ d _

  module _ (h : Text) where
    abbrev Spent : AuthService → Type 0
    Spent s = IsSpent h s.repo.ws_tickets

    admitted-Spent :
        (u : Option UserRow) (s : AuthService) → Spent s → Spent (admitted crypto settings u s).1
    admitted-Spent none s a = a
    admitted-Spent (some u) s a = a

    handshake-Spent :
        (t : Option TicketRow) (now : Time) (s : AuthService)
        → Spent s
        → Spent (consumed crypto settings t (record s { repo = claim_ticket t now s.repo })).1
    unfolding mark_ticket
    handshake-Spent none now s a = a
    handshake-Spent (some t) now s a =
        admitted-Spent _ _ (IsSpent-map h t.ticket_id now s.repo.ws_tickets a)

    ticketed-Spent :
        (raw : Text) (r : Result (Unit {0}) × AuthRepository) (s : AuthService)
        → IsSpent h r.1.ws_tickets
        → Spent s
        → Spent (ticketed crypto settings raw r s).1
    ticketed-Spent raw (ok x, repo) s b a = b
    ticketed-Spent raw (err x, repo) s b a = b

    store-IsSpent :
        (id hash user_id : Text) (role : UserRole) (at : Time) (r : AuthRepository)
        → IsSpent h r.ws_tickets
        → IsSpent h (store_ws_ticket id hash user_id role at r).1.ws_tickets
    unfolding store_ws_ticket
    store-IsSpent id hash user_id role at r a =
        elim (Bool-cases
          (any (λ t. t.ticket_id == id) r.ws_tickets || not (any (has_id user_id) r.users))) [
            | inl x ↦ rw x a
            | inr x ↦ rw x (IsSpent-append h r.ws_tickets _ a)
          ]

    claim-Spent :
        (raw : Text) (now : Time) (s : AuthService) (t : TicketRow) (o : Option TicketRow)
        → o ≡ some t
        → find (has_ticket h) s.repo.ws_tickets ≡ some t
        → Spent (consumed crypto settings o (record s { repo = claim_ticket o now s.repo })).1
    unfolding mark_ticket
    claim-Spent raw now s t o e f =
        rw e (admitted-Spent _ _ (map-IsSpent h now s.repo.ws_tickets t f))

    run-Spent : (op : Op) (s : AuthService) → Spent s → Spent (run crypto settings op s)
    unfolding run
    run-Spent (log_in name password d) s a =
        subst (IsSpent h) (sym (login-tickets _ password d s)) a
    run-Spent (refresh raw d) s a = subst (IsSpent h) (sym (rotate-tickets _ _ d s)) a
    run-Spent (log_out raw now) s a =
        elim (Bool-cases (any (revokes (crypto.hash_token raw)) s.repo.refresh_tokens)) [
          | inl x ↦ rw x a
          | inr x ↦ rw x a
        ]
    run-Spent (take_ticket user d) s a =
        ticketed-Spent d.token _ s
          (store-IsSpent d.id (crypto.hash_token d.token) user.user_id user.role
            (d.now + settings.ws_ticket_expire_seconds * 1000000) s.repo a)
          a
    run-Spent (handshake raw now) s a = handshake-Spent _ now s a
    run-Spent (register row) s a =
        elim (Bool-cases
          (any (has_id row.user_id) s.repo.users || any (has_name row.username) s.repo.users)) [
            | inl x ↦ rw x a
            | inr x ↦ rw x a
          ]

    run_all-Spent :
        (ops : List Op) (s : AuthService) → Spent s → Spent (run_all crypto settings ops s)
    unfolding run_all
    run_all-Spent [] s a = a
    run_all-Spent (op ∷ ops) s a = run_all-Spent ops (run crypto settings op s) (run-Spent op s a)

  spent_refused :
      (raw : Text) (now : Time) (s : AuthService)
      → IsSpent (crypto.hash_token raw) s.repo.ws_tickets
      → validate_and_consume_ws_ticket crypto settings raw now s
        ≡ (none, record s { audit = s.audit ++ (ws_authentication_failure ∷ []) })
  unfolding validate_and_consume_ws_ticket
  spent_refused raw now s a = rw (spent_unclaimable (crypto.hash_token raw) now _ a) refl

  -- A WebSocket ticket that one handshake has claimed admits nobody after any further calls, each
  -- of which runs as a whole.
  pub ticket_once :
      (raw : Text) (now now' : Time) (s : AuthService) (t : TicketRow) (ops : List Op)
      → read_ticket (crypto.hash_token raw) now s.repo ≡ some t
      → (validate_and_consume_ws_ticket crypto settings raw now'
          (run_all crypto settings (handshake raw now ∷ ops) s)).0
        ≡ none
  unfolding run_all run read_ticket
  ticket_once raw now now' s t ops e =
      ap (λ p. p.0)
        (spent_refused raw now' _ (
          run_all-Spent (crypto.hash_token raw) ops _ (
            claim-Spent (crypto.hash_token raw) raw now s t
              (read_ticket (crypto.hash_token raw) now s.repo) e (claimed now t _ e))))
