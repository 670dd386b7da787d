-- ===== src/LiveGate/TwoStep.antt =====
-- The two steps of services/risk/live_gate.py: a confirmation answers a request.
use mathlib.Core.List.{Memᴰ}
use icici_breeze_api_trading.Prelude.{
  ℕ, ◌+◌, ◌≤◌, ◌≡◌, refl, ap, ◌⊎◌, inl, inr, true, Option, none, some, List, [], ◌∷◌, ◌==◌,
  if◌then◌else◌, arith,
}
use icici_breeze_api_trading.Prelude.Int.{ℤ, pos, ◌+ℤ◌, ◌*ℤ◌, ◌≤ℤ◌}
use icici_breeze_api_trading.Contracts.{Text, Time}
use icici_breeze_api_trading.LiveGate.{
  LiveGate, Challenge, minutes, get_challenge, put_challenge, delete_challenge, new_challenge,
  is_allowed, request_activation_challenge, confirm_challenge, confirm_activation, revoke_live_mode,
}
use icici_breeze_api_trading.LiveGate.Window.{Call, request, confirm, revoke, apply, run}

module _ (strip : Text → Text) where
  -- The calls hold the request that issued the challenge.
  abbrev Issued : Text → Challenge → List Call → Type 0
  Issued id c cs =
      (t : Time) × (duration : ℤ) × Memᴰ
        (request t c.operator_id c.account_id duration id c.challenge_token) cs
      × (c.expires_at ≡ pos t +ℤ minutes (pos 5))

  Issued-later :
      (id : Text) (c : Challenge) (k : Call) (cs : List Call)
      → Issued id c cs
      → Issued id c (k ∷ cs)
  Issued-later id c k cs (t, d, m, e) = (t, d, Memᴰ.tail m, e)

  get-put :
      (k j : Text) (c : Challenge) (d : List (Text × Challenge))
      → get_challenge j (put_challenge k c d) ≡ (if k == j then some c else get_challenge j d)
  get-put k j c [] = refl
  get-put k j c ((i, b) ∷ d) = ground (arith, get-put k j c d)

  -- A challenge that is pending after a call was pending before, or the call has issued it.
  request_pending :
      (now : Time) (op account : Text) (duration : ℤ) (k token : Text) (g : LiveGate) (id : Text)
      (c : Challenge)
      → get_challenge id
          (request_activation_challenge now op account duration k token g).1.pending_challenges
        ≡ some c
      → (get_challenge id g.pending_challenges ≡ some c)
        ⊎ ((k ≡ id) × (new_challenge now op account duration token ≡ c))
  unfolding request_activation_challenge
  request_pending now op account duration k token g id c h =
      ground
        (arith, get-put k id (new_challenge now op account duration token) g.pending_challenges)

  get-delete_if :
      (k j : Text) (d : List (Text × Challenge))
      → get_challenge j (delete_challenge k d) ≡ (if k == j then none else get_challenge j d)
  get-delete_if k j [] = ground arith
  get-delete_if k j ((i, b) ∷ d) = ground (arith, get-delete_if k j d)

  get-delete :
      (k j : Text) (d : List (Text × Challenge)) {c : Challenge}
      → get_challenge j (delete_challenge k d) ≡ some c
      → get_challenge j d ≡ some c
  get-delete k j d h = ground (arith, get-delete_if k j d)

  confirm_pending :
      (now : Time) (k token op : Text) (r : Option Challenge) (g : LiveGate) (id : Text)
      (c : Challenge)
      → get_challenge id (confirm_challenge now k token op r g).1.pending_challenges ≡ some c
      → get_challenge id g.pending_challenges ≡ some c
  unfolding confirm_challenge
  confirm_pending now k token op none g id c h = h
  confirm_pending now k token op (some b) g id c h =
      ground (arith, get-delete k id g.pending_challenges {c = c})

  Issued-step :
      (k : Call) (g : LiveGate) (cs : List Call) (id : Text) (c : Challenge)
      → get_challenge id (apply strip k g).pending_challenges ≡ some c
      → (get_challenge id g.pending_challenges ≡ some c) ⊎ Issued id c (k ∷ cs)
  unfolding apply confirm_activation revoke_live_mode
  Issued-step (request t op account d k token) g cs id c h =
      elim (request_pending t op account d k token g id c h) [
        | inl e ↦ inl e
        | inr (e, f) ↦ inr (t, d, Memᴰ.head (rw (← e, ← f)), rw (← f))
      ]
  Issued-step (confirm t k token op) g cs id c h =
      inl (confirm_pending t k (strip token) op (get_challenge k g.pending_challenges) g id c h)
  Issued-step (revoke t) g cs id c h = cc

  Issued-in :
      (cs : List Call) (g : LiveGate) (id : Text) (c : Challenge)
      → get_challenge id (run strip cs g).pending_challenges ≡ some c
      → (get_challenge id g.pending_challenges ≡ some c) ⊎ Issued id c cs
  unfolding run
  Issued-in [] g id c h = inl h
  Issued-in (k ∷ cs) g id c h = elim (Issued-in cs (apply strip k g) id c h) [
    | inl e ↦ Issued-step k g cs id c e
    | inr i ↦ inr (Issued-later id c k cs i)
  ]

  confirmed_challenge :
      (now : Time) (id token op : Text) (r : Option Challenge) (g : LiveGate)
      → (confirm_challenge now id token op r g).0 ≡ true
      → (c : Challenge) × (r ≡ some c)
        × (c.operator_id ≡ op)
        × (c.challenge_token ≡ token)
        × (pos now ≤ℤ c.expires_at)
        × (is_allowed c.account_id g.allowed_accounts ≡ true)
  unfolding confirm_challenge
  confirmed_challenge now id token op none g h = cc
  confirmed_challenge now id token op (some c) g h =
      (c, refl, ground arith, ground arith, ground arith, ground arith)

  minutes_five :
      (now t : ℕ) (e : ℤ) → pos now ≤ℤ e → e ≡ pos t +ℤ minutes (pos 5) → now ≤ t + 300000000
  unfolding ◌*ℤ◌ ◌+ℤ◌
  minutes_five now t e h x = ground arith

  -- A gate that starts with no pending challenge confirms an activation, after any calls, only if
  -- one of these was a request by the same operator, for an account that is allowed, under the same
  -- challenge id, whose token is the one presented, and that was made at most five minutes before.
  pub confirm_needs_request :
      (now : Time) (id token op : Text) (cs : List Call) (g : LiveGate)
      → g.pending_challenges ≡ []
      → (confirm_activation strip now id token op (run strip cs g)).0 ≡ true
      → (t : Time) × (account : Text) × (duration : ℤ) × Memᴰ
          (request t op account duration id (strip token))
          cs
        × (now ≤ t + 300000000)
        × (is_allowed account (run strip cs g).allowed_accounts ≡ true)
  unfolding confirm_activation
  confirm_needs_request now id token op cs g p h =
      let (c, found, o, k, soon, allowed) =
        confirmed_challenge now id (strip token) op
          (get_challenge id (run strip cs g).pending_challenges) (run strip cs g) h in
      elim (Issued-in cs g id c found) [
        | inl e ↦ absurd (nothing_pending c e)
        | inr (t, d, m, e) ↦
            (t, c.account_id, d, rw (← o, ← k) m, minutes_five now t c.expires_at soon e, allowed)
      ]
    where
      nothing_pending : (c : Challenge) → get_challenge id g.pending_challenges ≡ some c → ⊥
      nothing_pending c e = ground (arith, ap (get_challenge id) p)
