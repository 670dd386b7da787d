-- ===== src/LiveGate/Window.antt =====
-- When services/risk/live_gate.py lets LIVE orders through: over every sequence of requests,
-- confirmations and revocations.
use icici_breeze_api_trading.Prelude.{
  ℕ, ◌+◌, ◌<◌, ◌≡◌, refl, sym, ◌∙◌, ◌⊎◌, inl, inr, Bool, true, false, Option, none, some, List, [],
  ◌∷◌, arith,
}
use icici_breeze_api_trading.Prelude.Int.{ℤ, pos, negsuc, ◌+ℤ◌, ◌*ℤ◌, ◌≤ℤ◌}
use icici_breeze_api_trading.Contracts.{Text, Time}
use icici_breeze_api_trading.LiveGate.{
  LiveGate, Challenge, minutes, get_challenge, put_challenge, delete_challenge, validate_live_order,
  request_activation_challenge, confirm_challenge, confirm_activation, revoke_live_mode, in_window,
  new_challenge,
}

-- A call on the gate, with its instant.
pub data Call : Type 0 where
  request : Time → Text → Text → ℤ → Text → Text → Call
  confirm : Time → Text → Text → Text → Call
  revoke : Time → Call

abbrev pub call_time : Call → Time
call_time (request now _ _ _ _ _) = now
call_time (confirm now _ _ _) = now
call_time (revoke now) = now

module _ (strip : Text → Text) where
  unfoldable pub apply : Call → LiveGate → LiveGate
  apply (request now op account duration id token) g =
      (request_activation_challenge now op account duration id token g).1
  apply (confirm now id token op) g = (confirm_activation strip now id token op g).1
  apply (revoke now) g = revoke_live_mode g

  unfoldable pub run : List Call → LiveGate → LiveGate
  run [] g = g
  run (c ∷ cs) g = run cs (apply c g)

-- Eight hours in microseconds.
abbrev pub max_window : ℕ
max_window = 28800000000

abbrev AllShort : List (Text × Challenge) → Type 0
AllShort [] = Unit
AllShort ((_, c) ∷ d) = (c.duration_minutes ≤ℤ pos 480) × AllShort d

get-AllShort :
    (k : Text) (d : List (Text × Challenge)) {c : Challenge}
    → AllShort d
    → get_challenge k d ≡ some c
    → c.duration_minutes ≤ℤ pos 480
get-AllShort k [] h e = cc
get-AllShort k ((j, b) ∷ d) {c} h e = ground (arith, get-AllShort k d {c = c} h.1)

put-AllShort :
    (k : Text) (c : Challenge) (d : List (Text × Challenge))
    → c.duration_minutes ≤ℤ pos 480
    → AllShort d
    → AllShort (put_challenge k c d)
put-AllShort k c [] s h = (s, tt)
put-AllShort k c ((j, b) ∷ d) s h = ground (arith, put-AllShort k c d s h.1)

delete-AllShort :
    (k : Text) (d : List (Text × Challenge)) → AllShort d → AllShort (delete_challenge k d)
delete-AllShort k [] h = tt
delete-AllShort k ((j, b) ∷ d) h = ground (arith, delete-AllShort k d h.1)

minutes_bound : (t : ℕ) (m : ℤ) → m ≤ℤ pos 480 → pos t +ℤ minutes m ≤ℤ pos (t + max_window)
unfolding ◌*ℤ◌ ◌+ℤ◌
minutes_bound t (pos n) h = ground arith
minutes_bound t (negsuc n) h = ground arith

in_window-lt :
    (t now : ℕ) (m : ℤ)
    → m ≤ℤ pos 480
    → in_window (some (pos t +ℤ minutes m)) now ≡ true
    → now < t + max_window
in_window-lt t now m h e = ground (arith, minutes_bound t m h)

-- The calls hold no revocation.
abbrev pub NoRevoke : List Call → Type 0
NoRevoke [] = Unit
NoRevoke (revoke _ ∷ cs) = ⊥
NoRevoke (_ ∷ cs) = NoRevoke cs

abbrev Opens : Time → Challenge → Bool × LiveGate → Type 0
Opens t c (done, g') = (done ≡ true) × (g'.expires_at ≡ some (pos t +ℤ minutes c.duration_minutes))

abbrev Leaves : LiveGate → Bool × LiveGate → Type 0
Leaves g (_, g') = (g'.authorized ≡ g.authorized) × (g'.expires_at ≡ g.expires_at)

-- A confirmation succeeds and opens the window, or leaves it as it was.
confirm_cases :
    (t : Time) (id token op : Text) (g : LiveGate) (c : Challenge)
    → Opens t c (confirm_challenge t id token op (some c) g)
      ⊎ Leaves g (confirm_challenge t id token op (some c) g)
unfolding confirm_challenge
confirm_cases t id token op g c = ground arith

-- The gate authorizes LIVE orders through its own window.
abbrev pub Holds : Time → LiveGate → Type 0
Holds now g = (g.authorized ≡ true) × (in_window g.expires_at now ≡ true)

confirm_outcome :
    (now t : Time) (id token op : Text) (g : LiveGate) (r : Option Challenge)
    → ((c : Challenge) → r ≡ some c → c.duration_minutes ≤ℤ pos 480)
    → Holds now (confirm_challenge t id token op r g).1
    → (((confirm_challenge t id token op r g).0 ≡ true) × (now < t + max_window)) ⊎ Holds now g
unfolding confirm_challenge
confirm_outcome now t id token op g none short x = inr x
confirm_outcome now t id token op g (some c) short x = elim (confirm_cases t id token op g c) [
  | inl o ↦ inl (o.0, in_window-lt t now c.duration_minutes (short c refl) (rw o.1 at x.1))
  | inr l ↦ inr (sym l.0 ∙ x.0, rw l.1 at x.1)
]

module _ (strip : Text → Text) where
  -- Among the calls on `g` one confirmation succeeded, less than eight hours before `now`, and no
  -- revocation followed it.
  pub data Granted (now : Time) : LiveGate → List Call → Type 0 where
    opened :
        (g : LiveGate) (t : Time) (id token op : Text) (cs : List Call)
        → (confirm_activation strip t id token op g).0 ≡ true
        → now < t + max_window
        → NoRevoke cs
        → Granted now g (confirm t id token op ∷ cs)
    later :
        (g : LiveGate) (c : Call) (cs : List Call)
        → Granted now (apply strip c g) cs
        → Granted now g (c ∷ cs)

  apply-AllShort :
      (c : Call) (g : LiveGate)
      → AllShort g.pending_challenges
      → AllShort (apply strip c g).pending_challenges
  unfolding apply request_activation_challenge confirm_activation revoke_live_mode
  apply-AllShort (request now op account duration id token) g h =
      ground
        (arith, put-AllShort id (new_challenge now op account duration token) g.pending_challenges)
  apply-AllShort (confirm now id token op) g h =
      ground (arith, delete-AllShort id g.pending_challenges h)
  apply-AllShort (revoke now) g h = tt

  abbrev Outcome : Time → LiveGate → List Call → Type 0
  Outcome now g cs = (Holds now g × NoRevoke cs) ⊎ Granted now g cs

  -- One call before the others.
  Outcome-step :
      (now : Time) (c : Call) (cs : List Call) (g : LiveGate)
      → AllShort g.pending_challenges
      → Outcome now (apply strip c g) cs
      → Outcome now g (c ∷ cs)
  unfolding apply request_activation_challenge confirm_activation revoke_live_mode
  Outcome-step now c cs g h (inr later_on) = inr (later g c cs later_on)
  Outcome-step now (request t op account duration id token) cs g h (inl (x, n)) =
      inl (ground arith, n)
  Outcome-step now (revoke t) cs g h (inl (x, n)) = absurd (ground arith)
  Outcome-step now (confirm t id token op) cs g h (inl (x, n)) =
      elim (confirm_outcome now t id (strip token) op g (get_challenge id g.pending_challenges)
        (λ c. get-AllShort id g.pending_challenges h) x) [
          | inl (done, soon) ↦ inr (opened g t id token op cs done soon n)
          | inr held ↦ inl (held, n)
        ]

  active-Outcome :
      (now : Time) (cs : List Call) (g : LiveGate)
      → AllShort g.pending_challenges
      → Holds now (run strip cs g)
      → Outcome now g cs
  unfolding run
  active-Outcome now [] g h x = inl (x, tt)
  active-Outcome now (c ∷ cs) g h x =
      Outcome-step now c cs g h (active-Outcome now cs (apply strip c g) (apply-AllShort c g h) x)

  apply-mode :
      (c : Call) (g : LiveGate)
      → (apply strip c g).local_single_user_mode ≡ g.local_single_user_mode
  unfolding apply request_activation_challenge confirm_activation confirm_challenge revoke_live_mode
  apply-mode (request now op account duration id token) g = ground arith
  apply-mode (confirm now id token op) g = ground arith
  apply-mode (revoke now) g = refl

  run-mode :
      (cs : List Call) (g : LiveGate)
      → (run strip cs g).local_single_user_mode ≡ g.local_single_user_mode
  unfolding run
  run-mode [] g = refl
  run-mode (c ∷ cs) g = run-mode cs (apply strip c g) ∙ apply-mode c g

  valid-Holds :
      (now : Time) (account : Text) (g : LiveGate)
      → g.local_single_user_mode ≡ false
      → validate_live_order now account g ≡ true
      → Holds now g
  unfolding validate_live_order
  valid-Holds now account g m v = ground arith

  -- A gate that starts unauthorized, with no pending challenge and not in the local single-user
  -- mode, passes a LIVE order at `now` after any calls only if one of these was a confirmation that
  -- succeeded less than eight hours before, and no revocation came after it.
  pub live_order_needs_grant :
      (now : Time) (account : Text) (cs : List Call) (g : LiveGate)
      → g.local_single_user_mode ≡ false
      → g.authorized ≡ false
      → g.pending_challenges ≡ []
      → validate_live_order now account (run strip cs g) ≡ true
      → Granted now g cs
  live_order_needs_grant now account cs g m a p v =
      elim (active-Outcome now cs g (rw p tt)
        (valid-Holds now account (run strip cs g) (run-mode cs g ∙ m) v)) [
          | inl x ↦ absurd (ground arith)
          | inr y ↦ y
        ]
