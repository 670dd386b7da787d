-- ===== src/Oms/Graph.antt =====
-- The graph of order states that services/oms/state_machine.py allows.
use icici_breeze_api_trading.Prelude.{
  ℕ, ◌+◌, ◌≤◌, ◌<◌, ◌≡◌, refl, sym, ◌⊎◌, inl, inr, Bool, true, false, List, [], ◌∷◌, ◌++◌, arith,
}
use mathlib.Core.List.{Memᴰ}
use icici_breeze_api_trading.Contracts.{
  OrderState, created, validating, risk_rejected, approved, submitting, submission_unknown,
  acknowledged, open_state, partially_filled, filled, cancelled, rejected, expired, failed_safe,
}
use icici_breeze_api_trading.Oms.StateMachine.{can_transition}

-- How far an order has come.
abbrev pub rank : OrderState → ℕ
rank created = 0
rank validating = 1
rank approved = 2
rank submitting = 3
rank submission_unknown = 4
rank acknowledged = 5
rank open_state = 6
rank partially_filled = 7
rank _ = 8

-- Every transition moves an order forward, save for the repeated partial fill.
pub can_transition_forward :
    (a b : OrderState)
    → can_transition a b ≡ true
    → (rank a < rank b) ⊎ ((a ≡ partially_filled) × (b ≡ partially_filled))
unfolding can_transition
can_transition_forward created b h = ground arith
can_transition_forward validating b h = ground arith
can_transition_forward risk_rejected b h = ground arith
can_transition_forward approved b h = ground arith
can_transition_forward submitting b h = ground arith
can_transition_forward submission_unknown b h = ground arith
can_transition_forward acknowledged b h = ground arith
can_transition_forward open_state b h = ground arith
can_transition_forward partially_filled b h = ground arith
can_transition_forward filled b h = ground arith
can_transition_forward cancelled b h = ground arith
can_transition_forward rejected b h = ground arith
can_transition_forward expired b h = ground arith
can_transition_forward failed_safe b h = ground arith

-- The states that an order passes through after `a`, up to `c`.
pub data Life (c : OrderState) : OrderState → List OrderState → Type 0 where
  here : Life c c []
  step :
      {a b : OrderState} {l : List OrderState}
      → can_transition a b ≡ true
      → Life c b l
      → Life c a (b ∷ l)

abbrev weight : OrderState → ℕ
weight partially_filled = 0
weight _ = 1

-- The transitions that are no partial fills.
abbrev pub moves : List OrderState → ℕ
moves [] = 0
moves (s ∷ l) = weight s + moves l

weight-le : (s : OrderState) → weight s ≤ 1
weight-le partially_filled = omega arith
weight-le _ = omega arith

step-weight : (a b : OrderState) → can_transition a b ≡ true → rank a + weight b ≤ rank b
step-weight a b h = elim (can_transition_forward a b h) [
  | inl up ↦ omega (arith, weight-le b)
  | inr (p, q) ↦ ground arith
]

rank-moves : {c a : OrderState} {l : List OrderState} → Life c a l → rank a + moves l ≤ rank c
rank-moves here = omega arith
rank-moves (step {a} {b} {l} h p) = omega (arith, step-weight a b h, rank-moves p)

rank-le : (s : OrderState) → rank s ≤ 8
rank-le created = omega arith
rank-le _ = omega arith

-- Every life of an order by allowed transitions has at most eight transitions that are no partial
-- fills, less the ones that its first state has behind it.
pub Life-bounded : {c a : OrderState} (l : List OrderState) → Life c a l → moves l + rank a ≤ 8
Life-bounded {c} l p = omega (arith, rank-moves p, rank-le c)

-- The states in which the broker may hold the order, and FILLED, CANCELLED and EXPIRED. An order
-- that is REJECTED or FAILED_SAFE may have passed through these, or may not.
abbrev pub is_exposed : OrderState → Bool
is_exposed submitting = true
is_exposed submission_unknown = true
is_exposed acknowledged = true
is_exposed open_state = true
is_exposed partially_filled = true
is_exposed filled = true
is_exposed cancelled = true
is_exposed expired = true
is_exposed _ = false

-- Only an approved order becomes exposed.
pub exposed-step :
    (a b : OrderState)
    → can_transition a b ≡ true
    → is_exposed b ≡ true
    → (a ≡ approved) ⊎ (is_exposed a ≡ true)
unfolding can_transition
exposed-step created b h e = ground arith
exposed-step validating b h e = ground arith
exposed-step _ b h e = ground arith

exposed_by_approval :
    {c a : OrderState} {l : List OrderState}
    → Life c a l
    → is_exposed c ≡ true
    → (is_exposed a ≡ true) ⊎ (a ≡ approved) ⊎ Memᴰ approved l
exposed_by_approval here e = inl e
exposed_by_approval (step {a} {b} h p) e = elim (exposed_by_approval p e) [
  | inl x ↦ elim (exposed-step a b h x) [ inl y ↦ inr (inl y) | inr y ↦ inl y ]
  | inr (inl x) ↦ inr (inr (Memᴰ.head (sym x)))
  | inr (inr m) ↦ inr (inr (Memᴰ.tail m))
]

true-false : (false ≡ true) → ⊥
true-false q = cc

Life-before :
    {c a : OrderState} (before after : List OrderState) (x : OrderState)
    → Life c a (before ++ (x ∷ after))
    → Life x a (before ++ (x ∷ []))
Life-before [] after x (step h p) = step h here
Life-before (y ∷ before) after x (step h p) = step h (Life-before before after x p)

approved_before :
    (before : List OrderState) (x : OrderState)
    → is_exposed x ≡ true
    → Memᴰ approved (before ++ (x ∷ []))
    → Memᴰ approved before
approved_before [] x e (Memᴰ.head h) = absurd (true-false (rw (← h) at e))
approved_before [] x e (Memᴰ.tail m) = elim m [ ]
approved_before (y ∷ before) x e (Memᴰ.head h) = Memᴰ.head h
approved_before (y ∷ before) x e (Memᴰ.tail m) = Memᴰ.tail (approved_before before x e m)

-- On every life of an order by allowed transitions from CREATED, APPROVED comes before each
-- SUBMITTING, SUBMISSION_UNKNOWN, ACKNOWLEDGED, OPEN, PARTIALLY_FILLED, FILLED, CANCELLED and
-- EXPIRED, whatever state the life ends in.
pub exposed_needs_approval :
    {c : OrderState} (before after : List OrderState) (x : OrderState)
    → Life c created (before ++ (x ∷ after))
    → is_exposed x ≡ true
    → Memᴰ approved before
exposed_needs_approval before after x p e =
    approved_before before x e (elim (exposed_by_approval (Life-before before after x p) e) [
      | inl y ↦ cc
      | inr (inl y) ↦ absurd (ground arith)
      | inr (inr m) ↦ m
    ])

-- A state is final when it allows no transition.
abbrev pub is_terminal : OrderState → Bool
is_terminal risk_rejected = true
is_terminal filled = true
is_terminal cancelled = true
is_terminal rejected = true
is_terminal expired = true
is_terminal failed_safe = true
is_terminal _ = false

-- No transition leaves a final state: RISK_REJECTED, FILLED, CANCELLED, REJECTED, EXPIRED and
-- FAILED_SAFE.
pub terminal_absorbs : (a b : OrderState) → is_terminal a ≡ true → can_transition a b ≡ false
unfolding can_transition
terminal_absorbs created b h = ground arith
terminal_absorbs _ b h = ground arith

-- Every state that is not final allows the transition to FAILED_SAFE.
pub failsafe_open : (a : OrderState) → is_terminal a ≡ false → can_transition a failed_safe ≡ true
unfolding can_transition
failsafe_open created h = refl
failsafe_open _ h = ground arith
