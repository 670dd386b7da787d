-- ===== src/Tests/Gates.antt =====
-- Calls on the LIVE gate, and lives of orders.
use mathlib.Core.List.{Memᴰ}
use icici_breeze_api_trading.Prelude.{◌+◌, ◌≤◌, ◌≡◌, refl, true, List, [], ◌∷◌}
use icici_breeze_api_trading.Prelude.Int.{ℤ, pos, ◌*ℤ◌, ◌+ℤ◌}
use icici_breeze_api_trading.Contracts.{
  OrderState, Text, Time, created, validating, approved, submitting, acknowledged, partially_filled,
  filled, failed_safe,
}
use icici_breeze_api_trading.Oms.StateMachine.{can_transition}
use icici_breeze_api_trading.Oms.Graph.{
  Life, moves, rank, exposed_needs_approval, Life-bounded, failsafe_open,
}
use icici_breeze_api_trading.LiveGate.{
  validate_live_order, confirm_activation, request_activation_challenge, is_allowed,
}
use icici_breeze_api_trading.LiveGate.Window.{Call, Granted, apply, run, live_order_needs_grant}
use icici_breeze_api_trading.LiveGate.TwoStep.{confirm_needs_request}
use icici_breeze_api_trading.Tests.Values.{closed_gate}

abbrev as_it_is : Text → Text
as_it_is t = t

abbrev asked : List Call
asked = Call.request 1000 5 41 (pos 60) 6 7 ∷ []

abbrev activated : List Call
activated = Call.request 1000 5 41 (pos 60) 6 7 ∷ Call.confirm 2000 6 7 5 ∷ []

live_order_needs_grant_example : Granted as_it_is 3000 closed_gate activated
unfolding run validate_live_order apply confirm_activation request_activation_challenge ◌+ℤ◌ ◌*ℤ◌
live_order_needs_grant_example =
    live_order_needs_grant as_it_is 3000 41 activated closed_gate refl refl refl refl

confirm_needs_request_example :
    (t : Time) × (account : Text) × (duration : ℤ) × Memᴰ
      (Call.request t 5 account duration 6 7)
      asked
    × (2000 ≤ t + 300000000)
    × (is_allowed account (run as_it_is asked closed_gate).allowed_accounts ≡ true)
unfolding run apply confirm_activation request_activation_challenge ◌+ℤ◌ ◌*ℤ◌
confirm_needs_request_example =
    confirm_needs_request as_it_is 2000 6 7 5 asked closed_gate refl refl

abbrev states : List OrderState
states =
    validating ∷ approved ∷ submitting ∷ acknowledged ∷ partially_filled ∷ partially_filled ∷ filled
    ∷ []

filled-Life : Life filled created states
unfolding can_transition
filled-Life = Life.step refl (
    Life.step refl (
      Life.step refl (Life.step refl (Life.step refl (Life.step refl (Life.step refl Life.here))))))

-- Its last partial fill.
exposed_needs_approval_example :
    Memᴰ approved (validating ∷ approved ∷ submitting ∷ acknowledged ∷ partially_filled ∷ [])
exposed_needs_approval_example =
    exposed_needs_approval
      (validating ∷ approved ∷ submitting ∷ acknowledged ∷ partially_filled ∷ []) (filled ∷ [])
      partially_filled filled-Life refl

Life-bounded_example : moves states + rank created ≤ 8
Life-bounded_example = Life-bounded states filled-Life

failsafe_open_example : can_transition submitting failed_safe ≡ true
failsafe_open_example = failsafe_open submitting refl
