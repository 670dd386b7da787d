-- ===== src/Oms/StateMachine.antt =====
-- services/oms/state_machine.py: the table of transitions and the check that raises.
use icici_breeze_api_trading.Prelude.{Bool, not, List, [], ◌∷◌, any}
use icici_breeze_api_trading.Prelude.Result.{Result, raise_if, invalid_transition}
use icici_breeze_api_trading.Contracts.{
  OrderState, created, validating, risk_rejected, approved, submitting, submission_unknown,
  acknowledged, open_state, partially_filled, filled, cancelled, rejected, expired, failed_safe,
  same_state,
}

-- `VALID_TRANSITIONS`
abbrev pub valid_transitions : OrderState → List OrderState
valid_transitions created = validating ∷ rejected ∷ failed_safe ∷ []
valid_transitions validating = approved ∷ risk_rejected ∷ failed_safe ∷ []
valid_transitions risk_rejected = []
valid_transitions approved =
    submitting ∷ acknowledged ∷ open_state ∷ filled ∷ submission_unknown ∷ cancelled ∷ failed_safe
    ∷ []
valid_transitions submitting =
    acknowledged ∷ open_state ∷ filled ∷ partially_filled ∷ rejected ∷ submission_unknown
    ∷ failed_safe ∷ []
valid_transitions submission_unknown =
    acknowledged ∷ open_state ∷ filled ∷ partially_filled ∷ rejected ∷ cancelled ∷ failed_safe ∷ []
valid_transitions acknowledged =
    open_state ∷ partially_filled ∷ filled ∷ cancelled ∷ rejected ∷ expired ∷ failed_safe ∷ []
valid_transitions open_state = partially_filled ∷ filled ∷ cancelled ∷ expired ∷ failed_safe ∷ []
valid_transitions partially_filled =
    partially_filled ∷ filled ∷ cancelled ∷ expired ∷ failed_safe ∷ []
valid_transitions filled = []
valid_transitions cancelled = []
valid_transitions rejected = []
valid_transitions expired = []
valid_transitions failed_safe = []

unfoldable pub can_transition : OrderState → OrderState → Bool
can_transition from_state to_state = any (same_state to_state) (valid_transitions from_state)

unfoldable pub validate_transition : OrderState → OrderState → Result (Unit {0})
validate_transition from_state to_state =
    raise_if (not (can_transition from_state to_state)) invalid_transition
