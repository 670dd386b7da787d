-- ===== src/Oms/BrokerUpdates.antt =====
-- services/oms/service.py, `_handle_broker_order_event`: a broker's status word and fill progress
-- are taken over by the order that carries the client order id.
use icici_breeze_api_trading.Prelude.{Bool, not, ◌&&◌, ◌||◌, Option, none, some, if◌then◌else◌}
use icici_breeze_api_trading.Prelude.Int.{ℤ, pos, ◌-ℤ◌, ltb_ℤ, eq_ℤ, max_ℤ}
use icici_breeze_api_trading.Prelude.Float.{Float, zero_f, or_f}
use icici_breeze_api_trading.Prelude.Result.{Result, ok}
use icici_breeze_api_trading.Prelude.Action.{Action, pure, lift, ◌>>◌}
use icici_breeze_api_trading.Contracts.{
  OrderState, BrokerOrder, BrokerUpdate, StatusWord, same_state, truthy_id, same_id, or_id,
  submission_unknown, partially_filled, filled, open_state, cancelled, rejected, expired,
  failed_safe, filled_word, partial, partially_filled_word, partially_spaced, open_word, placed,
  cancelled_word, rejected_word, expired_word, failed_safe_word, unknown,
}
use icici_breeze_api_trading.Oms.StateMachine.{validate_transition}
use icici_breeze_api_trading.Oms.Repository.{
  Stamp, broker_reconciliation, save_broker_order_with_transition, get_order_by_client_id,
}
use icici_breeze_api_trading.Oms.Service.{Oms, save_transition}

-- The state that a broker's status word asks for; any other word keeps the present one.
unfoldable pub broker_state : StatusWord → ℤ → OrderState → OrderState
broker_state filled_word q present = filled
broker_state partial q present = partially_filled
broker_state partially_filled_word q present = partially_filled
broker_state partially_spaced q present = partially_filled
broker_state open_word q present = if ltb_ℤ (pos 0) q then partially_filled else open_state
broker_state placed q present = if ltb_ℤ (pos 0) q then partially_filled else open_state
broker_state cancelled_word q present = cancelled
broker_state rejected_word q present = rejected
broker_state expired_word q present = expired
broker_state failed_safe_word q present = failed_safe
broker_state unknown q present = submission_unknown
broker_state _ q present = present

-- The transition is checked where the state changes.
abbrev pub check_changed : Bool → OrderState → OrderState → Result (Unit {0})
check_changed changed from_state to_state =
    if changed then validate_transition from_state to_state else ok tt

module _ {F : Type 0} ⦃fl : Float F⦄ where
  open fl use {eq}

  -- `fill_changed`
  abbrev pub fill_changed : BrokerUpdate F → BrokerOrder F → Bool
  fill_changed u order =
      not (eq_ℤ u.filled_quantity order.filled_quantity)
      || not (eq (or_f u.average_price zero_f) (or_f order.average_price zero_f))
      || truthy_id u.broker_order_id && not (same_id u.broker_order_id order.broker_order_id)

  abbrev pub updated_order : BrokerUpdate F → OrderState → BrokerOrder F → BrokerOrder F
  updated_order u to_state order = record order {
    broker_order_id = or_id u.broker_order_id order.broker_order_id;
    status = to_state;
    filled_quantity = u.filled_quantity;
    remaining_quantity = max_ℤ (pos 0) (order.quantity -ℤ u.filled_quantity);
    average_price = or_f u.average_price order.average_price;
    status_message = u.message;
  }

  -- The checked and saved update.
  abbrev pub apply_update :
      BrokerUpdate F → Stamp → OrderState → BrokerOrder F → Action (Oms F) (Unit {0})
  apply_update u stamp to_state order = do
    lift (check_changed (not (same_state to_state order.status)) order.status to_state)
    save_transition (updated_order u to_state order) (some order.status) to_state
        (broker_reconciliation u.status) stamp

  unfoldable pub update_order :
      BrokerUpdate F → Stamp → Option (BrokerOrder F) → Action (Oms F) (Unit {0})
  unfolding broker_state save_broker_order_with_transition validate_transition
  update_order u stamp none = pure tt
  update_order u stamp (some order) =
      let to_state = broker_state u.status u.filled_quantity order.status in
      let state_changed = not (same_state to_state order.status) in
      if not (state_changed || fill_changed u order)
      then pure tt
      else apply_update u stamp to_state order

  unfoldable pub handle_broker_order_event : BrokerUpdate F → Stamp → Action (Oms F) (Unit {0})
  unfolding get_order_by_client_id update_order
  handle_broker_order_event u stamp s =
      update_order u stamp (get_order_by_client_id u.client_order_id s.repo) s
