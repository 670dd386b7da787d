-- ===== src/Oms/Service.antt =====
-- services/oms/service.py: the entry point for intents, the handlers of risk decisions and broker
-- updates, and the reservation of a submission. A handler runs as a whole between the awaits of the
-- bus; identifiers and instants that it generates are arguments.
use icici_breeze_api_trading.Prelude.{
  Bool, not, Option, none, some, List, [], ◌∷◌, ◌++◌, ◌==◌, if◌then◌else◌, find,
}
use icici_breeze_api_trading.Prelude.Int.{pos}
use icici_breeze_api_trading.Prelude.Float.{Float, zero_f}
use icici_breeze_api_trading.Prelude.Result.{Result, transact}
use icici_breeze_api_trading.Prelude.Action.{Action, pure, lift, modify, ◌>>◌}
use icici_breeze_api_trading.Contracts.{
  Text, Time, OrderState, OrderIntent, BrokerOrder, Message, RiskDecision, order_intent,
  order_state, execution_command, same_state, created, validating, approved, risk_rejected,
  submitting,
}
use icici_breeze_api_trading.Oms.StateMachine.{validate_transition}
use icici_breeze_api_trading.Oms.Repository.{
  Db, Stamp, Reason, intent_created, dispatched_to_risk, execution_reserved, risk_reason,
  save_order_intent, save_broker_order_with_transition, get_order_by_id, list_orders,
}

-- The database of the service, and what it has published on the bus.
pub record Oms (F : Type 0) : Type 0 where
  pub repo : Db F
  pub bus : List (Message F)

module _ {F : Type 0} where
  abbrev pub publish : Message F → Action (Oms F) (Unit {0})
  publish m = modify λ s. record s { bus = s.bus ++ (m ∷ []) }

  abbrev pub publish_if : Bool → Message F → Action (Oms F) (Unit {0})
  publish_if b m = if b then publish m else pure tt

  -- A repository method: one transaction.
  abbrev pub in_transaction : (Db F → Result (Db F)) → Action (Oms F) (Unit {0})
  in_transaction f s = let (r, db) = transact s.repo (f s.repo) in (r, record s { repo = db })

  -- `save_broker_order_with_transition` with the topic of order states.
  abbrev pub save_transition :
      BrokerOrder F → Option OrderState → OrderState → Reason → Stamp → Action (Oms F) (Unit {0})
  save_transition order from_state to_state reason stamp =
      in_transaction (
        save_broker_order_with_transition order from_state to_state reason (some order_state) stamp)

  abbrev pub new_order : OrderIntent F → F → Text → Text → Time → BrokerOrder F
  new_order i zero_price order_id client_order_id now = record {
    order_id = order_id;
    intent_id = i.intent_id;
    client_order_id = client_order_id;
    broker_order_id = none;
    instrument_id = i.instrument_id;
    symbol = i.symbol;
    side = i.side;
    order_type = i.order_type;
    quantity = i.quantity;
    filled_quantity = pos 0;
    remaining_quantity = i.quantity;
    price = i.price;
    trigger_price = i.trigger_price;
    average_price = zero_price;
    status = created;
    status_message = none;
    trading_mode = i.trading_mode;
    reduce_only = i.reduce_only;
    created_at = now;
    updated_at = now;
  }

-- The state that a risk decision leads to.
abbrev pub decided_state : Bool → OrderState
decided_state approved_flag = if approved_flag then approved else risk_rejected

module _ {F : Type 0} where
  -- The second half of `create_order_intent`, from the saved order on.
  abbrev pub dispatch_order : OrderIntent F → BrokerOrder F → Stamp → Action (Oms F) (BrokerOrder F)
  dispatch_order intent order stamp = do
    lift (validate_transition created validating)
    let dispatched = record order { status = validating }
    save_transition dispatched (some created) validating dispatched_to_risk stamp
    publish (order_intent intent)
    pure dispatched

module _ {F : Type 0} ⦃fl : Float F⦄ where
  -- `create_order_intent`; `saved` are the stamps of the two saved transitions.
  unfoldable pub create_order_intent :
      OrderIntent F → Text → Text → Time → Text → Stamp → Stamp → Action (Oms F) (BrokerOrder F)
  unfolding save_order_intent save_broker_order_with_transition validate_transition
  create_order_intent intent client_order_id order_id now outbox_id first second = do
    let order = new_order intent zero_f order_id client_order_id now
    in_transaction (save_order_intent intent outbox_id)
    save_transition order none created intent_created first
    dispatch_order intent order second

module _ {F : Type 0} where
  -- What follows once the order of the decision is found.
  unfoldable pub decide_order :
      RiskDecision → Stamp → Option (BrokerOrder F) → Action (Oms F) (Unit {0})
  unfolding save_broker_order_with_transition validate_transition
  decide_order d stamp none = pure tt
  decide_order d stamp (some order) =
      if not (same_state order.status validating) then pure tt else do
        let to_state = decided_state d.approved
        lift (validate_transition order.status to_state)
        save_transition (record order { status = to_state; status_message = some d.reason })
            (some order.status) to_state (risk_reason d.reason) stamp
        publish_if d.approved (execution_command order.order_id order.client_order_id)

  abbrev pub of_intent : Text → BrokerOrder F → Bool
  of_intent id o = o.intent_id == id

  -- `_handle_risk_decision_event`: the order is looked for among the fifty newest.
  unfoldable pub handle_risk_decision_event : RiskDecision → Stamp → Action (Oms F) (Unit {0})
  unfolding list_orders decide_order
  handle_risk_decision_event d stamp s =
      decide_order d stamp (find (of_intent d.intent_id) (list_orders 50 s.repo)) s

  -- What `mark_order_submitting` does with the order that it read.
  unfoldable pub reserve_order :
      Stamp → Option (BrokerOrder F) → Action (Oms F) (Option (BrokerOrder F))
  unfolding save_broker_order_with_transition validate_transition
  reserve_order stamp none = pure none
  reserve_order stamp (some order) =
      if same_state order.status submitting
      then pure (some order)
      else if not (same_state order.status approved)
      then pure (some order)
      else do
        lift (validate_transition order.status submitting)
        let updated = record order { status = submitting; updated_at = stamp.now }
        save_transition updated (some order.status) submitting execution_reserved stamp
        pure (some updated)

  unfoldable pub mark_order_submitting : Text → Stamp → Action (Oms F) (Option (BrokerOrder F))
  unfolding reserve_order get_order_by_id
  mark_order_submitting order_id stamp s = reserve_order stamp (get_order_by_id order_id s.repo) s
