-- ===== src/Oms/Audit.antt =====
-- The audit journal of services/oms/repository.py through every entry point of
-- services/oms/service.py.
use icici_breeze_api_trading.Prelude.{◌≡◌, none}
use icici_breeze_api_trading.Prelude.Float.{Float}
use icici_breeze_api_trading.Contracts.{Text, Time, BrokerUpdate, OrderIntent, RiskDecision}
use icici_breeze_api_trading.Oms.Repository.{Stamp, get_order_by_id}
use icici_breeze_api_trading.Oms.Service.{
  Oms, create_order_intent, handle_risk_decision_event, mark_order_submitting,
}
use icici_breeze_api_trading.Oms.BrokerUpdates.{handle_broker_order_event}
use icici_breeze_api_trading.Oms.Journal.{IsAudited}
use icici_breeze_api_trading.Oms.Stable.{IsStable, Kept}
use icici_breeze_api_trading.Oms.Handlers.{
  create_order_intent-Kept, handle_risk_decision_event-Kept, mark_order_submitting-Kept,
  handle_broker_order_event-Kept,
}

module _ {F : Type 0} where
  abbrev Anything : Oms F → Type 0
  Anything _ = Unit

  Anything-IsStable : IsStable Anything
  Anything-IsStable = record {
    saves = λ _ _ _ _ _ _ _ _ _ _. tt;
    intents = λ _ _ _ _. tt;
    posts = λ _ _ _. tt;
  }

  with-Anything : (s : Oms F) → IsAudited s.repo → Kept Anything s
  with-Anything s h = record { audited = h; kept = tt }

  -- Reserving a submission keeps the audit journal true of the table of orders.
  pub mark_order_submitting-IsAudited :
      (order_id : Text) (stamp : Stamp) (s : Oms F)
      → IsAudited s.repo
      → IsAudited (mark_order_submitting order_id stamp s).1.repo
  mark_order_submitting-IsAudited order_id stamp s h =
      (mark_order_submitting-Kept Anything-IsStable order_id stamp s (with-Anything s h)).audited

  -- A risk decision, first or repeated, keeps the audit journal true of the table of orders.
  pub handle_risk_decision_event-IsAudited :
      (d : RiskDecision) (stamp : Stamp) (s : Oms F)
      → IsAudited s.repo
      → IsAudited (handle_risk_decision_event d stamp s).1.repo
  handle_risk_decision_event-IsAudited d stamp s h =
      (handle_risk_decision_event-Kept Anything-IsStable d stamp s (with-Anything s h)).audited

module _ {F : Type 0} ⦃fl : Float F⦄ where
  -- A broker's update, whether it is taken over, ignored or refused, keeps the audit journal true
  -- of the table of orders.
  pub handle_broker_order_event-IsAudited :
      (u : BrokerUpdate F) (stamp : Stamp) (s : Oms F)
      → IsAudited s.repo
      → IsAudited (handle_broker_order_event u stamp s).1.repo
  handle_broker_order_event-IsAudited u stamp s h =
      (handle_broker_order_event-Kept Anything-IsStable u stamp s (with-Anything s h)).audited

  -- Creating an order under an order id that no order has keeps the audit journal a history of
  -- which each entry starts where the last one of its order ended, begins in CREATED, and is an
  -- allowed transition or the progress that a broker's update reports without a change of state;
  -- and it ends in the states of the table of orders, also where one of the transactions fails.
  pub create_order_intent-IsAudited :
      (i : OrderIntent F) (client_id order_id : Text) (now : Time) (outbox_id : Text)
      (first second : Stamp) (s : Oms F)
      → IsAudited s.repo
      → get_order_by_id order_id s.repo ≡ none
      → IsAudited (create_order_intent i client_id order_id now outbox_id first second s).1.repo
  create_order_intent-IsAudited i client_id order_id now outbox_id first second s h fresh =
      (create_order_intent-Kept Anything-IsStable i client_id order_id now outbox_id first second s
        (with-Anything s h) fresh).audited
