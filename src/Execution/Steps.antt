-- ===== src/Execution/Steps.antt =====
-- The runs of order processing: services/oms/service.py and services/execution/service.py over one
-- database and one bus, each handler as a whole, in any order and with any answers.
use icici_breeze_api_trading.Prelude.{
  ◌≤◌, ◌≡◌, refl, sym, inl, inr, not, ◌&&◌, Option, none, some, List, [], ◌∷◌, if◌then◌else◌, ◌==◌,
  ==_iff, find, arith, Bool-cases, any,
}
use icici_breeze_api_trading.Prelude.Float.{Float}
use icici_breeze_api_trading.Prelude.Members.{find-true}
use icici_breeze_api_trading.Prelude.Action.{pure, bind_keeps, if_keeps}
use icici_breeze_api_trading.Contracts.{Text, BrokerOrder, approved, same_state, same_state-eq}
use icici_breeze_api_trading.LiveGate.{validate_live_order}
use icici_breeze_api_trading.Oms.Repository.{Stamp, has_order_id, get_order_by_id}
use icici_breeze_api_trading.Oms.Journal.{IsAudited}
use icici_breeze_api_trading.Execution.Requests.{ExecutionConfig}
use icici_breeze_api_trading.Execution.Service.{
  Execution, Run, on_oms, reserve_and_submit, start_order, execute_order, recover_orders, fail_safe,
  is_live_exposure, runtime_healthy,
}
use icici_breeze_api_trading.Execution.Single.{
  submissions, IsSingle, on_oms-IsSingle, publish-IsSingle,
}
use icici_breeze_api_trading.Execution.Submission.{reserve_and_submit-IsSingle}
use mathlib.Core.Path.{subst}
use icici_breeze_api_trading.Contracts.{Time, OrderIntent, RiskDecision, BrokerUpdate}
use icici_breeze_api_trading.Oms.Service.{create_order_intent, handle_risk_decision_event}
use icici_breeze_api_trading.Oms.BrokerUpdates.{handle_broker_order_event}
use icici_breeze_api_trading.Oms.Handlers.{
  create_order_intent-Kept, handle_risk_decision_event-Kept, handle_broker_order_event-Kept,
}
use icici_breeze_api_trading.Oms.Repository.{list_orders}
use icici_breeze_api_trading.Execution.Service.{handle_execution_command, recover_approved_orders}
use icici_breeze_api_trading.Execution.Reconcile.{Evidence, reconcile_live_orders}

module _ {F : Type 0} ⦃fl : Float F⦄ where
  start_order-IsSingle :
      (cfg : ExecutionConfig F) (run : Run F) (k id : Text) (r : Option (BrokerOrder F))
      (s : Execution F)
      → find (has_order_id id) s.oms.repo.broker_orders ≡ r
      → IsSingle k s
      → IsSingle k (start_order cfg run id r s).1
  unfolding start_order get_order_by_id
  start_order-IsSingle cfg run k id none s e h = h
  start_order-IsSingle cfg run k id (some o) s e h =
      if_keeps (IsSingle k) (not (same_state o.status approved)) _ _ s (λ _. h)
        (λ c.
          if_keeps (IsSingle k) (is_live_exposure o && not (runtime_healthy run)) _ _ s
            (λ _. publish-IsSingle k _ s h)
            (λ _.
              if_keeps (IsSingle k)
                (is_live_exposure o
                  && not (validate_live_order run.gate_now cfg.live_account_id run.live_gate))
                (fail_safe run.gate_text o) (reserve_and_submit cfg run id) s
                (λ _. publish-IsSingle k _ s h)
                (λ _.
                  reserved id ((==_iff o.order_id id).0 (find-true (has_order_id id) _ e)) e
                    (same_state-eq o.status approved (ground arith)))))
    where
      reserved :
          (j : Text)
          → o.order_id ≡ j
          → find (has_order_id j) s.oms.repo.broker_orders ≡ some o
          → o.status ≡ approved
          → IsSingle k (reserve_and_submit cfg run j s).1
      reserved j i e a = rw (← i) (
          reserve_and_submit-IsSingle cfg run k o s
            (subst (λ x. find (has_order_id x) s.oms.repo.broker_orders ≡ some o) (sym i) e) a h)

  execute_order-IsSingle :
      (cfg : ExecutionConfig F) (run : Run F) (k id : Text) (s : Execution F)
      → IsSingle k s
      → IsSingle k (execute_order cfg run id s).1
  unfolding execute_order get_order_by_id
  execute_order-IsSingle cfg run k id s h = start_order-IsSingle cfg run k id _ s refl h

  recover_orders-IsSingle :
      (cfg : ExecutionConfig F) (runs : Text → Run F) (k : Text) (os : List (BrokerOrder F))
      (s : Execution F)
      → IsSingle k s
      → IsSingle k (recover_orders cfg runs os s).1
  unfolding recover_orders
  recover_orders-IsSingle cfg runs k [] s h = h
  recover_orders-IsSingle cfg runs k (o ∷ os) s h =
      bind_keeps (IsSingle k)
        (if same_state o.status approved
          then execute_order cfg (runs o.order_id) o.order_id
          else pure tt)
        (λ _. recover_orders cfg runs os) s
        (if_keeps (IsSingle k) (same_state o.status approved)
          (execute_order cfg (runs o.order_id) o.order_id) (pure tt) s
          (λ _. execute_order-IsSingle cfg (runs o.order_id) k o.order_id s h) (λ _. h))
        (λ _ t p. recover_orders-IsSingle cfg runs k os t p)

  handle_execution_command-IsSingle :
      (cfg : ExecutionConfig F) (run : Run F) (k id client_id : Text) (s : Execution F)
      → IsSingle k s
      → IsSingle k (handle_execution_command cfg run id client_id s).1
  unfolding handle_execution_command
  handle_execution_command-IsSingle cfg run k id client_id s h =
      elim (Bool-cases (any (λ c. c == client_id) s.processed)) [
        | inl e ↦ rw e h
        | inr e ↦ rw e (
            execute_order-IsSingle cfg run k id (record s { processed = client_id ∷ s.processed })
              (record { audited = h.audited; once = h.once; past = h.past }))
      ]

  reconcile_live_orders-IsSingle :
      (cfg : ExecutionConfig F) (e : Evidence F) (k : Text) (s : Execution F)
      → IsSingle k s
      → IsSingle k (on_oms (reconcile_live_orders cfg e) s).1
  unfolding reconcile_live_orders
  reconcile_live_orders-IsSingle cfg e k s h = record {
    audited = h.audited;
    once = h.once;
    past = h.past;
  }

  -- The entry points that change the database, the bus or the broker's orders. A new order gets an
  -- order id that no order has.
  pub data Step (cfg : ExecutionConfig F) : Execution F → Execution F → Type 0 where
    intent :
        {s : Execution F}
        → (i : OrderIntent F) (client_id order_id : Text) (now : Time) (outbox_id : Text)
          (first second : Stamp)
        → get_order_by_id order_id s.oms.repo ≡ none
        → Step cfg s
            (on_oms (create_order_intent i client_id order_id now outbox_id first second) s).1
    decision :
        {s : Execution F}
        → (d : RiskDecision) (stamp : Stamp)
        → Step cfg s (on_oms (handle_risk_decision_event d stamp) s).1
    update :
        {s : Execution F}
        → (u : BrokerUpdate F) (stamp : Stamp)
        → Step cfg s (on_oms (handle_broker_order_event u stamp) s).1
    command :
        {s : Execution F}
        → (run : Run F) (order_id client_id : Text)
        → Step cfg s (handle_execution_command cfg run order_id client_id s).1
    direct :
        {s : Execution F}
        → (run : Run F) (order_id : Text) → Step cfg s (execute_order cfg run order_id s).1
    recover :
        {s : Execution F}
        → (runs : Text → Run F) → Step cfg s (recover_approved_orders cfg runs s).1
    reconcile :
        {s : Execution F} → (e : Evidence F) → Step cfg s (on_oms (reconcile_live_orders cfg e) s).1

  pub data Steps (cfg : ExecutionConfig F) : Execution F → Execution F → Type 0 where
    start : {s : Execution F} → Steps cfg s s
    next : {s t u : Execution F} → Step cfg s t → Steps cfg t u → Steps cfg s u

  Step-IsSingle :
      {cfg : ExecutionConfig F} {s t : Execution F} (k : Text)
      → Step cfg s t
      → IsSingle k s
      → IsSingle k t
  unfolding recover_approved_orders
  Step-IsSingle k (intent {s} i client_id order_id now outbox_id first second fresh) h =
      on_oms-IsSingle k (create_order_intent i client_id order_id now outbox_id first second) s
        (λ P st p.
          create_order_intent-Kept st i client_id order_id now outbox_id first second s.oms p fresh)
        h
  Step-IsSingle k (decision {s} d stamp) h =
      on_oms-IsSingle k (handle_risk_decision_event d stamp) s
        (λ P st. handle_risk_decision_event-Kept st d stamp s.oms) h
  Step-IsSingle k (update {s} u stamp) h =
      on_oms-IsSingle k (handle_broker_order_event u stamp) s
        (λ P st. handle_broker_order_event-Kept st u stamp s.oms) h
  Step-IsSingle {cfg} k (command {s} run id client_id) h =
      handle_execution_command-IsSingle cfg run k id client_id s h
  Step-IsSingle {cfg} k (direct {s} run id) h = execute_order-IsSingle cfg run k id s h
  Step-IsSingle {cfg} k (recover {s} runs) h =
      recover_orders-IsSingle cfg runs k (list_orders 500 s.oms.repo) s h
  Step-IsSingle {cfg} k (reconcile {s} e) h = reconcile_live_orders-IsSingle cfg e k s h

  Steps-IsSingle :
      {cfg : ExecutionConfig F} {s t : Execution F} (k : Text)
      → Steps cfg s t
      → IsSingle k s
      → IsSingle k t
  Steps-IsSingle k start h = h
  Steps-IsSingle k (next p ps) h = Steps-IsSingle k ps (Step-IsSingle k p h)

  -- From a state that has sent nothing and whose journal is true of its orders, however new
  -- intents, risk decisions, broker updates, execution commands, direct executions, recoveries and
  -- reconciliations follow one another, each as a whole and with any answers of the broker, no
  -- order is sent to the broker more than once.
  pub at_most_one_submission :
      {cfg : ExecutionConfig F} {s t : Execution F} (k : Text)
      → Steps cfg s t
      → IsAudited s.oms.repo
      → s.placed ≡ []
      → submissions k t.placed ≤ 1
  at_most_one_submission {s} k p h e =
      (Steps-IsSingle k p (record {
        audited = h;
        once = rw e (omega arith);
        past = λ c. absurd (omega (arith, (rw e at c)));
      })).once
