-- ===== src/Oms/Handlers.antt =====
-- Every handler of services/oms/service.py keeps the audit journal, and what saved
-- transitions keep.
use mathlib.Core.List.{Memᴰ}
use icici_breeze_api_trading.Prelude.{
  ◌≡◌, refl, sym, inl, inr, not, ◌||◌, none, some, find, take, order_by, Bool-cases,
}
use icici_breeze_api_trading.Prelude.Action.{pure, ◌>>◌, bind_keeps, bind_case, if_keeps, finish}
use icici_breeze_api_trading.Prelude.Float.{Float, zero_f}
use icici_breeze_api_trading.Prelude.Members.{find-mem, mem-take, mem-order_by}
use icici_breeze_api_trading.Contracts.{
  order_intent, Text, Time, BrokerOrder, BrokerUpdate, OrderIntent, OrderState, RiskDecision,
  created, validating, approved, submitting, same_state, same_state-eq,
}
use icici_breeze_api_trading.Oms.StateMachine.{can_transition, validate_transition}
use icici_breeze_api_trading.Oms.Repository.{
  Stamp, has_order_id, has_client_id, newer, save_order_intent, risk_reason, get_order_by_id,
  get_order_by_client_id, list_orders, intent_created, dispatched_to_risk, execution_reserved,
  broker_reconciliation,
}
use icici_breeze_api_trading.Oms.Service.{
  Oms, save_transition, new_order, dispatch_order, create_order_intent, decide_order,
  handle_risk_decision_event, decided_state, of_intent, in_transaction, publish, reserve_order,
  mark_order_submitting,
}
use icici_breeze_api_trading.Oms.BrokerUpdates.{
  update_order, updated_order, apply_update, fill_changed, handle_broker_order_event, broker_state,
}
use icici_breeze_api_trading.Oms.Journal.{IsStep, state_of, save_transition-state}
use icici_breeze_api_trading.Oms.Stable.{
  IsStable, Kept, saved_keeps, posted_keeps, transition-Keeps, find_keeps, find_own, intent_saved,
}

module _ {F : Type 0} {P : Oms F → Type 0} (st : IsStable P) where
  pub reserve_order-Kept :
      (stamp : Stamp) (o : BrokerOrder F) (s : Oms F)
      → Kept P s
      → Memᴰ o s.repo.broker_orders
      → Kept P (reserve_order stamp (some o) s).1
  unfolding reserve_order
  reserve_order-Kept stamp o s h m =
      if_keeps (Kept P) (same_state o.status submitting) _ _ s (λ _. h)
        λ _.
          if_keeps (Kept P) (not (same_state o.status approved)) _ _ s (λ _. h)
            λ _.
              transition-Keeps st o (record o { status = submitting; updated_at = stamp.now })
                submitting execution_reserved stamp
                (pure (some (record o { status = submitting; updated_at = stamp.now }))) s h m refl
                (λ t k. k)

  -- Reserving a submission keeps the journal, and `P` with it.
  pub mark_order_submitting-Kept :
      (order_id : Text) (stamp : Stamp) (s : Oms F)
      → Kept P s
      → Kept P (mark_order_submitting order_id stamp s).1
  unfolding mark_order_submitting get_order_by_id
  mark_order_submitting-Kept order_id stamp s h =
      find_keeps st (reserve_order stamp) _ s h (unfold reserve_order in refl)
        (λ o. find-mem (has_order_id order_id) s.repo.broker_orders)
        (λ o. reserve_order-Kept stamp o s h)

  decide_order-Kept :
      (d : RiskDecision) (stamp : Stamp) (o : BrokerOrder F) (s : Oms F)
      → Kept P s
      → Memᴰ o s.repo.broker_orders
      → Kept P (decide_order d stamp (some o) s).1
  unfolding decide_order
  decide_order-Kept d stamp o s h m =
      if_keeps (Kept P) (not (same_state o.status validating)) _ _ s (λ _. h)
        λ _.
          transition-Keeps st o
            (record o { status = decided_state d.approved; status_message = some d.reason })
            (decided_state d.approved) (risk_reason d.reason) stamp _ s h m refl
            (λ t k. if_keeps (Kept P) d.approved _ _ t (λ _. posted_keeps st _ t k) (λ _. k))

  -- So does a risk decision, first or repeated.
  pub handle_risk_decision_event-Kept :
      (d : RiskDecision) (stamp : Stamp) (s : Oms F)
      → Kept P s
      → Kept P (handle_risk_decision_event d stamp s).1
  unfolding handle_risk_decision_event list_orders
  handle_risk_decision_event-Kept d stamp s h =
      find_keeps st (decide_order d stamp)
        (find (of_intent d.intent_id) (take 50 (order_by newer s.repo.broker_orders))) s h
        (unfold decide_order in refl)
        (λ o e. mem-order_by newer s.repo.broker_orders (
          mem-take 50 (order_by newer s.repo.broker_orders) (find-mem (of_intent d.intent_id) _ e)))
        (λ o. decide_order-Kept d stamp o s h)

module _ {F : Type 0} ⦃fl : Float F⦄ {P : Oms F → Type 0} (st : IsStable P) where
  apply_update-Kept :
      (u : BrokerUpdate F) (stamp : Stamp) (b : OrderState) (o : BrokerOrder F) (s : Oms F)
      → Kept P s
      → Memᴰ o s.repo.broker_orders
      → Kept P (apply_update u stamp b o s).1
  unfolding validate_transition
  apply_update-Kept u stamp b o s h m = elim (Bool-cases (same_state b o.status)) [
    | inl e ↦ rw (e, finish) (saved (inr (sym (same_state-eq b o.status e), (u.status, refl))))
    | inr e ↦
        rw (e, finish)
          (elim (Bool-cases (can_transition o.status b)) [
            | inl c ↦ rw (c, finish) (saved (inl c))
            | inr c ↦ rw (c, finish) h
          ])
  ]
    where
      saved :
          IsStep (some o.status) b (broker_reconciliation u.status)
          → Kept P
              (save_transition
                (updated_order u b o)
                (some o.status)
                b
                (broker_reconciliation u.status)
                stamp
                s).1
      saved p =
          saved_keeps st (updated_order u b o) (some o.status) b (broker_reconciliation u.status)
            stamp s h (find_own s.repo.broker_orders h.audited.keyed m) p

  -- And so does a broker's update, whether it is taken over, ignored or refused.
  pub handle_broker_order_event-Kept :
      (u : BrokerUpdate F) (stamp : Stamp) (s : Oms F)
      → Kept P s
      → Kept P (handle_broker_order_event u stamp s).1
  unfolding handle_broker_order_event get_order_by_client_id update_order
  handle_broker_order_event-Kept u stamp s h =
      find_keeps st (update_order u stamp) _ s h refl
        (λ o. find-mem (has_client_id u.client_order_id) s.repo.broker_orders)
        (λ o m.
          if_keeps (Kept P)
            (not (
              not (same_state (broker_state u.status u.filled_quantity o.status) o.status)
              || fill_changed u o))
            (pure tt) (apply_update u stamp (broker_state u.status u.filled_quantity o.status) o) s
            (λ _. h) (λ _. apply_update-Kept u stamp _ o s h m))

  intent-Kept :
      (i : OrderIntent F) (id : Text) (s : Oms F)
      → Kept P s
      → Kept P (in_transaction (save_order_intent i id) s).1
  intent-Kept i id s h =
      let (os, es) = intent_saved i id s.repo _ refl in
      record {
        audited = record { keyed = rw os h.audited.keyed; agrees = rw (os, es) h.audited.agrees };
        kept = st.intents i id s h.kept;
      }

  -- A new order under a fresh order id keeps both, also where one of its three transactions
  -- fails.
  pub create_order_intent-Kept :
      (i : OrderIntent F) (client_id order_id : Text) (now : Time) (outbox_id : Text)
      (first second : Stamp) (s : Oms F)
      → Kept P s
      → get_order_by_id order_id s.repo ≡ none
      → Kept P (create_order_intent i client_id order_id now outbox_id first second s).1
  unfolding create_order_intent get_order_by_id validate_transition can_transition
  create_order_intent-Kept i client_id order_id now outbox_id first second s h fresh =
      bind_case (Kept P) (in_transaction (save_order_intent i outbox_id)) _ s
        (intent-Kept i outbox_id s h)
        (λ _ _.
          bind_case (Kept P) (save_transition order none created intent_created first)
            (λ _. dispatch_order i order second) s1
            (saved_keeps st order none created intent_created first s1 before unknown refl)
            (λ _ e.
              bind_keeps (Kept P)
                (save_transition sent (some created) validating dispatched_to_risk second)
                (λ _. publish (order_intent i) >> pure sent) (s2)
                (saved_keeps st sent (some created) validating dispatched_to_risk second s2
                  (saved_keeps st order none created intent_created first s1 before unknown refl)
                  (save_transition-state order none created intent_created first s1 e) (inl refl))
                (λ _ t k. posted_keeps st (order_intent i) t k)))
    where
      order : BrokerOrder F
      order = new_order i zero_f order_id client_id now

      sent : BrokerOrder F
      sent = record order { status = validating }

      s1 : Oms F
      s1 = (in_transaction (save_order_intent i outbox_id) s).1

      s2 : Oms F
      s2 = (save_transition order none created intent_created first s1).1

      before : Kept P s1
      before = intent-Kept i outbox_id s h

      unknown : state_of (find (has_order_id order_id) s1.repo.broker_orders) ≡ none
      unknown = rw (intent_saved i outbox_id s.repo _ refl).0 (rw fresh)
