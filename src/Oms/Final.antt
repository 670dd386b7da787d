-- ===== src/Oms/Final.antt =====
-- The final states of services/oms/state_machine.py through the entry points of
-- services/oms/service.py.
use icici_breeze_api_trading.Prelude.{
  ◌≡◌, refl, sym, ap, ◌∙◌, inl, inr, true, Option, none, some, List, find, arith, ◌==◌, ==_iff,
  Bool-cases,
}
use icici_breeze_api_trading.Prelude.Result.{Result, ok, err, transact}
use icici_breeze_api_trading.Prelude.Float.{Float}
use icici_breeze_api_trading.Contracts.{
  order_state, Text, Time, BrokerOrder, BrokerUpdate, OrderIntent, OrderState, RiskDecision,
}
use icici_breeze_api_trading.Oms.Repository.{
  Db, Stamp, Reason, has_order_id, get_order_by_id, save_broker_order_with_transition,
}
use icici_breeze_api_trading.Oms.Service.{
  Oms, create_order_intent, handle_risk_decision_event, mark_order_submitting,
}
use icici_breeze_api_trading.Oms.BrokerUpdates.{handle_broker_order_event}
use icici_breeze_api_trading.Oms.Graph.{is_terminal, terminal_absorbs}
use icici_breeze_api_trading.Oms.Journal.{IsAudited, IsStep, state_of, find-upsert, save_lem}
use icici_breeze_api_trading.Oms.Stable.{IsStable, Kept, intent_saved}
use icici_breeze_api_trading.Oms.Handlers.{
  create_order_intent-Kept, handle_risk_decision_event-Kept, mark_order_submitting-Kept,
  handle_broker_order_event-Kept,
}
use icici_breeze_api_trading.Oms.Past.{state_in}

final_step : (a b : OrderState) (r : Reason) → is_terminal a ≡ true → IsStep (some a) b r → b ≡ a
final_step a b r h (inl e) = absurd (ground (arith, terminal_absorbs a b h))
final_step a b r h (inr e) = sym e.0

some_inj : {x y : OrderState} → some x ≡ some y → x ≡ y
some_inj e = cc

module _ {a : OrderState} (final : is_terminal a ≡ true) where
  stays :
      (from_state : Option OrderState) (to_state : OrderState) (reason : Reason)
      → from_state ≡ some a
      → IsStep from_state to_state reason
      → some to_state ≡ some a
  stays none b r e p = cc
  stays (some x) b r e p = ap some (final_step a b r final (rw (some_inj e) at p))

module _ {F : Type 0} where
  abbrev IsIn : OrderState → Text → Oms F → Type 0
  IsIn a k s = state_in k s ≡ some a

module _ {F : Type 0} {a : OrderState} (final : is_terminal a ≡ true) where
  same_order :
      (i k : Text) (os : List (BrokerOrder F)) {x : Option OrderState}
      → i ≡ k
      → state_of (find (has_order_id i) os) ≡ x
      → state_of (find (has_order_id k) os) ≡ some a
      → x ≡ some a
  same_order i k os e f h = sym f ∙ (rw e h)

  transact_final :
      (k : Text) (order : BrokerOrder F) (from_state : Option OrderState) (to_state : OrderState)
      (reason : Reason) (stamp : Stamp) (db : Db F) (r : Result (Db F))
      → save_broker_order_with_transition order from_state to_state reason
          (some order_state)
          stamp
          db
        ≡ r
      → state_of (find (has_order_id order.order_id) db.broker_orders) ≡ from_state
      → IsStep from_state to_state reason
      → state_of (find (has_order_id k) db.broker_orders) ≡ some a
      → state_of (find (has_order_id k) (transact db r).1.broker_orders) ≡ some a
  transact_final k order from_state to_state reason stamp db (err x) e f p h = h
  transact_final k order from_state to_state reason stamp db (ok db') e f p h =
      rw (save_lem order from_state to_state reason stamp db db' e).0 (
        find-upsert (record order { status = to_state; updated_at = stamp.now }) db.broker_orders k
        ∙ (elim (Bool-cases (order.order_id == k)) [
          | inl c ↦ rw c (
              stays final from_state to_state reason
                (same_order order.order_id k db.broker_orders ((==_iff order.order_id k).0 c) f h)
                p)
          | inr c ↦ rw c h
        ]))

  final-IsStable : (k : Text) → IsStable (IsIn {F = F} a k)
  final-IsStable k = record {
    saves = λ order from_state to_state reason stamp s _ h f p.
        transact_final k order from_state to_state reason stamp s.repo _ refl f p h;
    intents = λ i id s h. rw (intent_saved i id s.repo _ refl).0 h;
    posts = λ m s h. h;
  }

module _ {F : Type 0} ⦃fl : Float F⦄ where
  -- The entry points that write the tables of the OMS.
  pub data OmsStep : Oms F → Oms F → Type 0 where
    intent :
        {s : Oms F}
        → (i : OrderIntent F) (client_id order_id : Text) (now : Time) (outbox_id : Text)
          (first second : Stamp)
        → get_order_by_id order_id s.repo ≡ none
        → OmsStep s (create_order_intent i client_id order_id now outbox_id first second s).1
    decision :
        {s : Oms F}
        → (d : RiskDecision) (stamp : Stamp) → OmsStep s (handle_risk_decision_event d stamp s).1
    reserve :
        {s : Oms F}
        → (order_id : Text) (stamp : Stamp) → OmsStep s (mark_order_submitting order_id stamp s).1
    update :
        {s : Oms F}
        → (u : BrokerUpdate F) (stamp : Stamp) → OmsStep s (handle_broker_order_event u stamp s).1

  pub data OmsSteps : Oms F → Oms F → Type 0 where
    start : {s : Oms F} → OmsSteps s s
    next : {s t u : Oms F} → OmsStep s t → OmsSteps t u → OmsSteps s u

  OmsStep-Kept : {P : Oms F → Type 0} {s t : Oms F} → IsStable P → OmsStep s t → Kept P s → Kept P t
  OmsStep-Kept st (intent {s} i client_id order_id now outbox_id first second fresh) h =
      create_order_intent-Kept st i client_id order_id now outbox_id first second s h fresh
  OmsStep-Kept st (decision {s} d stamp) h = handle_risk_decision_event-Kept st d stamp s h
  OmsStep-Kept st (reserve {s} id stamp) h = mark_order_submitting-Kept st id stamp s h
  OmsStep-Kept st (update {s} u stamp) h = handle_broker_order_event-Kept st u stamp s h

  OmsSteps-Kept :
      {P : Oms F → Type 0} {s t : Oms F} → IsStable P → OmsSteps s t → Kept P s → Kept P t
  OmsSteps-Kept st start h = h
  OmsSteps-Kept st (next p ps) h = OmsSteps-Kept st ps (OmsStep-Kept st p h)

  -- From a state whose journal is true of its orders, an order in a final state stays in it, and
  -- the journal stays true, however new intents under fresh order ids, risk decisions, reservations
  -- and broker updates follow one another.
  pub final_state_stays :
      {s t : Oms F} (k : Text) (a : OrderState)
      → OmsSteps s t
      → IsAudited s.repo
      → is_terminal a ≡ true
      → state_in k s ≡ some a
      → (state_in k t ≡ some a) × IsAudited t.repo
  final_state_stays k a p h final e =
      let after =
        OmsSteps-Kept (final-IsStable {a = a} final k) p (record { audited = h; kept = e }) in
      (after.kept, after.audited)
