-- ===== src/Risk/Decided.antt =====
-- services/risk/service.py: an intent that is delivered again is answered with the decision of its
-- first delivery.
use icici_breeze_api_trading.Prelude.{
  ℕ, suc, ==_iff, ◌≤◌, ◌≡◌, refl, inl, inr, Bool, true, false, Option, none, some, List, [], ◌∷◌,
  ◌++◌, arith, keep, length, order_by, Bool-cases,
}
use icici_breeze_api_trading.Prelude.Float.{Float}
use icici_breeze_api_trading.Prelude.Result.{Result, ok, err}
use icici_breeze_api_trading.Contracts.{
  Text, Time, SystemMode, OrderIntent, RiskDecision, Rule, risk_decision, duplicate_order_throttle,
  all_checks_passed,
}
use icici_breeze_api_trading.Risk.Inputs.{Services}
use icici_breeze_api_trading.Risk.Checks.{static_check}
use icici_breeze_api_trading.Risk.Service.{
  Risk, Setup, DecisionStamp, decides, later, head, get_decision_by_intent, publish_decision,
  record_and_publish, decide_by, throttle, evaluate_intent, reuse_or_evaluate, save_decision,
  handle_order_intent_event, is_throttled, last_seen, put_seen, drop_value,
}
use icici_breeze_api_trading.Risk.Once.{IsUnique, undecided}

only_one :
    (id : Text) (ds : List RiskDecision) {d : RiskDecision}
    → head (order_by later (keep (decides id) ds)) ≡ some d
    → length (keep (decides id) ds) ≤ 1
    → keep (decides id) ds ≡ d ∷ []
only_one id ds h le = single (keep (decides id) ds) h le
  where
    single :
        (es : List RiskDecision) {d : RiskDecision}
        → head (order_by later es) ≡ some d
        → length es ≤ 1
        → es ≡ d ∷ []
    single [] g l = cc
    single (x ∷ []) g l = ground arith
    single (x ∷ (y ∷ es)) g l = absurd (omega (arith, l))

keep-append_none :
    (id : Text) (ds : List RiskDecision) (d : RiskDecision)
    → length (keep (decides id) ds) ≡ 0
    → decides id d ≡ true
    → keep (decides id) (ds ++ (d ∷ [])) ≡ d ∷ []
keep-append_none id [] d h e = rw e refl
keep-append_none id (x ∷ ds) d h e = elim (Bool-cases (decides id x)) [
  | inl f ↦ absurd (positive (rw f at h))
  | inr f ↦ rw f (keep-append_none id ds d (rw f at h) e)
]
  where
    positive : {n : ℕ} → suc n ≡ 0 → ⊥
    positive h = omega (arith, h)

value_of : (r : Result RiskDecision) → drop_value r ≡ ok tt → (d : RiskDecision) × (r ≡ ok d)
value_of (ok d) h = (d, refl)
value_of (err e) h = cc

module _ {F : Type 0} ⦃fl : Float F⦄ where
  -- What the handling of an intent has left, where it went through: one decision of the intent.
  abbrev IsDecided : OrderIntent F → Risk F → RiskDecision → Type 0
  IsDecided i s d = keep (decides i.intent_id) s.risk_decisions ≡ d ∷ []

  decided_alone :
      (u : Setup F) (v : Services F) (i : OrderIntent F) (now : Time) (stamp : DecisionStamp)
      (s : Risk F) (d : RiskDecision)
      → IsDecided i s d
      → handle_order_intent_event u v i now stamp s ≡ (ok tt, publish_decision d s)
  unfolding handle_order_intent_event get_decision_by_intent
  decided_alone u v i now stamp s d e = rw e refl

  saved_decision :
      (i : OrderIntent F) (approved : Bool) (rule : Rule) (reason : Text) (mode : SystemMode)
      (stamp : DecisionStamp) (s : Risk F) {d : RiskDecision}
      → (record_and_publish i approved rule reason mode stamp s).0 ≡ ok d
      → ((record_and_publish i approved rule reason mode stamp s).1.risk_decisions
          ≡ s.risk_decisions ++ (d ∷ []))
        × ((record_and_publish i approved rule reason mode stamp s).1.bus
            ≡ s.bus ++ (risk_decision d ∷ []))
        × (d.intent_id ≡ i.intent_id)
  unfolding record_and_publish save_decision
  saved_decision i approved rule reason mode stamp s h = ground arith

  -- What an evaluation that went through has written and published.
  abbrev Wrote : OrderIntent F → Risk F → RiskDecision → Risk F → Type 0
  Wrote i s d s' =
      (s'.risk_decisions ≡ s.risk_decisions ++ (d ∷ []))
      × (s'.bus ≡ s.bus ++ (risk_decision d ∷ []))
      × (d.intent_id ≡ i.intent_id)

  decided_by :
      (r : Option Rule) (u : Setup F) (i : OrderIntent F) (now : Time) (stamp : DecisionStamp)
      (s : Risk F) {d : RiskDecision}
      → (decide_by r u i now stamp s).0 ≡ ok d
      → Wrote i s d (decide_by r u i now stamp s).1
  unfolding throttle
  decided_by none u i now stamp s h =
      elim (Bool-cases (is_throttled now (last_seen (u.dup_key i) s.recent_orders))) [
        | inl e ↦ rw e (
            saved_decision i false duplicate_order_throttle (u.reason_of duplicate_order_throttle i)
              s.system_mode stamp s (rw e at h))
        | inr e ↦ rw e (
            saved_decision i true all_checks_passed (u.reason_of all_checks_passed i) s.system_mode
              stamp (record s { recent_orders = put_seen (u.dup_key i) now s.recent_orders })
              (rw e at h))
      ]
  decided_by (some x) u i now stamp s h =
      saved_decision i false x (u.reason_of x i) s.system_mode stamp s h

  evaluated :
      (u : Setup F) (v : Services F) (i : OrderIntent F) (now : Time) (stamp : DecisionStamp)
      (s : Risk F) {d : RiskDecision}
      → (evaluate_intent u v i now stamp s).0 ≡ ok d
      → Wrote i s d (evaluate_intent u v i now stamp s).1
  unfolding evaluate_intent
  evaluated u v i now stamp s h =
      decided_by (static_check u.config v s.system_mode i) u i now stamp s h

  -- What a first handling leaves.
  first_handling :
      (u : Setup F) (v : Services F) (i : OrderIntent F) (now : Time) (stamp : DecisionStamp)
      (s : Risk F) (r : Option RiskDecision)
      → IsUnique s.risk_decisions
      → get_decision_by_intent i.intent_id s ≡ r
      → (reuse_or_evaluate r u v i now stamp s).0 ≡ ok tt
      → let s' = (reuse_or_evaluate r u v i now stamp s).1 in
        (d : RiskDecision) × IsDecided i s' d × (s'.bus ≡ s.bus ++ (risk_decision d ∷ []))
  unfolding get_decision_by_intent
  first_handling u v i now stamp s (some d) k e h =
      (d, only_one i.intent_id s.risk_decisions e (k i.intent_id), refl)
  first_handling u v i now stamp s none k e h =
      let (d, q) = value_of (evaluate_intent u v i now stamp s).0 h in
      let (rows, bus, id) = evaluated u v i now stamp s q in
      (
        d,
        rw rows (
            keep-append_none i.intent_id s.risk_decisions d (undecided i.intent_id s e)
              (rw id ((==_iff i.intent_id i.intent_id).1 refl))),
        bus,
      )

  -- Where no intent has two decisions, an intent that was handled without an exception has one
  -- decision, which was published; and handling any intent with its id again, at any instant and
  -- with any answers of the services, changes no table and publishes that decision once more.
  pub decided_once :
      (u u' : Setup F) (v v' : Services F) (i i' : OrderIntent F) (now now' : Time)
      (stamp stamp' : DecisionStamp) (s : Risk F)
      → IsUnique s.risk_decisions
      → i'.intent_id ≡ i.intent_id
      → (handle_order_intent_event u v i now stamp s).0 ≡ ok tt
      → let s' = (handle_order_intent_event u v i now stamp s).1 in
        (d : RiskDecision) × (s'.bus ≡ s.bus ++ (risk_decision d ∷ []))
        × (keep (decides i.intent_id) s'.risk_decisions ≡ d ∷ [])
        × (handle_order_intent_event u' v' i' now' stamp' s' ≡ (ok tt, publish_decision d s'))
  unfolding handle_order_intent_event
  decided_once u u' v v' i i' now now' stamp stamp' s k same h =
      let (d, one, bus) =
        first_handling u v i now stamp s (get_decision_by_intent i.intent_id s) k refl h in
      (d, bus, one, decided_alone u' v' i' now' stamp' _ d (rw same one))
