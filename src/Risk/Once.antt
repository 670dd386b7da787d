-- ===== src/Risk/Once.antt =====
-- services/risk/service.py decides each intent once: the fast path and the outbox may both deliver
-- it, in any order and as often as they like.
use icici_breeze_api_trading.Prelude.{
  suc, ◌+◌, ◌≤◌, ◌≡◌, refl, ◌⊎◌, inl, inr, Bool, true, false, Option, none, some, List, [], ◌∷◌,
  ◌++◌, arith, if◌then◌else◌, keep, length, insert_by, order_by, Bool-cases,
}
use icici_breeze_api_trading.Prelude.Float.{Float}
use icici_breeze_api_trading.Contracts.{
  Text, Time, SystemMode, OrderIntent, RiskDecision, Rule, duplicate_order_throttle,
  all_checks_passed,
}
use icici_breeze_api_trading.Risk.Inputs.{Services}
use icici_breeze_api_trading.Risk.Checks.{static_check}
use icici_breeze_api_trading.Risk.Service.{
  Risk, Setup, DecisionStamp, decides, later, head, get_decision_by_intent, new_decision,
  record_and_publish, decide_by, throttle, evaluate_intent, reuse_or_evaluate,
  handle_order_intent_event, is_throttled, last_seen, put_seen,
}

-- No intent has two decisions.
abbrev pub IsUnique : List RiskDecision → Type 0
IsUnique ds = (id : Text) → length (keep (decides id) ds) ≤ 1

pub length-keep-append :
    (id : Text) (ds : List RiskDecision) (d : RiskDecision)
    → length (keep (decides id) (ds ++ (d ∷ [])))
      ≡ length (keep (decides id) ds) + (if decides id d then 1 else 0)
length-keep-append id [] d = ground arith
length-keep-append id (x ∷ ds) d = ground (arith, length-keep-append id ds d)

length-insert_by :
    (x : RiskDecision) (ds : List RiskDecision) → length (insert_by later x ds) ≡ suc (length ds)
length-insert_by x [] = refl
length-insert_by x (y ∷ ds) = ground (arith, length-insert_by x ds)

length-order_by : (ds : List RiskDecision) → length (order_by later ds) ≡ length ds
length-order_by [] = refl
length-order_by (x ∷ ds) =
    ground (arith, length-insert_by x (order_by later ds), length-order_by ds)

head-none : (ds : List RiskDecision) → head (order_by later ds) ≡ none → length ds ≡ 0
head-none ds h = empty (order_by later ds) h (length-order_by ds)
  where
    empty : (es : List RiskDecision) → head es ≡ none → length es ≡ length ds → length ds ≡ 0
    empty [] g e = omega arith
    empty (x ∷ es) g e = cc

module _ {F : Type 0} ⦃fl : Float F⦄ where
  -- A recorded decision is added at the end, or nothing is.
  abbrev Adds : OrderIntent F → List RiskDecision → List RiskDecision → Type 0
  Adds i ds es =
      (es ≡ ds) ⊎ ((d : RiskDecision) × (es ≡ ds ++ (d ∷ [])) × (d.intent_id ≡ i.intent_id))

  recorded :
      (i : OrderIntent F) (approved : Bool) (rule : Rule) (reason : Text) (mode : SystemMode)
      (stamp : DecisionStamp) (s : Risk F)
      → let s' = (record_and_publish i approved rule reason mode stamp s).1 in
        (s'.risk_decisions ≡ s.risk_decisions)
        ⊎ (s'.risk_decisions
            ≡ s.risk_decisions ++ (new_decision i approved rule reason mode stamp ∷ []))
  unfolding record_and_publish
  recorded i approved rule reason mode stamp s = ground arith

  record-Adds :
      (i : OrderIntent F) (approved : Bool) (rule : Rule) (reason : Text) (mode : SystemMode)
      (stamp : DecisionStamp) (s : Risk F)
      → Adds i s.risk_decisions
          (record_and_publish i approved rule reason mode stamp s).1.risk_decisions
  record-Adds i approved rule reason mode stamp s =
      elim (recorded i approved rule reason mode stamp s) [
        | inl e ↦ inl e
        | inr e ↦ inr (new_decision i approved rule reason mode stamp, e, refl)
      ]

  decide-Adds :
      (r : Option Rule) (u : Setup F) (i : OrderIntent F) (now : Time) (stamp : DecisionStamp)
      (s : Risk F)
      → Adds i s.risk_decisions (decide_by r u i now stamp s).1.risk_decisions
  unfolding throttle
  decide-Adds none u i now stamp s =
      elim (Bool-cases (is_throttled now (last_seen (u.dup_key i) s.recent_orders))) [
        | inl e ↦ rw e (
            record-Adds i false duplicate_order_throttle (u.reason_of duplicate_order_throttle i)
              s.system_mode stamp s)
        | inr e ↦ rw e (
            record-Adds i true all_checks_passed (u.reason_of all_checks_passed i) s.system_mode
              stamp (record s { recent_orders = put_seen (u.dup_key i) now s.recent_orders }))
      ]
  decide-Adds (some x) u i now stamp s =
      record-Adds i false x (u.reason_of x i) s.system_mode stamp s

  evaluate-Adds :
      (u : Setup F) (v : Services F) (i : OrderIntent F) (now : Time) (stamp : DecisionStamp)
      (s : Risk F)
      → Adds i s.risk_decisions (evaluate_intent u v i now stamp s).1.risk_decisions
  unfolding evaluate_intent
  evaluate-Adds u v i now stamp s =
      decide-Adds (static_check u.config v s.system_mode i) u i now stamp s

  pub undecided :
      (id : Text) (s : Risk F)
      → get_decision_by_intent id s ≡ none
      → length (keep (decides id) s.risk_decisions) ≡ 0
  unfolding get_decision_by_intent
  undecided id s h = head-none (keep (decides id) s.risk_decisions) h

  Adds-IsUnique :
      (i : OrderIntent F) (ds es : List RiskDecision)
      → Adds i ds es
      → length (keep (decides i.intent_id) ds) ≡ 0
      → IsUnique ds
      → IsUnique es
  Adds-IsUnique i ds es (inl e) h k id = rw e (k id)
  Adds-IsUnique i ds es (inr (d, e, f)) h k id =
      rw (e, length-keep-append id ds d) (ground (arith, k id, h))

  -- Where no intent has two decisions, handling an intent gives no intent a second decision.
  pub handle_order_intent_event-IsUnique :
      (u : Setup F) (v : Services F) (i : OrderIntent F) (now : Time) (stamp : DecisionStamp)
      (s : Risk F)
      → IsUnique s.risk_decisions
      → IsUnique (handle_order_intent_event u v i now stamp s).1.risk_decisions
  unfolding handle_order_intent_event
  handle_order_intent_event-IsUnique u v i now stamp s k =
      handled (get_decision_by_intent i.intent_id s) refl
    where
      handled :
          (r : Option RiskDecision)
          → get_decision_by_intent i.intent_id s ≡ r
          → IsUnique (reuse_or_evaluate r u v i now stamp s).1.risk_decisions
      handled (some d) e = k
      handled none e =
          Adds-IsUnique i s.risk_decisions _ (evaluate-Adds u v i now stamp s)
            (undecided i.intent_id s e) k
