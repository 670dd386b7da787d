-- ===== src/Risk/Safety.antt =====
-- What an approval by services/risk/service.py guarantees.
use icici_breeze_api_trading.Prelude.{
  ◌+◌, ◌≤◌, Bool-cases, ◌≡◌, refl, inl, inr, Bool, true, false, Option, none, some, arith,
}
use icici_breeze_api_trading.Prelude.Float.{Float}
use icici_breeze_api_trading.Prelude.Result.{ok}
use icici_breeze_api_trading.Contracts.{
  Text, Time, SystemMode, OrderIntent, RiskDecision, Rule, duplicate_order_throttle,
}
use icici_breeze_api_trading.Risk.Inputs.{Services}
use icici_breeze_api_trading.Risk.Checks.{static_check}
use icici_breeze_api_trading.Risk.Service.{
  Risk, Setup, DecisionStamp, evaluate_intent, decide_by, record_and_publish, new_decision,
  throttle, is_throttled, last_seen,
}
use icici_breeze_api_trading.Risk.Limits.{IsSafe, static_check-IsSafe}

module _ {F : Type 0} ⦃fl : Float F⦄ where
  recorded_flag :
      (i : OrderIntent F) (approved : Bool) (rule : Rule) (reason : Text) (mode : SystemMode)
      (stamp : DecisionStamp) (s : Risk F) {d : RiskDecision}
      → (record_and_publish i approved rule reason mode stamp s).0 ≡ ok d
      → d ≡ new_decision i approved rule reason mode stamp
  unfolding record_and_publish
  recorded_flag i approved rule reason mode stamp s h = ground arith

  approved_checked :
      (u : Setup F) (v : Services F) (i : OrderIntent F) (now : Time) (stamp : DecisionStamp)
      (s : Risk F) {d : RiskDecision}
      → (evaluate_intent u v i now stamp s).0 ≡ ok d
      → d.approved ≡ true
      → static_check u.config v s.system_mode i ≡ none
  unfolding evaluate_intent
  approved_checked u v i now stamp s {d} h a =
      rejected (static_check u.config v s.system_mode i) refl h
    where
      rejected :
          (r : Option Rule)
          → static_check u.config v s.system_mode i ≡ r
          → (decide_by r u i now stamp s).0 ≡ ok d
          → static_check u.config v s.system_mode i ≡ none
      rejected none e g = e
      rejected (some x) e g = absurd (
          ground (arith, recorded_flag i false x (u.reason_of x i) s.system_mode stamp s {d = d} g))

  -- No order was remembered under the same key of the throttle in the second before.
  abbrev pub IsUnrepeated : Setup F → OrderIntent F → Time → Risk F → Type 0
  IsUnrepeated u i now s =
      (seen : Time) → last_seen (u.dup_key i) s.recent_orders ≡ some seen → seen + 1000000 ≤ now

  approved-IsUnrepeated :
      (u : Setup F) (v : Services F) (i : OrderIntent F) (now : Time) (stamp : DecisionStamp)
      (s : Risk F) {d : RiskDecision}
      → (evaluate_intent u v i now stamp s).0 ≡ ok d
      → d.approved ≡ true
      → IsUnrepeated u i now s
  unfolding evaluate_intent throttle
  approved-IsUnrepeated u v i now stamp s {d} h a seen e =
      elim (Bool-cases (is_throttled now (last_seen (u.dup_key i) s.recent_orders))) [
        | inl t ↦ absurd (refused (rw (approved_checked u v i now stamp s {d = d} h a, t) at h))
        | inr t ↦ in_time (rw e at t)
      ]
    where
      refused :
          (record_and_publish i false duplicate_order_throttle
              (u.reason_of duplicate_order_throttle i)
              s.system_mode
              stamp
              s).0
            ≡ ok d
          → ⊥
      refused g = ground (
        arith,
        recorded_flag i false duplicate_order_throttle (u.reason_of duplicate_order_throttle i)
            s.system_mode stamp s {d = d} g,
      )

      in_time : is_throttled now (some seen) ≡ false → seen + 1000000 ≤ now
      in_time t = ground arith

  -- An intent that the risk service approves satisfies what the checks of evaluate_intent ask: the
  -- bounds of its quantity, the price above the tick, the trigger of a STOP_LIMIT above the tick
  -- and on the right side of the price, the system mode, the cover of an exit, no reduce-only BUY,
  -- no LIVE MARKET order and no LIVE SELL that is no exit, for a LIVE entry the session, the feed,
  -- the authorization and the exposure at the broker, and no order remembered under its throttle
  -- key in the second before.
  pub approved-IsSafe :
      (u : Setup F) (v : Services F) (i : OrderIntent F) (now : Time) (stamp : DecisionStamp)
      (s : Risk F) {d : RiskDecision}
      → (evaluate_intent u v i now stamp s).0 ≡ ok d
      → d.approved ≡ true
      → IsSafe u.config v s.system_mode i × IsUnrepeated u i now s
  approved-IsSafe u v i now stamp s h a = (
    static_check-IsSafe u.config v s.system_mode i (approved_checked u v i now stamp s h a),
    approved-IsUnrepeated u v i now stamp s h a,
  )
