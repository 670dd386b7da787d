-- ===== src/Risk/Modes.antt =====
-- Safety modes of services/risk/service.py: what the kill switch stops, and that it never stops an
-- exit.
use icici_breeze_api_trading.Prelude.{
  ◌≡◌, refl, ap, ◌∙◌, ◌≢◌, ◌⊎◌, inl, inr, true, false, Option, none, some, [], ◌∷◌, ◌++◌, arith,
  Bool-cases,
}
use icici_breeze_api_trading.Prelude.Int.{ℤ, pos, ◌≤ℤ◌}
use icici_breeze_api_trading.Prelude.Float.{Float}
use icici_breeze_api_trading.Prelude.Result.{ok}
use icici_breeze_api_trading.Contracts.{
  Text, Time, SystemMode, OrderIntent, RiskDecision, Rule, normal, sell, limit, audit_event,
  kill_switch_enabled, all_checks_passed,
}
use icici_breeze_api_trading.Outbox.{has_event}
use icici_breeze_api_trading.Risk.Inputs.{Services}
use icici_breeze_api_trading.Risk.Checks.{
  is_exit, shape_check, exit_check, held_quantity, live_entry_check, mode_check, quantity_check,
  stop_check, tick, price_check, exposure_check, static_check,
}
use icici_breeze_api_trading.Risk.Service.{
  has_switch_event, Risk, Setup, DecisionStamp, KillAction, other_action, last_seen, is_throttled,
  has_decision, evaluate_intent, decide_by, throttle, record_and_publish, new_decision,
  trigger_kill_switch,
}
use icici_breeze_api_trading.Risk.Safety.{approved-IsSafe}

-- The three actions that the kill switch knows.
abbrev pub IsKnown : KillAction → Type 0
IsKnown (other_action _) = ⊥
IsKnown _ = Unit

module _ {F : Type 0} ⦃fl : Float F⦄ where
  open fl use {le}

  exit_passes :
      (u : Setup F) (v : Services F) (mode : SystemMode) (i : OrderIntent F) (held : ℤ)
      → i.reduce_only ≡ true
      → i.side ≡ sell
      → held_quantity u.config v i ≡ some held
      → i.quantity ≤ℤ held
      → pos 1 ≤ℤ i.quantity
      → i.quantity ≤ℤ u.config.max_order_qty
      → i.order_type ≡ limit
      → le i.price tick ≡ false
      → static_check u.config v mode i ≡ none
  unfolding static_check shape_check exit_check live_entry_check mode_check quantity_check
      stop_check price_check exposure_check
  exit_passes u v mode i held r sd h q one top l p = ground arith

  record_approved :
      (i : OrderIntent F) (rule : Rule) (reason : Text) (mode : SystemMode) (stamp : DecisionStamp)
      (s : Risk F)
      → has_decision stamp.id s.risk_decisions ≡ false
      → has_event stamp.id s.outbox_events ≡ false
      → (record_and_publish i true rule reason mode stamp s).0
        ≡ ok (new_decision i true rule reason mode stamp)
  unfolding record_and_publish
  record_approved i rule reason mode stamp s h e = ground arith

  -- A covered reduce-only LIMIT SELL of a quantity from one up to the limit and with a price above
  -- the tick, which repeats no order of the last second and whose decision id is fresh, is approved
  -- in every system mode, and whatever the session, the feed and the LIVE gate say.
  pub exit_never_trapped :
      (u : Setup F) (v : Services F) (i : OrderIntent F) (now : Time) (stamp : DecisionStamp)
      (s : Risk F) (held : ℤ)
      → i.reduce_only ≡ true
      → i.side ≡ sell
      → held_quantity u.config v i ≡ some held
      → i.quantity ≤ℤ held
      → pos 1 ≤ℤ i.quantity
      → i.quantity ≤ℤ u.config.max_order_qty
      → i.order_type ≡ limit
      → le i.price tick ≡ false
      → is_throttled now (last_seen (u.dup_key i) s.recent_orders) ≡ false
      → has_decision stamp.id s.risk_decisions ≡ false
      → has_event stamp.id s.outbox_events ≡ false
      → (evaluate_intent u v i now stamp s).0
        ≡ ok (
            new_decision i true all_checks_passed
              (u.reason_of all_checks_passed i)
              s.system_mode
              stamp)
  unfolding evaluate_intent throttle
  exit_never_trapped u v i now stamp s held r sd h q one top l p t f e =
      rw (exit_passes u v s.system_mode i held r sd h q one top l p, t)
        (record_approved i all_checks_passed (u.reason_of all_checks_passed i) s.system_mode stamp _
          f e)

  known_action_mode :
      (a : KillAction) (reason by id : Text) (at : Time) (s : Risk F)
      → IsKnown a
      → (trigger_kill_switch a reason by id at s).1.system_mode ≢ normal
  unfolding trigger_kill_switch
  known_action_mode a reason by id at s k = ground arith

  -- After the kill switch was triggered with a known action, no intent but a reduce-only SELL is
  -- approved.
  pub kill_switch_blocks :
      (u : Setup F) (v : Services F) (i : OrderIntent F) (now : Time) (stamp : DecisionStamp)
      (s : Risk F) (a : KillAction) (reason by id : Text) (at : Time) {d : RiskDecision}
      → IsKnown a
      → is_exit i ≡ false
      → (evaluate_intent u v i now stamp (trigger_kill_switch a reason by id at s).1).0 ≡ ok d
      → d.approved ≡ false
  kill_switch_blocks u v i now stamp s a reason by id at {d} k x h = elim (Bool-cases d.approved) [
    | inr e ↦ e
    | inl e ↦
        blocked
          (approved-IsSafe u v i now stamp (trigger_kill_switch a reason by id at s).1 h
            e).0.mode_allows
  ]
    where
      blocked :
          ((trigger_kill_switch a reason by id at s).1.system_mode ≡ normal) ⊎ (is_exit i ≡ true)
          → d.approved ≡ false
      blocked (inl m) = absurd (known_action_mode a reason by id at s k m)
      blocked (inr y) = cc

  same_mode :
      (s : Risk F) (word reason by id : Text) (at : Time)
      → (trigger_kill_switch (other_action word) reason by id at s).1.system_mode ≡ s.system_mode
  unfolding trigger_kill_switch
  same_mode s word reason by id at = ground arith

  same_result :
      (r : Option Rule) (u : Setup F) (i : OrderIntent F) (now : Time) (stamp : DecisionStamp)
      (s : Risk F) (word reason by id : Text) (at : Time)
      → (decide_by r u i now stamp (trigger_kill_switch (other_action word) reason by id at s).1).0
        ≡ (decide_by r u i now stamp s).0
  unfolding trigger_kill_switch throttle record_and_publish
  same_result none u i now stamp s word reason by id at = ground arith
  same_result (some x) u i now stamp s word reason by id at = ground arith

  -- Triggering the kill switch with any other action, under an id that no event has, announces an
  -- enabled kill switch and changes the outcome of no evaluation.
  pub unknown_action_blocks_nothing :
      (u : Setup F) (v : Services F) (i : OrderIntent F) (now : Time) (stamp : DecisionStamp)
      (s : Risk F) (word reason by id : Text) (at : Time)
      → has_switch_event id s.kill_switch_events ≡ false
      → let s' = (trigger_kill_switch (other_action word) reason by id at s).1 in
        (s'.bus ≡ s.bus ++ (audit_event kill_switch_enabled ∷ []))
        × ((evaluate_intent u v i now stamp s').0 ≡ (evaluate_intent u v i now stamp s).0)
  unfolding trigger_kill_switch evaluate_intent
  unknown_action_blocks_nothing u v i now stamp s word reason by id at fresh = (
    rw fresh refl,
    ap
          (λ m.
            (decide_by (static_check u.config v m i) u i now stamp
              (trigger_kill_switch (other_action word) reason by id at s).1).0)
          (same_mode s word reason by id at)
        ∙ same_result (static_check u.config v s.system_mode i) u i now stamp s word reason by id
            at,
  )
