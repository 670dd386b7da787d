-- ===== src/Risk/Service.antt =====
-- services/risk/service.py and repository.py: an intent is evaluated once, its decision is recorded
-- with an outbox row in one transaction, and published.
use icici_breeze_api_trading.Prelude.{
  ◌+◌, Bool, true, false, Option, none, some, List, [], ◌∷◌, ◌++◌, ltb, leb, ◌==◌, if◌then◌else◌,
  any, keep, order_by,
}
use icici_breeze_api_trading.Prelude.Float.{Float}
use icici_breeze_api_trading.Prelude.Result.{Result, ok, err, integrity, raise_if, ◌>>=◌, ◌>>◌}
use icici_breeze_api_trading.Contracts.{
  Text, Time, SystemMode, OrderIntent, Rule, RiskDecision, Message, entry_blocked, exit_only,
  halted, risk_decision, audit_event, kill_switch_enabled, system_mode_changed, all_checks_passed,
  duplicate_order_throttle,
}
use icici_breeze_api_trading.Outbox.{OutboxRow, add_outbox_event}
use icici_breeze_api_trading.Risk.Inputs.{RiskConfig, Services}
use icici_breeze_api_trading.Risk.Checks.{static_check}

-- `action` of the kill switch: the three known words, or any other text.
pub data KillAction : Type 0 where
  block_entries halt exit_only_action : KillAction
  other_action : Text → KillAction

pub record KillSwitchEvent : Type 0 where
  pub event_id : Text
  pub action : KillAction
  pub reason : Text
  pub activated_by : Text
  pub activated_at : Time

-- The tables of risk.db, the throttle's memory and what was published.
pub record Risk (F : Type 0) : Type 0 where
  pub system_mode : SystemMode
  pub risk_decisions : List RiskDecision
  pub kill_switch_events : List KillSwitchEvent
  pub outbox_events : List (OutboxRow (Message F))
  pub recent_orders : List (Text × Time)
  pub bus : List (Message F)

-- The dictionary of recent orders.
abbrev pub last_seen : Text → List (Text × Time) → Option Time
last_seen k [] = none
last_seen k ((j, t) ∷ d) = if j == k then some t else last_seen k d

abbrev pub put_seen : Text → Time → List (Text × Time) → List (Text × Time)
put_seen k t [] = (k, t) ∷ []
put_seen k t ((j, u) ∷ d) = if j == k then (k, t) ∷ d else (j, u) ∷ put_seen k t d

-- Less than one second ago, also where the clock went back.
abbrev pub is_throttled : Time → Option Time → Bool
is_throttled now none = false
is_throttled now (some t) = ltb now (t + 1000000)

abbrev pub decides : Text → RiskDecision → Bool
decides id d = d.intent_id == id

abbrev pub later : RiskDecision → RiskDecision → Bool
later a b = leb b.evaluated_at a.evaluated_at

abbrev pub head : List RiskDecision → Option RiskDecision
head [] = none
head (d ∷ _) = some d

abbrev pub has_decision : Text → List RiskDecision → Bool
has_decision id = any (λ d. d.decision_id == id)

abbrev pub has_switch_event : Text → List KillSwitchEvent → Bool
has_switch_event id = any (λ e. e.event_id == id)

abbrev mode_of : KillAction → SystemMode → SystemMode
mode_of block_entries mode = entry_blocked
mode_of halt mode = halted
mode_of exit_only_action mode = exit_only
mode_of (other_action _) mode = mode

abbrev pub drop_value : Result RiskDecision → Result (Unit {0})
drop_value (ok _) = ok tt
drop_value (err e) = err e

-- What a call generates: the id and the instant of its decision.
pub record DecisionStamp : Type 0 where
  pub id : Text
  pub now : Time

module _ {F : Type 0} where
  -- `ORDER BY evaluated_at DESC LIMIT 1`
  unfoldable pub get_decision_by_intent : Text → Risk F → Option RiskDecision
  get_decision_by_intent id s = head (order_by later (keep (decides id) s.risk_decisions))

  -- `save_decision` with the topic of risk decisions: the decision and its outbox row, or neither.
  unfoldable pub save_decision : RiskDecision → Risk F → Result (Risk F)
  unfolding add_outbox_event
  save_decision d s = do
    raise_if (has_decision d.decision_id s.risk_decisions) integrity
    rows ← add_outbox_event d.decision_id (risk_decision d) d.evaluated_at s.outbox_events
    ok (record s { risk_decisions = s.risk_decisions ++ (d ∷ []); outbox_events = rows })

  abbrev pub publish_decision : RiskDecision → Risk F → Risk F
  publish_decision d s = record s { bus = s.bus ++ (risk_decision d ∷ []) }

  abbrev publish_saved : RiskDecision → Risk F → Result (Risk F) → Result RiskDecision × Risk F
  publish_saved d s (err e) = (err e, s)
  publish_saved d s (ok s') = (ok d, publish_decision d s')

  abbrev pub new_decision :
      OrderIntent F → Bool → Rule → Text → SystemMode → DecisionStamp → RiskDecision
  new_decision i approved rule reason mode stamp = record {
    decision_id = stamp.id;
    intent_id = i.intent_id;
    approved = approved;
    rule_name = rule;
    reason = reason;
    system_mode = mode;
    evaluated_at = stamp.now;
  }

  -- `_record_and_publish`
  unfoldable pub record_and_publish :
      OrderIntent F
      → Bool
      → Rule
      → Text
      → SystemMode
      → DecisionStamp
      → Risk F
      → Result RiskDecision × Risk F
  unfolding save_decision
  record_and_publish i approved rule reason mode stamp s =
      let d = new_decision i approved rule reason mode stamp in
      publish_saved d s (save_decision d s)

  -- The mode is written first, and only for a known action; the rest is done for any. `event_id` is
  -- the primary key of the events: a second insert of it raises after that.
  unfoldable pub trigger_kill_switch :
      KillAction → Text → Text → Text → Time → Risk F → Result Text × Risk F
  trigger_kill_switch action reason by id now s =
      if has_switch_event id s.kill_switch_events
      then (err integrity, record s { system_mode = mode_of action s.system_mode })
      else (
        ok id,
        record s {
          system_mode = mode_of action s.system_mode;
          kill_switch_events = s.kill_switch_events ++ (event ∷ []);
          bus = s.bus ++ (audit_event kill_switch_enabled ∷ []);
        },
      )
    where
      event : KillSwitchEvent
      event = record {
        event_id = id;
        action = action;
        reason = reason;
        activated_by = by;
        activated_at = now;
      }

  unfoldable pub set_system_mode : SystemMode → Risk F → Risk F
  set_system_mode mode s = record s {
    system_mode = mode;
    bus = s.bus ++ (audit_event system_mode_changed ∷ []);
  }

-- What the service is built with: its configuration, and how Python renders the key of the throttle
-- and the text of a reason.
pub record Setup (F : Type 0) : Type 0 where
  pub config : RiskConfig F
  pub dup_key : OrderIntent F → Text
  pub reason_of : Rule → OrderIntent F → Text

module _ {F : Type 0} ⦃fl : Float F⦄ where
  -- The throttle, and the approval.
  unfoldable pub throttle :
      Setup F → OrderIntent F → Time → DecisionStamp → Risk F → Result RiskDecision × Risk F
  unfolding record_and_publish
  throttle u i now stamp s =
      if is_throttled now (last_seen (u.dup_key i) s.recent_orders)
      then record_and_publish i false duplicate_order_throttle
          (u.reason_of duplicate_order_throttle i) s.system_mode stamp s
      else record_and_publish i true all_checks_passed (u.reason_of all_checks_passed i)
          s.system_mode stamp
          (record s { recent_orders = put_seen (u.dup_key i) now s.recent_orders })

  abbrev pub decide_by :
      Option Rule
      → Setup F
      → OrderIntent F
      → Time
      → DecisionStamp
      → Risk F
      → Result RiskDecision × Risk F
  decide_by none u i now stamp s = throttle u i now stamp s
  decide_by (some rule) u i now stamp s =
      record_and_publish i false rule (u.reason_of rule i) s.system_mode stamp s

  unfoldable pub evaluate_intent :
      Setup F
      → Services F
      → OrderIntent F
      → Time
      → DecisionStamp
      → Risk F
      → Result RiskDecision × Risk F
  unfolding static_check throttle
  evaluate_intent u v i now stamp s =
      decide_by (static_check u.config v s.system_mode i) u i now stamp s

  abbrev pub reuse_or_evaluate :
      Option RiskDecision
      → Setup F
      → Services F
      → OrderIntent F
      → Time
      → DecisionStamp
      → Risk F
      → Result (Unit {0}) × Risk F
  reuse_or_evaluate (some d) u v i now stamp s = (ok tt, publish_decision d s)
  reuse_or_evaluate none u v i now stamp s =
      let (r, s') = evaluate_intent u v i now stamp s in (drop_value r, s')

  -- `_handle_order_intent_event`
  unfoldable pub handle_order_intent_event :
      Setup F
      → Services F
      → OrderIntent F
      → Time
      → DecisionStamp
      → Risk F
      → Result (Unit {0}) × Risk F
  unfolding get_decision_by_intent evaluate_intent
  handle_order_intent_event u v i now stamp s =
      reuse_or_evaluate (get_decision_by_intent i.intent_id s) u v i now stamp s
