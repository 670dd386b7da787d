-- ===== src/Tests/Limits.antt =====
-- Risk evaluations, the last checks before the broker, and idempotency keys.
use icici_breeze_api_trading.Prelude.{arith}
use icici_breeze_api_trading.Prelude.{
  keep, ℕ, ◌+◌, ◌==◌, if◌then◌else◌, ◌≡◌, refl, ◌++◌, true, false, none, some, List, [], ◌∷◌,
  length, All,
}
use icici_breeze_api_trading.Prelude.Int.{ℤ, pos, ◌*ℤ◌, ◌-ℤ◌}
use icici_breeze_api_trading.Prelude.Result.{Result, ok, err, other_error}
use icici_breeze_api_trading.Contracts.{
  BrokerOrder, Message, OrderState, RiskDecision, risk_decision, all_checks_passed, system_halted,
  normal, halted, broker_order_event, failed_safe_word, approved, submitting, filled, audit_event,
  kill_switch_enabled,
}
use icici_breeze_api_trading.Oms.Repository.{get_order_by_id}
use icici_breeze_api_trading.Oms.Service.{Oms, new_order}
use icici_breeze_api_trading.Risk.Service.{
  Risk, evaluate_intent, new_decision, trigger_kill_switch, other_action, halt,
  handle_order_intent_event, publish_decision, decides,
}
use icici_breeze_api_trading.Risk.Limits.{IsSafe}
use icici_breeze_api_trading.Risk.Safety.{IsUnrepeated, approved-IsSafe}
use icici_breeze_api_trading.Risk.Modes.{
  exit_never_trapped, kill_switch_blocks, unknown_action_blocks_nothing,
}
use icici_breeze_api_trading.Risk.Once.{IsUnique, handle_order_intent_event-IsUnique}
use icici_breeze_api_trading.Risk.Checks.{held_quantity}
use icici_breeze_api_trading.Execution.Requests.{build_broker_request}
use icici_breeze_api_trading.Execution.Service.{
  Execution, execute_order, reserve_and_submit, own_update,
}
use icici_breeze_api_trading.Risk.Decided.{decided_once}
use icici_breeze_api_trading.Execution.Single.{submissions}
use icici_breeze_api_trading.Execution.Guards.{unsafe_order_fails_safe, reserved_order_sent_again}
use icici_breeze_api_trading.Execution.Reconcile.{Evidence, reconcile_live_orders}
use icici_breeze_api_trading.Execution.Fills.{IsExactFill, reconcile_live_orders-exact}
use icici_breeze_api_trading.LiveGate.{validate_live_order}
use icici_breeze_api_trading.Idempotency.{
  Request, Gateway, Web, response, raised, claimed, claim_or_get, execute_keyed,
}
use icici_breeze_api_trading.Idempotency.Runs.{Op, execute, cleanup, run_all}
use icici_breeze_api_trading.Idempotency.Replay.{
  executed_once, failure_releases_key, late_failure_runs_again,
}
use icici_breeze_api_trading.Tests.Values.{
  evidence_of, paise, live_buy, paper_exit, empty_oms, open_gate, closed_gate, execution_config,
  run_with, accepted, risk_config, risk_setup, services, fresh_risk, decision_stamp,
}

approved-IsSafe_example :
    IsSafe risk_config services normal live_buy
    × IsUnrepeated risk_setup live_buy 5000000 fresh_risk
unfolding evaluate_intent validate_live_order ◌*ℤ◌
approved-IsSafe_example =
    approved-IsSafe risk_setup services live_buy 5000000 decision_stamp fresh_risk
      {d = new_decision live_buy true all_checks_passed 95 normal decision_stamp} refl refl

exit_never_trapped_example :
    (evaluate_intent risk_setup services paper_exit 5000000 decision_stamp
      (trigger_kill_switch halt 1 2 3 4 fresh_risk).1).0
    ≡ ok (
        new_decision paper_exit true all_checks_passed 95
          (trigger_kill_switch halt 1 2 3 4 fresh_risk).1.system_mode
          decision_stamp)
unfolding held_quantity trigger_kill_switch
exit_never_trapped_example =
    exit_never_trapped risk_setup services paper_exit 5000000 decision_stamp
      (trigger_kill_switch halt 1 2 3 4 fresh_risk).1 (pos 50) refl refl refl (omega arith)
      (omega arith) (omega arith) refl refl refl refl refl

kill_switch_blocks_example :
    (new_decision live_buy false system_halted 95 halted decision_stamp).approved ≡ false
unfolding evaluate_intent trigger_kill_switch validate_live_order
kill_switch_blocks_example =
    kill_switch_blocks risk_setup services live_buy 5000000 decision_stamp fresh_risk halt 1 2 3 4
      {d = new_decision live_buy false system_halted 95 halted decision_stamp} tt refl refl

unknown_action_blocks_nothing_example :
    let s = (trigger_kill_switch (other_action 9) 1 2 3 4 fresh_risk).1 in
    (s.bus ≡ fresh_risk.bus ++ (audit_event kill_switch_enabled ∷ []))
    × ((evaluate_intent risk_setup services live_buy 5000000 decision_stamp s).0
        ≡ (evaluate_intent risk_setup services live_buy 5000000 decision_stamp fresh_risk).0)
unknown_action_blocks_nothing_example =
    unknown_action_blocks_nothing risk_setup services live_buy 5000000 decision_stamp fresh_risk 9 1
      2 3 4 refl

abbrev decided : Risk ℤ
decided =
    (handle_order_intent_event risk_setup services live_buy 5000000 decision_stamp fresh_risk).1

handle_order_intent_event-IsUnique_example : IsUnique decided.risk_decisions
handle_order_intent_event-IsUnique_example =
    handle_order_intent_event-IsUnique risk_setup services live_buy 5000000 decision_stamp
      fresh_risk (λ _. omega arith)

decided_once_example :
    (d : RiskDecision) × (decided.bus ≡ fresh_risk.bus ++ (risk_decision d ∷ []))
    × (keep (decides live_buy.intent_id) decided.risk_decisions ≡ d ∷ [])
    × (handle_order_intent_event risk_setup services live_buy 6000000 decision_stamp decided
        ≡ (ok tt, publish_decision d decided))
unfolding handle_order_intent_event validate_live_order ◌*ℤ◌
decided_once_example =
    decided_once risk_setup risk_setup services services live_buy live_buy 5000000 6000000
      decision_stamp decision_stamp fresh_risk (λ _. omega arith) refl refl

-- An order of `live_buy` in a given state.
abbrev order_in : OrderState → BrokerOrder ℤ
order_in state = record (new_order live_buy (pos 0) 1 91 1500) { status = state }

abbrev oms_with : OrderState → Oms ℤ
oms_with state = record empty_oms {
  repo = record empty_oms.repo { broker_orders = order_in state ∷ [] };
}

abbrev ready : OrderState → Execution ℤ
ready state = record { oms = oms_with state; processed = []; placed = [] }

unsafe_order_fails_safe_example :
    let after =
      (execute_order execution_config (run_with closed_gate 15 accepted) 1 (ready approved)).1 in
    (after.placed ≡ [])
    × (after.oms.repo ≡ (oms_with approved).repo)
    × ((text : ℕ) × (after.oms.bus
          ≡ [] ++ (broker_order_event (own_update failed_safe_word text (order_in approved)) ∷ [])))
unfolding get_order_by_id validate_live_order
unsafe_order_fails_safe_example =
    unsafe_order_fails_safe execution_config (run_with closed_gate 15 accepted) 1 (ready approved)
      (order_in approved) refl refl refl refl

reserved_order_sent_again_example :
    submissions 1
      (reserve_and_submit execution_config
        (run_with open_gate 16 accepted)
        1
        (ready submitting)).1.placed
    ≡ 1
unfolding get_order_by_id build_broker_request
reserved_order_sent_again_example =
    reserved_order_sent_again execution_config (run_with open_gate 16 accepted) 1 (ready submitting)
      (order_in submitting) _ refl refl refl

-- The portfolio has executed twenty of the fifty that the order has filled.
abbrev evidence : Evidence ℤ
evidence = evidence_of (pos 20)

abbrev filled_oms : Oms ℤ
filled_oms = record empty_oms {
  repo = record empty_oms.repo {
    broker_orders = record (order_in filled) { filled_quantity = pos 50 } ∷ [];
  };
}

reconcile_live_orders-exact_example :
    (ms : List (Message ℤ)) × ((reconcile_live_orders execution_config evidence filled_oms).1.bus
      ≡ [] ++ ms)
    × ((reconcile_live_orders execution_config evidence filled_oms).1.repo ≡ filled_oms.repo)
    × All (IsExactFill evidence) ms
reconcile_live_orders-exact_example =
    reconcile_live_orders-exact execution_config evidence filled_oms

filled_oms_bus : length (reconcile_live_orders execution_config evidence filled_oms).1.bus ≡ 1
unfolding reconcile_live_orders ◌-ℤ◌
filled_oms_bus = refl

abbrev request : Request
request = record {
  idempotency_key = some 7;
  user_id = 8;
  path = 9;
  request_hash = 10;
  ttl_microseconds = 1000;
}

abbrev gateway : Gateway ℕ ℕ
gateway = record { records = []; audit = []; world = 3 }

abbrev count_up : ℕ → Result ℕ × ℕ
count_up n = (ok n, 4)

abbrev other_request : Request
other_request = record request { request_hash = 11 }

-- Counts its executions, and answers seven.
abbrev answer_seven : ℕ → Result ℕ × ℕ
answer_seven n = (ok 7, n + 1)

abbrev fail_up : ℕ → Result ℕ × ℕ
fail_up n = (err other_error, 4)

-- A body is the number itself, and seven cannot be rendered.
abbrev web : Web ℕ ℕ
web = record {
  encode = λ n. ok n;
  dump = λ n. ok tt;
  render = λ b. elim b [ none ↦ ok tt | some n ↦ if n == 7 then err other_error else ok tt ];
}

abbrev between : List (Op ℕ ℕ)
between =
    execute 6 request 520 fail_up ∷ (execute 7 other_request 540 count_up ∷ (cleanup 560 ∷ []))

abbrev done_once : Gateway ℕ ℕ
done_once =
    run_all web (λ _. true) between (execute_keyed web (λ _. true) 7 request 500 count_up gateway).1

executed_once_example :
    execute_keyed web (λ _. true) 7 request 600 count_up done_once
    ≡ (response 200 (some 3) true, done_once)
unfolding claim_or_get
executed_once_example =
    executed_once web (λ _. true) 7 request request 500 600 count_up count_up between gateway refl
      refl refl refl refl refl refl (omega arith, (omega arith, (omega arith, tt))) (omega arith)

failure_releases_key_example :
    ((execute_keyed web (λ _. true) 7 request 500 fail_up gateway).0 ≡ raised other_error)
    × ((claim_or_get 7 request 600
          (execute_keyed web (λ _. true) 7 request 500 fail_up gateway).1.records).0
        ≡ claimed)
unfolding claim_or_get
failure_releases_key_example =
    failure_releases_key web (λ _. true) 7 request request 500 600 fail_up gateway refl refl refl

late_failure_runs_again_example :
    let (reply, g) = execute_keyed web (λ _. true) 7 request 500 answer_seven gateway in
    (reply ≡ raised other_error)
    × ((execute_keyed web (λ _. true) 7 request 600 answer_seven g).1.world ≡ 5)
unfolding claim_or_get
late_failure_runs_again_example =
    late_failure_runs_again web (λ _. true) 7 request request 500 600 answer_seven answer_seven
      gateway refl refl refl refl refl refl
