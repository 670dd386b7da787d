-- ===== src/Tests/Processing.antt =====
-- One live order through services/oms and services/execution.
use icici_breeze_api_trading.Prelude.{◌≤◌, ◌≡◌, refl, some, []}
use icici_breeze_api_trading.Prelude.Int.{ℤ}
use icici_breeze_api_trading.Oms.StateMachine.{can_transition}
use icici_breeze_api_trading.Oms.Repository.{get_order_by_id}
use icici_breeze_api_trading.Oms.Service.{
  Oms, create_order_intent, handle_risk_decision_event, mark_order_submitting,
}
use icici_breeze_api_trading.Oms.BrokerUpdates.{handle_broker_order_event}
use icici_breeze_api_trading.Oms.Journal.{IsAudited}
use icici_breeze_api_trading.Oms.Audit.{
  create_order_intent-IsAudited, handle_risk_decision_event-IsAudited,
  mark_order_submitting-IsAudited, handle_broker_order_event-IsAudited,
}
use icici_breeze_api_trading.Oms.Past.{state_in}
use icici_breeze_api_trading.Contracts.{approved, validating, filled}
use icici_breeze_api_trading.Execution.Service.{Execution, on_oms, execute_order}
use icici_breeze_api_trading.Execution.Single.{submissions}
use icici_breeze_api_trading.Execution.Steps.{Step, Steps, at_most_one_submission}
use icici_breeze_api_trading.Tests.Values.{
  paise, live_buy, stamp, empty_oms, open_gate, execution_config, run_with, accepted, approval,
  full_fill,
}

empty-IsAudited : IsAudited empty_oms.repo
empty-IsAudited = record { keyed = tt; agrees = (λ _. refl, tt) }

abbrev pub one_order : Oms ℤ
one_order = (create_order_intent live_buy 91 1 1500 11 (stamp 12) (stamp 13) empty_oms).1

abbrev pub approved_order : Oms ℤ
approved_order = (handle_risk_decision_event approval (stamp 14) one_order).1

abbrev pub reserved_order : Oms ℤ
reserved_order = (mark_order_submitting 1 (stamp 15) approved_order).1

one_order_state : state_in 1 one_order ≡ some validating
unfolding create_order_intent can_transition
one_order_state = refl

approved_order_state : state_in 1 approved_order ≡ some approved
unfolding create_order_intent handle_risk_decision_event can_transition
approved_order_state = refl

filled_order_state :
    state_in 1 (handle_broker_order_event full_fill (stamp 16) reserved_order).1 ≡ some filled
unfolding create_order_intent handle_risk_decision_event mark_order_submitting
    handle_broker_order_event can_transition
filled_order_state = refl

create_order_intent-IsAudited_example : IsAudited one_order.repo
unfolding get_order_by_id
create_order_intent-IsAudited_example =
    create_order_intent-IsAudited live_buy 91 1 1500 11 (stamp 12) (stamp 13) empty_oms
      empty-IsAudited refl

one_order-IsAudited : IsAudited one_order.repo
unfolding get_order_by_id
one_order-IsAudited =
    create_order_intent-IsAudited live_buy 91 1 1500 11 (stamp 12) (stamp 13) empty_oms
      empty-IsAudited refl

approved_order-IsAudited : IsAudited approved_order.repo
approved_order-IsAudited =
    handle_risk_decision_event-IsAudited approval (stamp 14) one_order one_order-IsAudited

pub reserved_order-IsAudited : IsAudited reserved_order.repo
reserved_order-IsAudited =
    mark_order_submitting-IsAudited 1 (stamp 15) approved_order approved_order-IsAudited

handle_risk_decision_event-IsAudited_example : IsAudited approved_order.repo
handle_risk_decision_event-IsAudited_example =
    handle_risk_decision_event-IsAudited approval (stamp 14) one_order one_order-IsAudited

mark_order_submitting-IsAudited_example : IsAudited reserved_order.repo
mark_order_submitting-IsAudited_example =
    mark_order_submitting-IsAudited 1 (stamp 15) approved_order approved_order-IsAudited

handle_broker_order_event-IsAudited_example :
    IsAudited (handle_broker_order_event full_fill (stamp 16) reserved_order).1.repo
handle_broker_order_event-IsAudited_example =
    handle_broker_order_event-IsAudited full_fill (stamp 16) reserved_order reserved_order-IsAudited

abbrev nothing_sent : Execution ℤ
nothing_sent = record { oms = empty_oms; processed = []; placed = [] }

abbrev created_run : Execution ℤ
created_run =
    (on_oms (create_order_intent live_buy 91 1 1500 11 (stamp 12) (stamp 13)) nothing_sent).1

abbrev approved_run : Execution ℤ
approved_run = (on_oms (handle_risk_decision_event approval (stamp 14)) created_run).1

abbrev sent_run : Execution ℤ
sent_run = (execute_order execution_config (run_with open_gate 15 accepted) 1 approved_run).1

abbrev sent_twice : Execution ℤ
sent_twice = (execute_order execution_config (run_with open_gate 16 accepted) 1 sent_run).1

two_runs : Steps execution_config nothing_sent sent_twice
unfolding get_order_by_id
two_runs = Steps.next (Step.intent live_buy 91 1 1500 11 (stamp 12) (stamp 13) refl) (
    Steps.next (Step.decision approval (stamp 14)) (
      Steps.next (Step.direct (run_with open_gate 15 accepted) 1)
        (Steps.next (Step.direct (run_with open_gate 16 accepted) 1) Steps.start)))

sent_twice_placed : submissions 1 sent_twice.placed ≡ 1
unfolding create_order_intent handle_risk_decision_event execute_order can_transition
sent_twice_placed = refl

at_most_one_submission_example : submissions 1 sent_twice.placed ≤ 1
at_most_one_submission_example = at_most_one_submission 1 two_runs empty-IsAudited refl
