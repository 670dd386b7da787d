-- ===== src/Tests/Positions.antt =====
-- Fills of the portfolio, an order in a final state, and the outbox of the OMS.
use icici_breeze_api_trading.Prelude.{ℕ, ◌≡◌, refl, Bool, false, none, some, List, []}
use icici_breeze_api_trading.Prelude.{◌++◌, map, any, find}
use icici_breeze_api_trading.Outbox.{OutboxRow, relay}
use icici_breeze_api_trading.Outbox.Pending.{IsOldestPending}
use icici_breeze_api_trading.Outbox.Relay.{is_event, marked_if, relay_lem}
use icici_breeze_api_trading.Prelude.Int.{ℤ, pos, ◌+ℤ◌, ◌-ℤ◌}
use icici_breeze_api_trading.Prelude.Result.{ok}
use icici_breeze_api_trading.Contracts.{
  TradeFill, Message, BrokerUpdate, buy, live, filled, rejected_word,
}
use icici_breeze_api_trading.Oms.Service.{
  Oms, create_order_intent, handle_risk_decision_event, mark_order_submitting,
}
use icici_breeze_api_trading.Oms.StateMachine.{can_transition}
use icici_breeze_api_trading.Oms.Audit.{handle_broker_order_event-IsAudited}
use icici_breeze_api_trading.Oms.BrokerUpdates.{handle_broker_order_event}
use icici_breeze_api_trading.Oms.Journal.{IsAudited}
use icici_breeze_api_trading.Oms.Past.{state_in}
use icici_breeze_api_trading.Oms.Final.{OmsStep, OmsSteps, final_state_stays}
use icici_breeze_api_trading.Portfolio.Repository.{
  FillExecution, Position, PortfolioDb, apply_execution_atomic, get_executed_quantity_for_order,
  position_after,
}
use icici_breeze_api_trading.Portfolio.Service.{execution_of}
use icici_breeze_api_trading.Portfolio.Balance.{IsBalanced, apply_execution_atomic-IsBalanced}
use icici_breeze_api_trading.Portfolio.Progress.{
  apply_execution_atomic-replay, applied_fill_closes_gap,
}
use icici_breeze_api_trading.Tests.Values.{paise, full_fill, stamp, evidence_of}
use icici_breeze_api_trading.Tests.Processing.{reserved_order, reserved_order-IsAudited}

abbrev fifty : TradeFill ℤ
fifty = record {
  order_id = 1;
  client_order_id = 91;
  instrument_id = 31;
  symbol = 32;
  side = buy;
  quantity = pos 50;
  cumulative_filled_quantity = pos 50;
  price = pos 9950;
  trading_mode = live;
}

abbrev no_positions : PortfolioDb ℤ
no_positions = record { executions = []; positions = []; pnl_snapshots = [] }

abbrev held : PortfolioDb ℤ
held = (apply_execution_atomic (execution_of fifty) live (pos 10000) 5 2000 no_positions).1

no_positions-IsBalanced : IsBalanced no_positions
unfolding ◌-ℤ◌
no_positions-IsBalanced = record { sides = no_sides; net = λ _. refl }
  where
    no_sides : (side : Bool) (k : ℕ) → pos 0 ≡ pos 0
    no_sides side k = refl

apply_execution_atomic-IsBalanced_example : IsBalanced held
apply_execution_atomic-IsBalanced_example =
    apply_execution_atomic-IsBalanced (execution_of fifty) live (pos 10000) 5 2000 no_positions
      no_positions-IsBalanced

-- The same fill, with another quantity and price.
abbrev delivered_again : FillExecution ℤ
delivered_again = record (execution_of fifty) { quantity = pos 60; price = pos 9900 }

apply_execution_atomic-replay_example :
    (q : Position ℤ) × (apply_execution_atomic delivered_again live (pos 12000) 6 3000 held
      ≡ (ok (q, false), held))
unfolding apply_execution_atomic
apply_execution_atomic-replay_example =
    apply_execution_atomic-replay (execution_of fifty) delivered_again live live (pos 10000)
      (pos 12000) 5 6 2000 3000 no_positions
      {p = position_after (execution_of fifty) live (pos 10000) 5 2000 none}
      (record { same_order = refl; same_cumulative = refl; same_instrument = refl }) refl

applied_fill_closes_gap_example : get_executed_quantity_for_order 1 held ≡ pos 50
unfolding apply_execution_atomic get_executed_quantity_for_order ◌+ℤ◌
applied_fill_closes_gap_example =
    applied_fill_closes_gap (evidence_of (pos 0)) fifty (pos 10000) 5 2000 no_positions
      {p = position_after (execution_of fifty) live (pos 10000) 5 2000 none} (refl, refl) refl refl

abbrev filled_order : Oms ℤ
filled_order = (handle_broker_order_event full_fill (stamp 16) reserved_order).1

filled_order_state : state_in 1 filled_order ≡ some filled
unfolding create_order_intent handle_risk_decision_event mark_order_submitting can_transition
    handle_broker_order_event
filled_order_state = refl

filled_order-IsAudited : IsAudited filled_order.repo
filled_order-IsAudited =
    handle_broker_order_event-IsAudited full_fill (stamp 16) reserved_order reserved_order-IsAudited

-- A late rejection.
abbrev rejection : BrokerUpdate ℤ
rejection = record full_fill { status = rejected_word; filled_quantity = pos 0 }

abbrev after_rejection : Oms ℤ
after_rejection = (handle_broker_order_event rejection (stamp 17) filled_order).1

final_state_stays_example :
    (state_in 1 after_rejection ≡ some filled) × IsAudited after_rejection.repo
final_state_stays_example =
    final_state_stays 1 filled (OmsSteps.next (OmsStep.update rejection (stamp 17)) OmsSteps.start)
      filled_order-IsAudited refl filled_order_state

-- The rows that the handlers have queued for the order.
relay_lem_example :
    let rows = filled_order.repo.outbox_events in
    (read : List (OutboxRow (Message ℤ))) × IsOldestPending 20 rows read
    × ((relay 5000 (rows, [])).1 ≡ [] ++ map (λ r. r.payload) read)
    × ((id : ℕ)
        → find (is_event id) (relay 5000 (rows, [])).0
          ≡ marked_if (any (is_event id) read) 5000 (find (is_event id) rows))
relay_lem_example = relay_lem 5000 filled_order.repo.outbox_events []
