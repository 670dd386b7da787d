-- ===== src/Tests/Values.antt =====
-- Concrete data for the tests: prices are in paise, and every other service answers a constant.
use icici_breeze_api_trading.Prelude.{
  ℕ, zero, suc, ◌/◌, ◌*◌, Bool, true, false, Option, none, some, [], ◌∷◌,
}
use icici_breeze_api_trading.Prelude.Int.{
  ℤ, pos, negsuc, ◌+ℤ◌, ◌-ℤ◌, ◌*ℤ◌, ltb_ℤ, leb_ℤ, eq_ℤ, pos_part,
}
use icici_breeze_api_trading.Prelude.Float.{Float}
use icici_breeze_api_trading.Prelude.Result.{Result, ok}
use icici_breeze_api_trading.Contracts.{
  Text, OrderIntent, RiskDecision, BrokerUpdate, TradingMode, OrderSide, manual, buy, sell, limit,
  options, day, paper, live, normal, all_checks_passed, placed, filled_word,
}
use icici_breeze_api_trading.LiveGate.{LiveGate}
use icici_breeze_api_trading.Oms.Repository.{Stamp}
use icici_breeze_api_trading.Oms.Service.{Oms}
use icici_breeze_api_trading.Risk.Inputs.{RiskConfig, Services, OptionIdentity}
use icici_breeze_api_trading.Risk.Service.{Risk, Setup, DecisionStamp}
use icici_breeze_api_trading.Execution.Requests.{BrokerResponse, ExecutionConfig}
use icici_breeze_api_trading.Execution.Reconcile.{Evidence}
use icici_breeze_api_trading.Execution.Service.{Run}

abbrev hundredth : ℤ → ℤ
hundredth (pos n) = pos (n / 100)
hundredth (negsuc n) = negsuc (n / 100)

abbrev absolute : ℤ → ℤ
absolute (pos n) = pos n
absolute (negsuc n) = pos 0 -ℤ negsuc n

-- m / 10 ^ d in hundredths, for the one or two digits after the point that the code writes.
abbrev hundredths : ℕ → ℕ → ℕ
hundredths m zero = m * 100
hundredths m (suc zero) = m * 10
hundredths m _ = m

instance abbrev pub paise : Float ℤ
paise = record {
  lt = ltb_ℤ;
  le = leb_ℤ;
  eq = eq_ℤ;
  add = ◌+ℤ◌;
  sub = ◌-ℤ◌;
  mul = λ a b. hundredth (a *ℤ b);
  div = λ a b. pos (pos_part a * 100 / pos_part b);
  abs = absolute;
  round = λ a _. a;
  of_int = λ n. n *ℤ pos 100;
  floor = hundredth;
  literal = λ m d. pos (hundredths m d);
}

abbrev pub intent_of : Text → OrderSide → TradingMode → Bool → OrderIntent ℤ
intent_of id side mode reduce_only = record {
  intent_id = id;
  correlation_id = 21;
  strategy_instance_id = none;
  source = manual;
  instrument_id = 31;
  symbol = 32;
  side = side;
  order_type = limit;
  quantity = pos 50;
  price = pos 10000;
  trigger_price = none;
  product = options;
  time_in_force = day;
  trading_mode = mode;
  reduce_only = reduce_only;
  created_at = 1000;
}

abbrev pub live_buy : OrderIntent ℤ
live_buy = intent_of 1 buy live false

abbrev pub paper_exit : OrderIntent ℤ
paper_exit = intent_of 2 sell paper true

abbrev pub stamp : Text → Stamp
stamp n = record { id = n; now = 2000 }

abbrev pub empty_oms : Oms ℤ
empty_oms = record {
  repo = record { order_intents = []; broker_orders = []; order_events = []; outbox_events = [] };
  bus = [];
}

abbrev pub closed_gate : LiveGate
closed_gate = record {
  configured_enabled = true;
  local_single_user_mode = false;
  authorized = false;
  expires_at = none;
  allowed_accounts = 41 ∷ [];
  pending_challenges = [];
  audit = [];
}

abbrev pub open_gate : LiveGate
open_gate = record closed_gate { authorized = true; expires_at = some (pos 9000000000) }

abbrev pub option_of : Text → Option (OptionIdentity ℤ)
option_of id = some (record { underlying = 51; expiry = 52; strike = pos 2500000; is_call = true })

abbrev pub execution_config : ExecutionConfig ℤ
execution_config = record {
  is_breeze = true;
  live_account_id = 41;
  option_identity = option_of;
  underscored = λ t. t;
}

abbrev pub run_with : LiveGate → Text → Result (BrokerResponse ℤ) → Run ℤ
run_with gate id answer = record {
  session_connected = some true;
  feed_healthy = some true;
  live_gate = gate;
  gate_now = 3000;
  stamp = stamp id;
  answer = answer;
  health_text = 61;
  gate_text = 62;
  identity_text = 63;
  failure_text = 64;
}

abbrev pub accepted : Result (BrokerResponse ℤ)
accepted = ok (record {
  broker_order_id = some 71;
  status = placed;
  filled_quantity = pos 0;
  average_price = pos 0;
  message = none;
})

abbrev pub approval : RiskDecision
approval = record {
  decision_id = 81;
  intent_id = 1;
  approved = true;
  rule_name = all_checks_passed;
  reason = 82;
  system_mode = normal;
  evaluated_at = 2500;
}

abbrev pub full_fill : BrokerUpdate ℤ
full_fill = record {
  client_order_id = 91;
  broker_order_id = some 71;
  status = filled_word;
  filled_quantity = pos 50;
  average_price = pos 9950;
  message = none;
}

abbrev pub risk_config : RiskConfig ℤ
risk_config = record {
  max_order_qty = pos 100;
  live_account_id = 41;
  live_max_order_notional = pos 1000000;
  live_max_open_positions = pos 5;
  option_identity = option_of;
  upper = λ t. t;
}

abbrev pub risk_setup : Setup ℤ
risk_setup = record { config = risk_config; dup_key = λ i. i.instrument_id; reason_of = λ _ _. 95 }

-- The broker reports no position and enough funds; the portfolio holds fifty.
abbrev pub services : Services ℤ
services = record {
  broker_gateway =
      some
        (record { is_breeze = false; positions = some []; available_margin = some (pos 2000000) });
  portfolio = some (λ _. some (pos 50));
  session_connected = some true;
  feed_healthy = some true;
  live_gate = open_gate;
  gate_now = 3000;
}

abbrev pub fresh_risk : Risk ℤ
fresh_risk = record {
  system_mode = normal;
  risk_decisions = [];
  kill_switch_events = [];
  outbox_events = [];
  recent_orders = [];
  bus = [];
}

abbrev pub decision_stamp : DecisionStamp
decision_stamp = record { id = 96; now = 2500 }

-- The broker has no evidence, and the portfolio has executed a constant quantity.
abbrev pub evidence_of : ℤ → Evidence ℤ
evidence_of executed = record {
  executed = λ _. executed;
  get_order_status = λ _. ok none;
  find_order_by_client_id = λ _. ok none;
  get_trades = ok [];
  recovered_text = 65;
  reconciliation_text = 66;
}
