-- ===== src/Contracts/Messages.antt =====
-- What the services publish on the event bus, by topic. The envelope around a message (its id, its
-- correlation id and its instant) is read by no handler and is left out.
use icici_breeze_api_trading.Prelude.{Bool, Option}
use icici_breeze_api_trading.Prelude.Int.{ℤ}
use icici_breeze_api_trading.Contracts.Enums.{Text, Time, TradingMode, OrderSide, SystemMode}
use icici_breeze_api_trading.Contracts.Models.{OrderIntent, BrokerOrder}

-- The words that a broker's status may be, after `.upper()`; `partially_spaced` and
-- `partially_hyphened` are "PARTIALLY FILLED" and "PARTIALLY-FILLED", `failed_safe_hyphened` is
-- "FAILED-SAFE".
pub data StatusWord : Type 0 where
  filled_word complete completed : StatusWord
  partial partially_filled_word partially_spaced partially_hyphened : StatusWord
  open_word placed cancelled_word rejected_word expired_word failed_safe_word failed_safe_hyphened
        unknown :
      StatusWord
  other_word : Text → StatusWord

-- The rules that a risk decision names.
pub data Rule : Type 0 where
  invalid_reduce_only live_naked_sell_disabled reduce_only_position_unverified : Rule
  reduce_only_quantity_exceeded : Rule
  live_broker_session_unverified live_broker_session_disconnected : Rule
  live_market_data_unverified live_market_data_stale_or_down live_trading_not_authorized : Rule
  system_halted exit_only_rule entry_blocked_rule max_order_quantity : Rule
  live_market_order_disabled stop_trigger_invalid stop_limit_price_invalid price_sanity : Rule
  live_risk_dependency_unavailable live_order_notional_limit live_positions_unavailable : Rule
  live_open_position_limit live_funds_unavailable live_insufficient_margin : Rule
  duplicate_order_throttle all_checks_passed : Rule

pub record RiskDecision : Type 0 where
  pub decision_id : Text
  pub intent_id : Text
  pub approved : Bool
  pub rule_name : Rule
  pub reason : Text
  pub system_mode : SystemMode
  pub evaluated_at : Time

-- The payload of a broker order event.
pub record BrokerUpdate (F : Type 0) : Type 0 where
  pub client_order_id : Text
  pub broker_order_id : Option Text
  pub status : StatusWord
  pub filled_quantity : ℤ
  pub average_price : F
  pub message : Option Text

-- The payload of a broker trade event. Its execution id is made of the order and of the cumulative
-- filled quantity, and stands as that pair.
pub record TradeFill (F : Type 0) : Type 0 where
  pub order_id : Text
  pub client_order_id : Text
  pub instrument_id : Text
  pub symbol : Text
  pub side : OrderSide
  pub quantity : ℤ
  pub cumulative_filled_quantity : ℤ
  pub price : F
  pub trading_mode : TradingMode

-- `event_type` of an audit event.
pub data AuditEvent : Type 0 where
  kill_switch_enabled system_mode_changed : AuditEvent
  live_activation_challenge_issued live_mode_activated live_mode_revoked : AuditEvent
  idempotency_mismatch : AuditEvent

pub data Message (F : Type 0) : Type 0 where
  order_intent : OrderIntent F → Message F
  order_state : BrokerOrder F → Message F
  risk_decision : RiskDecision → Message F
  execution_command : Text → Text → Message F
  broker_order_event : BrokerUpdate F → Message F
  broker_trade_event : TradeFill F → Message F
  audit_event : AuditEvent → Message F
