-- ===== src/Risk/Inputs.antt =====
-- What a risk evaluation reads: its configuration, and what the other services answer while it runs.
use icici_breeze_api_trading.Prelude.{Bool, Option, List}
use icici_breeze_api_trading.Prelude.Int.{ℤ}
use icici_breeze_api_trading.Contracts.{Text, Time}
use icici_breeze_api_trading.LiveGate.{LiveGate}

-- The option right of a position, upper-cased.
pub data RightWord : Type 0 where
  ce call pe put other_right : RightWord

-- A position that the broker reports: its stock code upper-cased, its expiry cut to the day.
pub record BrokerPosition (F : Type 0) : Type 0 where
  pub stock_code : Text
  pub quantity : ℤ
  pub strike_price : Option F
  pub right : RightWord
  pub expiry_day : Text

-- What `_canonical_option_identity` reads from an instrument id.
pub record OptionIdentity (F : Type 0) : Type 0 where
  pub underlying : Text
  pub expiry : Text
  pub strike : F
  pub is_call : Bool

pub record Broker (F : Type 0) : Type 0 where
  -- `active_broker_name` is "breeze".
  pub is_breeze : Bool
  pub positions : Option (List (BrokerPosition F))
  pub available_margin : Option F

pub record RiskConfig (F : Type 0) : Type 0 where
  pub max_order_qty : ℤ
  pub live_account_id : Text
  pub live_max_order_notional : F
  pub live_max_open_positions : ℤ
  -- `re.fullmatch` with the pattern of an option's instrument id.
  pub option_identity : Text → Option (OptionIdentity F)
  -- `str.upper`
  pub upper : Text → Text

pub record Services (F : Type 0) : Type 0 where
  pub broker_gateway : Option (Broker F)
  -- The quantity of the position that the portfolio holds in an instrument.
  pub portfolio : Option (Text → Option ℤ)
  pub session_connected : Option Bool
  pub feed_healthy : Option Bool
  pub live_gate : LiveGate
  pub gate_now : Time
