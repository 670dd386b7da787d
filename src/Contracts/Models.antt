-- ===== src/Contracts/Models.antt =====
-- The frozen records of libs/contracts/models.py that order processing passes around, over any
-- type of floats.
use icici_breeze_api_trading.Prelude.{Bool, Option}
use icici_breeze_api_trading.Prelude.Int.{ℤ}
use icici_breeze_api_trading.Contracts.Enums.{
  Text, Time, TradingMode, OrderSide, OrderType, ProductType, SourceType, TimeInForce, OrderState,
}

pub record OrderIntent (F : Type 0) : Type 0 where
  pub intent_id : Text
  pub correlation_id : Text
  pub strategy_instance_id : Option Text
  pub source : SourceType
  pub instrument_id : Text
  pub symbol : Text
  pub side : OrderSide
  pub order_type : OrderType
  pub quantity : ℤ
  pub price : F
  pub trigger_price : Option F
  pub product : ProductType
  pub time_in_force : TimeInForce
  pub trading_mode : TradingMode
  pub reduce_only : Bool
  pub created_at : Time

pub record BrokerOrder (F : Type 0) : Type 0 where
  pub order_id : Text
  pub intent_id : Text
  pub client_order_id : Text
  pub broker_order_id : Option Text
  pub instrument_id : Text
  pub symbol : Text
  pub side : OrderSide
  pub order_type : OrderType
  pub quantity : ℤ
  pub filled_quantity : ℤ
  pub remaining_quantity : ℤ
  pub price : F
  pub trigger_price : Option F
  pub average_price : F
  pub status : OrderState
  pub status_message : Option Text
  pub trading_mode : TradingMode
  pub reduce_only : Bool
  pub created_at : Time
  pub updated_at : Time
