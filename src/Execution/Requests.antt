-- ===== src/Execution/Requests.antt =====
-- services/execution/service.py: what is sent to the broker gateway and what comes back, the
-- translation of an order to a request and of a status to the words that the OMS reads. The regular
-- expression of option contracts and Python's `str.replace` are fields of the configuration.
use icici_breeze_api_trading.Prelude.{Bool, ◌&&◌, Option, none, some, if◌then◌else◌, ◌==◌}
use icici_breeze_api_trading.Prelude.Int.{ℤ}
use icici_breeze_api_trading.Contracts.{
  Text, BrokerOrder, OrderSide, OrderType, StatusWord, is_live, filled_word, complete, completed,
  partial, partially_spaced, partially_hyphened, partially_filled_word, other_word,
  failed_safe_word, failed_safe_hyphened, unknown,
}
use icici_breeze_api_trading.Risk.Inputs.{OptionIdentity}

-- `exchange_code` is always "NFO", and `user_remark` is the client order id again.
pub record BrokerRequest (F : Type 0) : Type 0 where
  pub client_order_id : Text
  pub stock_code : Text
  pub action : OrderSide
  pub order_type : OrderType
  pub quantity : ℤ
  pub price : F
  pub trigger_price : Option F
  pub strike_price : Option F
  pub right_is_call : Option Bool
  pub expiry_date : Option Text

-- The fields of `BrokerOrderResponse` that are read.
pub record BrokerResponse (F : Type 0) : Type 0 where
  pub broker_order_id : Option Text
  pub status : StatusWord
  pub filled_quantity : ℤ
  pub average_price : F
  pub message : Option Text

pub record ExecutionConfig (F : Type 0) : Type 0 where
  -- The broker's name is "breeze".
  pub is_breeze : Bool
  pub live_account_id : Text
  -- `re.fullmatch` on the instrument id in upper case.
  pub option_identity : Text → Option (OptionIdentity F)
  -- `replace("-", "_")` of a word that none of the listed ones equals after it.
  pub underscored : Text → Text

module _ {F : Type 0} where
  abbrev plain_request : BrokerOrder F → BrokerRequest F
  plain_request order = record {
    client_order_id = order.client_order_id;
    stock_code = order.symbol;
    action = order.side;
    order_type = order.order_type;
    quantity = order.quantity;
    price = order.price;
    trigger_price = order.trigger_price;
    strike_price = none;
    right_is_call = none;
    expiry_date = none;
  }

  abbrev option_request : BrokerOrder F → Option (OptionIdentity F) → Option (BrokerRequest F)
  option_request order none = none
  option_request order (some c) = some (record (plain_request order) {
    stock_code = c.underlying;
    strike_price = some c.strike;
    right_is_call = some c.is_call;
    expiry_date = some c.expiry;
  })

  unfoldable pub build_broker_request : ExecutionConfig F → BrokerOrder F → Option (BrokerRequest F)
  build_broker_request cfg order =
      if is_live order.trading_mode && cfg.is_breeze
      then option_request order (cfg.option_identity order.instrument_id)
      else some (plain_request order)

  -- `_normalize_broker_status`; a missing or empty status is the empty word.
  unfoldable pub normalize_broker_status : ExecutionConfig F → StatusWord → StatusWord
  normalize_broker_status cfg complete = filled_word
  normalize_broker_status cfg completed = filled_word
  normalize_broker_status cfg partial = partially_filled_word
  normalize_broker_status cfg partially_spaced = partially_filled_word
  normalize_broker_status cfg partially_hyphened = partially_filled_word
  normalize_broker_status cfg failed_safe_hyphened = failed_safe_word
  normalize_broker_status cfg (other_word t) =
      if t == 0 then unknown else other_word (cfg.underscored t)
  normalize_broker_status cfg word = word
