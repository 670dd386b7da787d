-- ===== src/Execution/Service.antt =====
-- services/execution/service.py: the handler of execution commands, the submission of an order and
-- the recovery of approved orders after a restart.
use icici_breeze_api_trading.Prelude.{
  Bool, true, false, not, ◌&&◌, Option, none, some, List, [], ◌∷◌, ◌++◌, if◌then◌else◌, ◌==◌, any,
}
use icici_breeze_api_trading.Prelude.Int.{ℤ, pos, ltb_ℤ}
use icici_breeze_api_trading.Prelude.Float.{Float, or_f}
use icici_breeze_api_trading.Prelude.Result.{Result, ok, err}
use icici_breeze_api_trading.Prelude.Action.{Action, pure, modify, ◌>>=◌, ◌>>◌}
use icici_breeze_api_trading.Contracts.{
  Text, Time, BrokerOrder, BrokerUpdate, TradingMode, Message, StatusWord, is_live, same_state,
  approved, submitting, broker_order_event, broker_trade_event, filled_word, failed_safe_word,
  unknown,
}
use icici_breeze_api_trading.LiveGate.{LiveGate, validate_live_order}
use icici_breeze_api_trading.Oms.Repository.{Stamp, get_order_by_id, list_orders}
use icici_breeze_api_trading.Oms.Service.{Oms, publish, mark_order_submitting}
use icici_breeze_api_trading.Execution.Requests.{
  BrokerRequest, BrokerResponse, ExecutionConfig, build_broker_request, normalize_broker_status,
}

-- A call of `gateway.place_order`, with the order that it is for.
pub record Placement (F : Type 0) : Type 0 where
  pub order_id : Text
  pub request : BrokerRequest F
  pub mode : TradingMode

-- The OMS that the service calls, with the bus that they share, its set of processed commands, and
-- the calls of `place_order` so far.
pub record Execution (F : Type 0) : Type 0 where
  pub oms : Oms F
  pub processed : List Text
  pub placed : List (Placement F)

-- What the other services answer during one run: the health services, where they are there, the
-- gate and its clock, the broker, and the texts of the messages.
pub record Run (F : Type 0) : Type 0 where
  pub session_connected : Option Bool
  pub feed_healthy : Option Bool
  pub live_gate : LiveGate
  pub gate_now : Time
  pub stamp : Stamp
  pub answer : Result (BrokerResponse F)
  pub health_text : Text
  pub gate_text : Text
  pub identity_text : Text
  pub failure_text : Text

-- A service that is not there fails closed.
abbrev pub is_up : Option Bool → Bool
is_up none = false
is_up (some b) = b

abbrev pub is_filled_word : StatusWord → Bool
is_filled_word filled_word = true
is_filled_word _ = false

module _ {F : Type 0} where
  abbrev pub on_oms : {A : Type 0} → Action (Oms F) A → Action (Execution F) A
  on_oms m s = let (r, o) = m s.oms in (r, record s { oms = o })

  abbrev pub runtime_healthy : Run F → Bool
  runtime_healthy run = is_up run.session_connected && is_up run.feed_healthy

  -- A live order that may increase the exposure.
  abbrev pub is_live_exposure : BrokerOrder F → Bool
  is_live_exposure order = is_live order.trading_mode && not order.reduce_only

  -- The update that the service publishes of an order which the broker has not answered.
  abbrev pub own_update : StatusWord → Text → BrokerOrder F → BrokerUpdate F
  own_update word text order = record {
    client_order_id = order.client_order_id;
    broker_order_id = none;
    status = word;
    filled_quantity = order.filled_quantity;
    average_price = order.average_price;
    message = some text;
  }

  abbrev pub fail_safe : Text → BrokerOrder F → Action (Execution F) (Unit {0})
  fail_safe text order =
      on_oms (publish (broker_order_event (own_update failed_safe_word text order)))

  abbrev place_order : BrokerOrder F → BrokerRequest F → Action (Execution F) (Unit {0})
  place_order order req = modify λ s. record s {
    placed =
        s.placed
        ++ (record { order_id = order.order_id; request = req; mode = order.trading_mode } ∷ []);
  }

  -- `_publish_trade_fill`
  abbrev pub trade_fill : BrokerOrder F → ℤ → ℤ → F → Message F
  trade_fill order quantity cumulative price = broker_trade_event (record {
    order_id = order.order_id;
    client_order_id = order.client_order_id;
    instrument_id = order.instrument_id;
    symbol = order.symbol;
    side = order.side;
    quantity = quantity;
    cumulative_filled_quantity = cumulative;
    price = price;
    trading_mode = order.trading_mode;
  })

module _ {F : Type 0} ⦃fl : Float F⦄ where
  abbrev pub publish_fill :
      Bool → BrokerOrder F → BrokerResponse F → Action (Execution F) (Unit {0})
  publish_fill b order resp =
      if b
      then on_oms (
          publish (
            trade_fill order resp.filled_quantity resp.filled_quantity
              (or_f resp.average_price order.price)))
      else pure tt

  -- The update that passes on what the broker answered.
  abbrev pub answer_update : StatusWord → BrokerOrder F → BrokerResponse F → BrokerUpdate F
  answer_update word order resp = record {
    client_order_id = order.client_order_id;
    broker_order_id = resp.broker_order_id;
    status = word;
    filled_quantity = resp.filled_quantity;
    average_price = resp.average_price;
    message = resp.message;
  }

  -- What follows `place_order`: its answer is published, and an exception as an unknown outcome.
  unfoldable pub report :
      ExecutionConfig F
      → Run F
      → BrokerOrder F
      → Result (BrokerResponse F)
      → Action (Execution F) (Unit {0})
  unfolding normalize_broker_status
  report cfg run order (ok resp) = do
    let word = normalize_broker_status cfg resp.status
    on_oms (publish (broker_order_event (answer_update word order resp)))
    publish_fill (is_filled_word word && ltb_ℤ (pos 0) resp.filled_quantity) order resp
  report cfg run order (err _) =
      on_oms (publish (broker_order_event (own_update unknown run.failure_text order)))

  unfoldable pub send_order :
      ExecutionConfig F
      → Run F
      → BrokerOrder F
      → Option (BrokerRequest F)
      → Action (Execution F) (Unit {0})
  unfolding report
  send_order cfg run order none = fail_safe run.identity_text order
  send_order cfg run order (some req) = do place_order order req; report cfg run order run.answer

  -- What `execute_order` does with the order that the reservation returned.
  unfoldable pub submit_reserved :
      ExecutionConfig F → Run F → Option (BrokerOrder F) → Action (Execution F) (Unit {0})
  unfolding build_broker_request send_order
  submit_reserved cfg run none = pure tt
  submit_reserved cfg run (some order) =
      if not (same_state order.status submitting)
      then pure tt
      else send_order cfg run order (build_broker_request cfg order)

  -- `execute_order` from the reservation on.
  unfoldable pub reserve_and_submit :
      ExecutionConfig F → Run F → Text → Action (Execution F) (Unit {0})
  unfolding mark_order_submitting submit_reserved
  reserve_and_submit cfg run order_id = do
    reserved ← on_oms (mark_order_submitting order_id run.stamp)
    submit_reserved cfg run reserved

  -- `execute_order` with the order that it read.
  unfoldable pub start_order :
      ExecutionConfig F → Run F → Text → Option (BrokerOrder F) → Action (Execution F) (Unit {0})
  unfolding validate_live_order reserve_and_submit
  start_order cfg run order_id none = pure tt
  start_order cfg run order_id (some order) =
      if not (same_state order.status approved)
      then pure tt
      else if is_live_exposure order && not (runtime_healthy run)
      then fail_safe run.health_text order
      else if is_live_exposure order
          && not (validate_live_order run.gate_now cfg.live_account_id run.live_gate)
      then fail_safe run.gate_text order
      else reserve_and_submit cfg run order_id

  unfoldable pub execute_order : ExecutionConfig F → Run F → Text → Action (Execution F) (Unit {0})
  unfolding start_order get_order_by_id
  execute_order cfg run order_id s =
      start_order cfg run order_id (get_order_by_id order_id s.oms.repo) s

  unfoldable pub handle_execution_command :
      ExecutionConfig F → Run F → Text → Text → Action (Execution F) (Unit {0})
  unfolding execute_order
  handle_execution_command cfg run order_id client_order_id s =
      if any (λ c. c == client_order_id) s.processed
      then pure tt s
      else execute_order cfg run order_id (record s { processed = client_order_id ∷ s.processed })

  -- The loop of `_recover_approved_orders`; `runs` is what each order's run meets.
  unfoldable pub recover_orders :
      ExecutionConfig F → (Text → Run F) → List (BrokerOrder F) → Action (Execution F) (Unit {0})
  unfolding execute_order
  recover_orders cfg runs [] = pure tt
  recover_orders cfg runs (o ∷ os) = do
    if same_state o.status approved then execute_order cfg (runs o.order_id) o.order_id else pure tt
    recover_orders cfg runs os

  unfoldable pub recover_approved_orders :
      ExecutionConfig F → (Text → Run F) → Action (Execution F) (Unit {0})
  unfolding recover_orders list_orders
  recover_approved_orders cfg runs s = recover_orders cfg runs (list_orders 500 s.oms.repo) s
