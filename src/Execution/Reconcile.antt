-- ===== src/Execution/Reconcile.antt =====
-- services/execution/service.py, `reconcile_live_orders`: live orders against the broker's
-- evidence. The broker's and the portfolio's answers during one round are a record; a round changes
-- nothing but the bus.
use icici_breeze_api_trading.Prelude.{
  Bool, true, false, ◌&&◌, ◌||◌, Option, none, some, List, [], ◌∷◌, ◌++◌, if◌then◌else◌, ◌==◌, keep,
}
use icici_breeze_api_trading.Prelude.Int.{ℤ, pos, ◌+ℤ◌, ◌-ℤ◌, ltb_ℤ, leb_ℤ, eq_ℤ, max_ℤ, min_ℤ}
use icici_breeze_api_trading.Prelude.Float.{Float, or_f, zero_f}
use icici_breeze_api_trading.Prelude.Result.{Result, ok, err, ◌>>=◌}
use icici_breeze_api_trading.Prelude.Action.{Action, modify}
use icici_breeze_api_trading.Contracts.{
  Text, BrokerOrder, Message, OrderState, is_live, same_state, submitting, submission_unknown,
  acknowledged, open_state, partially_filled, filled, broker_order_event, filled_word,
  partially_filled_word, truthy_id, or_id,
}
use icici_breeze_api_trading.Oms.Repository.{list_orders}
use icici_breeze_api_trading.Oms.Service.{Oms}
use icici_breeze_api_trading.Execution.Requests.{
  BrokerResponse, ExecutionConfig, normalize_broker_status,
}
use icici_breeze_api_trading.Execution.Service.{trade_fill}

pub record BrokerTrade (F : Type 0) : Type 0 where
  pub client_order_id : Text
  pub broker_order_id : Option Text
  pub quantity : ℤ
  pub price : F

-- What a round of reconciliation reads. `get_trades` is called once for a round that succeeds.
pub record Evidence (F : Type 0) : Type 0 where
  -- `get_executed_quantity_for_order`, 0 where there is no portfolio.
  pub executed : Text → ℤ
  pub get_order_status : Text → Result (Option (BrokerResponse F))
  pub find_order_by_client_id : Text → Result (Option (BrokerResponse F))
  pub get_trades : Result (List (BrokerTrade F))
  pub recovered_text : Text
  pub reconciliation_text : Text

-- `status in pending_states or status == FILLED`
abbrev pub is_reconciled_state : OrderState → Bool
is_reconciled_state submitting = true
is_reconciled_state submission_unknown = true
is_reconciled_state acknowledged = true
is_reconciled_state open_state = true
is_reconciled_state partially_filled = true
is_reconciled_state filled = true
is_reconciled_state _ = false

-- A broker's identifier that is known to be there.
abbrev broker_id : Option Text → Text
broker_id none = 0
broker_id (some t) = t

module _ {F : Type 0} where
  abbrev pub is_reconciled : BrokerOrder F → Bool
  is_reconciled order = is_live order.trading_mode && is_reconciled_state order.status

  -- `sum(max(0, trade.quantity) for trade in matches)`
  abbrev pub total_filled : ℤ → List (BrokerTrade F) → ℤ
  total_filled n [] = n
  total_filled n (t ∷ ts) = total_filled (n +ℤ max_ℤ (pos 0) t.quantity) ts

  abbrev own_trades : Text → List (BrokerTrade F) → List (BrokerTrade F)
  own_trades id = keep (λ t. t.client_order_id == id)

module _ {F : Type 0} ⦃fl : Float F⦄ where
  open fl use {add, mul, div, of_int}

  abbrev notional : F → List (BrokerTrade F) → F
  notional x [] = x
  notional x (t ∷ ts) = notional (add x (mul (of_int (max_ℤ (pos 0) t.quantity)) t.price)) ts

  -- The response that the order's own trades stand for.
  unfoldable pub recover_response :
      Text → BrokerOrder F → List (BrokerTrade F) → Option (BrokerResponse F)
  recover_response text order [] = none
  recover_response text order (t ∷ ts) =
      let quantity = total_filled (pos 0) (t ∷ ts) in
      some (record {
        broker_order_id = t.broker_order_id;
        status = if leb_ℤ order.quantity quantity then filled_word else partially_filled_word;
        filled_quantity = min_ℤ quantity order.quantity;
        average_price =
            if eq_ℤ quantity (pos 0)
            then zero_f
            else div (notional zero_f (t ∷ ts)) (of_int quantity);
        message = some text;
      })

  -- The second path, where the broker knows no order under the client's reference.
  abbrev or_trades :
      Evidence F → BrokerOrder F → Option (BrokerResponse F) → Result (Option (BrokerResponse F))
  or_trades e order (some resp) = ok (some resp)
  or_trades e order none = do
    trades ← e.get_trades
    ok (recover_response e.recovered_text order (own_trades order.client_order_id trades))

  unfoldable pub broker_evidence : Evidence F → BrokerOrder F → Result (Option (BrokerResponse F))
  unfolding recover_response
  broker_evidence e order =
      if truthy_id order.broker_order_id
      then e.get_order_status (broker_id order.broker_order_id)
      else if same_state order.status submitting || same_state order.status submission_unknown
      then (e.find_order_by_client_id order.client_order_id >>= or_trades e order)
      else ok none

  -- A fill that the portfolio lacks.
  abbrev pub missing_fill : BrokerOrder F → ℤ → ℤ → F → List (Message F)
  missing_fill order executed cumulative price =
      let missing = max_ℤ (pos 0) (cumulative -ℤ executed) in
      if ltb_ℤ (pos 0) missing then trade_fill order missing cumulative price ∷ [] else []

  abbrev pub reconcile_pending :
      ExecutionConfig F
      → Evidence F
      → BrokerOrder F
      → Result (Option (BrokerResponse F))
      → List (Message F)
  reconcile_pending cfg e order (err _) = []
  reconcile_pending cfg e order (ok none) = []
  reconcile_pending cfg e order (ok (some resp)) =
      broker_order_event (record {
        client_order_id = order.client_order_id;
        broker_order_id = or_id resp.broker_order_id order.broker_order_id;
        status = normalize_broker_status cfg resp.status;
        filled_quantity = resp.filled_quantity;
        average_price = or_f resp.average_price zero_f;
        message = if truthy_id resp.message then resp.message else some e.reconciliation_text;
      })
      ∷ missing_fill order (e.executed order.order_id) resp.filled_quantity
          (or_f (or_f resp.average_price order.average_price) order.price)

  -- What the round publishes of one order.
  unfoldable pub reconcile_order : ExecutionConfig F → Evidence F → BrokerOrder F → List (Message F)
  unfolding broker_evidence normalize_broker_status
  reconcile_order cfg e order =
      if same_state order.status filled
      then missing_fill order (e.executed order.order_id) order.filled_quantity
          (or_f order.average_price order.price)
      else reconcile_pending cfg e order (broker_evidence e order)

  unfoldable pub reconcile_orders :
      ExecutionConfig F → Evidence F → List (BrokerOrder F) → List (Message F)
  unfolding reconcile_order
  reconcile_orders cfg e [] = []
  reconcile_orders cfg e (o ∷ os) = reconcile_order cfg e o ++ reconcile_orders cfg e os

  unfoldable pub reconcile_live_orders : ExecutionConfig F → Evidence F → Action (Oms F) (Unit {0})
  unfolding reconcile_orders list_orders
  reconcile_live_orders cfg e = modify λ s. record s {
    bus = s.bus ++ reconcile_orders cfg e (keep is_reconciled (list_orders 500 s.repo));
  }
