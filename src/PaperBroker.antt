-- ===== src/PaperBroker.antt =====
-- services/broker_gateway/paper_adapter.py: the simulated broker. An order fills at once, or rests
-- where it is a stop-limit order. The ids and the instant are arguments, and each dictionary is a list
-- of its entries.
pub mod Book
use icici_breeze_api_trading.Prelude.{
  ℕ, Bool, true, false, not, ◌&&◌, Option, none, some, List, [], ◌∷◌, ◌++◌, ◌==◌, if◌then◌else◌,
  find,
}
use icici_breeze_api_trading.Prelude.Int.{ℤ, pos, ◌+ℤ◌, ◌-ℤ◌, eq_ℤ, ltb_ℤ}
use icici_breeze_api_trading.Prelude.Float.{Float, zero_f, or_f, max_f}
use icici_breeze_api_trading.Prelude.Dict.{get_key, put_key}
use icici_breeze_api_trading.Contracts.{
  Text, Time, OrderSide, buy, sell, OrderType, limit, market, stop_limit,
}
use icici_breeze_api_trading.Execution.Requests.{BrokerRequest}

pub data PaperStatus : Type 0 where
  paper_rejected paper_open paper_filled paper_modified paper_cancelled : PaperStatus

-- An entry of `_orders`.
pub record PaperOrder (F : Type 0) : Type 0 where
  pub broker_order_id : Text
  pub client_order_id : Text
  pub stock_code : Text
  pub action : OrderSide
  pub quantity : ℤ
  pub price : F
  pub trigger_price : Option F
  pub status : PaperStatus
  pub filled_quantity : ℤ
  pub average_price : F

pub record PaperPosition (F : Type 0) : Type 0 where
  pub quantity : ℤ
  pub buy_qty : ℤ
  pub sell_qty : ℤ
  pub buy_val : F
  pub sell_val : F
  pub avg_price : F

pub record PaperTrade (F : Type 0) : Type 0 where
  pub trade_id : Text
  pub broker_order_id : Text
  pub client_order_id : Text
  pub stock_code : Text
  pub action : OrderSide
  pub quantity : ℤ
  pub price : F
  pub trade_time : Time

pub record PaperBroker (F : Type 0) : Type 0 where
  pub total_cash : F
  pub used_margin : F
  pub orders : List (Text × PaperOrder F)
  pub positions : List (Text × PaperPosition F)
  pub trades : List (PaperTrade F)
  pub market_prices : List (Text × F)

-- The response without its message.
pub record PaperResponse (F : Type 0) : Type 0 where
  pub success : Bool
  pub broker_order_id : Option Text
  pub client_order_id : Text
  pub status : PaperStatus
  pub filled_quantity : ℤ
  pub average_price : F

-- `BrokerPositionResponse`, whose exchange and product are fixed.
pub record PaperHolding (F : Type 0) : Type 0 where
  pub stock_code : Text
  pub quantity : ℤ
  pub average_price : F
  pub ltp : F
  pub pnl : F

-- `generate_id` twice and `utc_now`.
pub record PaperStamp : Type 0 where
  pub order_id : Text
  pub trade_id : Text
  pub now : Time

abbrev pub is_buy : OrderSide → Bool
is_buy buy = true
is_buy sell = false

abbrev pub qty_signed : OrderSide → ℤ → ℤ
qty_signed buy n = n
qty_signed sell n = pos 0 -ℤ n

abbrev pub is_filled : PaperStatus → Bool
is_filled paper_filled = true
is_filled _ = false

abbrev ended : PaperStatus → Bool
ended paper_rejected = true
ended paper_cancelled = true
ended _ = false

abbrev or_quantity : Option ℤ → ℤ → ℤ
or_quantity none q = q
or_quantity (some x) q = x

module _ {F : Type 0} ⦃fl : Float F⦄ where
  open fl use {lt, le, add, sub, mul, div, of_int, literal}

  abbrev pub new_broker : F → PaperBroker F
  new_broker cash = record {
    total_cash = cash;
    used_margin = zero_f;
    orders = [];
    positions = [];
    trades = [];
    market_prices = [];
  }

  unfoldable pub set_mock_market_price : Text → F → PaperBroker F → PaperBroker F
  set_mock_market_price symbol price b = record b {
    market_prices = put_key symbol price b.market_prices;
  }

  abbrev pub answer : Bool → Option Text → Text → PaperStatus → ℤ → F → PaperResponse F
  answer success id client status filled average = record {
    success = success;
    broker_order_id = id;
    client_order_id = client;
    status = status;
    filled_quantity = filled;
    average_price = average;
  }

  abbrev pub order_of : BrokerRequest F → PaperStamp → F → PaperStatus → ℤ → F → PaperOrder F
  order_of r stamp price status filled average = record {
    broker_order_id = stamp.order_id;
    client_order_id = r.client_order_id;
    stock_code = r.stock_code;
    action = r.action;
    quantity = r.quantity;
    price = price;
    trigger_price = r.trigger_price;
    status = status;
    filled_quantity = filled;
    average_price = average;
  }

  abbrev pub triggered : Option F → Bool
  triggered none = false
  triggered (some x) = not (le x zero_f)

  abbrev pub rest_order :
      BrokerRequest F → PaperStamp → PaperBroker F → PaperResponse F × PaperBroker F
  rest_order r stamp b =
      if triggered r.trigger_price
      then (
        answer true (some stamp.order_id) r.client_order_id paper_open (pos 0) zero_f,
        record b {
          orders =
              put_key stamp.order_id (order_of r stamp r.price paper_open (pos 0) zero_f) b.orders;
        },
      )
      else (answer false none r.client_order_id paper_rejected (pos 0) zero_f, b)

  abbrev or_price_of : Option F → F → F
  or_price_of none price = price
  or_price_of (some x) price = x

  abbrev pub fill_price : BrokerRequest F → PaperBroker F → F
  fill_price r b = elim r.order_type [
    | market ↦ or_price_of (get_key r.stock_code b.market_prices) (or_f r.price (literal 100 0))
    | _ ↦ r.price
  ]

  abbrev no_position : PaperPosition F
  no_position = record {
    quantity = pos 0;
    buy_qty = pos 0;
    sell_qty = pos 0;
    buy_val = zero_f;
    sell_val = zero_f;
    avg_price = zero_f;
  }

  abbrev pub position_or : Option (PaperPosition F) → PaperPosition F
  position_or none = no_position
  position_or (some p) = p

  abbrev add_side : OrderSide → ℤ → F → PaperPosition F → PaperPosition F
  add_side buy n cost p = record p { buy_qty = p.buy_qty +ℤ n; buy_val = add p.buy_val cost }
  add_side sell n cost p = record p { sell_qty = p.sell_qty +ℤ n; sell_val = add p.sell_val cost }

  abbrev average_of : PaperPosition F → ℤ → F → F
  average_of p quantity price =
      if eq_ℤ quantity (pos 0)
      then zero_f
      else if ltb_ℤ (pos 0) p.buy_qty
      then div p.buy_val (of_int p.buy_qty)
      else price

  abbrev pub booked : OrderSide → ℤ → F → F → PaperPosition F → PaperPosition F
  booked side n price cost p0 =
      let p = add_side side n cost p0 in
      let quantity = p0.quantity +ℤ qty_signed side n in
      record p { quantity = quantity; avg_price = average_of p quantity price }

  abbrev margin_after : OrderSide → F → F → F
  margin_after buy used cost = add used cost
  margin_after sell used cost = max_f zero_f (sub used cost)

  abbrev pub trade_of : BrokerRequest F → PaperStamp → F → PaperTrade F
  trade_of r stamp price = record {
    trade_id = stamp.trade_id;
    broker_order_id = stamp.order_id;
    client_order_id = r.client_order_id;
    stock_code = r.stock_code;
    action = r.action;
    quantity = r.quantity;
    price = price;
    trade_time = stamp.now;
  }

  abbrev pub fill : BrokerRequest F → PaperStamp → F → PaperBroker F → PaperBroker F
  fill r stamp price b =
      let cost = mul price (of_int r.quantity) in
      let position = position_or (get_key r.stock_code b.positions) in
      record b {
        trades = b.trades ++ (trade_of r stamp price ∷ []);
        used_margin = margin_after r.action b.used_margin cost;
        positions =
            put_key r.stock_code (booked r.action r.quantity price cost position) b.positions;
        orders =
            put_key stamp.order_id (order_of r stamp price paper_filled r.quantity price) b.orders;
      }

  abbrev pub execute :
      BrokerRequest F → PaperStamp → F → PaperBroker F → PaperResponse F × PaperBroker F
  execute r stamp price b =
      if is_buy r.action && lt (sub b.total_cash b.used_margin) (mul price (of_int r.quantity))
      then (answer false none r.client_order_id paper_rejected (pos 0) zero_f, b)
      else (
        answer true (some stamp.order_id) r.client_order_id paper_filled r.quantity price,
        fill r stamp price b,
      )

  abbrev pub place_typed :
      OrderType → BrokerRequest F → PaperStamp → PaperBroker F → PaperResponse F × PaperBroker F
  place_typed stop_limit r stamp b = rest_order r stamp b
  place_typed _ r stamp b = execute r stamp (fill_price r b) b

  unfoldable pub place_order :
      BrokerRequest F → PaperStamp → PaperBroker F → PaperResponse F × PaperBroker F
  place_order r stamp b = place_typed r.order_type r stamp b

  abbrev pub modify_found :
      Option (PaperOrder F)
      → Text
      → Option ℤ
      → Option F
      → PaperBroker F
      → PaperResponse F × PaperBroker F
  modify_found none id quantity price b =
      (answer false (some id) 0 paper_rejected (pos 0) zero_f, b)
  modify_found (some o) id quantity price b =
      if is_filled o.status
      then (answer false (some id) o.client_order_id paper_rejected (pos 0) zero_f, b)
      else (
        answer true (some id) o.client_order_id paper_modified (pos 0) zero_f,
        record b {
          orders =
              put_key id
                (record o {
                  quantity = or_quantity quantity o.quantity;
                  price = or_price_of price o.price;
                })
                b.orders;
        },
      )

  unfoldable pub modify_order :
      Text → Option ℤ → Option F → PaperBroker F → PaperResponse F × PaperBroker F
  modify_order id quantity price b = modify_found (get_key id b.orders) id quantity price b

  abbrev pub cancel_found :
      Option (PaperOrder F) → Text → PaperBroker F → PaperResponse F × PaperBroker F
  cancel_found none id b = (answer false (some id) 0 paper_rejected (pos 0) zero_f, b)
  cancel_found (some o) id b = (
    answer true (some id) o.client_order_id paper_cancelled (pos 0) zero_f,
    record b { orders = put_key id (record o { status = paper_cancelled }) b.orders },
  )

  -- Whatever the order's status is.
  unfoldable pub cancel_order : Text → PaperBroker F → PaperResponse F × PaperBroker F
  cancel_order id b = cancel_found (get_key id b.orders) id b

  abbrev status_found : Option (PaperOrder F) → Option (PaperResponse F)
  status_found none = none
  status_found (some o) = some (
      answer true (some o.broker_order_id) o.client_order_id o.status o.filled_quantity
        o.average_price)

  unfoldable pub get_order_status : Text → PaperBroker F → Option (PaperResponse F)
  get_order_status id b = status_found (get_key id b.orders)

  abbrev client_found : Option (Text × PaperOrder F) → Option (PaperResponse F)
  client_found none = none
  client_found (some (_, o)) = some (
      answer (not (ended o.status)) (some o.broker_order_id) o.client_order_id o.status
        o.filled_quantity o.average_price)

  unfoldable pub find_order_by_client_id : Text → PaperBroker F → Option (PaperResponse F)
  find_order_by_client_id client b =
      client_found (find (λ e. e.1.client_order_id == client) b.orders)

  -- `available_margin`; the other fields are those of the broker, and the unrealized result is 0.0.
  unfoldable pub get_funds : PaperBroker F → F
  get_funds b = max_f zero_f (sub b.total_cash b.used_margin)

  abbrev holding_of : List (Text × F) → Text → PaperPosition F → PaperHolding F
  holding_of prices symbol p =
      let ltp = or_price_of (get_key symbol prices) p.avg_price in
      record {
        stock_code = symbol;
        quantity = p.quantity;
        average_price = p.avg_price;
        ltp = ltp;
        pnl = mul (sub ltp p.avg_price) (of_int p.quantity);
      }

  abbrev holdings : List (Text × F) → List (Text × PaperPosition F) → List (PaperHolding F)
  holdings prices [] = []
  holdings prices ((symbol, p) ∷ ps) =
      let rest = holdings prices ps in
      if eq_ℤ p.quantity (pos 0) then rest else holding_of prices symbol p ∷ rest

  unfoldable pub get_positions : PaperBroker F → List (PaperHolding F)
  get_positions b = holdings b.market_prices b.positions
