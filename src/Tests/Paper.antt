-- ===== src/Tests/Paper.antt =====
-- Orders through services/broker_gateway/paper_adapter.py.
use icici_breeze_api_trading.Prelude.{ℕ, ◌≡◌, refl, true, none, some, List, [], ◌∷◌}
use icici_breeze_api_trading.Prelude.Int.{ℤ, pos, ◌+ℤ◌, ◌-ℤ◌, ◌*ℤ◌}
use icici_breeze_api_trading.Contracts.{OrderSide, buy, sell, limit}
use icici_breeze_api_trading.Execution.Requests.{BrokerRequest}
use icici_breeze_api_trading.PaperBroker.{
  PaperBroker, PaperStamp, paper_cancelled, new_broker, get_order_status, get_positions,
}
use icici_breeze_api_trading.PaperBroker.Book.{
  PaperOp, place, cancel, perform_all, IsBooked, perform_all-IsBooked,
}
use icici_breeze_api_trading.Tests.Values.{paise}

abbrev lots_of : OrderSide → ℕ → BrokerRequest ℤ
lots_of side n = record {
  client_order_id = 50;
  stock_code = 32;
  action = side;
  order_type = limit;
  quantity = pos n;
  price = pos 10000;
  trigger_price = none;
  strike_price = none;
  right_is_call = none;
  expiry_date = none;
}

abbrev stamp_of : ℕ → PaperStamp
stamp_of n = record { order_id = n; trade_id = n; now = n }

-- Ten are bought, four sold, and the first order is cancelled after its fill.
abbrev calls : List (PaperOp ℤ)
calls =
    place (lots_of buy 10) (stamp_of 1) ∷ (place (lots_of sell 4) (stamp_of 2) ∷ (cancel 1 ∷ []))

abbrev broker : PaperBroker ℤ
broker = perform_all calls (new_broker (pos 50000000))

six_are_held :
    get_positions broker
    ≡ record {
      stock_code = 32;
      quantity = pos 6;
      average_price = pos 10000;
      ltp = pos 10000;
      pnl = pos 0;
    }
      ∷ []
unfolding perform_all get_positions ◌+ℤ◌ ◌-ℤ◌ ◌*ℤ◌
six_are_held = refl

-- The filled order is reported as cancelled, with its fill.
filled_is_cancelled :
    get_order_status 1 broker
    ≡ some (record {
      success = true;
      broker_order_id = some 1;
      client_order_id = 50;
      status = paper_cancelled;
      filled_quantity = pos 10;
      average_price = pos 10000;
    })
unfolding perform_all get_order_status ◌+ℤ◌ ◌-ℤ◌ ◌*ℤ◌
filled_is_cancelled = refl

perform_all-IsBooked_example : IsBooked (perform_all calls (new_broker (pos 50000000)))
perform_all-IsBooked_example = perform_all-IsBooked calls (pos 50000000)
