-- ===== src/Oms/Repository.antt =====
-- services/oms/repository.py: the tables of oms.db as lists of rows, in the order of insertion, and
-- the SQL statements on them with the constraints that SQLite enforces. A method that raises
-- commits nothing.
use icici_breeze_api_trading.Prelude.{
  ℕ, Bool, not, ◌&&◌, Option, none, some, List, [], ◌∷◌, ◌++◌, leb, ◌==◌, if◌then◌else◌, any, find,
  take, order_by,
}
use icici_breeze_api_trading.Prelude.Result.{Result, ok, integrity, raise_if, ◌>>=◌, ◌>>◌}
use icici_breeze_api_trading.Contracts.{
  Text, Time, OrderState, OrderIntent, BrokerOrder, Message, StatusWord, order_intent,
}
use icici_breeze_api_trading.Outbox.{OutboxRow, add_outbox_event}

-- The reason that goes with a transition.
pub data Reason : Type 0 where
  intent_created dispatched_to_risk execution_reserved : Reason
  risk_reason : Text → Reason
  broker_reconciliation : StatusWord → Reason

-- A row of `order_events`.
pub record OrderEvent (F : Type 0) : Type 0 where
  pub event_id : Text
  pub order_id : Text
  pub from_state : Option OrderState
  pub to_state : OrderState
  pub reason : Reason
  pub payload : BrokerOrder F
  pub occurred_at : Time

pub record Db (F : Type 0) : Type 0 where
  pub order_intents : List (OrderIntent F)
  pub broker_orders : List (BrokerOrder F)
  pub order_events : List (OrderEvent F)
  pub outbox_events : List (OutboxRow (Message F))

-- What a call of `generate_id` and one of `utc_now` return.
pub record Stamp : Type 0 where
  pub id : Text
  pub now : Time

module _ {F : Type 0} where
  abbrev pub has_order_id : Text → BrokerOrder F → Bool
  has_order_id id o = o.order_id == id

  abbrev has_intent_id : Text → OrderIntent F → Bool
  has_intent_id id i = i.intent_id == id

  abbrev pub has_client_id : Text → BrokerOrder F → Bool
  has_client_id id o = o.client_order_id == id

  abbrev has_event_id : Text → OrderEvent F → Bool
  has_event_id id e = e.event_id == id

  unfoldable pub save_order_intent : OrderIntent F → Text → Db F → Result (Db F)
  unfolding add_outbox_event
  save_order_intent i event_id db = do
    raise_if (any (has_intent_id i.intent_id) db.order_intents) integrity
    rows ← add_outbox_event event_id (order_intent i) i.created_at db.outbox_events
    ok (record db { order_intents = db.order_intents ++ (i ∷ []); outbox_events = rows })

  -- The columns that `ON CONFLICT(order_id) DO UPDATE` takes over from the excluded row.
  abbrev pub merge_row : BrokerOrder F → BrokerOrder F → BrokerOrder F
  merge_row row old = record old {
    broker_order_id = row.broker_order_id;
    filled_quantity = row.filled_quantity;
    remaining_quantity = row.remaining_quantity;
    trigger_price = row.trigger_price;
    average_price = row.average_price;
    status = row.status;
    status_message = row.status_message;
    reduce_only = row.reduce_only;
    updated_at = row.updated_at;
  }

  abbrev pub upsert : BrokerOrder F → List (BrokerOrder F) → List (BrokerOrder F)
  upsert row [] = row ∷ []
  upsert row (o ∷ os) =
      if o.order_id == row.order_id then merge_row row o ∷ os else o ∷ upsert row os

  -- `client_order_id` is UNIQUE over the other rows.
  abbrev client_id_taken : BrokerOrder F → List (BrokerOrder F) → Bool
  client_id_taken row =
      any (λ o. has_client_id row.client_order_id o && not (has_order_id row.order_id o))

  -- A new row refers to an intent by a foreign key.
  abbrev intent_missing : BrokerOrder F → Db F → Bool
  intent_missing row db =
      not (any (has_order_id row.order_id) db.broker_orders)
      && not (any (has_intent_id row.intent_id) db.order_intents)

  abbrev pub transition_event :
      BrokerOrder F → Option OrderState → OrderState → Reason → Stamp → OrderEvent F
  transition_event order from_state to_state reason stamp = record {
    event_id = stamp.id;
    order_id = order.order_id;
    from_state = from_state;
    to_state = to_state;
    reason = reason;
    payload = order;
    occurred_at = stamp.now;
  }

  abbrev queue_event :
      Option (BrokerOrder F → Message F)
      → BrokerOrder F
      → Stamp
      → List (OutboxRow (Message F))
      → Result (List (OutboxRow (Message F)))
  queue_event none order stamp rows = ok rows
  queue_event (some m) order stamp rows = add_outbox_event stamp.id (m order) stamp.now rows

  unfoldable pub save_broker_order_with_transition :
      BrokerOrder F
      → Option OrderState
      → OrderState
      → Reason
      → Option (BrokerOrder F → Message F)
      → Stamp
      → Db F
      → Result (Db F)
  unfolding add_outbox_event
  save_broker_order_with_transition order from_state to_state reason topic stamp db = do
    let row = record order { status = to_state; updated_at = stamp.now }
    raise_if (client_id_taken row db.broker_orders) integrity
    raise_if (intent_missing row db) integrity
    raise_if (any (has_event_id stamp.id) db.order_events) integrity
    rows ← queue_event topic order stamp db.outbox_events
    ok (record db {
      broker_orders = upsert row db.broker_orders;
      order_events =
          db.order_events ++ (transition_event order from_state to_state reason stamp ∷ []);
      outbox_events = rows;
    })

  unfoldable pub get_order_by_id : Text → Db F → Option (BrokerOrder F)
  get_order_by_id id db = find (has_order_id id) db.broker_orders

  unfoldable pub get_order_by_client_id : Text → Db F → Option (BrokerOrder F)
  get_order_by_client_id id db = find (has_client_id id) db.broker_orders

  abbrev pub newer : BrokerOrder F → BrokerOrder F → Bool
  newer a b = leb b.created_at a.created_at

  -- `ORDER BY created_at DESC LIMIT ?`
  unfoldable pub list_orders : ℕ → Db F → List (BrokerOrder F)
  list_orders limit db = take limit (order_by newer db.broker_orders)
