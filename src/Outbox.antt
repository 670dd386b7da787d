-- ===== src/Outbox.antt =====
-- The transactional outbox of libs/database/sqlite.py: rows that a service writes in the same
-- transaction as its state, and that its relay loop publishes later.
pub mod Relay
pub mod Pending
use icici_breeze_api_trading.Prelude.{
  ℕ, Bool, true, false, not, Option, none, some, List, [], ◌∷◌, ◌++◌, map, leb, ◌==◌, if◌then◌else◌,
  any, keep, take, order_by,
}
use icici_breeze_api_trading.Prelude.Result.{Result, ok, err, integrity}
use icici_breeze_api_trading.Contracts.{Text, Time}

-- A row of `outbox_events`; the payload is any message `M`.
pub record OutboxRow (M : Type 0) : Type 0 where
  pub event_id : Text
  pub payload : M
  pub created_at : Time
  pub published : Bool
  pub published_at : Option Time

module _ {M : Type 0} where
  abbrev pub has_event : Text → List (OutboxRow M) → Bool
  has_event id = any (λ r. r.event_id == id)

  abbrev new_row : Text → M → Time → OutboxRow M
  new_row id m now = record {
    event_id = id;
    payload = m;
    created_at = now;
    published = false;
    published_at = none;
  }

  -- `event_id` is the primary key: a second insert of it raises.
  unfoldable pub add_outbox_event :
      Text → M → Time → List (OutboxRow M) → Result (List (OutboxRow M))
  add_outbox_event id m now rows =
      if has_event id rows then err integrity else ok (rows ++ (new_row id m now ∷ []))

  abbrev pub is_pending : OutboxRow M → Bool
  is_pending r = not r.published

  abbrev pub earlier : OutboxRow M → OutboxRow M → Bool
  earlier a b = leb a.created_at b.created_at

  -- `WHERE published = 0 ORDER BY created_at ASC LIMIT ?`
  unfoldable pub get_pending_outbox_events : ℕ → List (OutboxRow M) → List (OutboxRow M)
  get_pending_outbox_events limit rows = take limit (order_by earlier (keep is_pending rows))

  abbrev pub mark_row : Text → Time → OutboxRow M → OutboxRow M
  mark_row id now r =
      if r.event_id == id then record r { published = true; published_at = some now } else r

  unfoldable pub mark_outbox_event_published : Text → Time → List (OutboxRow M) → List (OutboxRow M)
  mark_outbox_event_published id now = map (mark_row id now)

  -- One round of a service's outbox loop over the rows that it read: each is put on the bus, and
  -- marked after that.
  unfoldable pub publish_rows :
      Time → List (OutboxRow M) → List (OutboxRow M) × List M → List (OutboxRow M) × List M
  publish_rows now [] s = s
  publish_rows now (r ∷ rs) (rows, bus) =
      publish_rows now rs (mark_outbox_event_published r.event_id now rows, bus ++ (r.payload ∷ []))

  unfoldable pub relay : Time → List (OutboxRow M) × List M → List (OutboxRow M) × List M
  unfolding publish_rows
  relay now (rows, bus) = publish_rows now (get_pending_outbox_events 20 rows) (rows, bus)
