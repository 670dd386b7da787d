-- ===== src/Outbox/Relay.antt =====
-- One round of the outbox loop of services/oms/service.py over the rows of libs/database/sqlite.py.
use icici_breeze_api_trading.Prelude.{
  ℕ, ◌≡◌, refl, sym, ap, ◌∙◌, inl, inr, Bool, true, false, ◌||◌, Option, none, some, List, [], ◌∷◌,
  ◌++◌, map, ◌==◌, any, find, Bool-cases, arith,
}
use icici_breeze_api_trading.Contracts.{Text, Time}
use icici_breeze_api_trading.Outbox.Pending.{
  IsOldestPending, get_pending_outbox_events-IsOldestPending,
}
use icici_breeze_api_trading.Outbox.{
  OutboxRow, mark_row, mark_outbox_event_published, publish_rows, relay, get_pending_outbox_events,
}

same_row : (i q id : ℕ) (b : Bool) → (i == q) ≡ true → (i == id) ≡ b → (q == id) ≡ b
same_row i q id b m n = ground arith

other_row : (i q id : ℕ) → (i == q) ≡ false → (i == id) ≡ true → (q == id) ≡ false
other_row i q id m n = ground arith

module _ {M : Type 0} where
  abbrev pub is_event : Text → OutboxRow M → Bool
  is_event id r = r.event_id == id

  abbrev pub marked_if : Bool → Time → Option (OutboxRow M) → Option (OutboxRow M)
  marked_if b now none = none
  marked_if true now (some r) = some (record r { published = true; published_at = some now })
  marked_if false now (some r) = some r

  marked_twice :
      (a b : Bool) (now : Time) (r : Option (OutboxRow M))
      → marked_if a now (marked_if b now r) ≡ marked_if (b || a) now r
  marked_twice a b now none = refl
  marked_twice true true now (some r) = refl
  marked_twice true false now (some r) = refl
  marked_twice false true now (some r) = refl
  marked_twice false false now (some r) = refl

  find_mark :
      (q id : Text) (now : Time) (rows : List (OutboxRow M))
      → find (is_event id) (map (mark_row q now) rows)
        ≡ marked_if (q == id) now (find (is_event id) rows)
  find_mark q id now [] = refl
  find_mark q id now (r ∷ rows) = elim (Bool-cases (r.event_id == q)) [
    | inl m ↦ rw m (elim (Bool-cases (r.event_id == id)) [
      | inl n ↦ rw (n, same_row r.event_id q id true m n) refl
      | inr n ↦ rw (n, find_mark q id now rows, same_row r.event_id q id false m n) refl
    ])
    | inr m ↦ rw m (elim (Bool-cases (r.event_id == id)) [
      | inl n ↦ rw (n, other_row r.event_id q id m n) refl
      | inr n ↦ rw (n, find_mark q id now rows) refl
    ])
  ]

  unmarked : (now : Time) (r : Option (OutboxRow M)) → r ≡ marked_if false now r
  unmarked now none = refl
  unmarked now (some r) = refl

  append_nil : (xs : List M) → xs ++ [] ≡ xs
  append_nil [] = refl
  append_nil (x ∷ xs) = ap (λ l. x ∷ l) (append_nil xs)

  append_one : (xs : List M) (x : M) (ys : List M) → xs ++ (x ∷ []) ++ ys ≡ xs ++ (x ∷ ys)
  append_one [] x ys = refl
  append_one (y ∷ xs) x ys = ap (λ l. y ∷ l) (append_one xs x ys)

  publish_rows-bus :
      (now : Time) (l rows : List (OutboxRow M)) (bus : List M)
      → (publish_rows now l (rows, bus)).1 ≡ bus ++ map (λ r. r.payload) l
  unfolding publish_rows
  publish_rows-bus now [] rows bus = sym (append_nil bus)
  publish_rows-bus now (r ∷ l) rows bus =
      publish_rows-bus now l _ (bus ++ (r.payload ∷ []))
      ∙ append_one bus r.payload (map (λ r. r.payload) l)

  publish_rows-find :
      (now : Time) (l rows : List (OutboxRow M)) (bus : List M) (id : Text)
      → find (is_event id) (publish_rows now l (rows, bus)).0
        ≡ marked_if (any (is_event id) l) now (find (is_event id) rows)
  unfolding publish_rows mark_outbox_event_published
  publish_rows-find now [] rows bus id = unmarked now (find (is_event id) rows)
  publish_rows-find now (r ∷ l) rows bus id =
      publish_rows-find now l (map (mark_row r.event_id now) rows) (bus ++ (r.payload ∷ [])) id
      ∙ (rw (find_mark r.event_id id now rows)
          (marked_twice (any (is_event id) l) (r.event_id == id) now (find (is_event id) rows)))

  -- One round of the outbox loop reads at most twenty rows that are not published, each no more
  -- often than it stands in the table and the oldest first, and leaves none that is older than a
  -- row it read, nor any while it has read fewer than twenty; it puts their payloads on the bus,
  -- after what was there and in that order; and of the row that an event id finds it changes
  -- nothing but that it is marked as published where the id is one of theirs.
  pub relay_lem :
      (now : Time) (rows : List (OutboxRow M)) (bus : List M)
      → (read : List (OutboxRow M)) × IsOldestPending 20 rows read
        × ((relay now (rows, bus)).1 ≡ bus ++ map (λ r. r.payload) read)
        × ((id : Text)
            → find (is_event id) (relay now (rows, bus)).0
              ≡ marked_if (any (is_event id) read) now (find (is_event id) rows))
  unfolding relay
  relay_lem now rows bus = (
    get_pending_outbox_events 20 rows,
    get_pending_outbox_events-IsOldestPending 20 rows,
    publish_rows-bus now (get_pending_outbox_events 20 rows) rows bus,
    publish_rows-find now (get_pending_outbox_events 20 rows) rows bus,
  )
