-- ===== src/Oms/Journal.antt =====
-- The audit journal of services/oms/repository.py: what the rows of `order_events` say of each
-- order, and the invariant that ties them to the table of orders.
use icici_breeze_api_trading.Prelude.{
  ◌≡◌, refl, sym, ◌∙◌, ◌≢◌, ◌⊎◌, true, Option, none, some, List, [], ◌∷◌, ◌++◌, ◌==◌, if◌then◌else◌,
  find, arith,
}
use icici_breeze_api_trading.Oms.Service.{Oms, save_transition}
use icici_breeze_api_trading.Prelude.Result.{Result, ok, err, transact}
use icici_breeze_api_trading.Contracts.{
  order_state, Text, OrderState, StatusWord, BrokerOrder, created,
}
use icici_breeze_api_trading.Oms.StateMachine.{can_transition}
use icici_breeze_api_trading.Oms.Repository.{
  Db, OrderEvent, Stamp, Reason, broker_reconciliation, save_broker_order_with_transition,
  transition_event, upsert, has_order_id,
}

-- The last known state of each order.
abbrev pub States : Type 0
States = Text → Option OrderState

abbrev pub nothing_known : States
nothing_known _ = none

abbrev pub update_state : States → Text → OrderState → States
update_state st id s k = if id == k then some s else st k

-- An order begins in CREATED, and each later entry is an allowed transition, or the fill progress
-- of a broker's update, which keeps the state.
abbrev pub IsStep : Option OrderState → OrderState → Reason → Type 0
IsStep none b r = b ≡ created
IsStep (some a) b r =
    (can_transition a b ≡ true)
    ⊎ ((a ≡ b) × ((word : StatusWord) × (r ≡ broker_reconciliation word)))

module _ {F : Type 0} where
  abbrev pub replay : States → List (OrderEvent F) → States
  replay st [] = st
  replay st (e ∷ es) = replay (update_state st e.order_id e.to_state) es

  -- Each entry starts from the state that the entries before it lead to.
  abbrev pub IsChained : States → List (OrderEvent F) → Type 0
  IsChained st [] = Unit
  IsChained st (e ∷ es) =
      (st e.order_id ≡ e.from_state)
      × IsStep e.from_state e.to_state e.reason
      × IsChained (update_state st e.order_id e.to_state) es

  abbrev pub state_of : Option (BrokerOrder F) → Option OrderState
  state_of none = none
  state_of (some o) = some o.status

  -- The journal is a history of allowed transitions and of fill progress, and it ends in the states
  -- of the table.
  abbrev pub Agree : List (BrokerOrder F) → List (OrderEvent F) → Type 0
  Agree orders events =
      ((k : Text) → state_of (find (has_order_id k) orders) ≡ replay nothing_known events k)
      × IsChained nothing_known events

  -- The order id is the primary key.
  abbrev pub IsKeyed : List (BrokerOrder F) → Type 0
  IsKeyed [] = Unit
  IsKeyed (o ∷ os) = (find (has_order_id o.order_id) os ≡ none) × IsKeyed os

  pub record IsAudited (db : Db F) : Type 0 where
    pub keyed : IsKeyed db.broker_orders
    pub agrees : Agree db.broker_orders db.order_events

  replay-append :
      (st : States) (es : List (OrderEvent F)) (e : OrderEvent F) (k : Text)
      → replay st (es ++ (e ∷ [])) k ≡ update_state (replay st es) e.order_id e.to_state k
  replay-append st [] e k = refl
  replay-append st (x ∷ es) e k = replay-append (update_state st x.order_id x.to_state) es e k

  IsChained-append :
      (st : States) (es : List (OrderEvent F)) (e : OrderEvent F)
      → IsChained st es
      → replay st es e.order_id ≡ e.from_state
      → IsStep e.from_state e.to_state e.reason
      → IsChained st (es ++ (e ∷ []))
  IsChained-append st [] e h f s = (f, s, tt)
  IsChained-append st (x ∷ es) e h f s =
      (h.0, h.1, IsChained-append (update_state st x.order_id x.to_state) es e h.2 f s)

  pub find-upsert :
      (row : BrokerOrder F) (os : List (BrokerOrder F)) (k : Text)
      → state_of (find (has_order_id k) (upsert row os))
        ≡ (if row.order_id == k then some row.status else state_of (find (has_order_id k) os))
  find-upsert row [] k = ground arith
  find-upsert row (o ∷ os) k = ground (arith, find-upsert row os k)

  find-none-upsert :
      (row : BrokerOrder F) (os : List (BrokerOrder F)) (k : Text)
      → find (has_order_id k) os ≡ none
      → k ≢ row.order_id
      → find (has_order_id k) (upsert row os) ≡ none
  find-none-upsert row [] k h n = ground arith
  find-none-upsert row (o ∷ os) k h n = ground (arith, find-none-upsert row os k)

  upsert-IsKeyed :
      (row : BrokerOrder F) (os : List (BrokerOrder F)) → IsKeyed os → IsKeyed (upsert row os)
  upsert-IsKeyed row [] h = (refl, tt)
  upsert-IsKeyed row (o ∷ os) h =
      ground (arith, upsert-IsKeyed row os h.1, find-none-upsert row os o.order_id)

  -- One saved transition keeps the journal true of the table.
  append-Agree :
      (orders : List (BrokerOrder F)) (events : List (OrderEvent F)) (row : BrokerOrder F)
      (e : OrderEvent F)
      → Agree orders events
      → row.order_id ≡ e.order_id
      → row.status ≡ e.to_state
      → state_of (find (has_order_id e.order_id) orders) ≡ e.from_state
      → IsStep e.from_state e.to_state e.reason
      → Agree (upsert row orders) (events ++ (e ∷ []))
  append-Agree orders events row e h i s f st = (
    λ k.
        find-upsert row orders k
        ∙ (ground (arith, h.0 k) ∙ sym (replay-append nothing_known events e k)),
    IsChained-append nothing_known events e h.1 (sym (h.0 e.order_id) ∙ f) st,
  )

  -- What a committed transition has written.
  pub save_lem :
      (order : BrokerOrder F) (from_state : Option OrderState) (to_state : OrderState)
      (reason : Reason) (stamp : Stamp) (db db' : Db F)
      → save_broker_order_with_transition order from_state to_state reason
          (some order_state)
          stamp
          db
        ≡ ok db'
      → (db'.broker_orders
          ≡ upsert (record order { status = to_state; updated_at = stamp.now }) db.broker_orders)
        × (db'.order_events
            ≡ db.order_events ++ (transition_event order from_state to_state reason stamp ∷ []))
  unfolding save_broker_order_with_transition
  save_lem order from_state to_state reason stamp db db' h = ground arith

  transact-IsAudited :
      (order : BrokerOrder F) (from_state : Option OrderState) (to_state : OrderState)
      (reason : Reason) (stamp : Stamp) (db : Db F) (r : Result (Db F))
      → save_broker_order_with_transition order from_state to_state reason
          (some order_state)
          stamp
          db
        ≡ r
      → IsAudited db
      → state_of (find (has_order_id order.order_id) db.broker_orders) ≡ from_state
      → IsStep from_state to_state reason
      → IsAudited (transact db r).1
  transact-IsAudited order from_state to_state reason stamp db (ok db') e h f st =
      let (os, es) = save_lem order from_state to_state reason stamp db db' e in
      record {
        keyed = rw os (
            upsert-IsKeyed (record order { status = to_state; updated_at = stamp.now })
              db.broker_orders h.keyed);
        agrees =
            rw (os, es)
              (append-Agree db.broker_orders db.order_events
                (record order { status = to_state; updated_at = stamp.now })
                (transition_event order from_state to_state reason stamp) h.agrees refl refl f st);
      }
  transact-IsAudited order from_state to_state reason stamp db (err x) e h f st = h

  pub save_transition-IsAudited :
      (order : BrokerOrder F) (from_state : Option OrderState) (to_state : OrderState)
      (reason : Reason) (stamp : Stamp) (s : Oms F)
      → IsAudited s.repo
      → state_of (find (has_order_id order.order_id) s.repo.broker_orders) ≡ from_state
      → IsStep from_state to_state reason
      → IsAudited (save_transition order from_state to_state reason stamp s).1.repo
  save_transition-IsAudited order from_state to_state reason stamp s h f st =
      transact-IsAudited order from_state to_state reason stamp s.repo _ refl h f st

  transact_state :
      (order : BrokerOrder F) (from_state : Option OrderState) (to_state : OrderState)
      (reason : Reason) (stamp : Stamp) (db : Db F) (r : Result (Db F)) {u : Unit {0}}
      → save_broker_order_with_transition order from_state to_state reason
          (some order_state)
          stamp
          db
        ≡ r
      → (transact db r).0 ≡ ok u
      → state_of (find (has_order_id order.order_id) (transact db r).1.broker_orders)
        ≡ some to_state
  transact_state order from_state to_state reason stamp db (ok db') e h =
      rw (save_lem order from_state to_state reason stamp db db' e).0 (
        find-upsert (record order { status = to_state; updated_at = stamp.now }) db.broker_orders
          order.order_id
        ∙ ground arith)
  transact_state order from_state to_state reason stamp db (err x) e h = cc

  -- A transition that was saved shows in the table.
  pub save_transition-state :
      (order : BrokerOrder F) (from_state : Option OrderState) (to_state : OrderState)
      (reason : Reason) (stamp : Stamp) (s : Oms F) {u : Unit {0}}
      → (save_transition order from_state to_state reason stamp s).0 ≡ ok u
      → state_of (
          find
            (has_order_id order.order_id)
            (save_transition order from_state to_state reason stamp s).1.repo.broker_orders)
        ≡ some to_state
  save_transition-state order from_state to_state reason stamp s h =
      transact_state order from_state to_state reason stamp s.repo _ refl h
