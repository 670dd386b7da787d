-- ===== src/Oms/Past.antt =====
-- The states of services/oms/state_machine.py that an order does not come back from, once its
-- submission is reserved.
use icici_breeze_api_trading.Prelude.{
  ◌≡◌, refl, sym, ◌≤◌, inl, inr, Option, none, some, List, find, arith, ==_iff, Bool-cases, ◌==◌,
}
use icici_breeze_api_trading.Prelude.Result.{Result, ok, err, transact}
use icici_breeze_api_trading.Contracts.{order_state, Text, BrokerOrder, OrderState}
use icici_breeze_api_trading.Oms.Repository.{
  Db, Stamp, Reason, has_order_id, save_broker_order_with_transition,
}
use icici_breeze_api_trading.Oms.Service.{Oms}
use icici_breeze_api_trading.Oms.Graph.{rank, can_transition_forward}
use icici_breeze_api_trading.Oms.Journal.{IsStep, state_of, find-upsert, save_lem}
use icici_breeze_api_trading.Oms.Stable.{IsStable, intent_saved}

-- The states from the reservation on.
abbrev pub IsPast : Option OrderState → Type 0
IsPast none = ⊥
IsPast (some a) = 3 ≤ rank a

step-IsPast :
    (a : Option OrderState) (b : OrderState) (r : Reason) → IsPast a → IsStep a b r → 3 ≤ rank b
step-IsPast none b r h p = elim h [ ]
step-IsPast (some a) b r h (inl e) = elim (can_transition_forward a b e) [
  | inl up ↦ omega arith
  | inr (p, q) ↦ ground arith
]
step-IsPast (some a) b r h (inr e) = rw (sym e.0) h

module _ {F : Type 0} where
  abbrev pub state_in : Text → Oms F → Option OrderState
  state_in k s = state_of (find (has_order_id k) s.repo.broker_orders)

  abbrev pub Past : Text → Oms F → Type 0
  Past k s = IsPast (state_in k s)

  known :
      (a b : Text) (os : List (BrokerOrder F)) {x : Option OrderState}
      → a ≡ b
      → state_of (find (has_order_id a) os) ≡ x
      → IsPast (state_of (find (has_order_id b) os))
      → IsPast x
  known a b os e f h = rw (← f, e) h

  -- What a saved transition does to the state of each order.
  transact_case :
      (k : Text) (order : BrokerOrder F) (from_state : Option OrderState) (to_state : OrderState)
      (reason : Reason) (stamp : Stamp) (db : Db F) (r : Result (Db F))
      → save_broker_order_with_transition order from_state to_state reason
          (some order_state)
          stamp
          db
        ≡ r
      → state_of (find (has_order_id order.order_id) db.broker_orders) ≡ from_state
      → IsStep from_state to_state reason
      → IsPast (state_of (find (has_order_id k) db.broker_orders))
      → IsPast (state_of (find (has_order_id k) (transact db r).1.broker_orders))
  transact_case k order from_state to_state reason stamp db (ok db') e f p h =
      rw (save_lem order from_state to_state reason stamp db db' e).0 (
        rw
          (find-upsert (record order { status = to_state; updated_at = stamp.now }) db.broker_orders
            k)
          (elim (Bool-cases (order.order_id == k)) [
            | inl c ↦ rw c (
                step-IsPast from_state to_state reason
                  (known order.order_id k db.broker_orders ((==_iff order.order_id k).0 c) f h) p)
            | inr c ↦ rw c h
          ]))
  transact_case k order from_state to_state reason stamp db (err x) e f p h = h

  pub Past-IsStable : (k : Text) → IsStable (Past k)
  Past-IsStable k = record {
    saves = λ order from_state to_state reason stamp s _ h f p.
        transact_case k order from_state to_state reason stamp s.repo _ refl f p h;
    intents = λ i id s h. rw (intent_saved i id s.repo _ refl).0 h;
    posts = λ m s h. h;
  }
