-- ===== src/Oms/Stable.antt =====
-- Properties of the OMS that every saved transition keeps, next to the audit journal.
use mathlib.Core.List.{Memᴰ}
use icici_breeze_api_trading.Prelude.{
  ◌≡◌, refl, inl, inr, Option, none, some, List, [], ◌∷◌, find, arith, Bool-cases,
}
use icici_breeze_api_trading.Prelude.Result.{Result, ok, err, transact}
use icici_breeze_api_trading.Prelude.Action.{Action, lift, ◌>>◌, bind_keeps, finish}
use icici_breeze_api_trading.Contracts.{Message, Text, BrokerOrder, OrderIntent, OrderState}
use icici_breeze_api_trading.Oms.StateMachine.{can_transition, validate_transition}
use icici_breeze_api_trading.Oms.Repository.{Db, Stamp, Reason, has_order_id, save_order_intent}
use icici_breeze_api_trading.Oms.Service.{Oms, save_transition, in_transaction, publish}
use icici_breeze_api_trading.Oms.Journal.{
  IsAudited, IsKeyed, IsStep, state_of, save_transition-IsAudited,
}

module _ {F : Type 0} where
  -- A row of the table is the one that its primary key finds.
  pub find_own :
      (os : List (BrokerOrder F)) {o : BrokerOrder F}
      → IsKeyed os
      → Memᴰ o os
      → state_of (find (has_order_id o.order_id) os) ≡ some o.status
  find_own [] k m = elim m [ ]
  find_own (x ∷ os) {o} k (Memᴰ.head e) = rw e (ground arith)
  find_own (x ∷ os) {o} k (Memᴰ.tail m) = elim (Bool-cases (has_order_id o.order_id x)) [
    | inl e ↦ ground (arith, find_own os k.1 m)
    | inr e ↦ ground (arith, find_own os k.1 m)
  ]

  pub intent_saved :
      (i : OrderIntent F) (id : Text) (db : Db F) (r : Result (Db F))
      → save_order_intent i id db ≡ r
      → ((transact db r).1.broker_orders ≡ db.broker_orders)
        × ((transact db r).1.order_events ≡ db.order_events)
  unfolding save_order_intent
  intent_saved i id db (ok db') e = ground arith
  intent_saved i id db (err x) e = (refl, refl)

  -- A property that saved transitions, saved intents and published messages keep.
  pub record IsStable (P : Oms F → Type 0) : Type 0 where
    pub saves :
        (order : BrokerOrder F) (from_state : Option OrderState) (to_state : OrderState)
        (reason : Reason) (stamp : Stamp) (s : Oms F)
        → IsAudited s.repo
        → P s
        → state_of (find (has_order_id order.order_id) s.repo.broker_orders) ≡ from_state
        → IsStep from_state to_state reason
        → P (save_transition order from_state to_state reason stamp s).1
    pub intents :
        (i : OrderIntent F) (id : Text) (s : Oms F)
        → P s
        → P (in_transaction (save_order_intent i id) s).1
    pub posts : (m : Message F) (s : Oms F) → P s → P (publish m s).1

  pub record Kept (P : Oms F → Type 0) (s : Oms F) : Type 0 where
    pub audited : IsAudited s.repo
    pub kept : P s

module _ {F : Type 0} {P : Oms F → Type 0} (st : IsStable P) where
  pub saved_keeps :
      (order : BrokerOrder F) (from_state : Option OrderState) (to_state : OrderState)
      (reason : Reason) (stamp : Stamp) (s : Oms F)
      → Kept P s
      → state_of (find (has_order_id order.order_id) s.repo.broker_orders) ≡ from_state
      → IsStep from_state to_state reason
      → Kept P (save_transition order from_state to_state reason stamp s).1
  saved_keeps order from_state to_state reason stamp s h f p = record {
    audited = save_transition-IsAudited order from_state to_state reason stamp s h.audited f p;
    kept = st.saves order from_state to_state reason stamp s h.audited h.kept f p;
  }

  pub posted_keeps : (m : Message F) (s : Oms F) → Kept P s → Kept P (publish m s).1
  posted_keeps m s h = record { audited = h.audited; kept = st.posts m s h.kept }

  abbrev pub Keeps : {A : Type 0} → Action (Oms F) A → Type 0
  Keeps k = (t : Oms F) → Kept P t → Kept P (k t).1

  -- A transition that is checked first and saved then.
  pub transition-Keeps :
      {A : Type 0} (old order : BrokerOrder F) (to_state : OrderState) (reason : Reason)
      (stamp : Stamp) (k : Action (Oms F) A) (s : Oms F)
      → Kept P s
      → Memᴰ old s.repo.broker_orders
      → order.order_id ≡ old.order_id
      → Keeps k
      → Kept P
          ((lift (validate_transition old.status to_state)
              >> (save_transition order (some old.status) to_state reason stamp >> k))
            s).1
  unfolding validate_transition
  transition-Keeps old order to_state reason stamp k s h m same keep =
      elim (Bool-cases (can_transition old.status to_state)) [
        | inl e ↦
            rw (e, finish)
              (bind_keeps (Kept P) (save_transition order (some old.status) to_state reason stamp)
                (λ _. k) s
                (saved_keeps order (some old.status) to_state reason stamp s h
                  (rw same (find_own s.repo.broker_orders h.audited.keyed m)) (inl e))
                (λ _ t. keep t))
        | inr e ↦ rw (e, finish) h
      ]

  -- An optional row that a search has found stands in the table.
  pub find_keeps :
      {A : Type 0} (f : Option (BrokerOrder F) → Action (Oms F) A) (r : Option (BrokerOrder F))
      (s : Oms F)
      → Kept P s
      → (f none s).1 ≡ s
      → ((o : BrokerOrder F) → r ≡ some o → Memᴰ o s.repo.broker_orders)
      → ((o : BrokerOrder F) → Memᴰ o s.repo.broker_orders → Kept P (f (some o) s).1)
      → Kept P (f r s).1
  find_keeps f none s h e mem k = rw e h
  find_keeps f (some o) s h e mem k = k o (mem o refl)
