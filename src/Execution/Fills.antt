-- ===== src/Execution/Fills.antt =====
-- services/execution/service.py, `reconcile_live_orders`: the fills that a round publishes close the
-- gap between the portfolio and the broker, and nothing else.
use icici_breeze_api_trading.Prelude.{
  ◌≡◌, refl, true, Option, none, some, List, [], ◌∷◌, ◌++◌, arith, Bool-cases, All, All-append,
  keep, inl, inr,
}
use icici_breeze_api_trading.Prelude.Int.{ℤ, pos, ◌+ℤ◌, ◌-ℤ◌, ltb_ℤ, max_ℤ}
use icici_breeze_api_trading.Prelude.Float.{Float}
use icici_breeze_api_trading.Prelude.Result.{Result, ok, err}
use icici_breeze_api_trading.Contracts.{
  BrokerOrder, Message, broker_trade_event, same_state, filled,
}
use icici_breeze_api_trading.Oms.Service.{Oms}
use icici_breeze_api_trading.Oms.Repository.{list_orders}
use icici_breeze_api_trading.Execution.Requests.{BrokerResponse, ExecutionConfig}
use icici_breeze_api_trading.Execution.Reconcile.{
  Evidence, missing_fill, reconcile_pending, broker_evidence, reconcile_order, reconcile_orders,
  reconcile_live_orders, is_reconciled,
}

gap_closed :
    (x c : ℤ) → ltb_ℤ (pos 0) (max_ℤ (pos 0) (c -ℤ x)) ≡ true → x +ℤ max_ℤ (pos 0) (c -ℤ x) ≡ c
unfolding ◌+ℤ◌ ◌-ℤ◌
gap_closed x c h = ground arith

module _ {F : Type 0} where
  -- A published fill is a positive quantity that takes the portfolio from what it has executed to
  -- the cumulative quantity that the fill names.
  abbrev pub IsExactFill : Evidence F → Message F → Type 0
  IsExactFill e (broker_trade_event f) =
      (ltb_ℤ (pos 0) f.quantity ≡ true)
      × (e.executed f.order_id +ℤ f.quantity ≡ f.cumulative_filled_quantity)
  IsExactFill e _ = Unit

module _ {F : Type 0} ⦃fl : Float F⦄ where
  missing_fill-exact :
      (e : Evidence F) (order : BrokerOrder F) (cumulative : ℤ) (price : F)
      → All (IsExactFill e) (missing_fill order (e.executed order.order_id) cumulative price)
  missing_fill-exact e order cumulative price =
      elim (Bool-cases (ltb_ℤ (pos 0) (max_ℤ (pos 0) (cumulative -ℤ e.executed order.order_id)))) [
        | inl h ↦ rw h ((h, gap_closed (e.executed order.order_id) cumulative h), tt)
        | inr h ↦ rw h tt
      ]

  pending-exact :
      (cfg : ExecutionConfig F) (e : Evidence F) (order : BrokerOrder F)
      (r : Result (Option (BrokerResponse F)))
      → All (IsExactFill e) (reconcile_pending cfg e order r)
  pending-exact cfg e order (err _) = tt
  pending-exact cfg e order (ok none) = tt
  pending-exact cfg e order (ok (some resp)) =
      (tt, missing_fill-exact e order resp.filled_quantity _)

  reconcile_order-exact :
      (cfg : ExecutionConfig F) (e : Evidence F) (order : BrokerOrder F)
      → All (IsExactFill e) (reconcile_order cfg e order)
  unfolding reconcile_order
  reconcile_order-exact cfg e order = elim (Bool-cases (same_state order.status filled)) [
    | inl h ↦ rw h (missing_fill-exact e order order.filled_quantity _)
    | inr h ↦ rw h (pending-exact cfg e order (broker_evidence e order))
  ]

  reconcile_orders-exact :
      (cfg : ExecutionConfig F) (e : Evidence F) (os : List (BrokerOrder F))
      → All (IsExactFill e) (reconcile_orders cfg e os)
  unfolding reconcile_orders
  reconcile_orders-exact cfg e [] = tt
  reconcile_orders-exact cfg e (o ∷ os) =
      All-append (IsExactFill e) (reconcile_order cfg e o) (reconcile_orders cfg e os)
        (reconcile_order-exact cfg e o) (reconcile_orders-exact cfg e os)

  -- A round of reconciliation only appends to the bus, and each fill among what it appends is a
  -- positive quantity that takes the portfolio from what it has executed of the order to the
  -- cumulative quantity that the fill names.
  pub reconcile_live_orders-exact :
      (cfg : ExecutionConfig F) (e : Evidence F) (s : Oms F)
      → (ms : List (Message F)) × ((reconcile_live_orders cfg e s).1.bus ≡ s.bus ++ ms)
        × ((reconcile_live_orders cfg e s).1.repo ≡ s.repo)
        × All (IsExactFill e) ms
  unfolding reconcile_live_orders
  reconcile_live_orders-exact cfg e s =
      (_, refl, refl, reconcile_orders-exact cfg e (keep is_reconciled (list_orders 500 s.repo)))
