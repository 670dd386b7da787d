-- ===== src/PaperBroker/Book.antt =====
-- The positions of the simulated broker against its trades.
use icici_breeze_api_trading.Prelude.{
  ◌≡◌, refl, sym, true, false, ◌&&◌, Option, none, some, List, [], ◌∷◌, ◌++◌, inl, inr, ◌==◌,
  ==_iff, if◌then◌else◌, Bool-cases,
}
use icici_breeze_api_trading.Prelude.Int.{ℤ, pos, ◌+ℤ◌, ◌-ℤ◌, int_laws}
use icici_breeze_api_trading.Prelude.Float.{Float}
use icici_breeze_api_trading.Prelude.Dict.{get_key, get_key-put_key}
use icici_breeze_api_trading.Contracts.{
  Text, OrderSide, buy, sell, market, limit, stop_limit, OrderType,
}
use icici_breeze_api_trading.Execution.Requests.{BrokerRequest}
use icici_breeze_api_trading.PaperBroker.{
  PaperPosition, PaperTrade, PaperBroker, PaperStamp, PaperOrder, is_buy, booked, position_or,
  fill_price, fill, execute, triggered, trade_of, rest_order, place_order, place_typed,
  modify_order, modify_found, cancel_order, cancel_found, is_filled, new_broker,
  set_mock_market_price,
}

abbrev pub side_amount : OrderSide → OrderSide → ℤ → ℤ
side_amount buy buy n = n
side_amount sell sell n = n
side_amount _ _ n = pos 0

module _ {F : Type 0} where
  -- What the trades of a symbol bought or sold, and what is left of them.
  abbrev pub bought_or_sold : OrderSide → Text → List (PaperTrade F) → ℤ
  bought_or_sold side k [] = pos 0
  bought_or_sold side k (t ∷ ts) =
      let rest = bought_or_sold side k ts in
      if t.stock_code == k then side_amount side t.action t.quantity +ℤ rest else rest

  abbrev pub net : Text → List (PaperTrade F) → ℤ
  net k ts = bought_or_sold buy k ts -ℤ bought_or_sold sell k ts

+ℤ_zero : (a : ℤ) → a +ℤ pos 0 ≡ a
+ℤ_zero a = omega int_laws

zero_+ℤ : (a : ℤ) → pos 0 +ℤ a ≡ a
zero_+ℤ a = omega int_laws

module _ {F : Type 0} where
  abbrev added : OrderSide → Text → PaperTrade F → ℤ
  added side k t = if t.stock_code == k then side_amount side t.action t.quantity else pos 0

  amount_append :
      (side : OrderSide) (k : Text) (ts : List (PaperTrade F)) (t : PaperTrade F)
      → bought_or_sold side k (ts ++ (t ∷ [])) ≡ bought_or_sold side k ts +ℤ added side k t
  amount_append side k [] t = elim (Bool-cases (t.stock_code == k)) [
    | inl e ↦ rw e (omega int_laws)
    | inr e ↦ rw e (omega int_laws)
  ]
  amount_append side k (u ∷ ts) t = elim (Bool-cases (u.stock_code == k)) [
    | inl e ↦ rw (e, amount_append side k ts t) (omega int_laws)
    | inr e ↦ rw (e, amount_append side k ts t) refl
  ]

  -- The position holds what the trades bought, what they sold and the difference.
  pub record Matches (p : PaperPosition F) (k : Text) (ts : List (PaperTrade F)) : Type 0 where
    pub bought : p.buy_qty ≡ bought_or_sold buy k ts
    pub sold : p.sell_qty ≡ bought_or_sold sell k ts
    pub held : p.quantity ≡ net k ts

  -- A trade of another symbol.
  Matches-other :
      (p : PaperPosition F) (k : Text) (ts : List (PaperTrade F)) (t : PaperTrade F)
      → (t.stock_code == k) ≡ false
      → Matches p k ts
      → Matches p k (ts ++ (t ∷ []))
  Matches-other p k ts t e m = record {
    bought = rw (amount_append buy k ts t, e, +ℤ_zero (bought_or_sold buy k ts)) m.bought;
    sold = rw (amount_append sell k ts t, e, +ℤ_zero (bought_or_sold sell k ts)) m.sold;
    held =
        rw
          (
            amount_append buy k ts t,
            amount_append sell k ts t,
            e,
            +ℤ_zero (bought_or_sold buy k ts),
            +ℤ_zero (bought_or_sold sell k ts),
          )
          m.held;
  }

module _ {F : Type 0} ⦃fl : Float F⦄ where
  Matches-own :
      (side : OrderSide) (price cost : F) (p : PaperPosition F) (k : Text)
      (ts : List (PaperTrade F)) (t : PaperTrade F)
      → t.action ≡ side
      → (t.stock_code == k) ≡ true
      → Matches p k ts
      → Matches (booked side t.quantity price cost p) k (ts ++ (t ∷ []))
  Matches-own buy price cost p k ts t a e m = record {
    bought = rw (amount_append buy k ts t, e, a, m.bought) refl;
    sold = rw (amount_append sell k ts t, e, a, m.sold) (sym (+ℤ_zero (bought_or_sold sell k ts)));
    held = rw (amount_append buy k ts t, amount_append sell k ts t, e, a, m.held) (omega int_laws);
  }
  Matches-own sell price cost p k ts t a e m = record {
    bought =
        rw (amount_append buy k ts t, e, a, m.bought) (sym (+ℤ_zero (bought_or_sold buy k ts)));
    sold = rw (amount_append sell k ts t, e, a, m.sold) refl;
    held = rw (amount_append buy k ts t, amount_append sell k ts t, e, a, m.held) (omega int_laws);
  }

  abbrev pub IsBooked : PaperBroker F → Type 0
  IsBooked b = (k : Text) → Matches (position_or (get_key k b.positions)) k b.trades

  fill-IsBooked :
      (r : BrokerRequest F) (stamp : PaperStamp) (price : F) (b : PaperBroker F)
      → IsBooked b
      → IsBooked (fill r stamp price b)
  fill-IsBooked r stamp price b m k = elim (Bool-cases (r.stock_code == k)) [
    | inl e ↦
        rw (get_key-put_key k r.stock_code _ b.positions, e)
          (Matches-own r.action price _ (position_or (get_key r.stock_code b.positions)) k b.trades
            (trade_of r stamp price) refl e (rw ((==_iff r.stock_code k).0 e) (m k)))
    | inr e ↦
        rw (get_key-put_key k r.stock_code _ b.positions, e)
          (Matches-other (position_or (get_key k b.positions)) k b.trades (trade_of r stamp price) e
            (m k))
  ]

  execute-IsBooked :
      (r : BrokerRequest F) (stamp : PaperStamp) (price : F) (b : PaperBroker F)
      → IsBooked b
      → IsBooked (execute r stamp price b).1
  execute-IsBooked r stamp price b m =
      elim (Bool-cases (
        is_buy r.action
        && fl.lt (fl.sub b.total_cash b.used_margin) (fl.mul price (fl.of_int r.quantity)))) [
          | inl e ↦ rw e m
          | inr e ↦ rw e (fill-IsBooked r stamp price b m)
        ]

  rest_order-IsBooked :
      (r : BrokerRequest F) (stamp : PaperStamp) (b : PaperBroker F)
      → IsBooked b
      → IsBooked (rest_order r stamp b).1
  rest_order-IsBooked r stamp b m = elim (Bool-cases (triggered r.trigger_price)) [
    | inl e ↦ rw e m
    | inr e ↦ rw e m
  ]

  place_typed-IsBooked :
      (o : OrderType) (r : BrokerRequest F) (stamp : PaperStamp) (b : PaperBroker F)
      → IsBooked b
      → IsBooked (place_typed o r stamp b).1
  place_typed-IsBooked stop_limit r stamp b m = rest_order-IsBooked r stamp b m
  place_typed-IsBooked market r stamp b m = execute-IsBooked r stamp (fill_price r b) b m
  place_typed-IsBooked limit r stamp b m = execute-IsBooked r stamp (fill_price r b) b m

  modify_found-IsBooked :
      (o : Option (PaperOrder F)) (id : Text) (quantity : Option ℤ) (price : Option F)
      (b : PaperBroker F)
      → IsBooked b
      → IsBooked (modify_found o id quantity price b).1
  modify_found-IsBooked none id quantity price b m = m
  modify_found-IsBooked (some o) id quantity price b m = elim (Bool-cases (is_filled o.status)) [
    | inl e ↦ rw e m
    | inr e ↦ rw e m
  ]

  cancel_found-IsBooked :
      (o : Option (PaperOrder F)) (id : Text) (b : PaperBroker F)
      → IsBooked b
      → IsBooked (cancel_found o id b).1
  cancel_found-IsBooked none id b m = m
  cancel_found-IsBooked (some o) id b m = m

-- A call that changes the broker.
pub data PaperOp (F : Type 0) : Type 0 where
  place : BrokerRequest F → PaperStamp → PaperOp F
  modify : Text → Option ℤ → Option F → PaperOp F
  cancel : Text → PaperOp F
  quote : Text → F → PaperOp F

module _ {F : Type 0} ⦃fl : Float F⦄ where
  unfoldable pub perform : PaperOp F → PaperBroker F → PaperBroker F
  unfolding place_order modify_order cancel_order set_mock_market_price
  perform (place r stamp) b = (place_order r stamp b).1
  perform (modify id quantity price) b = (modify_order id quantity price b).1
  perform (cancel id) b = (cancel_order id b).1
  perform (quote symbol price) b = set_mock_market_price symbol price b

  unfoldable pub perform_all : List (PaperOp F) → PaperBroker F → PaperBroker F
  unfolding perform
  perform_all [] b = b
  perform_all (op ∷ ops) b = perform_all ops (perform op b)

  perform-IsBooked : (op : PaperOp F) (b : PaperBroker F) → IsBooked b → IsBooked (perform op b)
  unfolding perform
  perform-IsBooked (place r stamp) b m = place_typed-IsBooked r.order_type r stamp b m
  perform-IsBooked (modify id quantity price) b m = modify_found-IsBooked _ id quantity price b m
  perform-IsBooked (cancel id) b m = cancel_found-IsBooked _ id b m
  perform-IsBooked (quote symbol price) b m = m

  perform_all-kept :
      (ops : List (PaperOp F)) (b : PaperBroker F) → IsBooked b → IsBooked (perform_all ops b)
  unfolding perform_all
  perform_all-kept [] b m = m
  perform_all-kept (op ∷ ops) b m = perform_all-kept ops (perform op b) (perform-IsBooked op b m)

  -- After any orders, modifications, cancellations and price updates from a simulated broker that
  -- has traded nothing, the position of each symbol has bought and sold what the trades of the
  -- symbol did, and holds the difference.
  pub perform_all-IsBooked :
      (ops : List (PaperOp F)) (cash : F) → IsBooked (perform_all ops (new_broker cash))
  perform_all-IsBooked ops cash =
      perform_all-kept ops (new_broker cash)
        (λ k. record { bought = refl; sold = refl; held = no_net })
    where
      no_net : pos 0 ≡ pos 0 -ℤ pos 0
      no_net = omega int_laws
