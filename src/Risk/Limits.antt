-- ===== src/Risk/Limits.antt =====
-- What the checks of `evaluate_intent` in services/risk/service.py let through.
use icici_breeze_api_trading.Prelude.{
  ◌≡◌, refl, ◌≢◌, ◌⊎◌, inl, inr, true, false, Option, none, some, List, arith, Option-cases,
}
use icici_breeze_api_trading.Prelude.Int.{ℤ, pos, ◌≤ℤ◌}
use icici_breeze_api_trading.Prelude.Float.{Float}
use icici_breeze_api_trading.Contracts.{
  SystemMode, OrderIntent, Rule, normal, live, buy, sell, market, stop_limit,
}
use icici_breeze_api_trading.LiveGate.{validate_live_order}
use icici_breeze_api_trading.Risk.Inputs.{RiskConfig, Services, Broker, BrokerPosition}
use icici_breeze_api_trading.Risk.Checks.{
  ◌or_else◌, is_exit, shape_check, exit_check, held_quantity, live_entry_check, mode_check,
  quantity_check, market_check, stop_check, trigger_of, tick, price_check, order_notional,
  open_count, exposure_check, static_check,
}

or_else-none : (a b : Option Rule) → (a or_else b) ≡ none → (a ≡ none) × (b ≡ none)
or_else-none none b h = (refl, h)
or_else-none (some r) b h = cc

-- What `static_check` lets through; an order between floats is stated as the comparison that must
-- fail, so that nothing is claimed of NaN.
module _ {F : Type 0} ⦃fl : Float F⦄ where
  open fl use {lt, le}

  -- The broker's answers allow a LIVE buy.
  pub record IsAffordable (cfg : RiskConfig F) (v : Services F) (i : OrderIntent F) : Type 0 where
    pub broker : Broker F
    pub positions : List (BrokerPosition F)
    pub margin : F
    pub reachable : v.broker_gateway ≡ some broker
    pub positions_known : broker.positions ≡ some positions
    pub margin_known : broker.available_margin ≡ some margin
    pub within_notional : lt cfg.live_max_order_notional (order_notional i) ≡ false
    pub within_positions : ¬ (cfg.live_max_open_positions ≤ℤ open_count positions)
    pub within_margin : lt margin (order_notional i) ≡ false

  pub record IsSafe (cfg : RiskConfig F) (v : Services F) (mode : SystemMode) (i : OrderIntent F)
      : Type 0 where
    pub at_least_one : pos 1 ≤ℤ i.quantity
    pub at_most_limit : i.quantity ≤ℤ cfg.max_order_qty
    pub price_above_tick : le i.price tick ≡ false
    pub reduce_only_sells : i.reduce_only ≡ true → i.side ≡ sell
    pub exit_covered :
        is_exit i ≡ true → (held : ℤ) × (held_quantity cfg v i ≡ some held) × (i.quantity ≤ℤ held)
    pub mode_allows : (mode ≡ normal) ⊎ (is_exit i ≡ true)
    pub live_is_bounded : i.trading_mode ≡ live → i.order_type ≢ market
    pub live_sell_is_exit : i.trading_mode ≡ live → i.side ≡ sell → i.reduce_only ≡ true
    pub live_entry_healthy :
        i.trading_mode ≡ live
        → i.side ≡ buy
        → (v.session_connected ≡ some true)
          × (v.feed_healthy ≡ some true)
          × (validate_live_order v.gate_now cfg.live_account_id v.live_gate ≡ true)
    pub live_entry_affordable : i.trading_mode ≡ live → i.side ≡ buy → IsAffordable cfg v i
    pub stop_trigger_above_tick :
        i.order_type ≡ stop_limit → le (trigger_of i.trigger_price) tick ≡ false
    pub stop_buy_above :
        i.order_type ≡ stop_limit → i.side ≡ buy → lt i.price (trigger_of i.trigger_price) ≡ false
    pub stop_sell_below :
        i.order_type ≡ stop_limit → i.side ≡ sell → lt (trigger_of i.trigger_price) i.price ≡ false

  module _ (cfg : RiskConfig F) (v : Services F) (mode : SystemMode) (i : OrderIntent F) where
    shape_lem :
        shape_check i ≡ none
        → (i.reduce_only ≡ true → i.side ≡ sell)
          × (i.trading_mode ≡ live → i.side ≡ sell → i.reduce_only ≡ true)
    unfolding shape_check
    shape_lem h = ground arith

    exit_lem :
        exit_check cfg v i ≡ none
        → is_exit i ≡ true
        → (held : ℤ) × (held_quantity cfg v i ≡ some held) × (i.quantity ≤ℤ held)
    unfolding exit_check
    exit_lem h x = elim (Option-cases (held_quantity cfg v i)) [
      | inl e ↦ ground arith
      | inr (q, e) ↦ (q, e, ground arith)
    ]

    live_lem :
        live_entry_check cfg v i ≡ none
        → i.trading_mode ≡ live
        → i.side ≡ buy
        → (v.session_connected ≡ some true)
          × (v.feed_healthy ≡ some true)
          × (validate_live_order v.gate_now cfg.live_account_id v.live_gate ≡ true)
    unfolding live_entry_check
    live_lem h l b = ground arith

    mode_lem : mode_check mode i ≡ none → (mode ≡ normal) ⊎ (is_exit i ≡ true)
    unfolding mode_check
    mode_lem h = ground arith

    quantity_lem :
        quantity_check cfg i ≡ none → (pos 1 ≤ℤ i.quantity) × (i.quantity ≤ℤ cfg.max_order_qty)
    unfolding quantity_check
    quantity_lem h = ground arith

    stop_lem :
        stop_check i ≡ none
        → (i.order_type ≡ stop_limit → le (trigger_of i.trigger_price) tick ≡ false)
          × (i.order_type ≡ stop_limit
              → i.side ≡ buy
              → lt i.price (trigger_of i.trigger_price) ≡ false)
          × (i.order_type ≡ stop_limit
              → i.side ≡ sell
              → lt (trigger_of i.trigger_price) i.price ≡ false)
    unfolding stop_check
    stop_lem h = ground arith

    price_lem : price_check i ≡ none → le i.price tick ≡ false
    unfolding price_check
    price_lem h = ground arith

    exposure_lem :
        exposure_check cfg v i ≡ none → i.trading_mode ≡ live → i.side ≡ buy → IsAffordable cfg v i
    unfolding exposure_check
    exposure_lem h l b = elim (Option-cases v.broker_gateway) [
      | inl e ↦ absurd (ground arith)
      | inr (k, e) ↦ elim (Option-cases k.positions) [
        | inl p ↦ absurd (ground arith)
        | inr (ps, p) ↦ elim (Option-cases k.available_margin) [
          | inl m ↦ absurd (ground arith)
          | inr (x, m) ↦ record {
            broker = k;
            positions = ps;
            margin = x;
            reachable = e;
            positions_known = p;
            margin_known = m;
            within_notional = ground arith;
            within_positions = ground arith;
            within_margin = ground arith;
          }
        ]
      ]
    ]

    pub static_check-IsSafe : static_check cfg v mode i ≡ none → IsSafe cfg v mode i
    unfolding static_check
    static_check-IsSafe h =
        let (c1, r1) = or_else-none (shape_check i) _ h in
        let (c2, r2) = or_else-none (exit_check cfg v i) _ r1 in
        let (c3, r3) = or_else-none (live_entry_check cfg v i) _ r2 in
        let (c4, r4) = or_else-none (mode_check mode i) _ r3 in
        let (c5, r5) = or_else-none (quantity_check cfg i) _ r4 in
        let (c6, r6) = or_else-none (market_check i) _ r5 in
        let (c7, r7) = or_else-none (stop_check i) _ r6 in
        let (c8, c9) = or_else-none (price_check i) _ r7 in
        record {
          at_least_one = (quantity_lem c5).0;
          at_most_limit = (quantity_lem c5).1;
          price_above_tick = price_lem c8;
          reduce_only_sells = (shape_lem c1).0;
          exit_covered = exit_lem c2;
          mode_allows = mode_lem c4;
          live_is_bounded = λ l m. ground arith;
          live_sell_is_exit = (shape_lem c1).1;
          live_entry_healthy = live_lem c3;
          live_entry_affordable = exposure_lem c9;
          stop_trigger_above_tick = (stop_lem c7).0;
          stop_buy_above = (stop_lem c7).1;
          stop_sell_below = (stop_lem c7).2;
        }
