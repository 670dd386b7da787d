-- ===== src/Risk/Checks.antt =====
-- The sequential checks of `evaluate_intent` in services/risk/service.py. A check returns the rule
-- of the rejection, or nothing where the intent passes on to the next one. What the other services
-- answer during the evaluation is a record; a missing service is `none`, and so is an answer that
-- raised.
use icici_breeze_api_trading.Prelude.{
  Bool, true, false, not, ◌&&◌, ◌||◌, Option, none, some, List, [], ◌∷◌, ◌==◌, if◌then◌else◌, keep,
  length,
}
use icici_breeze_api_trading.Prelude.Int.{ℤ, pos, ◌+ℤ◌, ltb_ℤ, leb_ℤ, max_ℤ}
use icici_breeze_api_trading.Prelude.Float.{Float, zero_f, or_f}
use icici_breeze_api_trading.Contracts.{
  Text, SystemMode, OrderSide, OrderType, OrderIntent, Rule, is_live, is_buy, is_sell, normal,
  entry_blocked, exit_only, halted, market, stop_limit, invalid_reduce_only,
  live_naked_sell_disabled, reduce_only_position_unverified, reduce_only_quantity_exceeded,
  live_broker_session_unverified, live_broker_session_disconnected, live_market_data_unverified,
  live_market_data_stale_or_down, live_trading_not_authorized, system_halted, exit_only_rule,
  entry_blocked_rule, max_order_quantity, live_market_order_disabled, stop_trigger_invalid,
  stop_limit_price_invalid, price_sanity, live_risk_dependency_unavailable,
  live_order_notional_limit, live_positions_unavailable, live_open_position_limit,
  live_funds_unavailable, live_insufficient_margin,
}
use icici_breeze_api_trading.LiveGate.{validate_live_order}
use icici_breeze_api_trading.Risk.Inputs.{
  RightWord, ce, call, pe, put, BrokerPosition, OptionIdentity, Broker, RiskConfig, Services,
}

abbrev right_matches : Bool → RightWord → Bool
right_matches true ce = true
right_matches true call = true
right_matches false pe = true
right_matches false put = true
right_matches _ _ = false

-- `first` if it rejects, otherwise `second`.
infixr 30 ◌or_else◌
abbrev pub ◌or_else◌ : Option Rule → Option Rule → Option Rule
none or_else r = r
some x or_else r = some x

abbrev pub reject_if : Bool → Rule → Option Rule
reject_if b r = if b then some r else none

abbrev mode_rule : SystemMode → Option Rule
mode_rule normal = none
mode_rule entry_blocked = some entry_blocked_rule
mode_rule exit_only = some exit_only_rule
mode_rule halted = some system_halted

abbrev reject_unless : Option Bool → Rule → Rule → Option Rule
reject_unless none missing refused = some missing
reject_unless (some b) missing refused = reject_if (not b) refused

abbrev is_market : OrderType → Bool
is_market market = true
is_market _ = false

abbrev is_stop_limit : OrderType → Bool
is_stop_limit stop_limit = true
is_stop_limit _ = false

abbrev quantity_or_zero : Option ℤ → ℤ
quantity_or_zero none = pos 0
quantity_or_zero (some q) = q

abbrev held_in_portfolio : Text → Option (Text → Option ℤ) → Option ℤ
held_in_portfolio id none = none
held_in_portfolio id (some position) = some (quantity_or_zero (position id))

abbrev exit_covered : ℤ → Option ℤ → Option Rule
exit_covered q none = some reduce_only_position_unverified
exit_covered q (some held) =
    reject_if (leb_ℤ held (pos 0) || ltb_ℤ held q) reduce_only_quantity_exceeded

module _ {F : Type 0} where
  -- `is_reduce_only_exit`
  abbrev pub is_exit : OrderIntent F → Bool
  is_exit i = i.reduce_only && is_sell i.side

  abbrev pub is_live_entry : OrderIntent F → Bool
  is_live_entry i = is_live i.trading_mode && not (is_exit i)

  unfoldable pub shape_check : OrderIntent F → Option Rule
  shape_check i =
      reject_if (i.reduce_only && not (is_sell i.side)) invalid_reduce_only
      or_else reject_if (is_live i.trading_mode && is_sell i.side && not (is_exit i))
          live_naked_sell_disabled

  abbrev sum_long : List (BrokerPosition F) → ℤ
  sum_long [] = pos 0
  sum_long (p ∷ ps) = max_ℤ (pos 0) p.quantity +ℤ sum_long ps

module _ {F : Type 0} ⦃fl : Float F⦄ where
  open fl use {lt, le, sub, mul, abs, of_int, literal}

  abbrev strike_matches : F → Option F → Bool
  strike_matches strike none = false
  strike_matches strike (some s) = lt (abs (sub s strike)) (literal 1 9)

  abbrev same_contract : OptionIdentity F → BrokerPosition F → Bool
  same_contract id p =
      p.stock_code == id.underlying
      && strike_matches id.strike p.strike_price
      && right_matches id.is_call p.right
      && p.expiry_day == id.expiry

  abbrev breeze_held : List (BrokerPosition F) → Option (OptionIdentity F) → Option ℤ
  breeze_held ps none = none
  breeze_held ps (some id) = some (sum_long (keep (same_contract id) ps))

  -- `_broker_held_quantity`
  unfoldable pub broker_held_quantity :
      RiskConfig F → OrderIntent F → Bool → List (BrokerPosition F) → Option ℤ
  broker_held_quantity cfg i breeze ps =
      if breeze
      then breeze_held ps (cfg.option_identity i.instrument_id)
      else some (sum_long (keep (λ p. p.stock_code == cfg.upper i.symbol) ps))

  abbrev held_in : RiskConfig F → OrderIntent F → Bool → Option (List (BrokerPosition F)) → Option ℤ
  held_in cfg i breeze none = none
  held_in cfg i breeze (some ps) = broker_held_quantity cfg i breeze ps

  abbrev held_at_broker : RiskConfig F → OrderIntent F → Option (Broker F) → Option ℤ
  held_at_broker cfg i none = none
  held_at_broker cfg i (some b) = held_in cfg i b.is_breeze b.positions

  -- The verified position that an exit reduces; nothing where it cannot be verified.
  unfoldable pub held_quantity : RiskConfig F → Services F → OrderIntent F → Option ℤ
  unfolding broker_held_quantity
  held_quantity cfg v i =
      if is_live i.trading_mode
      then held_at_broker cfg i v.broker_gateway
      else held_in_portfolio i.instrument_id v.portfolio

  unfoldable pub exit_check : RiskConfig F → Services F → OrderIntent F → Option Rule
  exit_check cfg v i = if is_exit i then exit_covered i.quantity (held_quantity cfg v i) else none

  -- The health of the session and of the feed, and the authorization, for LIVE entries.
  unfoldable pub live_entry_check : RiskConfig F → Services F → OrderIntent F → Option Rule
  live_entry_check cfg v i =
      if is_live_entry i
      then reject_unless v.session_connected live_broker_session_unverified
          live_broker_session_disconnected
        or_else reject_unless v.feed_healthy live_market_data_unverified
            live_market_data_stale_or_down
        or_else reject_if (not (validate_live_order v.gate_now cfg.live_account_id v.live_gate))
            live_trading_not_authorized
      else none

  unfoldable pub mode_check : SystemMode → OrderIntent F → Option Rule
  mode_check mode i = if is_exit i then none else mode_rule mode

  unfoldable pub quantity_check : RiskConfig F → OrderIntent F → Option Rule
  quantity_check cfg i =
      reject_if (leb_ℤ i.quantity (pos 0) || ltb_ℤ cfg.max_order_qty i.quantity) max_order_quantity

  abbrev pub market_check : OrderIntent F → Option Rule
  market_check i =
      reject_if (is_live i.trading_mode && is_market i.order_type) live_market_order_disabled

  -- `float(intent.trigger_price or 0.0)`
  abbrev pub trigger_of : Option F → F
  trigger_of none = zero_f
  trigger_of (some t) = or_f t zero_f

  -- 0.05
  abbrev pub tick : F
  tick = literal 5 2

  abbrev wrong_side_of : OrderSide → F → F → Bool
  wrong_side_of side price trigger =
      is_sell side && lt trigger price || is_buy side && lt price trigger

  unfoldable pub stop_check : OrderIntent F → Option Rule
  stop_check i =
      if is_stop_limit i.order_type
      then reject_if (le (trigger_of i.trigger_price) tick) stop_trigger_invalid
        or_else reject_if (wrong_side_of i.side i.price (trigger_of i.trigger_price))
            stop_limit_price_invalid
      else none

  unfoldable pub price_check : OrderIntent F → Option Rule
  price_check i = reject_if (le i.price tick) price_sanity

  abbrev pub order_notional : OrderIntent F → F
  order_notional i = mul i.price (of_int i.quantity)

  abbrev pub open_count : List (BrokerPosition F) → ℤ
  open_count ps = pos (length (keep (λ p. ltb_ℤ (pos 0) p.quantity) ps))

  abbrev positions_check : ℤ → Option (List (BrokerPosition F)) → Option Rule
  positions_check most none = some live_positions_unavailable
  positions_check most (some ps) = reject_if (leb_ℤ most (open_count ps)) live_open_position_limit

  abbrev funds_check : F → Option F → Option Rule
  funds_check notional none = some live_funds_unavailable
  funds_check notional (some margin) = reject_if (lt margin notional) live_insufficient_margin

  abbrev broker_exposure : RiskConfig F → OrderIntent F → Option (Broker F) → Option Rule
  broker_exposure cfg i none = some live_risk_dependency_unavailable
  broker_exposure cfg i (some b) =
      reject_if (lt cfg.live_max_order_notional (order_notional i)) live_order_notional_limit
      or_else positions_check cfg.live_max_open_positions b.positions
      or_else funds_check (order_notional i) b.available_margin

  unfoldable pub exposure_check : RiskConfig F → Services F → OrderIntent F → Option Rule
  exposure_check cfg v i =
      if is_live i.trading_mode && is_buy i.side && not (is_exit i)
      then broker_exposure cfg i v.broker_gateway
      else none

  -- All checks before the throttle, in the order of the code.
  unfoldable pub static_check : RiskConfig F → Services F → SystemMode → OrderIntent F → Option Rule
  unfolding shape_check exit_check live_entry_check mode_check quantity_check stop_check price_check
      exposure_check
  static_check cfg v mode i =
      shape_check i
      or_else exit_check cfg v i
      or_else live_entry_check cfg v i
      or_else mode_check mode i
      or_else quantity_check cfg i
      or_else market_check i
      or_else stop_check i
      or_else price_check i
      or_else exposure_check cfg v i
