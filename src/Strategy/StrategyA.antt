-- ===== src/Strategy/StrategyA.antt =====
-- services/strategy/position_manager.py: `update_strategy_a_position` and `apply_t1_partial_fill`.
use icici_breeze_api_trading.Prelude.{
  Bool, true, false, not, ◌&&◌, ◌||◌, Option, none, some, ◌==◌, if◌then◌else◌,
}
use icici_breeze_api_trading.Prelude.Int.{ℤ, pos, ◌+ℤ◌, ◌-ℤ◌, ◌*ℤ◌, ltb_ℤ, leb_ℤ, max_ℤ}
use icici_breeze_api_trading.Prelude.Float.{Float, max_f, min_f}
use icici_breeze_api_trading.Prelude.Result.{Result, ok, err, other_error}
use icici_breeze_api_trading.Contracts.{Time}
use icici_breeze_api_trading.Strategy.{
  ActiveTrade, ManagerConfig, ExitReason, protected_breakeven, profit_locked, runner_mode,
  invalid_initial_underlying_r, force_square_off_1515, option_emergency_stop,
  underlying_trailing_stop, underlying_structural_stop, t1_no_partial_one_lot, t1_partial_exit,
  t1_reached_partial_exit, floor_div, floor_mod, or_count, or_price,
}
use icici_breeze_api_trading.Strategy.Flow.{Stage, goes_on, returns, raises, run_stages, ◌>=>◌}
use icici_breeze_api_trading.Strategy.Prices.{
  not_positive, positive, directional, ahead, tighten, at_stop, or_zero,
}
use icici_breeze_api_trading.Strategy.Clock.{is_strategy_a_force_exit_time}

module _ {F : Type 0} ⦃fl : Float F⦄ where
  open fl use {lt, le, sub, mul, div, round, of_int, literal}

  abbrev set_option_price : F → ActiveTrade F → ActiveTrade F
  set_option_price price t =
      if positive price then record t { current_option_price = some price } else t

  abbrev set_unrealized : F → ActiveTrade F → ActiveTrade F
  set_unrealized price t =
      if positive price
      then record t {
        unrealized_pnl = round (mul (sub price t.entry_option_price) (of_int t.quantity)) 2;
      }
      else t

  -- The prices, the multiples of R and the excursions.
  unfoldable pub measure_a : F → F → F → F → Stage F
  measure_a entry initial_r price option t0 =
      let t = set_option_price option (record t0 {
        underlying_entry_price = some entry;
        underlying_current_price = some price;
        current_spot_price = price;
      }) in
      let points = directional t.direction entry price in
      let r = round (div points initial_r) 4 in
      (
        goes_on,
        set_unrealized option (record t {
          current_r = r;
          peak_r = max_f t.peak_r r;
          mfe_points = max_f t.mfe_points points;
          mae_points = min_f t.mae_points points;
        }),
      )

  abbrev pub session_over : ManagerConfig F → Option Time → Bool
  session_over c none = false
  session_over c (some as_of) = is_strategy_a_force_exit_time c.strategy_config as_of

  unfoldable pub exit_a : ManagerConfig F → F → Option Time → Stage F
  unfolding is_strategy_a_force_exit_time
  exit_a c option as_of t =
      if session_over c as_of
      then (returns (some force_square_off_1515), t)
      else if positive option && le option t.option_hard_stop_price
      then (returns (some option_emergency_stop), t)
      else (goes_on, t)

  abbrev pub activated : ManagerConfig F → ActiveTrade F → Bool
  activated c t = le c.strategy_config.trailing_activation_r t.peak_r

  -- A stop that is not set yet is the structural one.
  abbrev initial_stop : ActiveTrade F → ActiveTrade F
  initial_stop t =
      if not_positive t.current_trailing_stop
      then record t { current_trailing_stop = t.initial_structural_stop }
      else t

  abbrev breakeven_a : ManagerConfig F → F → ActiveTrade F → ActiveTrade F
  breakeven_a c entry t =
      if activated c t
      then record t {
        state = protected_breakeven;
        current_trailing_stop =
            tighten t.direction t.current_trailing_stop
              (ahead t.direction entry c.risk_config.breakeven_buffer_points);
      }
      else t

  unfoldable pub protect_a : ManagerConfig F → F → Stage F
  protect_a c entry t = (goes_on, breakeven_a c entry (initial_stop t))

  unfoldable pub stop_a : ManagerConfig F → F → Stage F
  stop_a c price t =
      if at_stop t.direction price t.current_trailing_stop
      then (
        returns
            (some (if activated c t then underlying_trailing_stop else underlying_structural_stop)),
        t,
      )
      else (goes_on, t)

  abbrev pub lock_half : F → F → ActiveTrade F → ActiveTrade F
  lock_half entry initial_r t = record t {
    t1_reached = true;
    state = profit_locked;
    current_trailing_stop =
        tighten t.direction t.current_trailing_stop
          (ahead t.direction entry (mul (literal 50 2) initial_r));
  }

  abbrev pub original_of : ActiveTrade F → ℤ
  original_of t = or_count t.initial_quantity t.quantity

  -- Half of the lots, the smaller half.
  abbrev pub partial_lots : ActiveTrade F → ℤ
  partial_lots t = floor_div (max_ℤ (pos 1) (floor_div (original_of t) t.lot_size)) 2

  abbrev pub decide_partial : F → Stage F
  decide_partial price t =
      if t.lot_size == 0
      then (raises other_error, t)
      else if ltb_ℤ (partial_lots t) (pos 1)
      then (
        returns (some t1_no_partial_one_lot),
        record t {
          remaining_quantity = some (original_of t);
          partial_exit_reason = some t1_no_partial_one_lot;
        },
      )
      else (
        returns (some t1_partial_exit),
        record t {
          t1_exit_quantity = partial_lots t *ℤ pos t.lot_size;
          remaining_quantity = some (original_of t -ℤ t.partial_exit_filled_quantity);
          t1_exit_pending = true;
          t1_decision_underlying_price = some price;
          t1_decision_r = some t.current_r;
          partial_exit_reason = some t1_partial_exit;
        },
      )

  unfoldable pub target_a : ManagerConfig F → F → F → F → Stage F
  target_a c entry initial_r price t =
      if le c.strategy_config.t1_r t.peak_r && not t.t1_reached
      then decide_partial price (lock_half entry initial_r t)
      else if t.t1_exit_pending && ltb_ℤ t.partial_exit_filled_quantity t.t1_exit_quantity
      then (returns (some t1_partial_exit), t)
      else (
        goes_on,
        if le c.strategy_config.runner_target_reference_r t.peak_r
            then record t { state = runner_mode }
            else t,
      )

  abbrev pub stages_a : ManagerConfig F → F → F → F → F → Option Time → Stage F
  stages_a c entry initial_r price option as_of =
      measure_a entry initial_r price option
      >=> exit_a c option as_of
      >=> protect_a c entry
      >=> stop_a c price
      >=> target_a c entry initial_r price

  unfoldable pub update_strategy_a_position :
      ManagerConfig F
      → F
      → Option F
      → Option Time
      → ActiveTrade F
      → Result (Option ExitReason) × ActiveTrade F
  unfolding measure_a exit_a protect_a stop_a target_a
  update_strategy_a_position c price option as_of t =
      let entry = or_price t.underlying_entry_price t.entry_spot_price in
      let initial_r = or_price t.underlying_r t.initial_r_points in
      if not_positive price || (not_positive entry || not_positive initial_r)
      then (ok (some invalid_initial_underlying_r), t)
      else run_stages (stages_a c entry initial_r price (or_zero option) as_of) t

  abbrev pub fill_partial : F → F → F → Time → ActiveTrade F → ActiveTrade F
  fill_partial raw_bid executable slippage filled_at t =
      let remaining = original_of t -ℤ t.t1_exit_quantity in
      record t {
        partial_exit_filled_quantity = t.t1_exit_quantity;
        partial_exit_raw_bid = some (round raw_bid 2);
        partial_exit_price = some (round executable 2);
        partial_exit_slippage_points = some (round slippage 4);
        partial_exit_time = some filled_at;
        partial_exit_reason = some t1_reached_partial_exit;
        t1_exit_pending = false;
        remaining_quantity = some remaining;
        quantity = remaining;
        lots = floor_div remaining t.lot_size;
        t1_realized_r = t.t1_decision_r;
      }

  -- A quantity that is not positive is refused before its lots are counted; no lot size divides by
  -- zero.
  unfoldable pub apply_t1_partial_fill : F → F → F → Time → ActiveTrade F → Result (ActiveTrade F)
  apply_t1_partial_fill raw_bid executable slippage filled_at t =
      if leb_ℤ t.t1_exit_quantity (pos 0)
      then err other_error
      else if t.lot_size == 0
      then err other_error
      else if not (floor_mod t.t1_exit_quantity t.lot_size == 0)
      then err other_error
      else if ltb_ℤ (original_of t) (t.partial_exit_filled_quantity +ℤ t.t1_exit_quantity)
      then err other_error
      else if not_positive raw_bid || not_positive executable
      then err other_error
      else if ltb_ℤ (pos 0) t.partial_exit_filled_quantity
      then ok t
      else ok (fill_partial raw_bid executable slippage filled_at t)
