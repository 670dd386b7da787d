-- ===== src/Strategy/Manager.antt =====
-- services/strategy/position_manager.py: `update_position`, in the stages of its comments.
use icici_breeze_api_trading.Prelude.{
  ℕ, ◌+◌, Bool, true, false, ◌&&◌, Option, none, some, ltb, leb, ◌==◌, if◌then◌else◌,
}
use icici_breeze_api_trading.Prelude.Float.{Float, max_f, min_f}
use icici_breeze_api_trading.Prelude.Result.{Result, other_error}
use icici_breeze_api_trading.Contracts.{Time}
use icici_breeze_api_trading.Strategy.{
  TradeDirection, StrategyName, trend_pullback, ActiveTrade, ManagerConfig, MarketFeatures,
  ExitReason, TradeLifecycleState, protected_breakeven, profit_locked, runner_mode,
  invalid_initial_r, thesis_invalidation, false_breakout_exit, option_hard_stop_hit,
  structural_spot_stop_breached, force_square_off_1520, health_score_critical,
  health_score_early_exit, is_bullish, or_price,
}
use icici_breeze_api_trading.Strategy.Flow.{Stage, goes_on, returns, raises, run_stages, ◌>=>◌}
use icici_breeze_api_trading.Strategy.Prices.{
  not_positive, positive, directional, ahead, behind, nearer, tighten, at_stop, beyond, or_zero,
}
use icici_breeze_api_trading.Strategy.Clock.{is_force_exit_time}
use icici_breeze_api_trading.Strategy.StrategyA.{update_strategy_a_position}
use icici_breeze_api_trading.Strategy.Reversal.{is_breakout, calculate_reversal_score}

abbrev pub is_trend_pullback : StrategyName → Bool
is_trend_pullback trend_pullback = true
is_trend_pullback _ = false

module _ {F : Type 0} ⦃fl : Float F⦄ where
  open fl use {lt, le, add, sub, mul, div, round, of_int, literal}

  unfoldable pub mark : Option F → MarketFeatures F → Stage F
  mark option f t = (
    goes_on,
    record t {
      current_spot_price = f.spot_price;
      current_option_price = option;
      unrealized_pnl =
          round (mul (sub (or_zero option) t.entry_option_price) (of_int t.quantity)) 2;
    },
  )

  unfoldable pub track_r : MarketFeatures F → Stage F
  track_r f t =
      let points = directional t.direction t.entry_spot_price f.spot_price in
      let r = round (div points t.initial_r_points) 2 in
      if not_positive t.initial_r_points then (returns (some invalid_initial_r), t) else (
        goes_on,
        record t {
          current_r = r;
          peak_r = max_f t.peak_r r;
          mfe_points = round (max_f t.mfe_points points) 2;
          mae_points = round (min_f t.mae_points points) 2;
        },
      )

abbrev later_than : Option Time → Time → Bool
later_than none t = true
later_than (some s) t = ltb s t

module _ {F : Type 0} where
  -- The close of a bar that ended in the last five minutes, after the entry and after the bar that
  -- was managed last.
  abbrev bar_close : MarketFeatures F → ActiveTrade F → Option F → Option Time → Option (F × Time)
  bar_close f t (some close) (some at) =
      if (leb at f.timestamp && ltb f.timestamp (at + 300000000))
        && (ltb t.entry_time at && later_than t.last_managed_bar at)
      then some (close, at)
      else none
  bar_close f t _ _ = none

  abbrev pub new_bar : MarketFeatures F → ActiveTrade F → Option (F × Time)
  new_bar f t = bar_close f t f.closed_5m_price f.closed_5m_time

module _ {F : Type 0} ⦃fl : Float F⦄ where
  open fl use {lt, le, add, sub, mul, div, round, of_int, literal}

  unfoldable pub enter_bar : Option (F × Time) → Stage F
  enter_bar none t = (goes_on, t)
  enter_bar (some (close, at)) t = (
    goes_on,
    record t {
      last_managed_bar = some at;
      highest_close_since_entry =
          some (max_f (or_price t.highest_close_since_entry t.entry_spot_price) close);
      lowest_close_since_entry =
          some (min_f (or_price t.lowest_close_since_entry t.entry_spot_price) close);
    },
  )

  abbrev pub pullback_swing : ActiveTrade F → Option F
  pullback_swing t = if is_bullish t.direction then t.pullback_swing_low else t.pullback_swing_high

  abbrev pub invalidated : TradeDirection → Option (F × Time) → Option F → Bool
  invalidated d (some (close, _)) (some level) = beyond d close level
  invalidated d _ _ = false

  unfoldable pub thesis : Option (F × Time) → Stage F
  thesis bar t =
      if invalidated t.direction bar (pullback_swing t)
      then (returns (some thesis_invalidation), t)
      else (goes_on, t)

  abbrev pub or_atr : Option F → F → F
  or_atr none atr = atr
  or_atr (some x) atr = x

  abbrev set_inside : ℕ → ActiveTrade F → ActiveTrade F
  set_inside n t = record t { consecutive_inside_box_closes = n }

  -- The close against the edge of the box that the price broke out of.
  abbrev pub inside_box : MarketFeatures F → F → F → Stage F
  inside_box f close edge t =
      let inside = t.consecutive_inside_box_closes + 1 in
      if beyond t.direction close
        (behind t.direction edge (mul (literal 10 2) (or_atr t.atr_at_lock f.atr_5m)))
      then (returns (some false_breakout_exit), t)
      else if beyond t.direction close edge
      then (if leb 2 inside
          then (returns (some false_breakout_exit), set_inside inside t)
          else (goes_on, set_inside inside t))
      else (goes_on, set_inside 0 t)

  abbrev pub box_edge : ActiveTrade F → Option F
  box_edge t = if is_bullish t.direction then t.box_high else t.box_low

  abbrev pub check_box : MarketFeatures F → Option (F × Time) → Option F → Stage F
  check_box f (some (close, _)) (some edge) t = inside_box f close edge t
  check_box f _ _ t = (goes_on, t)

  unfoldable pub false_breakout : MarketFeatures F → Option (F × Time) → Stage F
  false_breakout f bar t =
      if is_breakout t.strategy then check_box f bar (box_edge t) t else (goes_on, t)

  unfoldable pub stops :
      ManagerConfig F → Option F → MarketFeatures F → Option Time → Time → Stage F
  unfolding is_force_exit_time
  stops c option f as_of now t =
      let price = or_zero option in
      if positive price && le price t.option_hard_stop_price
      then (returns (some option_hard_stop_hit), t)
      else if positive f.spot_price && at_stop t.direction f.spot_price t.current_trailing_stop
      then (returns (some structural_spot_stop_breached), t)
      else if is_force_exit_time c.session_config as_of now
      then (returns (some force_square_off_1520), t)
      else (goes_on, t)

  abbrev pub set_stop : F → ActiveTrade F → ActiveTrade F
  set_stop stop t = record t { current_trailing_stop = stop }

  -- Two signs: a stop near the average, on the protective side of the close.
  abbrev pub tighten_two : MarketFeatures F → F → Stage F
  tighten_two f close t =
      let near = behind t.direction f.ema9_5m (mul (literal 25 2) f.atr_5m) in
      let away = behind t.direction close (mul (literal 15 2) f.atr_5m) in
      let stop = if is_bullish t.direction then min_f near away else max_f near away in
      (goes_on, set_stop (tighten t.direction t.current_trailing_stop stop) t)

  -- A candidate counts where it is on the protective side of the close.
  abbrev pub candidate : TradeDirection → F → Option F → F → F
  candidate d close none stop = stop
  candidate d close (some x) stop = if beyond d x close then nearer d stop x else stop

  abbrev pub swing : ActiveTrade F → MarketFeatures F → Option F
  swing t f = if is_bullish t.direction then f.swing_low_5m else f.swing_high_5m

  -- Three signs with one R gained: the nearest of the stop, the average and the swing.
  abbrev pub tighten_three : MarketFeatures F → F → Stage F
  tighten_three f close t =
      let near = behind t.direction f.ema9_5m (mul (literal 25 2) f.atr_5m) in
      (
        goes_on,
        set_stop
            (candidate t.direction close (swing t f)
              (candidate t.direction close (some near) t.current_trailing_stop))
            t,
      )

  abbrev pub act_on : ℕ → MarketFeatures F → F → Stage F
  act_on score f close t =
      if leb 4 score
      then (returns (some health_score_critical), t)
      else if leb 3 score && lt t.current_r (literal 1 0)
      then (returns (some health_score_early_exit), t)
      else if score == 2
      then tighten_two f close t
      else if (score == 3) && le (literal 1 0) t.current_r
      then tighten_three f close t
      else (goes_on, t)

  unfoldable pub health : ManagerConfig F → MarketFeatures F → F → Stage F
  unfolding calculate_reversal_score
  health c f close t =
      let score = calculate_reversal_score c t f in
      act_on score f close (record t { reversal_score = score })

  abbrev or_stop : Option F → F → F
  or_stop none stop = stop
  or_stop (some x) stop = x

  abbrev pub extreme_close : ActiveTrade F → Option F
  extreme_close t =
      if is_bullish t.direction then t.highest_close_since_entry else t.lowest_close_since_entry

  abbrev runner_stop : MarketFeatures F → F → ActiveTrade F → F
  runner_stop f extreme t =
      let d = t.direction in
      nearer d
        (nearer d
          (nearer d t.current_trailing_stop (behind d f.ema9_5m (mul (literal 25 2) f.atr_5m)))
          (behind d extreme f.atr_5m))
        (or_stop (swing t f) t.current_trailing_stop)

  abbrev pub set_level : TradeLifecycleState → F → ActiveTrade F → ActiveTrade F
  set_level s stop t = record t {
    state = s;
    current_trailing_stop = tighten t.direction t.current_trailing_stop stop;
  }

  abbrev pub runner : MarketFeatures F → Option F → Stage F
  runner f none t = (raises other_error, record t { state = runner_mode })
  runner f (some extreme) t = (goes_on, set_level runner_mode (runner_stop f extreme t) t)

  unfoldable pub ladder : ManagerConfig F → MarketFeatures F → Stage F
  ladder c f t =
      if le (literal 2 0) t.peak_r
      then runner f (extreme_close t) t
      else if le (literal 15 1) t.peak_r
      then (
        goes_on,
        set_level profit_locked
            (ahead t.direction t.entry_spot_price (mul (literal 50 2) t.initial_r_points)) t,
      )
      else if le (literal 1 0) t.peak_r
      then (
        goes_on,
        set_level protected_breakeven
            (ahead t.direction t.entry_spot_price c.risk_config.breakeven_buffer_points) t,
      )
      else (goes_on, t)

  -- Only a new bar moves the stop.
  abbrev pub manage_bar : ManagerConfig F → MarketFeatures F → Option (F × Time) → Stage F
  manage_bar c f none t = (returns none, t)
  manage_bar c f (some (close, _)) t = (health c f close >=> ladder c f) t

  abbrev pub check_bar :
      ManagerConfig F
      → Option F
      → MarketFeatures F
      → Option Time
      → Time
      → Option (F × Time)
      → Stage F
  check_bar c option f as_of now bar =
      enter_bar bar
      >=> thesis bar
      >=> false_breakout f bar
      >=> stops c option f as_of now
      >=> manage_bar c f bar

  abbrev pub stages_of :
      ManagerConfig F → Option F → MarketFeatures F → Option Time → Time → Stage F
  stages_of c option f as_of now =
      mark option f >=> track_r f >=> (λ t. check_bar c option f as_of now (new_bar f t) t)

  unfoldable pub update_position :
      ManagerConfig F
      → Option F
      → MarketFeatures F
      → Option Time
      → Time
      → ActiveTrade F
      → Result (Option ExitReason) × ActiveTrade F
  unfolding update_strategy_a_position mark track_r enter_bar thesis false_breakout stops health
      ladder
  update_position c option f as_of now t =
      if is_trend_pullback t.strategy
      then update_strategy_a_position c f.futures_price option as_of t
      else run_stages (stages_of c option f as_of now) t
