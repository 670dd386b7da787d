-- ===== src/Strategy.antt =====
-- services/strategy/models.py: what the position manager and the entry gates read and write of the
-- settings, the features and a trade. A quantity is an integer, and a lot size is not negative.
pub mod Clock
pub mod Flow
pub mod Sizing
pub mod RiskGates
pub mod ReplayStops
pub mod Prices
pub mod StrategyA
pub mod PartialExit
pub mod Reversal
pub mod Manager
pub mod Stops
pub mod StopsA
pub mod StopsLadder
use icici_breeze_api_trading.Prelude.{
  ℕ, Bool, true, false, not, Option, none, some, if◌then◌else◌, ◌/◌, ◌%◌, ◌-◌,
}
use icici_breeze_api_trading.Prelude.Int.{ℤ, pos, negsuc, eq_ℤ}
use icici_breeze_api_trading.Prelude.Float.{Float, truthy}
use icici_breeze_api_trading.Contracts.{Text, Time}

pub data TradeDirection : Type 0 where
  bullish bearish : TradeDirection

pub data StrategyName : Type 0 where
  trend_pullback volatility_breakout di_continuation sr_momentum_breakout pivot_vwap_scalp :
      StrategyName

pub data TradeLifecycleState : Type 0 where
  entry_pending exit_pending open_initial_risk protected_breakeven profit_locked runner_mode
        closed :
      TradeLifecycleState

-- The reasons that the manager returns, without the numbers that are written into some of them.
pub data ExitReason : Type 0 where
  invalid_initial_underlying_r force_square_off_1515 option_emergency_stop : ExitReason
  underlying_trailing_stop underlying_structural_stop : ExitReason
  t1_no_partial_one_lot t1_partial_exit t1_reached_partial_exit : ExitReason
  invalid_initial_r thesis_invalidation false_breakout_exit option_hard_stop_hit : ExitReason
  structural_spot_stop_breached force_square_off_1520 : ExitReason
  health_score_critical health_score_early_exit : ExitReason

-- `RiskConfig` of this package.
pub record StrategyRiskConfig (F : Type 0) : Type 0 where
  pub max_lots_per_trade : ℤ
  pub breakeven_buffer_points : F
  pub max_trades_per_strategy_per_day : ℤ
  pub max_trade_capital : F
  pub risk_per_trade_pct_of_account : F
  pub max_daily_loss_r : F
  pub max_daily_loss_pct : F
  pub max_failed_trades_per_strategy : ℤ
  pub max_trades_per_day : ℤ
  pub max_concurrent_positions : ℤ
  pub cooldown_after_loss_min : ℤ
  pub option_hard_stop_pct : F
  pub account_equity : F

-- A time of the day "HH:MM", read.
pub record ClockTime : Type 0 where
  pub hour : ℕ
  pub minute : ℕ

pub record SessionTimersConfig : Type 0 where
  pub no_new_trade_before : ClockTime
  pub no_new_trade_after : ClockTime
  pub force_exit_time : ClockTime

pub record StrategyTunablesConfig (F : Type 0) : Type 0 where
  pub t1_r : F
  pub runner_target_reference_r : F
  pub trailing_activation_r : F
  pub entry_session_start : ClockTime
  pub entry_session_end : ClockTime
  pub forced_exit_time : ClockTime

-- The parameters of `PositionManager`.
pub record ManagerConfig (F : Type 0) : Type 0 where
  pub risk_config : StrategyRiskConfig F
  pub session_config : SessionTimersConfig
  pub bull_derivatives_threshold : F
  pub bear_derivatives_threshold : F
  pub strategy_config : StrategyTunablesConfig F

pub data Buildup : Type 0 where
  long_buildup short_buildup long_unwinding short_covering other_buildup : Buildup

pub record MarketFeatures (F : Type 0) : Type 0 where
  pub timestamp : Time
  pub spot_price : F
  pub closed_5m_price : Option F
  pub closed_5m_time : Option Time
  pub plus_di_5m : F
  pub minus_di_5m : F
  pub swing_low_5m : Option F
  pub swing_high_5m : Option F
  pub ema9_5m : F
  pub ema20_5m : F
  pub rsi_5m : F
  pub atr_5m : F
  -- "BULLISH" or "BEARISH", or another text.
  pub supertrend_direction : Option TradeDirection
  pub futures_price : F
  pub futures_vwap : F
  pub futures_buildup : Buildup
  pub bull_derivatives_score : F
  pub bear_derivatives_score : F
  pub breakout_bull_derivatives_score : F
  pub breakout_bear_derivatives_score : F

pub record ActiveTrade (F : Type 0) : Type 0 where
  pub strategy : StrategyName
  pub direction : TradeDirection
  pub quantity : ℤ
  pub lot_size : ℕ
  pub lots : ℤ
  pub entry_time : Time
  pub entry_option_price : F
  pub entry_spot_price : F
  pub initial_structural_stop : F
  pub initial_r_points : F
  pub pullback_swing_low : Option F
  pub pullback_swing_high : Option F
  pub box_high : Option F
  pub box_low : Option F
  pub atr_at_lock : Option F
  pub consecutive_inside_box_closes : ℕ
  pub highest_close_since_entry : Option F
  pub lowest_close_since_entry : Option F
  pub last_managed_bar : Option Time
  pub current_option_price : Option F
  pub current_spot_price : F
  pub current_trailing_stop : F
  pub option_hard_stop_price : F
  pub current_r : F
  pub peak_r : F
  pub mfe_points : F
  pub mae_points : F
  pub reversal_score : ℕ
  pub state : TradeLifecycleState
  pub unrealized_pnl : F
  pub underlying_entry_price : Option F
  pub underlying_current_price : Option F
  pub underlying_r : Option F
  pub initial_quantity : Option ℤ
  pub remaining_quantity : Option ℤ
  pub t1_reached : Bool
  pub t1_exit_quantity : ℤ
  pub t1_exit_pending : Bool
  pub t1_decision_underlying_price : Option F
  pub t1_decision_r : Option F
  pub t1_realized_r : Option F
  pub partial_exit_filled_quantity : ℤ
  pub partial_exit_price : Option F
  pub partial_exit_raw_bid : Option F
  pub partial_exit_slippage_points : Option F
  pub partial_exit_time : Option Time
  pub partial_exit_reason : Option ExitReason

abbrev pub is_bullish : TradeDirection → Bool
is_bullish bullish = true
is_bullish bearish = false

-- `a // b` and `a % b` for a positive `b`.
abbrev pub floor_div : ℤ → ℕ → ℤ
floor_div (pos n) b = pos (n / b)
floor_div (negsuc n) b = negsuc (n / b)

abbrev pub floor_mod : ℤ → ℕ → ℕ
floor_mod (pos n) b = n % b
floor_mod (negsuc n) b = b - 1 - n % b

-- `x or y` where `x` may be `None`.
abbrev pub or_count : Option ℤ → ℤ → ℤ
or_count none y = y
or_count (some x) y = if eq_ℤ x (pos 0) then y else x

abbrev pub or_price : {F : Type 0} ⦃fl : Float F⦄ → Option F → F → F
or_price none y = y
or_price (some x) y = if truthy x then x else y
