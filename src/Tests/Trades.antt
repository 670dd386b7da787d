-- ===== src/Tests/Trades.antt =====
-- Trades in the hands of services/strategy/position_manager.py, and the gates before them.
use icici_breeze_api_trading.Prelude.{◌≡◌, refl, true, false, none, some, arith}
use icici_breeze_api_trading.Prelude.Int.{ℤ, pos, negsuc, ◌+ℤ◌, ◌-ℤ◌, ◌*ℤ◌, ltb_ℤ, leb_ℤ}
use icici_breeze_api_trading.Prelude.Result.{ok}
use icici_breeze_api_trading.Strategy.{
  StrategyRiskConfig, ManagerConfig, MarketFeatures, ActiveTrade, bullish, trend_pullback,
  volatility_breakout, open_initial_risk, long_buildup,
}
use icici_breeze_api_trading.Strategy.StrategyA.{target_a, apply_t1_partial_fill}
use icici_breeze_api_trading.Strategy.Manager.{update_position}
use icici_breeze_api_trading.Strategy.Stops.{PriceOrder, Tightens}
use icici_breeze_api_trading.Strategy.StopsLadder.{update_position-Tightens}
use icici_breeze_api_trading.Strategy.PartialExit.{IsWhole, IsSplit, partial_exit_once}
use icici_breeze_api_trading.Strategy.Sizing.{
  IsSized, calculate_position_size, calculate_position_size-IsSized,
}
use icici_breeze_api_trading.Strategy.RiskGates.{allowed, check_daily_loss_limits}
use icici_breeze_api_trading.Strategy.ReplayStops.{
  ReplayCandle, call_word, structural_stop, evaluate_replay_candle, IsTraded, IsNoBetter,
  structural_exit,
}
use icici_breeze_api_trading.Tests.Values.{paise}

le_refl : (a : ℤ) → leb_ℤ a a ≡ true
le_refl a = ground arith

le_trans : (a b c : ℤ) → leb_ℤ a b ≡ true → leb_ℤ b c ≡ true → leb_ℤ a c ≡ true
le_trans a b c h k = ground arith

le_of_lt : (a b : ℤ) → ltb_ℤ a b ≡ true → leb_ℤ a b ≡ true
le_of_lt a b h = ground arith

le_of_not_lt : (a b : ℤ) → ltb_ℤ a b ≡ false → leb_ℤ b a ≡ true
le_of_not_lt a b h = ground arith

le_of_not_le : (a b : ℤ) → leb_ℤ a b ≡ false → leb_ℤ b a ≡ true
le_of_not_le a b h = ground arith

paise_order : PriceOrder ℤ
paise_order = record {
  le_refl = le_refl;
  le_trans = le_trans;
  le_of_lt = le_of_lt;
  le_of_not_lt = le_of_not_lt;
  le_of_not_le = le_of_not_le;
  round_mono = λ a b d h. h;
  round_round = λ a d. refl;
}

abbrev risk : StrategyRiskConfig ℤ
risk = record {
  max_lots_per_trade = pos 3;
  breakeven_buffer_points = pos 200;
  max_trades_per_strategy_per_day = pos 5;
  max_trade_capital = pos 5000000;
  risk_per_trade_pct_of_account = pos 50;
  max_daily_loss_r = pos 200;
  max_daily_loss_pct = pos 150;
  max_failed_trades_per_strategy = pos 2;
  max_trades_per_day = pos 5;
  max_concurrent_positions = pos 1;
  cooldown_after_loss_min = pos 10;
  option_hard_stop_pct = pos 2500;
  account_equity = pos 50000000;
}

abbrev manager : ManagerConfig ℤ
manager = record {
  risk_config = risk;
  session_config = record {
    no_new_trade_before = record { hour = 9; minute = 20 };
    no_new_trade_after = record { hour = 14; minute = 45 };
    force_exit_time = record { hour = 15; minute = 20 };
  };
  bull_derivatives_threshold = pos 200;
  bear_derivatives_threshold = pos 200;
  strategy_config = record {
    t1_r = pos 150;
    runner_target_reference_r = pos 250;
    trailing_activation_r = pos 100;
    entry_session_start = record { hour = 9; minute = 45 };
    entry_session_end = record { hour = 14; minute = 45 };
    forced_exit_time = record { hour = 15; minute = 15 };
  };
}

-- A rising trade at 20000.00 with its stop at 19950.00 and an R of 50 points.
abbrev rising : ActiveTrade ℤ
rising = record {
  strategy = volatility_breakout;
  direction = bullish;
  quantity = pos 150;
  lot_size = 75;
  lots = pos 2;
  entry_time = 1000000;
  entry_option_price = pos 10000;
  entry_spot_price = pos 2000000;
  initial_structural_stop = pos 1995000;
  initial_r_points = pos 5000;
  pullback_swing_low = none;
  pullback_swing_high = none;
  box_high = none;
  box_low = none;
  atr_at_lock = none;
  consecutive_inside_box_closes = 0;
  highest_close_since_entry = none;
  lowest_close_since_entry = none;
  last_managed_bar = none;
  current_option_price = some (pos 10000);
  current_spot_price = pos 2000000;
  current_trailing_stop = pos 1995000;
  option_hard_stop_price = pos 7500;
  current_r = pos 0;
  peak_r = pos 0;
  mfe_points = pos 0;
  mae_points = pos 0;
  reversal_score = 0;
  state = open_initial_risk;
  unrealized_pnl = pos 0;
  underlying_entry_price = none;
  underlying_current_price = none;
  underlying_r = none;
  initial_quantity = some (pos 150);
  remaining_quantity = none;
  t1_reached = false;
  t1_exit_quantity = pos 0;
  t1_exit_pending = false;
  t1_decision_underlying_price = none;
  t1_decision_r = none;
  t1_realized_r = none;
  partial_exit_filled_quantity = pos 0;
  partial_exit_price = none;
  partial_exit_raw_bid = none;
  partial_exit_slippage_points = none;
  partial_exit_time = none;
  partial_exit_reason = none;
}

-- The close of the bar is 80 points up.
abbrev up_80 : MarketFeatures ℤ
up_80 = record {
  timestamp = 360000000;
  spot_price = pos 2008000;
  closed_5m_price = some (pos 2008000);
  closed_5m_time = some 300000000;
  plus_di_5m = pos 3000;
  minus_di_5m = pos 1000;
  swing_low_5m = none;
  swing_high_5m = none;
  ema9_5m = pos 2004000;
  ema20_5m = pos 2002000;
  rsi_5m = pos 6000;
  atr_5m = pos 2500;
  supertrend_direction = some bullish;
  futures_price = pos 2009000;
  futures_vwap = pos 2003000;
  futures_buildup = long_buildup;
  bull_derivatives_score = pos 300;
  bear_derivatives_score = pos 0;
  breakout_bull_derivatives_score = pos 300;
  breakout_bear_derivatives_score = pos 0;
}

-- At 1.6 R the stop locks half an R.
half_r_locked :
    (update_position manager (some (pos 12000)) up_80 none 360000000 rising).1.current_trailing_stop
    ≡ pos 2002500
unfolding update_position ◌+ℤ◌ ◌-ℤ◌ ◌*ℤ◌
half_r_locked = refl

update_position-Tightens_example :
    Tightens rising (update_position manager (some (pos 12000)) up_80 none 360000000 rising).1
update_position-Tightens_example =
    update_position-Tightens paise_order rising refl manager (some (pos 12000)) up_80 none 360000000
      refl

abbrev at_target : ActiveTrade ℤ
at_target = record rising { strategy = trend_pullback; peak_r = pos 160; current_r = pos 160 }

two_lots-IsWhole : IsWhole 2 75 at_target
two_lots-IsWhole = record {
  lots_two = omega arith;
  lot_positive = omega arith;
  lot_size_is = refl;
  initial_is = refl;
  none_filled = refl;
}

partial_exit_once_example :
    (u : ActiveTrade ℤ) × ((apply_t1_partial_fill
          (pos 12000)
          (pos 11900)
          (pos 100)
          5
          (target_a manager (pos 2000000) (pos 5000) (pos 2008000) at_target).1
        ≡ ok u)
      × (IsSplit 2 75 u × (apply_t1_partial_fill (pos 12100) (pos 12000) (pos 100) 6 u ≡ ok u)))
partial_exit_once_example =
    partial_exit_once manager 2 75 (pos 2000000) (pos 5000) (pos 2008000) at_target (pos 12000)
      (pos 11900) (pos 100) 5 (pos 12100) (pos 12000) (pos 100) 6 two_lots-IsWhole refl refl refl

calculate_position_size-IsSized_example :
    IsSized
      (paise.floor (paise.div (pos 5000000) (paise.mul (pos 10000) (paise.of_int (pos 75)))))
      (pos 3)
      (pos 75)
      (calculate_position_size risk (pos 10000) (pos 50000000) (pos 75))
calculate_position_size-IsSized_example =
    calculate_position_size-IsSized risk (pos 10000) (pos 50000000) (pos 75)

-- Two R lost.
two_r_lost : allowed (check_daily_loss_limits risk (negsuc 199) (some (negsuc 99)) none) ≡ false
unfolding check_daily_loss_limits ◌-ℤ◌ ◌*ℤ◌
two_r_lost = refl

-- A candle that opens below the stop of a call.
abbrev gap_down : ReplayCandle ℤ
gap_down = record { candle_open = pos 9800; candle_high = pos 10100; candle_low = pos 9700 }

structural_exit_example :
    (x : ℤ) × ((evaluate_replay_candle call_word gap_down (pos 10000) false false
        ≡ ok (record {
          event = structural_stop;
          crossed = true;
          ambiguous = false;
          stop_level = pos 10000;
          exit_price = some x;
        }))
      × (IsTraded gap_down x × IsNoBetter true (pos 10000) x))
structural_exit_example =
    structural_exit paise_order call_word gap_down (pos 10000) false refl refl refl (refl, refl)
      refl
