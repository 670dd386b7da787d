-- ===== src/Strategy/Reversal.antt =====
-- services/strategy/position_manager.py: `calculate_reversal_score`.
use icici_breeze_api_trading.Prelude.{
  ℕ, ◌+◌, Bool, true, false, Option, none, some, ltb, if◌then◌else◌,
}
use icici_breeze_api_trading.Prelude.Float.{Float}
use icici_breeze_api_trading.Strategy.{
  TradeDirection, bullish, bearish, StrategyName, volatility_breakout, Buildup, long_buildup,
  short_buildup, long_unwinding, short_covering, ManagerConfig, MarketFeatures, ActiveTrade,
  is_bullish,
}
use icici_breeze_api_trading.Strategy.Prices.{beyond}

abbrev pub is_breakout : StrategyName → Bool
is_breakout volatility_breakout = true
is_breakout _ = false

abbrev against_rise : Buildup → Bool
against_rise short_buildup = true
against_rise long_unwinding = true
against_rise _ = false

abbrev against_fall : Buildup → Bool
against_fall long_buildup = true
against_fall short_covering = true
against_fall _ = false

abbrev point : Bool → ℕ
point true = 1
point false = 0

-- The supertrend has turned against the trade.
abbrev turned : TradeDirection → Option TradeDirection → Bool
turned bullish (some bearish) = true
turned bearish (some bullish) = true
turned _ _ = false

abbrev at_most_eight : ℕ → ℕ
at_most_eight n = if ltb n 8 then n else 8

module _ {F : Type 0} ⦃fl : Float F⦄ where
  open fl use {lt, le, literal}

  abbrev adverse_derivatives : ActiveTrade F → MarketFeatures F → F
  adverse_derivatives t f =
      if is_bullish t.direction
      then (if is_breakout t.strategy
          then f.breakout_bear_derivatives_score
          else f.bear_derivatives_score)
      else (if is_breakout t.strategy
          then f.breakout_bull_derivatives_score
          else f.bull_derivatives_score)

  abbrev derivatives_threshold : ManagerConfig F → ActiveTrade F → F
  derivatives_threshold c t =
      if is_bullish t.direction then c.bear_derivatives_threshold else c.bull_derivatives_threshold

  abbrev breaks : TradeDirection → F → Option F → Bool
  breaks d spot none = false
  breaks d spot (some level) = beyond d spot level

  abbrev structure_broken : ActiveTrade F → MarketFeatures F → F → Bool
  structure_broken t f spot =
      if is_breakout t.strategy
      then (if is_bullish t.direction
          then against_rise f.futures_buildup
          else against_fall f.futures_buildup)
      else breaks t.direction spot
          (if is_bullish t.direction then f.swing_low_5m else f.swing_high_5m)

  -- The eight signs against the trade, by the close of the bar.
  abbrev signs : ManagerConfig F → ActiveTrade F → MarketFeatures F → F → ℕ
  signs c t f spot =
      point (beyond t.direction spot f.ema9_5m)
      + point (beyond t.direction spot f.ema20_5m)
      + point (beyond t.direction f.futures_price f.futures_vwap)
      + point (
          beyond t.direction f.rsi_5m
            (if is_bullish t.direction then literal 48 0 else literal 52 0))
      + point (
          if is_bullish t.direction
          then lt f.plus_di_5m f.minus_di_5m
          else lt f.minus_di_5m f.plus_di_5m)
      + point (turned t.direction f.supertrend_direction)
      + point (le (derivatives_threshold c t) (adverse_derivatives t f))
      + point (structure_broken t f spot)

  abbrev score_of : ManagerConfig F → ActiveTrade F → MarketFeatures F → Option F → ℕ
  score_of c t f none = 0
  score_of c t f (some spot) = at_most_eight (signs c t f spot)

  unfoldable pub calculate_reversal_score : ManagerConfig F → ActiveTrade F → MarketFeatures F → ℕ
  calculate_reversal_score c t f = score_of c t f f.closed_5m_price
