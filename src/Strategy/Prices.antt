-- ===== src/Strategy/Prices.antt =====
-- The arithmetic on prices that the position manager uses for both directions of a trade.
use icici_breeze_api_trading.Prelude.{Bool, Option, none, some, if◌then◌else◌}
use icici_breeze_api_trading.Prelude.Float.{Float, zero_f, max_f, min_f, or_f}
use icici_breeze_api_trading.Strategy.{TradeDirection, is_bullish}

module _ {F : Type 0} ⦃fl : Float F⦄ where
  open fl use {lt, le, add, sub, round, literal}

  -- `x <= 0`
  abbrev pub not_positive : F → Bool
  not_positive x = le x zero_f

  -- `x > 0`
  abbrev pub positive : F → Bool
  positive x = lt zero_f x

  -- The gain from `entry` to `price`.
  abbrev pub directional : TradeDirection → F → F → F
  directional d entry price = if is_bullish d then sub price entry else sub entry price

  -- The price `by` points in favour of the trade, and against it.
  abbrev pub ahead : TradeDirection → F → F → F
  ahead d price by = if is_bullish d then add price by else sub price by

  abbrev pub behind : TradeDirection → F → F → F
  behind d price by = if is_bullish d then sub price by else add price by

  -- Of two stops the one nearer to the price: `max` for a rising trade, `min` for a falling one.
  abbrev pub nearer : TradeDirection → F → F → F
  nearer d stop other = if is_bullish d then max_f stop other else min_f stop other

  -- `round(max(stop, other), 2)`, or `round(min(stop, other), 2)`.
  abbrev pub tighten : TradeDirection → F → F → F
  tighten d stop other = round (nearer d stop other) 2

  -- The price is at the stop or beyond it.
  abbrev pub at_stop : TradeDirection → F → F → Bool
  at_stop d price stop = if is_bullish d then le price stop else le stop price

  -- The price is beyond a level.
  abbrev pub beyond : TradeDirection → F → F → Bool
  beyond d price level = if is_bullish d then lt price level else lt level price

  -- `float(price or 0.0)`
  abbrev pub or_zero : Option F → F
  or_zero none = zero_f
  or_zero (some x) = or_f x zero_f
