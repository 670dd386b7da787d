-- ===== src/Strategy/RiskGates.antt =====
-- services/strategy/risk_gates.py: the gates before an entry. An instant is a number of microseconds.
use icici_breeze_api_trading.Prelude.{
  Bool, true, false, ◌||◌, Option, none, some, List, [], ◌∷◌, ◌++◌, if◌then◌else◌,
}
use icici_breeze_api_trading.Prelude.Int.{ℤ, pos, leb_ℤ, ◌-ℤ◌}
use icici_breeze_api_trading.Prelude.Float.{Float, zero_f}
use icici_breeze_api_trading.Contracts.{Time}
use icici_breeze_api_trading.Strategy.{StrategyRiskConfig}

pub data LossReason : Type 0 where
  max_daily_loss_r_reason max_daily_loss_pct_reason : LossReason

-- The details of a gate that blocks, under its status.
pub data RiskGateDecision (F : Type 0) : Type 0 where
  ready : RiskGateDecision F
  max_concurrent_positions_reached : ℤ → ℤ → RiskGateDecision F
  in_loss_cooldown : F → RiskGateDecision F
  daily_loss_limit_reached : List LossReason → F → F → Option F → F → RiskGateDecision F
  daily_trade_limit_reached : ℤ → ℤ → RiskGateDecision F
  strategy_daily_trade_limit_reached : ℤ → ℤ → RiskGateDecision F
  strategy_failure_limit_reached : ℤ → ℤ → RiskGateDecision F

abbrev or_limit : Option ℤ → ℤ → ℤ
or_limit none limit = limit
or_limit (some x) limit = x

abbrev reason_if : Bool → LossReason → List LossReason
reason_if true r = r ∷ []
reason_if false r = []

module _ {F : Type 0} where
  abbrev pub allowed : RiskGateDecision F → Bool
  allowed ready = true
  allowed _ = false

  unfoldable pub check_position_capacity : StrategyRiskConfig F → ℤ → RiskGateDecision F
  check_position_capacity risk active_count =
      if leb_ℤ risk.max_concurrent_positions active_count
      then max_concurrent_positions_reached active_count risk.max_concurrent_positions
      else ready

  unfoldable pub check_daily_trade_limit : StrategyRiskConfig F → ℤ → Option ℤ → RiskGateDecision F
  check_daily_trade_limit risk daily_count max_trades =
      let limit = or_limit max_trades risk.max_trades_per_day in
      if leb_ℤ limit daily_count then daily_trade_limit_reached daily_count limit else ready

  unfoldable pub check_strategy_trade_limits : StrategyRiskConfig F → ℤ → ℤ → RiskGateDecision F
  check_strategy_trade_limits risk trades failures =
      if leb_ℤ risk.max_trades_per_strategy_per_day trades
      then strategy_daily_trade_limit_reached trades risk.max_trades_per_strategy_per_day
      else if leb_ℤ risk.max_failed_trades_per_strategy failures
      then strategy_failure_limit_reached failures risk.max_failed_trades_per_strategy
      else ready

module _ {F : Type 0} ⦃fl : Float F⦄ where
  open fl use {lt, le, sub, mul, div, round, of_int, literal}

  abbrev cooldown : StrategyRiskConfig F → F → RiskGateDecision F
  cooldown risk elapsed =
      let cooldown_min = of_int risk.cooldown_after_loss_min in
      if lt elapsed cooldown_min
      then in_loss_cooldown (round (sub cooldown_min elapsed) 1)
      else ready

  -- The minutes between two instants; `total_seconds` divides the microseconds.
  abbrev minutes_between : Time → Time → F
  minutes_between from at =
      div (div (of_int (pos at -ℤ pos from)) (literal 1000000 0)) (literal 60 0)

  unfoldable pub check_loss_cooldown :
      StrategyRiskConfig F → Time → Option Time → RiskGateDecision F
  check_loss_cooldown risk at none = ready
  check_loss_cooldown risk at (some last) = cooldown risk (minutes_between last at)

  -- `-x`
  abbrev negative : F → F
  negative x = sub zero_f x

  abbrev or_equity : Option F → F → F
  or_equity none equity = equity
  or_equity (some x) equity = x

  abbrev pub pnl_limit : StrategyRiskConfig F → Option F → F
  pnl_limit risk equity =
      div (mul (or_equity equity risk.account_equity) risk.max_daily_loss_pct) (literal 100 0)

  abbrev pub below_limit : Option F → F → Bool
  below_limit none limit = false
  below_limit (some pnl) limit = le pnl (negative limit)

  abbrev rounded_pnl : Option F → Option F
  rounded_pnl none = none
  rounded_pnl (some x) = some (round x 2)

  unfoldable pub check_daily_loss_limits :
      StrategyRiskConfig F → F → Option F → Option F → RiskGateDecision F
  check_daily_loss_limits risk realized_r net_pnl equity =
      let r_blocked = le realized_r (negative risk.max_daily_loss_r) in
      let limit = pnl_limit risk equity in
      let pnl_blocked = below_limit net_pnl limit in
      if r_blocked || pnl_blocked
      then daily_loss_limit_reached
          (reason_if r_blocked max_daily_loss_r_reason
            ++ reason_if pnl_blocked max_daily_loss_pct_reason)
          (round realized_r 4) risk.max_daily_loss_r (rounded_pnl net_pnl) (round limit 2)
      else ready
