-- ===== src/Strategy/Flow.antt =====
-- A method that changes a trade and may return before its end: each stage goes on, returns a reason
-- or `None`, or raises, and what it wrote to the trade stays written.
use icici_breeze_api_trading.Prelude.{Option, none}
use icici_breeze_api_trading.Prelude.Result.{Error, Result, ok, err}
use icici_breeze_api_trading.Strategy.{ActiveTrade, ExitReason}

pub data Flow : Type 0 where
  goes_on : Flow
  returns : Option ExitReason → Flow
  raises : Error → Flow

abbrev pub Stage : Type 0 → Type 0
Stage F = ActiveTrade F → Flow × ActiveTrade F

abbrev pub answer : Flow → Result (Option ExitReason)
answer goes_on = ok none
answer (returns r) = ok r
answer (raises e) = err e

module _ {F : Type 0} where
  abbrev pub resume : Flow → Stage F → Stage F
  resume goes_on next t = next t
  resume (returns r) next t = (returns r, t)
  resume (raises e) next t = (raises e, t)

  infixl 5 ◌>=>◌
  abbrev pub ◌>=>◌ : Stage F → Stage F → Stage F
  ◌>=>◌ first next t = resume (first t).0 next (first t).1

  -- A method is its stages, and returns `None` at its end.
  abbrev pub run_stages : Stage F → ActiveTrade F → Result (Option ExitReason) × ActiveTrade F
  run_stages s t = (answer (s t).0, (s t).1)
