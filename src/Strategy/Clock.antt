-- ===== src/Strategy/Clock.antt =====
-- services/strategy/position_manager.py: the tests on the time of the day in India.
use icici_breeze_api_trading.Prelude.{
  ℕ, ◌+◌, ◌*◌, ◌/◌, ◌%◌, Bool, Option, none, some, ◌&&◌, ◌||◌, ltb, leb, ◌==◌,
}
use icici_breeze_api_trading.Contracts.{Time}
use icici_breeze_api_trading.Strategy.{ClockTime, SessionTimersConfig, StrategyTunablesConfig}

-- Minutes since midnight, of an instant in microseconds since 1970.
abbrev minute_ist : Time → ℕ
minute_ist t = (t / 60000000 + 330) % 1440

abbrev hour_ist : Time → ℕ
hour_ist t = minute_ist t / 60

abbrev minutes : ClockTime → ℕ
minutes c = c.hour * 60 + c.minute

-- The hour is later, or it is the same and the minute is reached.
abbrev reached : ClockTime → Time → Bool
reached c t =
    ltb c.hour (hour_ist t) || ((hour_ist t == c.hour) && leb c.minute (minute_ist t % 60))

abbrev or_now : Option Time → Time → Time
or_now none now = now
or_now (some t) now = t

-- `as_of`, or the clock where none is given.
unfoldable pub is_force_exit_time : SessionTimersConfig → Option Time → Time → Bool
is_force_exit_time s as_of now = reached s.force_exit_time (or_now as_of now)

module _ {F : Type 0} where
  unfoldable pub is_strategy_a_force_exit_time : StrategyTunablesConfig F → Time → Bool
  is_strategy_a_force_exit_time s as_of = reached s.forced_exit_time as_of

  unfoldable pub is_within_strategy_a_entry_window : StrategyTunablesConfig F → Time → Bool
  is_within_strategy_a_entry_window s as_of =
      leb (minutes s.entry_session_start) (minute_ist as_of)
      && leb (minute_ist as_of) (minutes s.entry_session_end)

unfoldable pub is_within_entry_window : SessionTimersConfig → Time → Bool
is_within_entry_window s now =
    leb (minutes s.no_new_trade_before) (minute_ist now)
    && leb (minute_ist now) (minutes s.no_new_trade_after)
