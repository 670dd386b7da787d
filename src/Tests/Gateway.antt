-- ===== src/Tests/Gateway.antt =====
-- Requests through services/api_gateway/rate_limiter.py and quotes through
-- services/market_data/candle_builder.py.
use icici_breeze_api_trading.Prelude.{
  ℕ, ◌≡◌, ◌≤◌, refl, true, false, none, some, ◌==◌, List, [], ◌∷◌, length, keep, arith,
}
use icici_breeze_api_trading.Prelude.Int.{ℤ, pos, pos_part, ◌+ℤ◌, ◌-ℤ◌}
use icici_breeze_api_trading.Prelude.Result.{ok}
use icici_breeze_api_trading.Prelude.Dict.{get_key}
use icici_breeze_api_trading.Contracts.{Text}
use icici_breeze_api_trading.RateLimit.{
  Settings, Key, commands_word, limit_for_tier, check_rate_limit,
}
use icici_breeze_api_trading.RateLimit.Window.{
  Call, InOrder, in_window, answers, passed, promised, answers_refine, at_most_limit,
}
use icici_breeze_api_trading.RateLimit.Middleware.{Strings, determine_tier, orders_path, dispatch}
use icici_breeze_api_trading.RateLimit.Handled.{
  Arrival, InTime, start, serve_all, handled, handled_bounded,
}
use icici_breeze_api_trading.CandleBuilder.{Quote, process_quote}
use icici_breeze_api_trading.CandleBuilder.Reference.{accepted, bar_of, completed_by}
use icici_breeze_api_trading.CandleBuilder.Bars.{after, current_bar, completed_bar}
use icici_breeze_api_trading.Tests.Values.{paise}

abbrev same : Text → Text
same t = t

abbrev two_commands : Settings
two_commands = record {
  rate_limit_enabled = true;
  rate_limit_login_per_minute = pos 5;
  rate_limit_orders_per_minute = pos 2;
  rate_limit_general_per_minute = pos 120;
}

abbrev command_at : ℕ → Call
command_at now = record { client_id = 7; tier = commands_word; scope = 0; now = now }

abbrev commands_key : Key
commands_key = record { client_id = 7; tier = commands_word; scope = 0 }

abbrev commands : List Call
commands =
    command_at 1000000 ∷ (command_at 2000000 ∷ (command_at 3500000 ∷ (command_at 61000000 ∷ [])))

commands-InOrder : InOrder 0 commands
commands-InOrder = (omega arith, (omega arith, (omega arith, (omega arith, tt))))

third_waits :
    answers same same two_commands commands []
    ≡ ok (true, 0) ∷ (ok (true, 0) ∷ (ok (false, 58) ∷ (ok (true, 0) ∷ [])))
unfolding answers check_rate_limit
third_waits = refl

answers_refine_example :
    answers same same two_commands commands [] ≡ promised same same two_commands commands []
answers_refine_example = answers_refine same same two_commands refl commands commands-InOrder

at_most_limit_example :
    length (keep (in_window 1000000) (passed same same two_commands commands_key commands []))
    ≤ pos_part (limit_for_tier two_commands commands_word)
at_most_limit_example =
    at_most_limit same same two_commands refl commands_key commands commands-InOrder 1000000

abbrev quote_at : ℕ → ℤ → ℤ → Quote ℤ
quote_at wall price volume = record {
  source = 3;
  instrument_id = 31;
  last_price = price;
  volume = volume;
  open_interest = pos 9;
  timestamp = record { wall = wall; offset = 0 };
}

-- The newest first; the second is older than the first and is dropped.
abbrev quotes : List (Quote ℤ)
quotes =
    quote_at 130000000 (pos 9900) (pos 160)
    ∷ (quote_at 121000000 (pos 10200) (pos 150)
        ∷ (quote_at 122000000 (pos 10000) (pos 140)
            ∷ (quote_at 62000000 (pos 9000) (pos 100) ∷ [])))

two_in_the_bar :
    get_key 31 (after 1 quotes).current_candles
    ≡ some (record {
      start_time = record { wall = 120000000; offset = 0 };
      open_price = pos 10000;
      high = pos 10000;
      low = pos 9900;
      close = pos 9900;
      volume = pos 60;
      open_interest = pos 9;
      source = 3;
    })
unfolding after process_quote ◌-ℤ◌ ◌+ℤ◌
two_in_the_bar = refl

current_bar_example : get_key 31 (after 1 quotes).current_candles ≡ bar_of 1 (accepted 31 quotes)
current_bar_example = current_bar 1 refl quotes 31

completed_bar_example :
    (process_quote 1 (quote_at 180000000 (pos 9800) (pos 170)) (after 1 quotes)).0
    ≡ ok (completed_by 1 (quote_at 180000000 (pos 9800) (pos 170)) (accepted 31 quotes))
completed_bar_example = completed_bar 1 refl quotes (quote_at 180000000 (pos 9800) (pos 170))

-- A text whose keys are the text itself, and tokens that do not decode.
abbrev plain : Strings
plain = record {
  starts_with = λ p q. p == q;
  bearer = λ _. none;
  unverified_sub = λ _. none;
  first_address = same;
  user_key = same;
  ip_key = same;
  upper = same;
  strip = same;
}

abbrev order_at : ℕ → Arrival
order_at now = record {
  request = record {
    is_options = false;
    path = orders_path;
    authorization = none;
    forwarded = none;
    client_host = some 7;
  };
  now = now;
}

abbrev arrivals : List Arrival
arrivals = order_at 1000000 ∷ (order_at 2000000 ∷ (order_at 3500000 ∷ (order_at 61000000 ∷ [])))

arrivals-InTime : InTime 0 arrivals
arrivals-InTime = (omega arith, (omega arith, (omega arith, (omega arith, tt))))

three_handled :
    handled plain two_commands commands_key (serve_all plain two_commands arrivals start).app
    ≡ 1000000 ∷ (2000000 ∷ (61000000 ∷ []))
unfolding serve_all determine_tier dispatch
three_handled = refl

handled_bounded_example :
    length (
      keep
        (in_window 1000000)
        (handled plain two_commands commands_key (serve_all plain two_commands arrivals start).app))
    ≤ pos_part (limit_for_tier two_commands commands_word)
handled_bounded_example =
    handled_bounded plain two_commands refl commands_key arrivals arrivals-InTime 1000000
