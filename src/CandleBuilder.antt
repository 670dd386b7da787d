-- ===== src/CandleBuilder.antt =====
-- services/market_data/candle_builder.py: bars of some minutes out of the quotes of each instrument.
-- A `datetime` is the wall clock of its zone, in microseconds since 1970, with the offset of the zone
-- east of Greenwich; two of them compare as instants.
pub mod Reference
pub mod Bars
use icici_breeze_api_trading.Prelude.{
  ℕ, ◌+◌, ◌-◌, ◌*◌, ◌/◌, ◌%◌, Bool, true, false, not, ◌&&◌, Option, none, some, List, [], ◌∷◌, leb,
  ◌==◌, if◌then◌else◌,
}
use icici_breeze_api_trading.Prelude.Int.{ℤ, pos, ◌+ℤ◌, ◌-ℤ◌, max_ℤ}
use icici_breeze_api_trading.Prelude.Float.{Float, max_f, min_f}
use icici_breeze_api_trading.Prelude.Result.{Result, ok, err, other_error}
use icici_breeze_api_trading.Prelude.Dict.{get_key, put_key}
use icici_breeze_api_trading.Contracts.{Text}

pub record Datetime : Type 0 where
  pub wall : ℕ
  pub offset : ℕ

abbrev pub no_later : Datetime → Datetime → Bool
no_later a b = leb (a.wall + b.offset) (b.wall + a.offset)

abbrev pub same_instant : Datetime → Datetime → Bool
same_instant a b = a.wall + b.offset == b.wall + a.offset

abbrev minute_us : ℕ
minute_us = 60000000

-- The date in India, as a number of days since 1970.
abbrev pub date_ist : Datetime → ℕ
date_ist d = (d.wall + 330 * minute_us - d.offset) / (24 * 60 * minute_us)

abbrev pub plus_minutes : Datetime → ℕ → Datetime
plus_minutes d n = record d { wall = d.wall + n * minute_us }

pub record Quote (F : Type 0) : Type 0 where
  pub source : Text
  pub instrument_id : Text
  pub last_price : F
  pub volume : ℤ
  pub open_interest : ℤ
  pub timestamp : Datetime

-- An entry of `_current_candles`.
pub record ActiveCandle (F : Type 0) : Type 0 where
  pub start_time : Datetime
  pub open_price : F
  pub high : F
  pub low : F
  pub close : F
  pub volume : ℤ
  pub open_interest : ℤ
  pub source : Text

-- `interval` is the number before the "m".
pub record Candle (F : Type 0) : Type 0 where
  pub instrument_id : Text
  pub interval : ℕ
  pub start_time : Datetime
  pub end_time : Datetime
  pub open_price : F
  pub high : F
  pub low : F
  pub close : F
  pub volume : ℤ
  pub open_interest : ℤ
  pub source : Text

pub record Builder (F : Type 0) : Type 0 where
  pub current_candles : List (Text × ActiveCandle F)
  pub last_quotes : List (Text × Quote F)

-- `dt.replace(minute=…, second=0, microsecond=0)`.
unfoldable pub get_bar_start : ℕ → Datetime → Datetime
get_bar_start n d =
    let minute = d.wall / minute_us % 60 in
    record d { wall = d.wall / (60 * minute_us) * (60 * minute_us) + minute / n * n * minute_us }

module _ {F : Type 0} where
  abbrev pub is_stale : Quote F → Option (Quote F) → Bool
  is_stale q none = false
  is_stale q (some p) = no_later q.timestamp p.timestamp

  -- `same_feed` and `same_day`.
  abbrev pub volume_delta : Quote F → Option (Quote F) → ℤ
  volume_delta q none = pos 0
  volume_delta q (some p) =
      if (p.source == q.source) && (date_ist p.timestamp == date_ist q.timestamp)
      then max_ℤ (pos 0) (q.volume -ℤ p.volume)
      else pos 0

  -- A bar of another source is dropped.
  abbrev of_source : Quote F → Option (ActiveCandle F) → Option (ActiveCandle F)
  of_source q none = none
  of_source q (some a) = if a.source == q.source then some a else none

  abbrev pub complete : ℕ → Text → ActiveCandle F → Candle F
  complete n id a = record {
    instrument_id = id;
    interval = n;
    start_time = a.start_time;
    end_time = plus_minutes a.start_time n;
    open_price = a.open_price;
    high = a.high;
    low = a.low;
    close = a.close;
    volume = a.volume;
    open_interest = a.open_interest;
    source = a.source;
  }

  abbrev completed_candle : ℕ → Quote F → Datetime → Option (ActiveCandle F) → Option (Candle F)
  completed_candle n q start none = none
  completed_candle n q start (some a) =
      if same_instant a.start_time start then none else some (complete n q.instrument_id a)

  abbrev pub new_bar : Quote F → Datetime → ℤ → ActiveCandle F
  new_bar q start delta = record {
    start_time = start;
    open_price = q.last_price;
    high = q.last_price;
    low = q.last_price;
    close = q.last_price;
    volume = delta;
    open_interest = q.open_interest;
    source = q.source;
  }

module _ {F : Type 0} ⦃fl : Float F⦄ where
  abbrev extend : Quote F → ℤ → ActiveCandle F → ActiveCandle F
  extend q delta a = record a {
    high = max_f a.high q.last_price;
    low = min_f a.low q.last_price;
    close = q.last_price;
    volume = a.volume +ℤ delta;
    open_interest = q.open_interest;
  }

  abbrev next_bar : Quote F → Datetime → ℤ → Option (ActiveCandle F) → ActiveCandle F
  next_bar q start delta none = new_bar q start delta
  next_bar q start delta (some a) =
      if same_instant a.start_time start then extend q delta a else new_bar q start delta

  -- An interval of no minutes divides by zero.
  unfoldable pub process_quote : ℕ → Quote F → Builder F → Result (Option (Candle F)) × Builder F
  unfolding get_bar_start
  process_quote n q b =
      let start = get_bar_start n q.timestamp in
      let previous = get_key q.instrument_id b.last_quotes in
      let active = of_source q (get_key q.instrument_id b.current_candles) in
      if n == 0 then (err other_error, b) else if is_stale q previous then (ok none, b) else (
        ok (completed_candle n q start active),
        record {
          current_candles =
              put_key q.instrument_id (next_bar q start (volume_delta q previous) active)
                b.current_candles;
          last_quotes = put_key q.instrument_id q b.last_quotes;
        },
      )
