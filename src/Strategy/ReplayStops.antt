-- ===== src/Strategy/ReplayStops.antt =====
-- services/strategy/replay_stops.py: one historical candle against the stop that was active at its
-- start, and the price of the exit.
use icici_breeze_api_trading.Prelude.{
  ◌≡◌, refl, Bool, true, false, not, ◌||◌, Option, none, some, inl, inr, if◌then◌else◌, Bool-cases,
}
use icici_breeze_api_trading.Prelude.Float.{Float, zero_f}
use icici_breeze_api_trading.Prelude.Result.{Result, ok, err, other_error}
use icici_breeze_api_trading.Strategy.Stops.{PriceOrder}

-- "BULLISH", "BEARISH", "CALL", "PUT", or another text.
pub data ReplayDirection : Type 0 where
  bullish_word bearish_word call_word put_word other_word : ReplayDirection

pub data ReplayEvent : Type 0 where
  ambiguous_entry_candle structural_stop thesis_invalidation_event no_exit : ReplayEvent

pub record ReplayStopDecision (F : Type 0) : Type 0 where
  pub event : ReplayEvent
  pub crossed : Bool
  pub ambiguous : Bool
  pub stop_level : F
  pub exit_price : Option F

pub record ReplayCandle (F : Type 0) : Type 0 where
  pub candle_open : F
  pub candle_high : F
  pub candle_low : F

abbrev pub is_call : ReplayDirection → Bool
is_call bullish_word = true
is_call call_word = true
is_call _ = false

abbrev pub is_put : ReplayDirection → Bool
is_put bearish_word = true
is_put put_word = true
is_put _ = false

module _ {F : Type 0} ⦃fl : Float F⦄ where
  open fl use {lt, le}

  abbrev pub stop_crossed : Bool → ReplayCandle F → F → Bool
  stop_crossed call k stop = if call then le k.candle_low stop else le stop k.candle_high

  abbrev opened_beyond_stop : Bool → ReplayCandle F → F → Bool
  opened_beyond_stop call k stop = if call then le k.candle_open stop else le stop k.candle_open

  abbrev pub exit_at : Bool → ReplayCandle F → F → F
  exit_at call k stop = if opened_beyond_stop call k stop then k.candle_open else stop

  unfoldable pub evaluate_replay_candle :
      ReplayDirection → ReplayCandle F → F → Bool → Bool → Result (ReplayStopDecision F)
  evaluate_replay_candle d k stop entry_candle thesis_invalidated =
      if le stop zero_f || (lt k.candle_high k.candle_low || not (is_call d || is_put d))
      then err other_error
      else if stop_crossed (is_call d) k stop
      then (if entry_candle
          then ok (record {
            event = ambiguous_entry_candle;
            crossed = true;
            ambiguous = true;
            stop_level = stop;
            exit_price = none;
          })
          else ok (record {
            event = structural_stop;
            crossed = true;
            ambiguous = false;
            stop_level = stop;
            exit_price = some (exit_at (is_call d) k stop);
          }))
      else ok (record {
        event = if thesis_invalidated then thesis_invalidation_event else no_exit;
        crossed = false;
        ambiguous = false;
        stop_level = stop;
        exit_price = none;
      })

module _ {F : Type 0} ⦃fl : Float F⦄ where
  -- A price that the candle traded at.
  abbrev pub IsTraded : ReplayCandle F → F → Type 0
  IsTraded k x = (fl.le k.candle_low x ≡ true) × (fl.le x k.candle_high ≡ true)

  -- The exit is at the stop or worse.
  abbrev pub IsNoBetter : Bool → F → F → Type 0
  IsNoBetter true stop exit = fl.le exit stop ≡ true
  IsNoBetter false stop exit = fl.le stop exit ≡ true

module _ {F : Type 0} ⦃fl : Float F⦄ (o : PriceOrder F) where
  exit_at-IsTraded :
      (call : Bool) (k : ReplayCandle F) (stop : F)
      → IsTraded k k.candle_open
      → stop_crossed call k stop ≡ true
      → IsTraded k (exit_at call k stop) × IsNoBetter call stop (exit_at call k stop)
  exit_at-IsTraded true k stop h c = elim (Bool-cases (fl.le k.candle_open stop)) [
    | inl e ↦ rw e (h, e)
    | inr e ↦ rw e (
      (c, o.le_trans stop k.candle_open k.candle_high (o.le_of_not_le k.candle_open stop e) h.1),
      o.le_refl stop,
    )
  ]
  exit_at-IsTraded false k stop h c = elim (Bool-cases (fl.le stop k.candle_open)) [
    | inl e ↦ rw e (h, e)
    | inr e ↦ rw e (
      (o.le_trans k.candle_low k.candle_open stop h.0 (o.le_of_not_le stop k.candle_open e), c),
      o.le_refl stop,
    )
  ]

  -- Where prices are ordered, a candle after the entry candle that crosses a positive stop of a
  -- known direction, with its open between its low and its high, ends the trade at a price between
  -- them that is at the stop or worse, whatever the thesis says.
  pub structural_exit :
      (d : ReplayDirection) (k : ReplayCandle F) (stop : F) (thesis_invalidated : Bool)
      → fl.le stop zero_f ≡ false
      → fl.lt k.candle_high k.candle_low ≡ false
      → (is_call d || is_put d) ≡ true
      → IsTraded k k.candle_open
      → stop_crossed (is_call d) k stop ≡ true
      → (x : F) × ((evaluate_replay_candle d k stop false thesis_invalidated
            ≡ ok (record {
              event = structural_stop;
              crossed = true;
              ambiguous = false;
              stop_level = stop;
              exit_price = some x;
            }))
          × (IsTraded k x × IsNoBetter (is_call d) stop x))
  unfolding evaluate_replay_candle
  structural_exit d k stop inv s r w h c =
      (exit_at (is_call d) k stop, (rw (s, r, w, c) refl, exit_at-IsTraded (is_call d) k stop h c))
