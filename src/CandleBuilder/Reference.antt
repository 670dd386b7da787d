-- ===== src/CandleBuilder/Reference.antt =====
-- The bars of an instrument, defined from the list of its quotes alone, the newest first.
use icici_breeze_api_trading.Prelude.{
  ℕ, Bool, not, ◌&&◌, Option, none, some, List, [], ◌∷◌, ◌==◌, if◌then◌else◌,
}
use icici_breeze_api_trading.Prelude.Int.{ℤ, ◌+ℤ◌}
use icici_breeze_api_trading.Prelude.Float.{Float, max_f, min_f}
use icici_breeze_api_trading.Contracts.{Text}
use icici_breeze_api_trading.CandleBuilder.{
  Quote, ActiveCandle, Candle, same_instant, get_bar_start, is_stale, volume_delta, complete,
}

module _ {F : Type 0} where
  abbrev pub newest : List (Quote F) → Option (Quote F)
  newest [] = none
  newest (q ∷ qs) = some q

  -- The quotes of an instrument that are later than those before them.
  unfoldable pub accepted : Text → List (Quote F) → List (Quote F)
  accepted k [] = []
  accepted k (q ∷ qs) =
      let older = accepted k qs in
      if (q.instrument_id == k) && not (is_stale q (newest older)) then q ∷ older else older

  abbrev pub same_bar : ℕ → Quote F → Quote F → Bool
  same_bar n p q =
      (p.source == q.source)
      && same_instant (get_bar_start n p.timestamp) (get_bar_start n q.timestamp)

  -- The older quotes of the bar of the first quote.
  unfoldable pub bar_quotes : ℕ → Quote F → List (Quote F) → List (Quote F)
  bar_quotes n q [] = []
  bar_quotes n q (p ∷ ps) = let rest = bar_quotes n p ps in if same_bar n p q then p ∷ rest else []

  -- The volume that the bar of the first quote adds up.
  unfoldable pub bar_volume : ℕ → Quote F → List (Quote F) → ℤ
  bar_volume n q [] = volume_delta q none
  bar_volume n q (p ∷ ps) =
      let before = bar_volume n p ps in
      if same_bar n p q then before +ℤ volume_delta q (some p) else volume_delta q (some p)

  unfoldable pub oldest : Quote F → List (Quote F) → Quote F
  oldest q [] = q
  oldest q (p ∷ ps) = oldest p ps

module _ {F : Type 0} ⦃fl : Float F⦄ where
  unfoldable pub highest : Quote F → List (Quote F) → F
  highest q [] = q.last_price
  highest q (p ∷ ps) = max_f (highest p ps) q.last_price

  unfoldable pub lowest : Quote F → List (Quote F) → F
  lowest q [] = q.last_price
  lowest q (p ∷ ps) = min_f (lowest p ps) q.last_price

  abbrev pub bar_at : ℕ → Quote F → List (Quote F) → ActiveCandle F
  bar_at n q qs =
      let own = bar_quotes n q qs in
      record {
        start_time = get_bar_start n (oldest q own).timestamp;
        open_price = (oldest q own).last_price;
        high = highest q own;
        low = lowest q own;
        close = q.last_price;
        volume = bar_volume n q qs;
        open_interest = q.open_interest;
        source = q.source;
      }

  unfoldable pub bar_of : ℕ → List (Quote F) → Option (ActiveCandle F)
  bar_of n [] = none
  bar_of n (q ∷ qs) = some (bar_at n q qs)

  -- The candle that a quote completes: that of the newest quote before it, where both are of one
  -- source and in different bars.
  unfoldable pub completed_by : ℕ → Quote F → List (Quote F) → Option (Candle F)
  completed_by n q [] = none
  completed_by n q (p ∷ ps) =
      if is_stale q (some p)
      then none
      else if (p.source == q.source) && not (same_bar n p q)
      then some (complete n q.instrument_id (bar_at n p ps))
      else none
