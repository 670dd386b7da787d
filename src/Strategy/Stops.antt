-- ===== src/Strategy/Stops.antt =====
-- The trailing stop of a trade in the hands of the position manager.
use icici_breeze_api_trading.Prelude.{ℕ, ◌≡◌, refl, true, false, inl, inr, Bool-cases}
use icici_breeze_api_trading.Prelude.Float.{Float, max_f, min_f}
use icici_breeze_api_trading.Strategy.{TradeDirection, bullish, bearish, ActiveTrade}
use icici_breeze_api_trading.Strategy.Flow.{Flow, Stage, goes_on, returns, raises, resume, ◌>=>◌}
use icici_breeze_api_trading.Strategy.Prices.{nearer, tighten}

-- What finite floats and `round` to a number of digits satisfy.
pub record PriceOrder (F : Type 0) ⦃fl : Float F⦄ : Type 0 where
  pub le_refl : (a : F) → fl.le a a ≡ true
  pub le_trans : (a b c : F) → fl.le a b ≡ true → fl.le b c ≡ true → fl.le a c ≡ true
  pub le_of_lt : (a b : F) → fl.lt a b ≡ true → fl.le a b ≡ true
  pub le_of_not_lt : (a b : F) → fl.lt a b ≡ false → fl.le b a ≡ true
  pub le_of_not_le : (a b : F) → fl.le a b ≡ false → fl.le b a ≡ true
  pub round_mono : (a b : F) (d : ℕ) → fl.le a b ≡ true → fl.le (fl.round a d) (fl.round b d) ≡ true
  pub round_round : (a : F) (d : ℕ) → fl.round (fl.round a d) d ≡ fl.round a d

module _ {F : Type 0} ⦃fl : Float F⦄ where
  -- The second stop is at the first, or nearer to the price.
  abbrev pub IsNearer : TradeDirection → F → F → Type 0
  IsNearer bullish a b = fl.le a b ≡ true
  IsNearer bearish a b = fl.le b a ≡ true

  abbrev pub IsRounded : ActiveTrade F → Type 0
  IsRounded t = fl.round t.current_trailing_stop 2 ≡ t.current_trailing_stop

  abbrev pub Tightens : ActiveTrade F → ActiveTrade F → Type 0
  Tightens t0 t =
      (t.direction ≡ t0.direction)
      × (IsNearer t0.direction t0.current_trailing_stop t.current_trailing_stop × IsRounded t)

module _ {F : Type 0} ⦃fl : Float F⦄ (o : PriceOrder F) where
  le-max_f : (a b : F) → fl.le a (max_f a b) ≡ true
  le-max_f a b = elim (Bool-cases (fl.lt a b)) [
    | inl e ↦ rw e (o.le_of_lt a b e)
    | inr e ↦ rw e (o.le_refl a)
  ]

  pub le-max_f_right : (a b : F) → fl.le b (max_f a b) ≡ true
  le-max_f_right a b = elim (Bool-cases (fl.lt a b)) [
    | inl e ↦ rw e (o.le_refl b)
    | inr e ↦ rw e (o.le_of_not_lt a b e)
  ]

  min_f-le : (a b : F) → fl.le (min_f a b) a ≡ true
  min_f-le a b = elim (Bool-cases (fl.lt b a)) [
    | inl e ↦ rw e (o.le_of_lt b a e)
    | inr e ↦ rw e (o.le_refl a)
  ]

  pub IsNearer-nearer :
      (d : TradeDirection) (a b x : F) → IsNearer d a b → IsNearer d a (nearer d b x)
  IsNearer-nearer bullish a b x h = o.le_trans a b (max_f b x) h (le-max_f b x)
  IsNearer-nearer bearish a b x h = o.le_trans (min_f b x) b a (min_f-le b x) h

  pub IsNearer-round :
      (d : TradeDirection) (a b : F)
      → fl.round a 2 ≡ a
      → IsNearer d a b
      → IsNearer d a (fl.round b 2)
  IsNearer-round bullish a b e h = rw e at (o.round_mono a b 2 h)
  IsNearer-round bearish a b e h = rw e at (o.round_mono b a 2 h)

  -- A stop that is tightened by any level.
  pub tighten-Tightens :
      (t0 t : ActiveTrade F) (x : F)
      → IsRounded t0
      → t.direction ≡ t0.direction
      → IsNearer t0.direction t0.current_trailing_stop t.current_trailing_stop
      → Tightens t0
          (record t { current_trailing_stop = tighten t.direction t.current_trailing_stop x })
  tighten-Tightens t0 t x r e h = (
    e,
    (
      IsNearer-round t0.direction t0.current_trailing_stop _ r
          (rw e (IsNearer-nearer t0.direction _ _ x h)),
      o.round_round (nearer t.direction t.current_trailing_stop x) 2,
    ),
  )

  IsNearer-refl : (d : TradeDirection) (a : F) → IsNearer d a a
  IsNearer-refl bullish a = o.le_refl a
  IsNearer-refl bearish a = o.le_refl a

  pub Tightens-refl : (t : ActiveTrade F) → IsRounded t → Tightens t t
  Tightens-refl t r = (refl, (IsNearer-refl t.direction t.current_trailing_stop, r))

-- A property that a stage establishes, and one that it leaves to the next.
pub then_keeps :
    {F : Type 0} (P Q : ActiveTrade F → Type 0) (a b : Stage F) (t : ActiveTrade F)
    → ((u : ActiveTrade F) → Q u → P u)
    → Q (a t).1
    → ((u : ActiveTrade F) → Q u → P (b u).1)
    → P ((a >=> b) t).1
then_keeps {F} P Q a b t weak h k = onward (a t).0 (a t).1 h
  where
    onward : (f : Flow) (u : ActiveTrade F) → Q u → P (resume f b u).1
    onward goes_on u h = k u h
    onward (returns r) u h = weak u h
    onward (raises e) u h = weak u h
