-- ===== src/Strategy/StopsLadder.antt =====
-- The trailing stop under the other strategies: the health actions and the ladder.
use icici_breeze_api_trading.Prelude.{
  ℕ, ◌+◌, ◌≡◌, ◌⊎◌, refl, true, false, ◌&&◌, Option, none, some, inl, inr, is_some, leb, ◌==◌,
  Bool-cases, and_right,
}
use icici_breeze_api_trading.Prelude.Float.{Float}
use icici_breeze_api_trading.Contracts.{Time}
use icici_breeze_api_trading.Strategy.{
  TradeDirection, ActiveTrade, ManagerConfig, MarketFeatures, is_bullish,
}
use icici_breeze_api_trading.Strategy.Flow.{◌>=>◌}
use icici_breeze_api_trading.Strategy.Prices.{
  not_positive, positive, at_stop, or_zero, beyond, behind,
}
use icici_breeze_api_trading.Strategy.Clock.{is_force_exit_time}
use icici_breeze_api_trading.Strategy.Reversal.{is_breakout, calculate_reversal_score}
use icici_breeze_api_trading.Strategy.Manager.{
  mark, track_r, enter_bar, thesis, false_breakout, stops, health, ladder, update_position,
  tighten_two, tighten_three, candidate, runner, check_box, inside_box, box_edge, invalidated,
  pullback_swing, manage_bar, check_bar, stages_of, extreme_close, is_trend_pullback, or_atr,
}
use icici_breeze_api_trading.Strategy.Stops.{
  PriceOrder, IsNearer, IsRounded, Tightens, tighten-Tightens, Tightens-refl, then_keeps,
  IsNearer-nearer, le-max_f_right,
}
use icici_breeze_api_trading.Strategy.StopsA.{update_strategy_a_position-Tightens}

module _ {F : Type 0} where
  -- Where a bar has ended, the extreme closes are known.
  abbrev KnownCloses : Option (F × Time) → Option F → Option F → Type 0
  KnownCloses none high low = Unit
  KnownCloses (some bar) high low = (is_some high ≡ true) × (is_some low ≡ true)

  abbrev HasCloses : Option (F × Time) → ActiveTrade F → Type 0
  HasCloses bar t = KnownCloses bar t.highest_close_since_entry t.lowest_close_since_entry

module _ {F : Type 0} ⦃fl : Float F⦄ (t0 : ActiveTrade F) where
  -- The best R so far is at least the present one.
  abbrev Tracked : ActiveTrade F → Type 0
  Tracked t = Tightens t0 t × (fl.le t.current_r t.peak_r ≡ true)

  enter_bar-Tracked :
      (bar : Option (F × Time)) (t : ActiveTrade F)
      → Tracked t
      → Tracked (enter_bar bar t).1 × HasCloses bar (enter_bar bar t).1
  unfolding enter_bar
  enter_bar-Tracked none t h = (h, tt)
  enter_bar-Tracked (some (close, at)) t h = (h, (refl, refl))

module _ {F : Type 0} ⦃fl : Float F⦄ (t0 : ActiveTrade F) (bar : Option (F × Time)) where
  abbrev Peaked : ActiveTrade F → Type 0
  Peaked t = Tracked t0 t × HasCloses bar t

  thesis-Peaked : (t : ActiveTrade F) → Peaked t → Peaked (thesis bar t).1
  unfolding thesis
  thesis-Peaked t h = elim (Bool-cases (invalidated t.direction bar (pullback_swing t))) [
    | inl e ↦ rw e h
    | inr e ↦ rw e h
  ]

  inside_box-Peaked :
      (f : MarketFeatures F) (close edge : F) (t : ActiveTrade F)
      → Peaked t
      → Peaked (inside_box f close edge t).1
  inside_box-Peaked f close edge t h =
      elim (Bool-cases (
        beyond t.direction close
          (behind t.direction edge (fl.mul (fl.literal 10 2) (or_atr t.atr_at_lock f.atr_5m))))) [
            | inl e ↦ rw e h
            | inr e ↦ elim (Bool-cases (beyond t.direction close edge)) [
              | inr s ↦ rw (e, s) h
              | inl s ↦ elim (Bool-cases (leb 2 (t.consecutive_inside_box_closes + 1))) [
                | inl k ↦ rw (e, s, k) h
                | inr k ↦ rw (e, s, k) h
              ]
            ]
          ]

  check_box-Peaked :
      (f : MarketFeatures F) (b : Option (F × Time)) (edge : Option F) (t : ActiveTrade F)
      → Peaked t
      → Peaked (check_box f b edge t).1
  check_box-Peaked f none edge t h = h
  check_box-Peaked f (some (close, at)) none t h = h
  check_box-Peaked f (some (close, at)) (some edge) t h = inside_box-Peaked f close edge t h

  false_breakout-Peaked :
      (f : MarketFeatures F) (t : ActiveTrade F) → Peaked t → Peaked (false_breakout f bar t).1
  unfolding false_breakout
  false_breakout-Peaked f t h = elim (Bool-cases (is_breakout t.strategy)) [
    | inl e ↦ rw e (check_box-Peaked f bar (box_edge t) t h)
    | inr e ↦ rw e h
  ]

  stops-Peaked :
      (c : ManagerConfig F) (option : Option F) (f : MarketFeatures F) (as_of : Option Time)
      (now : Time) (t : ActiveTrade F)
      → Peaked t
      → Peaked (stops c option f as_of now t).1
  unfolding stops
  stops-Peaked c option f as_of now t h =
      elim (Bool-cases
        (positive (or_zero option) && fl.le (or_zero option) t.option_hard_stop_price)) [
          | inl e ↦ rw e h
          | inr e ↦
              elim (Bool-cases (
                positive f.spot_price
                && at_stop t.direction f.spot_price t.current_trailing_stop)) [
                  | inl s ↦ rw (e, s) h
                  | inr s ↦ elim (Bool-cases (is_force_exit_time c.session_config as_of now)) [
                    | inl k ↦ rw (e, s, k) h
                    | inr k ↦ rw (e, s, k) h
                  ]
                ]
        ]

module _ {F : Type 0} ⦃fl : Float F⦄ (o : PriceOrder F) (t0 : ActiveTrade F)
    (r0 : IsRounded t0) where
  -- A stop that the ladder rounds: it is rounded, or one R was reached.
  abbrev Loose : ActiveTrade F → Type 0
  Loose t =
      ((t.direction ≡ t0.direction)
        × IsNearer t0.direction t0.current_trailing_stop t.current_trailing_stop)
      × (IsRounded t ⊎ (fl.le (fl.literal 1 0) t.peak_r ≡ true))

  runner-Tightens :
      (f : MarketFeatures F) (extreme : Option F) (t : ActiveTrade F)
      → is_some extreme ≡ true
      → Loose t
      → Tightens t0 (runner f extreme t).1
  runner-Tightens f none t e h = cc
  runner-Tightens f (some x) t e h = tighten-Tightens o t0 t _ r0 h.0.0 h.0.1

  some_extreme :
      (bar : F × Time) (t : ActiveTrade F)
      → HasCloses (some bar) t
      → is_some (extreme_close t) ≡ true
  some_extreme bar t h = elim (Bool-cases (is_bullish t.direction)) [
    | inl e ↦ rw e h.0
    | inr e ↦ rw e h.1
  ]

  ladder-Tightens :
      (c : ManagerConfig F) (f : MarketFeatures F) (t : ActiveTrade F)
      → is_some (extreme_close t) ≡ true
      → Loose t
      → Tightens t0 (ladder c f t).1
  unfolding ladder
  ladder-Tightens c f t x h = elim (Bool-cases (fl.le (fl.literal 2 0) t.peak_r)) [
    | inl e ↦ rw e (runner-Tightens f (extreme_close t) t x h)
    | inr e ↦ elim (Bool-cases (fl.le (fl.literal 15 1) t.peak_r)) [
      | inl s ↦ rw (e, s) (tighten-Tightens o t0 t _ r0 h.0.0 h.0.1)
      | inr s ↦ elim (Bool-cases (fl.le (fl.literal 1 0) t.peak_r)) [
        | inl k ↦ rw (e, s, k) (tighten-Tightens o t0 t _ r0 h.0.0 h.0.1)
        | inr k ↦ rw (e, s, k) (elim h.1 [ inl rounded ↦ (h.0.0, (h.0.1, rounded)) | inr one ↦ cc ])
      ]
    ]
  ]

  candidate-IsNearer :
      (d : TradeDirection) (a close : F) (x : Option F) (stop : F)
      → IsNearer d a stop
      → IsNearer d a (candidate d close x stop)
  candidate-IsNearer d a close none stop h = h
  candidate-IsNearer d a close (some x) stop h = elim (Bool-cases (beyond d x close)) [
    | inl e ↦ rw e (IsNearer-nearer o d a stop x h)
    | inr e ↦ rw e h
  ]

  tighten_three-Loose :
      (f : MarketFeatures F) (close : F) (t : ActiveTrade F)
      → (t.direction ≡ t0.direction)
      → IsNearer t0.direction t0.current_trailing_stop t.current_trailing_stop
      → fl.le (fl.literal 1 0) t.peak_r ≡ true
      → Loose (tighten_three f close t).1
  tighten_three-Loose f close t d n p = (
    (
      d,
      rw d (
          candidate-IsNearer t0.direction _ close _ _
            (candidate-IsNearer t0.direction _ close (some _) _ n)),
    ),
    inr p,
  )

  health-ladder :
      (c : ManagerConfig F) (f : MarketFeatures F) (bar : F × Time) (t : ActiveTrade F)
      → Peaked t0 (some bar) t
      → Tightens t0 ((health c f bar.0 >=> ladder c f) t).1
  unfolding health
  health-ladder c f bar t h = elim (Bool-cases (leb 4 score)) [
    | inl e ↦ rw e h.0.0
    | inr e ↦ elim (Bool-cases (leb 3 score && fl.lt t.current_r (fl.literal 1 0))) [
      | inl s ↦ rw (e, s) h.0.0
      | inr s ↦ elim (Bool-cases (score == 2)) [
        | inl k ↦ rw (e, s, k) (two_signs h.0.0)
        | inr k ↦ elim (Bool-cases ((score == 3) && fl.le (fl.literal 1 0) t.current_r)) [
          | inl m ↦ rw (e, s, k, m) (three_signs h.0 (and_right (score == 3) _ m))
          | inr m ↦
              rw (e, s, k, m)
                (ladder-Tightens c f _ (some_extreme bar t h.1)
                  ((h.0.0.0, h.0.0.1.0), inl h.0.0.1.1))
        ]
      ]
    ]
  ]
    where
      score : ℕ
      score = calculate_reversal_score c t f

      scored : ActiveTrade F
      scored = record t { reversal_score = score }

      two_signs : Tightens t0 t → Tightens t0 (ladder c f (tighten_two f bar.0 scored).1).1
      two_signs g =
          let w = tighten-Tightens o t0 scored _ r0 g.0 g.1.0 in
          ladder-Tightens c f _ (some_extreme bar t h.1) ((w.0, w.1.0), inl w.1.1)

      three_signs :
          Tracked t0 t
          → fl.le (fl.literal 1 0) t.current_r ≡ true
          → Tightens t0 (ladder c f (tighten_three f bar.0 scored).1).1
      three_signs g one =
          ladder-Tightens c f _ (some_extreme bar t h.1)
            (tighten_three-Loose f bar.0 scored g.0.0 g.0.1.0 (o.le_trans _ _ _ one g.1))

  manage_bar-Tightens :
      (c : ManagerConfig F) (f : MarketFeatures F) (bar : Option (F × Time)) (t : ActiveTrade F)
      → Peaked t0 bar t
      → Tightens t0 (manage_bar c f bar t).1
  manage_bar-Tightens c f none t h = h.0.0
  manage_bar-Tightens c f (some bar) t h = health-ladder c f bar t h

  check_bar-Tightens :
      (c : ManagerConfig F) (option : Option F) (f : MarketFeatures F) (as_of : Option Time)
      (now : Time) (bar : Option (F × Time)) (t : ActiveTrade F)
      → Tracked t0 t
      → Tightens t0 (check_bar c option f as_of now bar t).1
  check_bar-Tightens c option f as_of now bar t h =
      let Q = Peaked t0 bar in
      let entered = enter_bar bar in
      let judged = entered >=> thesis bar in
      let boxed = judged >=> false_breakout f bar in
      let stopped = boxed >=> stops c option f as_of now in
      then_keeps (Tightens t0) Q stopped (manage_bar c f bar) t (λ u h. h.0.0)
        (then_keeps Q Q boxed (stops c option f as_of now) t (λ u h. h)
          (then_keeps Q Q judged (false_breakout f bar) t (λ u h. h)
            (then_keeps Q Q entered (thesis bar) t (λ u h. h) (enter_bar-Tracked t0 bar t h)
              (thesis-Peaked t0 bar))
            (false_breakout-Peaked t0 bar f))
          (stops-Peaked t0 bar c option f as_of now))
        (manage_bar-Tightens c f bar)

  stages_of-Tightens :
      (c : ManagerConfig F) (option : Option F) (f : MarketFeatures F) (as_of : Option Time)
      (now : Time)
      → Tightens t0 (stages_of c option f as_of now t0).1
  unfolding mark track_r
  stages_of-Tightens c option f as_of now = elim (Bool-cases (not_positive t0.initial_r_points)) [
    | inl e ↦ rw e (Tightens-refl o t0 r0)
    | inr e ↦ rw e (
        check_bar-Tightens c option f as_of now _ _
          (Tightens-refl o t0 r0, le-max_f_right o t0.peak_r _))
  ]

  -- Where prices are ordered and rounding to two digits keeps their order, a trade with a positive
  -- stop of two digits keeps its direction and leaves an update of any strategy, whatever it
  -- returns, with a stop of two digits that is no lower for a rising trade and no higher for a
  -- falling one.
  pub update_position-Tightens :
      (c : ManagerConfig F) (option : Option F) (f : MarketFeatures F) (as_of : Option Time)
      (now : Time)
      → not_positive t0.current_trailing_stop ≡ false
      → Tightens t0 (update_position c option f as_of now t0).1
  unfolding update_position
  update_position-Tightens c option f as_of now p =
      elim (Bool-cases (is_trend_pullback t0.strategy)) [
        | inl e ↦
            rw e (update_strategy_a_position-Tightens o t0 r0 c f.futures_price option as_of p)
        | inr e ↦ rw e (stages_of-Tightens c option f as_of now)
      ]
