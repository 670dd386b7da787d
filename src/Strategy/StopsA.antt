-- ===== src/Strategy/StopsA.antt =====
-- The trailing stop under Strategy A.
use icici_breeze_api_trading.Prelude.{
  ◌≡◌, false, not, ◌&&◌, ◌||◌, Option, inl, inr, ◌==◌, Bool-cases,
}
use icici_breeze_api_trading.Prelude.Int.{pos, ltb_ℤ}
use icici_breeze_api_trading.Prelude.Float.{Float}
use icici_breeze_api_trading.Contracts.{Time}
use icici_breeze_api_trading.Strategy.{ActiveTrade, ManagerConfig, or_price}
use icici_breeze_api_trading.Strategy.Flow.{◌>=>◌}
use icici_breeze_api_trading.Strategy.Prices.{not_positive, positive, at_stop, or_zero}
use icici_breeze_api_trading.Strategy.StrategyA.{
  measure_a, exit_a, protect_a, stop_a, target_a, session_over, activated, partial_lots, lock_half,
  decide_partial, stages_a, update_strategy_a_position,
}
use icici_breeze_api_trading.Strategy.Stops.{
  PriceOrder, IsRounded, Tightens, tighten-Tightens, Tightens-refl, then_keeps,
}

module _ {F : Type 0} ⦃fl : Float F⦄ (t0 : ActiveTrade F) where
  -- The stop is set, too.
  abbrev Ready : ActiveTrade F → Type 0
  Ready t = Tightens t0 t × (not_positive t.current_trailing_stop ≡ false)

  measure_a-Ready :
      (entry r price option : F) (t : ActiveTrade F)
      → Ready t
      → Ready (measure_a entry r price option t).1
  unfolding measure_a
  measure_a-Ready entry r price option t h = elim (Bool-cases (positive option)) [
    | inl e ↦ rw e h
    | inr e ↦ rw e h
  ]

  exit_a-Ready :
      (c : ManagerConfig F) (option : F) (as_of : Option Time) (t : ActiveTrade F)
      → Ready t
      → Ready (exit_a c option as_of t).1
  unfolding exit_a
  exit_a-Ready c option as_of t h = elim (Bool-cases (session_over c as_of)) [
    | inl e ↦ rw e h
    | inr e ↦ elim (Bool-cases (positive option && fl.le option t.option_hard_stop_price)) [
      | inl s ↦ rw (e, s) h
      | inr s ↦ rw (e, s) h
    ]
  ]

  stop_a-Tightens :
      (c : ManagerConfig F) (price : F) (t : ActiveTrade F)
      → Tightens t0 t
      → Tightens t0 (stop_a c price t).1
  unfolding stop_a
  stop_a-Tightens c price t h =
      elim (Bool-cases (at_stop t.direction price t.current_trailing_stop)) [
        | inl e ↦ rw e h
        | inr e ↦ rw e h
      ]

module _ {F : Type 0} ⦃fl : Float F⦄ (o : PriceOrder F) (t0 : ActiveTrade F)
    (r0 : IsRounded t0) where
  protect_a-Tightens :
      (c : ManagerConfig F) (entry : F) (t : ActiveTrade F)
      → Ready t0 t
      → Tightens t0 (protect_a c entry t).1
  unfolding protect_a
  protect_a-Tightens c entry t h = elim (Bool-cases (activated c t)) [
    | inl e ↦ rw (h.1, e) (tighten-Tightens o t0 t _ r0 h.0.0 h.0.1.0)
    | inr e ↦ rw (h.1, e) h.0
  ]

  decide_partial-Tightens :
      (price : F) (t : ActiveTrade F) → Tightens t0 t → Tightens t0 (decide_partial price t).1
  decide_partial-Tightens price t h = elim (Bool-cases (t.lot_size == 0)) [
    | inl e ↦ rw e h
    | inr e ↦ elim (Bool-cases (ltb_ℤ (partial_lots t) (pos 1))) [
      | inl s ↦ rw (e, s) h
      | inr s ↦ rw (e, s) h
    ]
  ]

  target_a-Tightens :
      (c : ManagerConfig F) (entry r price : F) (t : ActiveTrade F)
      → Tightens t0 t
      → Tightens t0 (target_a c entry r price t).1
  unfolding target_a
  target_a-Tightens c entry r price t h =
      elim (Bool-cases (fl.le c.strategy_config.t1_r t.peak_r && not t.t1_reached)) [
        | inl e ↦ rw e (
            decide_partial-Tightens price (lock_half entry r t)
              (tighten-Tightens o t0 t _ r0 h.0 h.1.0))
        | inr e ↦
            elim (Bool-cases
              (t.t1_exit_pending && ltb_ℤ t.partial_exit_filled_quantity t.t1_exit_quantity)) [
                | inl s ↦ rw (e, s) h
                | inr s ↦
                    elim (Bool-cases (fl.le c.strategy_config.runner_target_reference_r t.peak_r)) [
                      | inl k ↦ rw (e, s, k) h
                      | inr k ↦ rw (e, s, k) h
                    ]
              ]
      ]

  stages_a-Tightens :
      (c : ManagerConfig F) (entry r price option : F) (as_of : Option Time)
      → not_positive t0.current_trailing_stop ≡ false
      → Tightens t0 (stages_a c entry r price option as_of t0).1
  stages_a-Tightens c entry r price option as_of p =
      let P = Tightens t0 in
      let Q = Ready t0 in
      let measured = measure_a entry r price option in
      let kept = measured >=> exit_a c option as_of in
      let protected = kept >=> protect_a c entry in
      let stopped = protected >=> stop_a c price in
      then_keeps P P stopped (target_a c entry r price) t0 (λ u h. h)
        (then_keeps P P protected (stop_a c price) t0 (λ u h. h)
          (then_keeps P Q kept (protect_a c entry) t0 (λ u h. h.0)
            (then_keeps Q Q measured (exit_a c option as_of) t0 (λ u h. h)
              (measure_a-Ready t0 entry r price option t0 (Tightens-refl o t0 r0, p))
              (exit_a-Ready t0 c option as_of))
            (protect_a-Tightens c entry))
          (stop_a-Tightens t0 c price))
        (target_a-Tightens c entry r price)

  pub update_strategy_a_position-Tightens :
      (c : ManagerConfig F) (price : F) (option : Option F) (as_of : Option Time)
      → not_positive t0.current_trailing_stop ≡ false
      → Tightens t0 (update_strategy_a_position c price option as_of t0).1
  unfolding update_strategy_a_position
  update_strategy_a_position-Tightens c price option as_of p =
      elim (Bool-cases (not_positive price || (not_positive entry || not_positive r))) [
        | inl e ↦ rw e (Tightens-refl o t0 r0)
        | inr e ↦ rw e (stages_a-Tightens c entry r price (or_zero option) as_of p)
      ]
    where
      entry : F
      entry = or_price t0.underlying_entry_price t0.entry_spot_price

      r : F
      r = or_price t0.underlying_r t0.initial_r_points
