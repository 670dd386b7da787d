-- ===== src/CandleBuilder/Bars.antt =====
-- What the builder keeps and completes, against the reference.
use mathlib.Core.Path.{subst}
use icici_breeze_api_trading.Prelude.{
  ℕ, ◌≡◌, refl, ◌∙◌, true, false, none, some, List, [], ◌∷◌, inl, inr, arith, ◌==◌, ==_iff,
  Bool-cases, and_right,
}
use icici_breeze_api_trading.Prelude.Float.{Float}
use icici_breeze_api_trading.Prelude.Result.{ok}
use icici_breeze_api_trading.Prelude.Dict.{get_key, get_key-put_key}
use icici_breeze_api_trading.Contracts.{Text}
use icici_breeze_api_trading.CandleBuilder.{
  Datetime, Quote, Builder, same_instant, get_bar_start, is_stale, volume_delta, of_source,
  completed_candle, next_bar, process_quote,
}
use icici_breeze_api_trading.CandleBuilder.Reference.{
  newest, accepted, same_bar, bar_quotes, bar_volume, oldest, highest, lowest, bar_of, completed_by,
}

same_instant_through :
    (a b c : Datetime) → same_instant a b ≡ true → same_instant a c ≡ same_instant b c
same_instant_through a b c h = ground arith

module _ {F : Type 0} where
  -- The bar starts when its oldest quote starts one.
  oldest_start :
      (n : ℕ) (q : Quote F) (qs : List (Quote F))
      → same_instant
          (get_bar_start n (oldest q (bar_quotes n q qs)).timestamp)
          (get_bar_start n q.timestamp)
        ≡ true
  unfolding oldest bar_quotes
  oldest_start n q [] = ground arith
  oldest_start n q (p ∷ ps) = elim (Bool-cases (same_bar n p q)) [
    | inl e ↦
        rw e
          (same_instant_through _ _ _ (oldest_start n p ps) ∙ and_right (p.source == q.source) _ e)
    | inr e ↦ rw e (ground arith)
  ]

  accepted_stale :
      (k : Text) (q : Quote F) (qs : List (Quote F))
      → is_stale q (newest (accepted q.instrument_id qs)) ≡ true
      → accepted k (q ∷ qs) ≡ accepted k qs
  unfolding accepted
  accepted_stale k q qs h = elim (Bool-cases (q.instrument_id == k)) [
    | inl e ↦
        rw
          (
            e,
            subst (λ j. is_stale q (newest (accepted j qs)) ≡ true) ((==_iff q.instrument_id k).0 e)
                h,
          )
          refl
    | inr e ↦ rw e refl
  ]

  accepted_new :
      (q : Quote F) (qs : List (Quote F))
      → is_stale q (newest (accepted q.instrument_id qs)) ≡ false
      → accepted q.instrument_id (q ∷ qs) ≡ q ∷ accepted q.instrument_id qs
  unfolding accepted
  accepted_new q qs h = rw (h, (==_iff q.instrument_id q.instrument_id).1 refl) refl

  accepted_other :
      (k : Text) (q : Quote F) (qs : List (Quote F))
      → (q.instrument_id == k) ≡ false
      → accepted k (q ∷ qs) ≡ accepted k qs
  unfolding accepted
  accepted_other k q qs h = rw h refl

module _ {F : Type 0} ⦃fl : Float F⦄ where
  next_bar_lem :
      (n : ℕ) (q : Quote F) (olds : List (Quote F))
      → some (
          next_bar q
            (get_bar_start n q.timestamp)
            (volume_delta q (newest olds))
            (of_source q (bar_of n olds)))
        ≡ bar_of n (q ∷ olds)
  unfolding bar_of bar_quotes bar_volume oldest highest lowest
  next_bar_lem n q [] = refl
  next_bar_lem n q (p ∷ ps) = elim (Bool-cases (p.source == q.source)) [
    | inr s ↦ rw s refl
    | inl s ↦
        elim (Bool-cases
          (same_instant (get_bar_start n p.timestamp) (get_bar_start n q.timestamp))) [
            | inl i ↦
                rw
                  (
                    s,
                    same_instant_through _ _ (get_bar_start n q.timestamp) (oldest_start n p ps),
                    i,
                    (==_iff p.source q.source).0 s,
                  )
                  refl
            | inr i ↦
                rw
                  (
                    s,
                    same_instant_through _ _ (get_bar_start n q.timestamp) (oldest_start n p ps),
                    i,
                  )
                  refl
          ]
  ]

  completed_candle_lem :
      (n : ℕ) (q : Quote F) (olds : List (Quote F))
      → is_stale q (newest olds) ≡ false
      → completed_candle n q (get_bar_start n q.timestamp) (of_source q (bar_of n olds))
        ≡ completed_by n q olds
  unfolding bar_of completed_by
  completed_candle_lem n q [] h = refl
  completed_candle_lem n q (p ∷ ps) h = elim (Bool-cases (p.source == q.source)) [
    | inr s ↦ rw (h, s) refl
    | inl s ↦
        elim (Bool-cases
          (same_instant (get_bar_start n p.timestamp) (get_bar_start n q.timestamp))) [
            | inl i ↦
                rw
                  (
                    h,
                    s,
                    same_instant_through _ _ (get_bar_start n q.timestamp) (oldest_start n p ps),
                    i,
                  )
                  refl
            | inr i ↦
                rw
                  (
                    h,
                    s,
                    same_instant_through _ _ (get_bar_start n q.timestamp) (oldest_start n p ps),
                    i,
                  )
                  refl
          ]
  ]

  stale_completes :
      (n : ℕ) (q : Quote F) (olds : List (Quote F))
      → is_stale q (newest olds) ≡ true
      → completed_by n q olds ≡ none
  unfolding completed_by
  stale_completes n q [] h = refl
  stale_completes n q (p ∷ ps) h = rw h refl

  -- What the builder keeps of an instrument is what the quotes so far say.
  abbrev Tracks : ℕ → Text → List (Quote F) → Builder F → Type 0
  Tracks n k qs b =
      (get_key k b.last_quotes ≡ newest (accepted k qs))
      × (get_key k b.current_candles ≡ bar_of n (accepted k qs))

  -- The builder after some quotes, the newest first.
  unfoldable pub after : ℕ → List (Quote F) → Builder F
  after n [] = record { current_candles = []; last_quotes = [] }
  after n (q ∷ qs) = (process_quote n q (after n qs)).1

  process_quote-Tracks_own :
      (n : ℕ) (q : Quote F) (qs : List (Quote F)) (b : Builder F)
      → (n == 0) ≡ false
      → is_stale q (newest (accepted q.instrument_id qs)) ≡ false
      → Tracks n q.instrument_id qs b
      → Tracks n q.instrument_id (q ∷ qs) (process_quote n q b).1
  unfolding process_quote
  process_quote-Tracks_own n q qs b z e t =
      rw
        (
          z,
          t.0,
          e,
          accepted_new q qs e,
          get_key-put_key q.instrument_id q.instrument_id q b.last_quotes,
          get_key-put_key q.instrument_id q.instrument_id (next_bar q _ _ _) b.current_candles,
          (==_iff q.instrument_id q.instrument_id).1 refl,
          t.1,
        )
        (refl, next_bar_lem n q (accepted q.instrument_id qs))

  process_quote-Tracks :
      (n : ℕ) (q : Quote F) (qs : List (Quote F)) (b : Builder F) (k : Text)
      → (n == 0) ≡ false
      → ((j : Text) → Tracks n j qs b)
      → Tracks n k (q ∷ qs) (process_quote n q b).1
  unfolding process_quote
  process_quote-Tracks n q qs b k z t =
      elim (Bool-cases (is_stale q (newest (accepted q.instrument_id qs)))) [
        | inl e ↦ rw (z, (t q.instrument_id).0, e, accepted_stale k q qs e) (t k)
        | inr e ↦ elim (Bool-cases (q.instrument_id == k)) [
          | inl s ↦
              rw (← (==_iff q.instrument_id k).0 s)
                (process_quote-Tracks_own n q qs b z e (t q.instrument_id))
          | inr s ↦
              rw
                (
                  z,
                  (t q.instrument_id).0,
                  e,
                  accepted_other k q qs s,
                  get_key-put_key k q.instrument_id q b.last_quotes,
                  get_key-put_key k q.instrument_id (next_bar q _ _ _) b.current_candles,
                  s,
                )
                (t k)
        ]
      ]

  process_quote_answer :
      (n : ℕ) (q : Quote F) (qs : List (Quote F)) (b : Builder F)
      → (n == 0) ≡ false
      → Tracks n q.instrument_id qs b
      → (process_quote n q b).0 ≡ ok (completed_by n q (accepted q.instrument_id qs))
  unfolding process_quote
  process_quote_answer n q qs b z t =
      elim (Bool-cases (is_stale q (newest (accepted q.instrument_id qs)))) [
        | inl e ↦ rw (z, t.0, e, stale_completes n q (accepted q.instrument_id qs) e) refl
        | inr e ↦ rw (z, t.0, e, t.1, completed_candle_lem n q (accepted q.instrument_id qs) e) refl
      ]

  after-Tracks :
      (n : ℕ) → (n == 0) ≡ false → (qs : List (Quote F)) (k : Text) → Tracks n k qs (after n qs)
  unfolding after accepted bar_of
  after-Tracks n z [] k = (refl, refl)
  after-Tracks n z (q ∷ qs) k = process_quote-Tracks n q qs (after n qs) k z (after-Tracks n z qs)

  -- After any quotes of any instruments, where the interval is not zero, the bar that the builder
  -- keeps of an instrument is the one of the reference: it has the open, the highest, lowest and
  -- last price and the volume of the newest run of accepted quotes from one source in one interval.
  pub current_bar :
      (n : ℕ)
      → (n == 0) ≡ false
      → (qs : List (Quote F)) (k : Text)
      → get_key k (after n qs).current_candles ≡ bar_of n (accepted k qs)
  current_bar n z qs k = (after-Tracks n z qs k).1

  -- After any quotes, where the interval is not zero, the next quote completes the candle of the
  -- reference: that of the newest accepted quote of its instrument before it, where the next quote
  -- is later, from the same source and in another interval, and none else.
  pub completed_bar :
      (n : ℕ)
      → (n == 0) ≡ false
      → (qs : List (Quote F)) (q : Quote F)
      → (process_quote n q (after n qs)).0 ≡ ok (completed_by n q (accepted q.instrument_id qs))
  completed_bar n z qs q =
      process_quote_answer n q qs (after n qs) z (after-Tracks n z qs q.instrument_id)
