-- ===== src/Strategy/Sizing.antt =====
-- services/strategy/position_manager.py: R multiples of a trade, and its number of lots.
use icici_breeze_api_trading.Prelude.{
  ◌≡◌, ◌⊎◌, refl, Bool, false, ◌&&◌, ◌||◌, Option, none, some, List, [], ◌∷◌, inl, inr, arith,
  if◌then◌else◌, Bool-cases,
}
use icici_breeze_api_trading.Prelude.Int.{ℤ, pos, ◌*ℤ◌, ◌≤ℤ◌, ltb_ℤ, leb_ℤ, min_ℤ}
use icici_breeze_api_trading.Prelude.Float.{Float, zero_f}
use icici_breeze_api_trading.Prelude.Result.{Result, ok, err, other_error}
use icici_breeze_api_trading.Strategy.{TradeDirection, StrategyRiskConfig, or_price}
use icici_breeze_api_trading.Strategy.Prices.{not_positive, positive, directional}

pub data SizingMethod : Type 0 where
  delta_approximation configured_fallback : SizingMethod

-- `rejected` stands for the reason, which is one text or `None`.
pub record StructuralRiskEstimate (F : Type 0) : Type 0 where
  pub underlying_r : F
  pub option_loss_per_lot : F
  pub risk_budget : F
  pub lots : ℤ
  pub quantity : ℤ
  pub method : SizingMethod
  pub rejected : Bool

abbrev least : ℤ → ℤ → ℤ → ℤ
least a b c = min_ℤ (min_ℤ a b) c

module _ {F : Type 0} ⦃fl : Float F⦄ where
  open fl use {lt, le, add, sub, mul, div, abs, round, floor, of_int, literal}

  unfoldable pub underlying_r_for_price : TradeDirection → F → F → F → F
  underlying_r_for_price d entry risk exit =
      if not_positive entry || (not_positive risk || not_positive exit)
      then zero_f
      else round (div (directional d entry exit) risk) 6

  -- `sum` over the exits with a positive quantity.
  abbrev weighted : TradeDirection → F → F → F → List (ℤ × F) → F
  weighted d entry risk acc [] = acc
  weighted d entry risk acc ((quantity, price) ∷ exits) =
      weighted d entry risk
        (if ltb_ℤ (pos 0) quantity
          then add acc (mul (of_int quantity) (underlying_r_for_price d entry risk price))
          else acc)
        exits

  unfoldable pub calculate_realized_trade_r : TradeDirection → F → F → ℤ → List (ℤ × F) → F
  unfolding underlying_r_for_price
  calculate_realized_trade_r d entry risk original exits =
      if leb_ℤ original (pos 0)
      then zero_f
      else round (div (weighted d entry risk zero_f exits) (of_int original)) 4

  abbrev usable_delta : Option F → Bool
  usable_delta none = false
  usable_delta (some x) = positive (abs x) && le (abs x) (literal 1 0)

  abbrev delta_or : Option F → F → F
  delta_or none d = d
  delta_or (some x) d = x

  abbrev fallback_loss : Option F → Result (F × SizingMethod)
  fallback_loss none = err other_error
  fallback_loss (some x) = if positive x then ok (x, configured_fallback) else err other_error

  -- The multiplier is 1.0 wherever the method is called.
  unfoldable pub estimate_option_loss_per_lot :
      F → F → Option F → ℤ → F → Option F → Result (F × SizingMethod)
  estimate_option_loss_per_lot entry stop delta lot_size option_entry fallback =
      let r = abs (sub entry stop) in
      if not_positive r || (leb_ℤ lot_size (pos 0) || not_positive option_entry)
      then err other_error
      else if usable_delta delta
      then ok (
        mul (mul (mul (abs (delta_or delta zero_f)) r) (of_int lot_size)) (literal 1 0),
        delta_approximation,
      )
      else fallback_loss fallback

  abbrev estimate :
      StrategyRiskConfig F → F → F → ℤ → F → F → F × SizingMethod → StructuralRiskEstimate F
  estimate cfg entry stop lot_size option_entry budget (loss, method) =
      let capital_lots = floor (div cfg.max_trade_capital (mul option_entry (of_int lot_size))) in
      let risk_lots = if positive loss then floor (div budget loss) else pos 0 in
      let lots = least capital_lots risk_lots cfg.max_lots_per_trade in
      let too_few = ltb_ℤ lots (pos 1) in
      record {
        underlying_r = abs (sub entry stop);
        option_loss_per_lot = loss;
        risk_budget = budget;
        lots = if too_few then pos 0 else lots;
        quantity = if too_few then pos 0 else lots *ℤ lot_size;
        method = method;
        rejected = too_few;
      }

  abbrev estimated :
      StrategyRiskConfig F
      → F
      → F
      → ℤ
      → F
      → F
      → Result (F × SizingMethod)
      → Result (StructuralRiskEstimate F)
  estimated cfg entry stop lot_size option_entry budget (err e) = err e
  estimated cfg entry stop lot_size option_entry budget (ok loss) =
      ok (estimate cfg entry stop lot_size option_entry budget loss)

  unfoldable pub size :
      StrategyRiskConfig F
      → F
      → F
      → Option F
      → ℤ
      → F
      → Option F
      → Option F
      → Result (StructuralRiskEstimate F)
  unfolding estimate_option_loss_per_lot
  size cfg entry stop delta lot_size option_entry account_equity fallback =
      let equity = or_price account_equity cfg.account_equity in
      let budget = div (mul equity cfg.risk_per_trade_pct_of_account) (literal 100 0) in
      estimated cfg entry stop lot_size option_entry budget
        (estimate_option_loss_per_lot entry stop delta lot_size option_entry fallback)

  -- The lots and the quantity.
  unfoldable pub calculate_position_size : StrategyRiskConfig F → F → F → ℤ → ℤ × ℤ
  calculate_position_size cfg premium equity lot_size =
      let capital_per_lot = mul premium (of_int lot_size) in
      let capital_lots = floor (div cfg.max_trade_capital capital_per_lot) in
      let budget = mul equity (div cfg.risk_per_trade_pct_of_account (literal 100 0)) in
      let hard_stop = div cfg.option_hard_stop_pct (literal 100 0) in
      let risk_per_lot = mul (mul premium hard_stop) (of_int lot_size) in
      let risk_lots =
        if positive risk_per_lot then floor (div budget risk_per_lot) else capital_lots in
      let lots = least capital_lots risk_lots cfg.max_lots_per_trade in
      if not_positive capital_per_lot
      then (pos 0, pos 0)
      else if ltb_ℤ lots (pos 1)
      then (pos 0, pos 0)
      else (lots, lots *ℤ lot_size)

-- A position that is opened at all, or none.
abbrev pub IsSized : ℤ → ℤ → ℤ → ℤ × ℤ → Type 0
IsSized capital_lots max_lots lot_size (lots, quantity) =
    ((lots ≡ pos 0) × (quantity ≡ pos 0))
    ⊎ (((pos 1 ≤ℤ lots) × (quantity ≡ lots *ℤ lot_size))
        × ((lots ≤ℤ capital_lots) × (lots ≤ℤ max_lots)))

least-le : (a b c : ℤ) → (least a b c ≤ℤ a) × (least a b c ≤ℤ c)
least-le a b c = ground arith

not_too_few : (a : ℤ) → ltb_ℤ a (pos 1) ≡ false → pos 1 ≤ℤ a
not_too_few a h = ground arith

module _ {F : Type 0} ⦃fl : Float F⦄ where
  -- A sized position is none, or it has at least one lot, no more lots than the trade capital pays
  -- for and than the configured maximum, and the quantity of that many lots.
  pub calculate_position_size-IsSized :
      (cfg : StrategyRiskConfig F) (premium equity : F) (lot_size : ℤ)
      → IsSized
          (fl.floor (fl.div cfg.max_trade_capital (fl.mul premium (fl.of_int lot_size))))
          cfg.max_lots_per_trade
          lot_size
          (calculate_position_size cfg premium equity lot_size)
  unfolding calculate_position_size
  calculate_position_size-IsSized cfg premium equity lot_size =
      elim (Bool-cases (not_positive capital_per_lot)) [
        | inl e ↦ rw e (inl (refl, refl))
        | inr e ↦ elim (Bool-cases (ltb_ℤ lots (pos 1))) [
          | inl s ↦ rw (e, s) (inl (refl, refl))
          | inr s ↦
              rw (e, s)
                (inr (
                  (not_too_few lots s, refl),
                  least-le capital_lots risk_lots cfg.max_lots_per_trade,
                ))
        ]
      ]
    where
      open fl use {mul, div, floor, of_int, literal}

      capital_per_lot : F
      capital_per_lot = mul premium (of_int lot_size)

      capital_lots : ℤ
      capital_lots = floor (div cfg.max_trade_capital capital_per_lot)

      risk_per_lot : F
      risk_per_lot =
          mul (mul premium (div cfg.option_hard_stop_pct (literal 100 0))) (of_int lot_size)

      risk_lots : ℤ
      risk_lots =
          if positive risk_per_lot
          then floor (
              div (mul equity (div cfg.risk_per_trade_pct_of_account (literal 100 0))) risk_per_lot)
          else capital_lots

      lots : ℤ
      lots = least capital_lots risk_lots cfg.max_lots_per_trade
