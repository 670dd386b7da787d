-- ===== src/Strategy/PartialExit.antt =====
-- The partial exit of Strategy A: the decision at the first target and the fill that carries it out.
use icici_breeze_api_trading.Prelude.{
  ℕ, ◌+◌, ◌*◌, ◌/◌, ◌%◌, ◌≤◌, ◌≡◌, refl, true, false, not, ◌&&◌, ◌||◌, some, arith, ◌==◌,
}
use icici_breeze_api_trading.Prelude.Int.{ℤ, pos, ◌+ℤ◌, ◌-ℤ◌, ◌*ℤ◌, ltb_ℤ, leb_ℤ, max_ℤ, int_laws}
use icici_breeze_api_trading.Prelude.Float.{Float}
use icici_breeze_api_trading.Prelude.Result.{ok}
use icici_breeze_api_trading.Contracts.{Time}
use icici_breeze_api_trading.Strategy.{ActiveTrade, ManagerConfig, floor_div}
use icici_breeze_api_trading.Strategy.Prices.{not_positive}
use icici_breeze_api_trading.Strategy.StrategyA.{
  target_a, decide_partial, lock_half, original_of, partial_lots, fill_partial,
  apply_t1_partial_fill,
}
use native.Mathlib.Nat.{mul-div_cancel, mul-mod_left, mul-le-mul_right, mul-le-mul, add-mul}

-- A trade of `n` lots that has not come to its partial exit.
pub record IsWhole {F : Type 0} (n lot : ℕ) (t : ActiveTrade F) : Type 0 where
  pub lots_two : 2 ≤ n
  pub lot_positive : 1 ≤ lot
  pub lot_size_is : t.lot_size ≡ lot
  pub initial_is : t.initial_quantity ≡ some (pos (n * lot))
  pub none_filled : t.partial_exit_filled_quantity ≡ pos 0

floor_half :
    (n lot : ℕ)
    → 2 ≤ n
    → 1 ≤ lot
    → floor_div (max_ℤ (pos 1) (floor_div (pos (n * lot)) lot)) 2 ≡ pos (n / 2)
floor_half n lot two one = rw (mul-div_cancel n {n = lot} (omega arith)) (ground arith)

pos_mul : (a b : ℕ) → pos a *ℤ pos b ≡ pos (a * b)
unfolding ◌*ℤ◌
pos_mul a b = ground arith

prod_positive : (a b : ℕ) → 1 ≤ a → 1 ≤ b → 1 ≤ a * b
prod_positive a b h k = mul-le-mul {n₁ = 1} {m₁ = 1} {n₂ = a} {m₂ = b} h k

not_small : (m : ℕ) → 1 ≤ m → ltb_ℤ (pos m) (pos 1) ≡ false
not_small m h = ground arith

not_none : (m : ℕ) → 1 ≤ m → (m == 0) ≡ false
not_none m h = ground arith

not_below : (m : ℕ) → 1 ≤ m → leb_ℤ (pos m) (pos 0) ≡ false
not_below m h = ground arith

above : (m : ℕ) → 1 ≤ m → ltb_ℤ (pos 0) (pos m) ≡ true
above m h = ground arith

not_above : (m n : ℕ) → m ≤ n → ltb_ℤ (pos n) (pos m) ≡ false
not_above m n h = ground arith

pos_add : (a b : ℕ) → pos a +ℤ pos b ≡ pos (a + b)
unfolding ◌+ℤ◌
pos_add a b = ground arith

sub_add : (a b : ℤ) → a -ℤ b +ℤ b ≡ a
sub_add a b = omega int_laws

zero_pos : (m : ℕ) → pos 0 +ℤ pos m ≡ pos m
unfolding ◌+ℤ◌
zero_pos m = ground arith

half-le : (n lot : ℕ) → n / 2 * lot ≤ n * lot
half-le n lot = mul-le-mul_right lot (omega arith)

halves-le : (n lot : ℕ) → n / 2 * lot + n / 2 * lot ≤ n * lot
halves-le n lot = rw (← add-mul (n / 2) (n / 2) lot) (mul-le-mul_right lot (omega arith))

module _ {F : Type 0} ⦃fl : Float F⦄ where
  open fl use {le}

  original_of_whole :
      (total : ℕ) (t : ActiveTrade F)
      → 1 ≤ total
      → t.initial_quantity ≡ some (pos total)
      → original_of t ≡ pos total
  original_of_whole total t p e = rw e (ground arith)

  partial_of_whole :
      (n lot : ℕ) (t : ActiveTrade F) → IsWhole n lot t → partial_lots t ≡ pos (n / 2)
  partial_of_whole n lot t w =
      rw
        (
          original_of_whole (n * lot) t
              (prod_positive n lot (omega (arith, w.lots_two)) w.lot_positive) w.initial_is,
          w.lot_size_is,
        )
        (floor_half n lot w.lots_two w.lot_positive)

  -- The decision, of the trade as the target leaves it.
  pub record IsDecided (total quantity lot : ℕ) (t : ActiveTrade F) : Type 0 where
    pub quantity_is : t.t1_exit_quantity ≡ pos quantity
    pub lot_size_is : t.lot_size ≡ lot
    pub initial_is : t.initial_quantity ≡ some (pos total)
    pub none_filled : t.partial_exit_filled_quantity ≡ pos 0

  decide_partial-IsDecided :
      (n lot : ℕ) (price : F) (t : ActiveTrade F)
      → IsWhole n lot t
      → IsDecided (n * lot) (n / 2 * lot) lot (decide_partial price t).1
  decide_partial-IsDecided n lot price t w =
      let sized : (t.lot_size == 0) ≡ false = rw w.lot_size_is (not_none lot w.lot_positive) in
      let enough : ltb_ℤ (partial_lots t) (pos 1) ≡ false =
        rw (partial_of_whole n lot t w) (not_small (n / 2) (omega (arith, w.lots_two))) in
      rw (sized, enough)
        (record {
          quantity_is = rw (partial_of_whole n lot t w, w.lot_size_is) (pos_mul (n / 2) lot);
          lot_size_is = w.lot_size_is;
          initial_is = w.initial_is;
          none_filled = w.none_filled;
        })

  -- The fill of a decided quantity, which is a part of the whole.
  filled :
      (total quantity lot : ℕ) (bid price slippage : F) (at : Time) (t : ActiveTrade F)
      → 1 ≤ lot
      → 1 ≤ quantity
      → quantity ≤ total
      → quantity % lot ≡ 0
      → (not_positive bid || not_positive price) ≡ false
      → IsDecided total quantity lot t
      → apply_t1_partial_fill bid price slippage at t ≡ ok (fill_partial bid price slippage at t)
  unfolding apply_t1_partial_fill
  filled total quantity lot bid price slippage at t l q le m b d =
      rw
        (
          d.quantity_is,
          original_of_whole total t (omega arith) d.initial_is,
          d.lot_size_is,
          d.none_filled,
          not_below quantity q,
          not_none lot l,
          m,
          zero_pos quantity,
          not_above quantity total le,
          b,
        )
        refl

  -- What a trade is after the fill.
  filled_again :
      (total quantity lot : ℕ) (bid price slippage : F) (at : Time) (t : ActiveTrade F)
      → 1 ≤ lot
      → 1 ≤ quantity
      → quantity + quantity ≤ total
      → quantity % lot ≡ 0
      → (not_positive bid || not_positive price) ≡ false
      → t.t1_exit_quantity ≡ pos quantity
      → t.lot_size ≡ lot
      → t.initial_quantity ≡ some (pos total)
      → t.partial_exit_filled_quantity ≡ pos quantity
      → apply_t1_partial_fill bid price slippage at t ≡ ok t
  unfolding apply_t1_partial_fill
  filled_again total quantity lot bid price slippage at t l q le m b dq dl di df =
      rw
        (
          dq,
          original_of_whole total t (omega arith) di,
          dl,
          df,
          not_below quantity q,
          not_none lot l,
          m,
          pos_add quantity quantity,
          not_above (quantity + quantity) total le,
          b,
          above quantity q,
        )
        refl

  -- What is left of the trade and what was sold.
  pub record IsSplit (n lot : ℕ) (u : ActiveTrade F) : Type 0 where
    pub sold : u.partial_exit_filled_quantity ≡ pos (n / 2 * lot)
    pub whole : u.quantity +ℤ u.partial_exit_filled_quantity ≡ pos (n * lot)
    pub remaining : u.remaining_quantity ≡ some u.quantity
    pub settled : u.t1_exit_pending ≡ false

  fill_partial-IsSplit :
      (n lot : ℕ) (bid price slippage : F) (at : Time) (t : ActiveTrade F)
      → 1 ≤ n * lot
      → IsDecided (n * lot) (n / 2 * lot) lot t
      → IsSplit n lot (fill_partial bid price slippage at t)
  fill_partial-IsSplit n lot bid price slippage at t p d = record {
    sold = d.quantity_is;
    whole = rw (original_of_whole (n * lot) t p d.initial_is, d.quantity_is) (sub_add _ _);
    remaining = refl;
    settled = refl;
  }

  -- A trade of two or more whole lots that reaches its first target with nothing filled has the
  -- fill of its partial exit accepted at any positive prices: half of the lots, rounded down, are
  -- sold, they and the rest make up the whole, the exit is no longer pending, and the same fill
  -- once more changes nothing.
  pub partial_exit_once :
      (c : ManagerConfig F) (n lot : ℕ) (entry r price : F) (t : ActiveTrade F)
      (bid executable slippage : F) (at : Time) (bid' executable' slippage' : F) (at' : Time)
      → IsWhole n lot t
      → (fl.le c.strategy_config.t1_r t.peak_r && not t.t1_reached) ≡ true
      → (not_positive bid || not_positive executable) ≡ false
      → (not_positive bid' || not_positive executable') ≡ false
      → (u : ActiveTrade F) × ((apply_t1_partial_fill bid executable slippage at
              (target_a c entry r price t).1
            ≡ ok u)
          × (IsSplit n lot u × (apply_t1_partial_fill bid' executable' slippage' at' u ≡ ok u)))
  unfolding target_a
  partial_exit_once c n lot entry r price t bid executable slippage at bid' executable' slippage'
        at' w reached b b' =
      rw reached (u, (fill, (split, again)))
    where
      locked : ActiveTrade F
      locked = lock_half entry r t

      decided : ActiveTrade F
      decided = (decide_partial price locked).1

      decision : IsDecided (n * lot) (n / 2 * lot) lot decided
      decision = decide_partial-IsDecided n lot price locked (record {
        lots_two = w.lots_two;
        lot_positive = w.lot_positive;
        lot_size_is = w.lot_size_is;
        initial_is = w.initial_is;
        none_filled = w.none_filled;
      })

      u : ActiveTrade F
      u = fill_partial bid executable slippage at decided

      half_positive : 1 ≤ n / 2 * lot
      half_positive = prod_positive (n / 2) lot (omega (arith, w.lots_two)) w.lot_positive

      fill : apply_t1_partial_fill bid executable slippage at decided ≡ ok u
      fill =
          filled (n * lot) (n / 2 * lot) lot bid executable slippage at decided w.lot_positive
            half_positive (half-le n lot) (mul-mod_left (n / 2) lot) b decision

      split : IsSplit n lot u
      split =
          fill_partial-IsSplit n lot bid executable slippage at decided
            (prod_positive n lot (omega (arith, w.lots_two)) w.lot_positive) decision

      again : apply_t1_partial_fill bid' executable' slippage' at' u ≡ ok u
      again =
          filled_again (n * lot) (n / 2 * lot) lot bid' executable' slippage' at' u w.lot_positive
            half_positive (halves-le n lot) (mul-mod_left (n / 2) lot) b' decision.quantity_is
            decision.lot_size_is decision.initial_is decision.quantity_is
