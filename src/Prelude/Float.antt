-- ===== src/Prelude/Float.antt =====
-- Python's `float`, of which the code reads comparisons and arithmetic only: a type with those
-- operations and no laws, so that rounding, infinities and NaN are all allowed. A theorem that
-- needs a law takes it as a hypothesis.
use mathlib.Core.Bool.{Bool, not}
use Prim.Native.Nat.{ℕ}
use icici_breeze_api_trading.Prelude.Tests.{if◌then◌else◌}
use icici_breeze_api_trading.Prelude.Int.{ℤ}

pub record Float (F : Type 0) : Type 0 where
  pub lt : F → F → Bool
  pub le : F → F → Bool
  pub eq : F → F → Bool
  pub add : F → F → F
  pub sub : F → F → F
  pub mul : F → F → F
  pub div : F → F → F
  pub abs : F → F
  -- `round(x, d)`
  pub round : F → ℕ → F
  pub of_int : ℤ → F
  -- `math.floor`
  pub floor : F → ℤ
  -- `literal m d` is the literal m / 10^d: `literal 5 2` is 0.05.
  pub literal : ℕ → ℕ → F

module _ {F : Type 0} ⦃fl : Float F⦄ where
  open fl use {lt, le, eq, literal}

  abbrev pub zero_f : F
  zero_f = literal 0 0

  -- A number is true in a condition unless it is zero.
  abbrev pub truthy : F → Bool
  truthy x = not (eq x zero_f)

  -- `x or y`
  abbrev pub or_f : F → F → F
  or_f x y = if truthy x then x else y

  -- Python's `max(a, b)` and `min(a, b)`, which keep the first of equals.
  abbrev pub max_f : F → F → F
  max_f a b = if lt a b then b else a

  abbrev pub min_f : F → F → F
  min_f a b = if lt b a then b else a
