-- ===== src/Prelude/Result.antt =====
-- Code that returns or raises, with `do` blocks, and the transactions of a database.
use mathlib.Core.Bool.{Bool, true, false}

-- What the modelled code raises: `InvalidOrderStateTransitionError`, a constraint of the database
-- (`IntegrityError`), `PermissionError`, and any other exception.
pub data Error : Type 0 where
  invalid_transition integrity permission_denied other_error : Error

-- What a call returns, or the exception that it raises.
pub data Result (A : Type 0) : Type 0 where
  ok : (value : A) → Result A
  err : (error : Error) → Result A

abbrev pub raise_if : Bool → Error → Result (Unit {0})
raise_if false _ = ok tt
raise_if true e = err e

infixl 5 ◌>>=◌ ◌>>◌
abbrev pub ◌>>=◌ : {A B : Type 0} → Result A → (A → Result B) → Result B
err e >>= next = err e
ok x >>= next = next x

abbrev pub ◌>>◌ : {B : Type 0} → Result (Unit {0}) → Result B → Result B
first >> next = first >>= λ _. next

-- One database transaction of a method: committed whole, or rolled back when it raises.
abbrev pub transact : {D : Type 0} → D → Result D → Result (Unit {0}) × D
transact d (ok d') = (ok tt, d')
transact d (err e) = (err e, d)
