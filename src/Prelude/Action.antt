-- ===== src/Prelude/Action.antt =====
-- A method of an object: it returns or raises, and what it wrote before a raise stays written.
use icici_breeze_api_trading.Prelude.Result.{Error, Result, ok, err}
use icici_breeze_api_trading.Prelude.Tests.{if◌then◌else◌}
use mathlib.Core.Bool.{Bool, true, false}
use mathlib.Core.Path.{◌≡◌, refl}

abbrev pub Action : Type 0 → Type 0 → Type 0
Action S A = S → Result A × S

module _ {S A : Type 0} where
  abbrev pub pure : A → Action S A
  pure a s = (ok a, s)

  abbrev pub raise : Error → Action S A
  raise e s = (err e, s)

  abbrev pub gets : (S → A) → Action S A
  gets f s = (ok (f s), s)

  -- A check that raises or passes.
  abbrev pub lift : Result A → Action S A
  lift r s = (r, s)

abbrev pub modify : {S : Type 0} → (S → S) → Action S (Unit {0})
modify f s = (ok tt, f s)

abbrev pub finish : {S A B : Type 0} → Result A → (A → Action S B) → S → Result B × S
finish (ok a) f s = f a s
finish (err e) f s = (err e, s)

infixl 5 ◌>>=◌ ◌>>◌
abbrev pub ◌>>=◌ : {S A B : Type 0} → Action S A → (A → Action S B) → Action S B
◌>>=◌ m f s = finish (m s).0 f (m s).1

abbrev pub ◌>>◌ : {S A B : Type 0} → Action S A → Action S B → Action S B
m >> k = m >>= λ _. k

-- A property of the state that the first part leaves, and that every continuation keeps.
pub bind_keeps :
    {S A B : Type 0} (P : S → Type 0) (m : Action S A) (f : A → Action S B) (s : S)
    → P (m s).1
    → ((a : A) (t : S) → P t → P (f a t).1)
    → P ((m >>= f) s).1
bind_keeps {S} {A} {B} P m f s h k = after (m s).0 (m s).1 h
  where
    after : (r : Result A) (t : S) → P t → P (finish r f t).1
    after (ok a) t h = k a t h
    after (err e) t h = h

-- A property of the state that both branches leave.
pub if_keeps :
    {S A : Type 0} (P : S → Type 0) (b : Bool) (x y : Action S A) (s : S)
    → (b ≡ true → P (x s).1)
    → (b ≡ false → P (y s).1)
    → P ((if b then x else y) s).1
if_keeps P true x y s h k = h refl
if_keeps P false x y s h k = k refl

-- The same, where the continuation may use that the first part returned.
pub bind_case :
    {S A B : Type 0} (P : S → Type 0) (m : Action S A) (f : A → Action S B) (s : S)
    → P (m s).1
    → ((a : A) → (m s).0 ≡ ok a → P (f a (m s).1).1)
    → P ((m >>= f) s).1
bind_case {S} {A} {B} P m f s h k = after (m s).0 h k
  where
    after :
        (r : Result A)
        → P (m s).1
        → ((a : A) → r ≡ ok a → P (f a (m s).1).1)
        → P (finish r f (m s).1).1
    after (ok a) h k = k a refl
    after (err e) h k = h
