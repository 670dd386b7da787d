-- ===== src/Prelude/Dict.antt =====
-- A dictionary under texts or other numbers: the entries in the order of their first insertion.
use icici_breeze_api_trading.Prelude.{
  ℕ, ◌≡◌, refl, Option, none, some, List, [], ◌∷◌, arith, ◌==◌, if◌then◌else◌,
}

module _ {A : Type 0} where
  abbrev pub get_key : ℕ → List (ℕ × A) → Option A
  get_key k [] = none
  get_key k ((j, a) ∷ d) = if j == k then some a else get_key k d

  abbrev pub put_key : ℕ → A → List (ℕ × A) → List (ℕ × A)
  put_key k a [] = (k, a) ∷ []
  put_key k a ((j, b) ∷ d) = if j == k then (j, a) ∷ d else (j, b) ∷ put_key k a d

  pub get_key-put_key :
      (k j : ℕ) (a : A) (d : List (ℕ × A))
      → get_key k (put_key j a d) ≡ (if j == k then some a else get_key k d)
  get_key-put_key k j a [] = refl
  get_key-put_key k j a ((i, b) ∷ d) = ground (arith, get_key-put_key k j a d)
