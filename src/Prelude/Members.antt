-- ===== src/Prelude/Members.antt =====
-- What a search, a comprehension, `ORDER BY` and `LIMIT` return stands in the list.
use icici_breeze_api_trading.Prelude.Lists.{any, find, keep, take, insert_by, order_by}
use icici_breeze_api_trading.Prelude.Tests.{Bool-cases}
use Prim.Native.Nat.{ℕ, zero, suc}
use mathlib.Core.Path.{◌≡◌, refl}
use mathlib.Core.Logic.{inl, inr}
use mathlib.Core.Bool.{Bool, true, false}
use mathlib.Core.Option.{some}
use mathlib.Core.List.{List, [], ◌∷◌, Memᴰ}
use native.Mathlib.Omega.{arith}

module _ {ℓ} {A : Type ℓ} where
  pub find-true : (p : A → Bool) (xs : List A) {a : A} → find p xs ≡ some a → p a ≡ true
  find-true p [] h = cc
  find-true p (x ∷ xs) {a} h = elim (Bool-cases (p x)) [
    | inl e ↦ ground arith
    | inr e ↦ find-true p xs (rw e at h)
  ]

  pub find-mem : (p : A → Bool) (xs : List A) {a : A} → find p xs ≡ some a → Memᴰ a xs
  find-mem p [] h = cc
  find-mem p (x ∷ xs) {a} h = elim (Bool-cases (p x)) [
    | inl e ↦ Memᴰ.head (ground arith)
    | inr e ↦ Memᴰ.tail (find-mem p xs (rw e at h))
  ]

  pub mem-take : (n : ℕ) (xs : List A) {a : A} → Memᴰ a (take n xs) → Memᴰ a xs
  mem-take zero xs m = elim m [ ]
  mem-take (suc n) [] m = m
  mem-take (suc n) (x ∷ xs) (Memᴰ.head e) = Memᴰ.head e
  mem-take (suc n) (x ∷ xs) (Memᴰ.tail m) = Memᴰ.tail (mem-take n xs m)

  mem_swap : {x y a : A} {l : List A} → Memᴰ a (y ∷ (x ∷ l)) → Memᴰ a (x ∷ (y ∷ l))
  mem_swap (Memᴰ.head h) = Memᴰ.tail (Memᴰ.head h)
  mem_swap (Memᴰ.tail (Memᴰ.head h)) = Memᴰ.head h
  mem_swap (Memᴰ.tail (Memᴰ.tail t)) = Memᴰ.tail (Memᴰ.tail t)

  mem_under : {y a : A} {l m : List A} → (Memᴰ a l → Memᴰ a m) → Memᴰ a (y ∷ l) → Memᴰ a (y ∷ m)
  mem_under f (Memᴰ.head h) = Memᴰ.head h
  mem_under f (Memᴰ.tail t) = Memᴰ.tail (f t)

  mem-insert_by :
      (first : A → A → Bool) (x : A) (ys : List A) {a : A}
      → Memᴰ a (insert_by first x ys)
      → Memᴰ a (x ∷ ys)
  mem-insert_by first x [] m = m
  mem-insert_by first x (y ∷ ys) {a} m = elim (Bool-cases (first x y)) [
    | inl e ↦ rw e at m
    | inr e ↦ mem_swap (mem_under (mem-insert_by first x ys) (rw e at m))
  ]

  pub mem-order_by :
      (first : A → A → Bool) (xs : List A) {a : A} → Memᴰ a (order_by first xs) → Memᴰ a xs
  mem-order_by first [] m = m
  mem-order_by first (x ∷ xs) m =
      mem_under (mem-order_by first xs) (mem-insert_by first x (order_by first xs) m)

  pub any-true : (p : A → Bool) (xs : List A) → any p xs ≡ true → (a : A) × Memᴰ a xs × (p a ≡ true)
  any-true p [] h = absurd (ground arith)
  any-true p (x ∷ xs) h = elim (Bool-cases (p x)) [
    | inl e ↦ (x, Memᴰ.head refl, e)
    | inr e ↦ (let (a, m, q) = any-true p xs (rw e at h) in (a, Memᴰ.tail m, q))
  ]

  pub any-false : (p : A → Bool) (xs : List A) {a : A} → any p xs ≡ false → Memᴰ a xs → p a ≡ false
  any-false p [] h m = elim m [ ]
  any-false p (x ∷ xs) h (Memᴰ.head e) = rw e (ground (arith))
  any-false p (x ∷ xs) h (Memᴰ.tail m) = any-false p xs (ground arith) m

  pub any-mem : (p : A → Bool) (xs : List A) {a : A} → Memᴰ a xs → p a ≡ true → any p xs ≡ true
  any-mem p [] m h = elim m [ ]
  any-mem p (x ∷ xs) (Memᴰ.head e) h = rw (← e, h) refl
  any-mem p (x ∷ xs) (Memᴰ.tail m) h = rw (any-mem p xs m h) (ground arith)

  pub mem-keep :
      (p : A → Bool) (xs : List A) {a : A} → Memᴰ a (keep p xs) → Memᴰ a xs × (p a ≡ true)
  mem-keep p [] m = elim m [ ]
  mem-keep p (x ∷ xs) {a} m = elim (Bool-cases (p x)) [
    | inr e ↦ (let (k, q) = mem-keep p xs (rw e at m) in (Memᴰ.tail k, q))
    | inl e ↦ kept e (mem-keep p xs) (rw e at m)
  ]
    where
      kept :
          p x ≡ true
          → (Memᴰ a (keep p xs) → Memᴰ a xs × (p a ≡ true))
          → Memᴰ a (x ∷ keep p xs)
          → Memᴰ a (x ∷ xs) × (p a ≡ true)
      kept e f (Memᴰ.head h) = (Memᴰ.head h, rw h e)
      kept e f (Memᴰ.tail t) = (let (k, q) = f t in (Memᴰ.tail k, q))

  pub keep_mem : (p : A → Bool) (xs : List A) {a : A} → Memᴰ a xs → p a ≡ true → Memᴰ a (keep p xs)
  keep_mem p [] m h = elim m [ ]
  keep_mem p (x ∷ xs) (Memᴰ.head e) h = rw (← e, h) (Memᴰ.head refl)
  keep_mem p (x ∷ xs) (Memᴰ.tail m) h = elim (Bool-cases (p x)) [
    | inl e ↦ rw e (Memᴰ.tail (keep_mem p xs m h))
    | inr e ↦ rw e (keep_mem p xs m h)
  ]

  insert_by_mem :
      (first : A → A → Bool) (x : A) (ys : List A) {a : A}
      → Memᴰ a (x ∷ ys)
      → Memᴰ a (insert_by first x ys)
  insert_by_mem first x [] m = m
  insert_by_mem first x (y ∷ ys) m = elim (Bool-cases (first x y)) [
    | inl e ↦ rw e m
    | inr e ↦ rw e (mem_under (insert_by_mem first x ys) (mem_swap m))
  ]

  pub order_by_mem :
      (first : A → A → Bool) (xs : List A) {a : A} → Memᴰ a xs → Memᴰ a (order_by first xs)
  order_by_mem first [] m = m
  order_by_mem first (x ∷ xs) m =
      insert_by_mem first x (order_by first xs) (mem_under (order_by_mem first xs) m)
