-- ===== src/RateLimit/Log.antt =====
-- The rate limiter against the record of all that it let through.
use mathlib.Core.List.{append-nil}
use icici_breeze_api_trading.Prelude.{
  ◌+◌, ◌≤◌, ◌≡◌, refl, ◌∙◌, Bool, true, false, not, List, [], ◌∷◌, ◌++◌, inl, inr, leb,
  if◌then◌else◌, length, keep, All, arith, Bool-cases,
}
use icici_breeze_api_trading.Prelude.Int.{ℤ, pos, leb_ℤ}
use icici_breeze_api_trading.Prelude.Result.{ok}
use icici_breeze_api_trading.Contracts.{Time}
use icici_breeze_api_trading.RateLimit.{
  Key, same_key, History, queue_of, put_queue, Answer, window, evict, refuse, check_key,
}

pub same_key-≡ : (a b : Key) → same_key a b ≡ true → a ≡ b
same_key-≡ a b h = ground arith

same_key_refl : (k : Key) → same_key k k ≡ true
same_key_refl k = ground arith

same_key_other : (i j k : Key) → same_key i j ≡ false → same_key i k ≡ true → same_key j k ≡ false
same_key_other i j k h e = ground arith

pub queue_of-put_queue :
    (k j : Key) (q : List Time) (h : History)
    → queue_of k (put_queue j q h) ≡ (if same_key j k then q else queue_of k h)
queue_of-put_queue k j q [] = refl
queue_of-put_queue k j q ((i, p) ∷ h) = elim (Bool-cases (same_key i j)) [
  | inl e ↦ rw (same_key-≡ i j e, same_key_refl j) (ground arith)
  | inr e ↦ elim (Bool-cases (same_key i k)) [
    | inl f ↦ rw (e, same_key_other i j k e f, f) refl
    | inr f ↦ rw (e, f) (queue_of-put_queue k j q h)
  ]
]

-- Instants, and those of them that a window ending at `now` still holds.
abbrev pub is_fresh : Time → Time → Bool
is_fresh now t = not (leb (t + window) now)

abbrev pub NoLater : Time → Time → Type 0
NoLater last t = t ≤ last

evict_nil : (now : Time) → evict now [] ≡ []
unfolding evict
evict_nil now = refl

evict-evict :
    (now later : Time) (q : List Time) → now ≤ later → evict later (evict now q) ≡ evict later q
unfolding evict
evict-evict now later [] h = refl
evict-evict now later (t ∷ q) h = ground (arith, evict-evict now later q h)

evict_append :
    (now t : Time) (q : List Time)
    → All (NoLater t) q
    → evict now (q ++ (t ∷ [])) ≡ evict now q ++ evict now (t ∷ [])
unfolding evict
evict_append now t [] a = refl
evict_append now t (u ∷ q) (a, rest) = ground (arith, evict_append now t q rest)

All-evict :
    (now last : Time) (q : List Time) → All (NoLater last) q → All (NoLater last) (evict now q)
unfolding evict
All-evict now last [] a = tt
All-evict now last (t ∷ q) (a, rest) = ground (arith, All-evict now last q rest)

All-later :
    (last now : Time) (q : List Time) → last ≤ now → All (NoLater last) q → All (NoLater now) q
All-later last now [] h a = tt
All-later last now (t ∷ q) h (a, rest) = (omega arith, All-later last now q h rest)

-- The requests that were let through, with their keys, in their order.
abbrev pub Grants : Type 0
Grants = List (Key × Time)

abbrev pub granted : Key → Grants → List Time
granted k [] = []
granted k ((j, t) ∷ log) = if same_key j k then t ∷ granted k log else granted k log

abbrev pub recent : Key → Time → Grants → List Time
recent k now log = keep (is_fresh now) (granted k log)

pub granted_append :
    (k j : Key) (t : Time) (log : Grants)
    → granted k (log ++ ((j, t) ∷ [])) ≡ granted k log ++ granted k ((j, t) ∷ [])
granted_append k j t [] = refl
granted_append k j t ((i, u) ∷ log) = ground (arith, granted_append k j t log)

pub keep_append : (p : Time → Bool) (xs ys : List Time) → keep p (xs ++ ys) ≡ keep p xs ++ keep p ys
keep_append p [] ys = refl
keep_append p (x ∷ xs) ys = ground (arith, keep_append p xs ys)

-- What the limiter promises of a key: a request passes where fewer than the limit passed in the
-- last sixty seconds, and is told else when the oldest of them is sixty seconds old.
unfoldable pub permit : ℤ → Key → Time → Grants → Answer × Grants
permit limit k now log =
    let past = recent k now log in
    if leb_ℤ limit (pos (length past))
    then (refuse now past, log)
    else (ok (true, 0), log ++ ((k, now) ∷ []))

-- A queue holds of the instants that passed those that can still count.
abbrev Mirrors : Time → List Time → List Time → Type 0
Mirrors last q times =
    All (NoLater last) q × ((now : Time) → last ≤ now → evict now q ≡ keep (is_fresh now) times)

pub Represents : Time → History → Grants → Type 0
Represents last h log = (k : Key) → Mirrors last (queue_of k h) (granted k log)

pub start-Represents : Represents 0 [] []
unfolding Represents
start-Represents k = (tt, λ now h. evict_nil now)

Mirrors-later :
    (last now : Time) (q times : List Time)
    → last ≤ now
    → Mirrors last q times
    → Mirrors now q times
Mirrors-later last now q times h m = (All-later last now q h m.0, λ n k. m.1 n (omega arith))

Mirrors-evict :
    (now : Time) (q times : List Time) → Mirrors now q times → Mirrors now (evict now q) times
Mirrors-evict now q times m = (All-evict now now q m.0, λ n k. evict-evict now n q k ∙ m.1 n k)

All-append_one :
    (now : Time) (q : List Time) → All (NoLater now) q → All (NoLater now) (q ++ (now ∷ []))
All-append_one now [] a = (omega arith, tt)
All-append_one now (t ∷ q) (a, rest) = (a, All-append_one now q rest)

evict_one : (now t : Time) → evict now (t ∷ []) ≡ keep (is_fresh now) (t ∷ [])
unfolding evict
evict_one now t = ground arith

Mirrors-append :
    (now : Time) (q times : List Time)
    → Mirrors now q times
    → Mirrors now (q ++ (now ∷ [])) (times ++ (now ∷ []))
Mirrors-append now q times m = (All-append_one now q m.0, λ n k. later n k)
  where
    later :
        (n : Time) → now ≤ n → evict n (q ++ (now ∷ [])) ≡ keep (is_fresh n) (times ++ (now ∷ []))
    later n k =
        rw
          (
            evict_append n now q m.0,
            m.1 n k,
            evict_one n now,
            keep_append (is_fresh n) times (now ∷ []),
          )
          refl

module _ (limit : ℤ) (k : Key) (last now : Time) (h : History) (log : Grants) where
  abbrev blocked : Bool
  blocked = leb_ℤ limit (pos (length (recent k now log)))

  check_key_answer :
      evict now (queue_of k h) ≡ recent k now log
      → (check_key limit k now h).0 ≡ (permit limit k now log).0
  unfolding check_key permit
  check_key_answer e = rw e (elim (Bool-cases blocked) [ inl b ↦ rw b refl | inr b ↦ rw b refl ])

  -- One request, whatever came before.
  pub check_key-permit :
      last ≤ now → Represents last h log → (check_key limit k now h).0 ≡ (permit limit k now log).0
  unfolding Represents
  check_key-permit le r = check_key_answer ((r k).1 now le)

  check_key-Represents_own :
      Mirrors now (queue_of k h) (granted k log)
      → Mirrors now (queue_of k (check_key limit k now h).1) (granted k (permit limit k now log).1)
  unfolding check_key permit
  check_key-Represents_own m = elim (Bool-cases blocked) [
    | inl b ↦
        rw (queue_of-put_queue k k _ h, same_key_refl k, m.1 now (omega arith), b)
          (rw (← m.1 now (omega arith)) (Mirrors-evict now (queue_of k h) (granted k log) m))
    | inr b ↦
        rw
          (
            queue_of-put_queue k k _ h,
            same_key_refl k,
            m.1 now (omega arith),
            b,
            granted_append k k now log,
            same_key_refl k,
          )
          (rw (← m.1 now (omega arith)) (
            Mirrors-append now (evict now (queue_of k h)) (granted k log)
              (Mirrors-evict now (queue_of k h) (granted k log) m)))
  ]

  check_key-Represents_other :
      (j : Key)
      → same_key k j ≡ false
      → Mirrors now (queue_of j h) (granted j log)
      → Mirrors now (queue_of j (check_key limit k now h).1) (granted j (permit limit k now log).1)
  unfolding check_key permit
  check_key-Represents_other j e m = elim (Bool-cases blocked) [
    | inl b ↦ rw (queue_of-put_queue j k _ h, e, b) m
    | inr b ↦
        rw
          (
            queue_of-put_queue j k _ h,
            e,
            b,
            granted_append j k now log,
            e,
            append-nil (granted j log),
          )
          m
  ]

  pub check_key-Represents :
      last ≤ now
      → Represents last h log
      → Represents now (check_key limit k now h).1 (permit limit k now log).1
  unfolding Represents
  check_key-Represents le r j =
      let m = λ (i : Key). Mirrors-later last now (queue_of i h) (granted i log) le (r i) in
      elim (Bool-cases (same_key k j)) [
        | inl e ↦ rw (← same_key-≡ k j e) (check_key-Represents_own (m k))
        | inr e ↦ check_key-Represents_other j e (m j)
      ]
