-- ===== src/RateLimit/Window.antt =====
-- Sequences of requests at instants that do not decrease: what they are answered, and how many of
-- them pass within sixty seconds.
use mathlib.Core.List.{append-nil, append_assoc}
use icici_breeze_api_trading.Prelude.{
  ℕ, ◌+◌, ◌≤◌, ◌<◌, ◌≡◌, refl, sym, ap, Bool, true, false, ◌&&◌, List, [], ◌∷◌, ◌++◌, inl, inr, ltb,
  leb, if◌then◌else◌, length, length-append, keep, arith, Bool-cases,
}
use icici_breeze_api_trading.Prelude.Int.{ℤ, pos, leb_ℤ, pos_part}
use icici_breeze_api_trading.Prelude.Result.{ok, err}
use icici_breeze_api_trading.Contracts.{Text, Time}
use icici_breeze_api_trading.RateLimit.{
  Settings, Key, same_key, History, refuse, Answer, window, limit_for_tier, key_of, check_key,
  check_rate_limit,
}
use icici_breeze_api_trading.RateLimit.Log.{
  Grants, granted, is_fresh, recent, granted_append, keep_append, permit, start-Represents,
  same_key-≡, Represents, check_key-permit, check_key-Represents,
}

pub record Call : Type 0 where
  pub client_id : Text
  pub tier : Text
  pub scope : Text
  pub now : Time

abbrev pub InOrder : Time → List Call → Type 0
InOrder last [] = Unit
InOrder last (c ∷ cs) = (last ≤ c.now) × InOrder c.now cs

abbrev pub let_through : Answer → Bool
let_through (ok (b, _)) = b
let_through (err e) = false

abbrev pub in_window : Time → Time → Bool
in_window from t = leb from t && ltb t (from + window)

abbrev pub Bounded : ℕ → List Time → Type 0
Bounded n times = (from : Time) → length (keep (in_window from) times) ≤ n

length-keep-le :
    (p q : Time → Bool) (xs : List Time)
    → ((t : Time) → p t ≡ true → q t ≡ true)
    → length (keep p xs) ≤ length (keep q xs)
length-keep-le p q [] h = omega arith
length-keep-le p q (x ∷ xs) h = ground (arith, length-keep-le p q xs h, h x)

in_window-is_fresh :
    (from now t : Time)
    → in_window from now ≡ true
    → in_window from t ≡ true
    → is_fresh now t ≡ true
in_window-is_fresh from now t h e = ground arith

Bounded-append :
    (n : ℕ) (now : Time) (times : List Time)
    → length (keep (is_fresh now) times) < n
    → Bounded n times
    → Bounded n (times ++ (now ∷ []))
Bounded-append n now times room h from = elim (Bool-cases (in_window from now)) [
  | inl e ↦
      rw
        (
          keep_append (in_window from) times (now ∷ []),
          e,
          length-append (keep (in_window from) times) (now ∷ []),
        )
        (omega (
          arith,
          length-keep-le (in_window from) (is_fresh now) times
              (λ t. in_window-is_fresh from now t e),
        ))
  | inr e ↦
      rw
        (keep_append (in_window from) times (now ∷ []), e, append-nil (keep (in_window from) times))
        (h from)
]

-- What one request adds to the instants of a key.
added : Key → Key → Time → Answer → List Time
added j k now a = if let_through a && same_key j k then now ∷ [] else []

not_blocked : (limit : ℤ) (n : ℕ) → leb_ℤ limit (pos n) ≡ false → n < pos_part limit
not_blocked limit n h = ground arith

refuse_stops : (now : Time) (past : List Time) → let_through (refuse now past) ≡ false
refuse_stops now [] = refl
refuse_stops now (t ∷ q) = refl

append_added :
    (j k : Key) (now : Time) (a : Answer) (times rest : List Time)
    → times ++ (if let_through a && same_key j k then now ∷ rest else rest)
      ≡ (times ++ added j k now a) ++ rest
unfolding added
append_added j k now a times rest = elim (Bool-cases (let_through a && same_key j k)) [
  | inl e ↦ rw e (sym (append_assoc times (now ∷ []) rest))
  | inr e ↦ rw (e, append-nil times) refl
]

module _ (limit : ℤ) (j k : Key) (now : Time) (log : Grants) where
  abbrev blocked : Bool
  blocked = leb_ℤ limit (pos (length (recent j now log)))

  permit-added :
      granted k (permit limit j now log).1
      ≡ granted k log ++ added j k now (permit limit j now log).0
  unfolding permit added
  permit-added = elim (Bool-cases blocked) [
    | inl b ↦ rw (b, refuse_stops now (recent j now log)) (sym (append-nil (granted k log)))
    | inr b ↦ rw (b, granted_append k j now log) refl
  ]

  permit-Bounded :
      (n : ℕ)
      → (same_key j k ≡ true → pos_part limit ≡ n)
      → Bounded n (granted k log)
      → Bounded n (granted k (permit limit j now log).1)
  unfolding permit
  permit-Bounded n same h = elim (Bool-cases blocked) [
    | inl b ↦ rw b h
    | inr b ↦ elim (Bool-cases (same_key j k)) [
      | inl e ↦
          rw (b, granted_append k j now log, e) (Bounded-append n now (granted k log) (room b e) h)
      | inr e ↦ rw (b, granted_append k j now log, e, append-nil (granted k log)) h
    ]
  ]
    where
      room : blocked ≡ false → same_key j k ≡ true → length (recent k now log) < n
      room b e =
          rw (← same_key-≡ j k e)
            (omega (arith, not_blocked limit (length (recent j now log)) b, same e))

module _ (upper strip : Text → Text) (s : Settings) where
  abbrev pub call : Call → History → Answer × History
  call c h = check_rate_limit upper strip s c.client_id c.tier c.scope c.now h

  abbrev pub call_key : Call → Key
  call_key c = key_of upper strip c.client_id c.tier c.scope

  unfoldable pub answers : List Call → History → List Answer
  answers [] h = []
  answers (c ∷ cs) h = (call c h).0 ∷ answers cs (call c h).1

  -- What the promise answers where limiting is on.
  unfoldable pub promised : List Call → Grants → List Answer
  promised [] log = []
  promised (c ∷ cs) log =
      let (a, log') = permit (limit_for_tier s (upper c.tier)) (call_key c) c.now log in
      a ∷ promised cs log'

  -- The instants at which requests with the key were let through.
  unfoldable pub passed : Key → List Call → History → List Time
  passed k [] h = []
  passed k (c ∷ cs) h =
      let (a, h') = call c h in
      let rest = passed k cs h' in
      if let_through a && same_key (call_key c) k then c.now ∷ rest else rest

  answers-promised :
      s.rate_limit_enabled ≡ true
      → (cs : List Call) (last : Time) (h : History) (log : Grants) → InOrder last cs
      → Represents last h log
      → answers cs h ≡ promised cs log
  unfolding answers promised check_rate_limit
  answers-promised on [] last h log o r = refl
  answers-promised on (c ∷ cs) last h log (le, o) r =
      let limit = limit_for_tier s (upper c.tier) in
      rw
        (
          on,
          check_key-permit limit (call_key c) last c.now h log le r,
          answers-promised on cs c.now _ _ o
              (check_key-Represents limit (call_key c) last c.now h log le r),
        )
        refl

  passed-Bounded :
      s.rate_limit_enabled ≡ true
      → (k : Key) (cs : List Call) (last : Time) (h : History) (log : Grants) → InOrder last cs
      → Represents last h log
      → Bounded (pos_part (limit_for_tier s k.tier)) (granted k log)
      → Bounded (pos_part (limit_for_tier s k.tier)) (granted k log ++ passed k cs h)
  unfolding passed check_rate_limit
  passed-Bounded on k [] last h log o r b = rw (append-nil (granted k log)) b
  passed-Bounded on k (c ∷ cs) last h log (le, o) r b =
      let limit = limit_for_tier s (upper c.tier) in
      let ih =
        passed-Bounded on k cs c.now _ _ o
          (check_key-Represents limit (call_key c) last c.now h log le r)
          (permit-Bounded limit (call_key c) k c.now log _
            (λ e. ap (λ i. pos_part (limit_for_tier s i.tier)) (same_key-≡ (call_key c) k e)) b) in
      rw
        (
          on,
          append_added (call_key c) k c.now (check_key limit (call_key c) c.now h).0
              (granted k log),
          check_key-permit limit (call_key c) last c.now h log le r,
          ← permit-added limit (call_key c) k c.now log,
        )
        ih

  -- Where limiting is on, any requests from a fresh start, at instants that do not decrease, are
  -- answered as the record of all that passed says: a request passes where fewer than its tier's
  -- limit passed under its key in the last sixty seconds, and else is told the seconds until the
  -- oldest of them is sixty seconds old.
  pub answers_refine :
      s.rate_limit_enabled ≡ true → (cs : List Call) → InOrder 0 cs → answers cs [] ≡ promised cs []
  answers_refine on cs o = answers-promised on cs 0 [] [] o start-Represents

  -- Where limiting is on, of any requests from a fresh start at instants that do not decrease, at
  -- most as many pass under one key within sixty seconds as the limit of its tier says, and none
  -- where this limit is negative.
  pub at_most_limit :
      s.rate_limit_enabled ≡ true
      → (k : Key) (cs : List Call) → InOrder 0 cs
      → (from : Time)
      → length (keep (in_window from) (passed k cs [])) ≤ pos_part (limit_for_tier s k.tier)
  at_most_limit on k cs o from =
      passed-Bounded on k cs 0 [] [] o start-Represents (λ f. omega arith) from
