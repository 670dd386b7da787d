-- ===== src/Auth/Seeding.antt =====
-- services/auth/repository.py: the default users of a new database, and the refusal to start with
-- them. The hash and the check of a password are arguments, as are the drawn ids.
use icici_breeze_api_trading.Prelude.{
  ℕ, ◌≡◌, ◌⊎◌, refl, Bool, true, false, not, ◌&&◌, ◌||◌, List, [], ◌∷◌, inl, inr, ◌==◌,
  if◌then◌else◌, any, ==_iff, Bool-cases, arith,
}
use mathlib.Core.List.{Memᴰ}
use icici_breeze_api_trading.Prelude.Members.{any-true, any-false, any-mem}
use icici_breeze_api_trading.Prelude.Result.{Result, ok, err, other_error}
use icici_breeze_api_trading.Contracts.{Text}
use icici_breeze_api_trading.Auth.{UserRole, UserRow, AuthRepository, create_user}

pub record StartSettings : Type 0 where
  pub is_production : Bool
  pub live_trading_enabled : Bool
  pub local_single_user_mode : Bool

-- A name, its password and its role.
pub record DefaultUser : Type 0 where
  pub username : Text
  pub password : Text
  pub role : UserRole
  -- `generate_id` and the hash and salt of `hash_password`.
  pub id : Text
  pub password_hash : Text
  pub salt : Text

-- `INSERT OR IGNORE` of an active user.
abbrev insert_or_ignore : DefaultUser → AuthRepository → AuthRepository
insert_or_ignore d r =
    (create_user
      (record {
        user_id = d.id;
        username = d.username;
        password_hash = d.password_hash;
        salt = d.salt;
        role = d.role;
        is_active = true;
      })
      r).1

abbrev insert_all : List DefaultUser → AuthRepository → AuthRepository
insert_all [] r = r
insert_all (d ∷ ds) r = insert_all ds (insert_or_ignore d r)

without_and : (p l u : Bool) → (p || (l && not u)) ≡ true → (p || l) ≡ true
without_and p l u h = ground arith

and_both : (a b : Bool) → (a && b) ≡ true → (a ≡ true) × (b ≡ true)
and_both a b h = ground arith

true-false : (true ≡ false) → ⊥
true-false q = cc

module _ (verify_password : Text → Text → Text → Bool) (defaults : List DefaultUser) where
  abbrev is_default_of : UserRow → DefaultUser → Bool
  is_default_of u d =
      (d.username == u.username) && verify_password d.password u.password_hash u.salt

  abbrev pub has_default : UserRow → Bool
  has_default u = u.is_active && any (is_default_of u) defaults

  -- Whether predictable passwords are refused at the start.
  abbrev pub is_strict : StartSettings → Bool
  is_strict s = s.is_production || (s.live_trading_enabled && not s.local_single_user_mode)

  abbrev seed_none : StartSettings → AuthRepository → Result (Unit {0}) × AuthRepository
  seed_none s r =
      if s.local_single_user_mode
      then (ok tt, r)
      else if s.is_production || s.live_trading_enabled
      then (err other_error, r)
      else (ok tt, insert_all defaults r)

  abbrev check_users :
      StartSettings → List UserRow → AuthRepository → Result (Unit {0}) × AuthRepository
  check_users s [] r = seed_none s r
  check_users s (u ∷ us) r =
      if is_strict s && any has_default (u ∷ us) then (err other_error, r) else (ok tt, r)

  unfoldable pub seed_default_users_if_empty :
      StartSettings → AuthRepository → Result (Unit {0}) × AuthRepository
  unfolding create_user
  seed_default_users_if_empty s r = check_users s r.users r

  -- An active user who carries the name of a default user, and whose password is that user's.
  pub record KeepsDefault (u : UserRow) (d : DefaultUser) : Type 0 where
    pub active : u.is_active ≡ true
    pub named : d.username ≡ u.username
    pub password : verify_password d.password u.password_hash u.salt ≡ true

  kept_default :
      (u : UserRow) → has_default u ≡ true → (d : DefaultUser) × Memᴰ d defaults × KeepsDefault u d
  kept_default u h =
      let (d, m, e) = any-true _ defaults ((and_both u.is_active _ h).1) in
      let (n, v) = and_both (d.username == u.username) _ e in
      (
        d,
        m,
        record {
          active = (and_both u.is_active _ h).0;
          named = (==_iff d.username u.username).0 n;
          password = v;
        },
      )

  no_default :
      (u : UserRow) (d : DefaultUser) → has_default u ≡ false → Memᴰ d defaults → ¬ KeepsDefault u d
  no_default u d h m k = true-false (
      rw
        (
          k.active,
          any-mem (is_default_of u) defaults m (rw (k.named, k.password, same u.username) refl),
        )
        at h)
    where
      same : (a : ℕ) → (a == a) ≡ true
      same a = (==_iff a a).1 refl

  -- What a strict start finds and does.
  abbrev pub StartsSafely : StartSettings → AuthRepository → Type 0
  StartsSafely s r =
      ((seed_default_users_if_empty s r ≡ (ok tt, r))
        × ((u : UserRow) (d : DefaultUser) → Memᴰ u r.users → Memᴰ d defaults → ¬ KeepsDefault u d))
      ⊎ ((seed_default_users_if_empty s r ≡ (err other_error, r))
          × ((r.users ≡ [])
              ⊎ ((u : UserRow) × Memᴰ u r.users
                  × ((d : DefaultUser) × Memᴰ d defaults × KeepsDefault u d))))

  start_on :
      (s : StartSettings) (us : List UserRow) (r : AuthRepository)
      → is_strict s ≡ true
      → ((check_users s us r ≡ (ok tt, r)) × (any has_default us ≡ false))
        ⊎ ((check_users s us r ≡ (err other_error, r)) × ((us ≡ []) ⊎ (any has_default us ≡ true)))
  start_on s [] r strict = elim (Bool-cases s.local_single_user_mode) [
    | inl e ↦ inl (rw e refl, refl)
    | inr e ↦ inr (
      rw (e, without_and s.is_production s.live_trading_enabled s.local_single_user_mode strict)
          refl,
      inl refl,
    )
  ]
  start_on s (u ∷ us) r strict = elim (Bool-cases (any has_default (u ∷ us))) [
    | inl e ↦ inr (rw (strict, e) refl, inr e)
    | inr e ↦ inl (rw (strict, e) refl, e)
  ]

  -- In production, or with live trading outside the single-user mode, the start changes no user: it
  -- returns, and then no active user has the name of a default user and a password that the check
  -- takes for that user's; or it raises, and then there is no user, or an active one who has.
  pub strict_start :
      (s : StartSettings) (r : AuthRepository) → is_strict s ≡ true → StartsSafely s r
  unfolding seed_default_users_if_empty
  strict_start s r strict = elim (start_on s r.users r strict) [
    | inl (e, n) ↦ inl (e, λ u d m k. no_default u d (any-false has_default r.users n m) k)
    | inr (e, inl n) ↦ inr (e, inl n)
    | inr (e, inr y) ↦
        (let (u, m, h) = any-true has_default r.users y in inr (e, inr (u, m, kept_default u h)))
  ]
