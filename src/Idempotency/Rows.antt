-- ===== src/Idempotency/Rows.antt =====
-- The rows of services/api_gateway/idempotency.py: what each write leaves of the row of a key.
use icici_breeze_api_trading.Prelude.{
  ℕ, ◌+◌, ◌≡◌, refl, ap, ◌∙◌, inl, inr, false, not, Option, none, some, List, [], ◌∷◌, ltb, ◌==◌,
  find, map, keep, arith, Bool-cases, ◌≤◌,
}
use icici_breeze_api_trading.Contracts.{Text, Time}
use icici_breeze_api_trading.Idempotency.{
  completed, IdempotencyRecord, claimed, replayed, Request, has_key, new_claim, put_record,
  release_claim, complete_row, claim_row, evaluate_record, cleanup_expired,
}

module _ {R : Type 0} where
  pub find-put :
      (row : IdempotencyRecord R) (rs : List (IdempotencyRecord R))
      → find (has_key row.idempotency_key) (put_record row rs) ≡ some row
  find-put row [] = ground arith
  find-put row (r ∷ rs) = ground (arith, find-put row rs)

  abbrev pub done : ℕ → R → IdempotencyRecord R → IdempotencyRecord R
  done code body r = record r {
    status = completed;
    response_code = some code;
    response_body = some body;
  }

  abbrev pub done_option : ℕ → R → Option (IdempotencyRecord R) → Option (IdempotencyRecord R)
  done_option code body none = none
  done_option code body (some r) = some (done code body r)

  pub find_complete :
      (key code : ℕ) (body : R) (rs : List (IdempotencyRecord R))
      → find (has_key key) (map (complete_row key code body) rs)
        ≡ done_option code body (find (has_key key) rs)
  find_complete key code body [] = refl
  find_complete key code body (x ∷ rs) = elim (Bool-cases (has_key key x)) [
    | inl e ↦ rw (e, e) refl
    | inr e ↦ rw (e, e) (find_complete key code body rs)
  ]

  pub find-release :
      (key : Text) (rs : List (IdempotencyRecord R))
      → find (has_key key) (keep (λ r. not (has_key key r)) rs) ≡ none
  find-release key [] = refl
  find-release key (x ∷ rs) = elim (Bool-cases (has_key key x)) [
    | inl e ↦ ground (arith, find-release key rs)
    | inr e ↦ ground (arith, find-release key rs)
  ]

  find-put_other :
      (k : Text) (row : IdempotencyRecord R) (rs : List (IdempotencyRecord R))
      → (row.idempotency_key == k) ≡ false
      → find (has_key k) (put_record row rs) ≡ find (has_key k) rs
  find-put_other k row [] h = ground arith
  find-put_other k row (r ∷ rs) h = ground (arith, find-put_other k row rs h)

  pub find-release_other :
      (key k : Text) (rs : List (IdempotencyRecord R))
      → (key == k) ≡ false
      → find (has_key k) (release_claim key rs) ≡ find (has_key k) rs
  unfolding release_claim
  find-release_other key k [] h = refl
  find-release_other key k (r ∷ rs) h = ground (arith, find-release_other key k rs h)

  pub find-complete_other :
      (key k : Text) (code : ℕ) (body : R) (rs : List (IdempotencyRecord R))
      → (key == k) ≡ false
      → find (has_key k) (map (complete_row key code body) rs) ≡ find (has_key k) rs
  find-complete_other key k code body [] h = refl
  find-complete_other key k code body (r ∷ rs) h =
      ground (arith, find-complete_other key k code body rs h)

  pub find-cleanup :
      (k : Text) (now : Time) (rs : List (IdempotencyRecord R)) {r : IdempotencyRecord R}
      → find (has_key k) rs ≡ some r
      → now ≤ r.expires_at
      → find (has_key k) (cleanup_expired now rs) ≡ some r
  unfolding cleanup_expired
  find-cleanup k now [] h le = cc
  find-cleanup k now (x ∷ rs) {r} h le = elim (Bool-cases (has_key k x)) [
    | inl e ↦ (let q = found x r (rw e at h) in ground arith)
    | inr e ↦
        (let ih = find-cleanup k now rs {r = r} (rw e at h) le in
          elim (Bool-cases (ltb x.expires_at now)) [ inl t ↦ rw t ih | inr t ↦ rw (t, e) ih ])
  ]
    where
      found : (a b : IdempotencyRecord R) → some a ≡ some b → a ≡ b
      found a b q = cc

  live_row :
      (r : IdempotencyRecord R) (key : Text) (q : Request) (now : Time)
      (rows : List (IdempotencyRecord R))
      → ltb r.expires_at now ≡ false
      → (evaluate_record r key q now rows).0 ≡ claimed
      → ⊥
  live_row r key q now rows e h = ground arith

  pub claimed_row :
      (r : Option (IdempotencyRecord R)) (key : Text) (q : Request) (now : Time)
      (rows : List (IdempotencyRecord R))
      → (claim_row r key q now rows).0 ≡ claimed
      → find (has_key key) (claim_row r key q now rows).1 ≡ some (new_claim key q now)
  unfolding release_claim
  claimed_row none key q now rows h = find-put (new_claim key q now) rows
  claimed_row (some r) key q now rows h = elim (Bool-cases (ltb r.expires_at now)) [
    | inl e ↦ rw e (find-put (new_claim key q now) (release_claim key rows))
    | inr e ↦ absurd (live_row r key q now rows e h)
  ]

  -- A key that has not expired answers a repeated request from its row.
  pub completed_row :
      (key : Text) (q q' : Request) (now now' : Time) (code : ℕ) (body : R)
      (rows : List (IdempotencyRecord R))
      → now' ≤ now + q.ttl_microseconds
      → q'.request_hash ≡ q.request_hash
      → find (has_key key) rows ≡ some (done code body (new_claim key q now))
      → claim_row (find (has_key key) rows) key q' now' rows
        ≡ (replayed (some code) (some body), rows)
  completed_row key q q' now now' code body rows le same f = rw f (ground arith)

  -- A row that has not expired is neither claimed nor changed.
  pub live_claim :
      (r : IdempotencyRecord R) (key : Text) (q : Request) (now : Time)
      (rows : List (IdempotencyRecord R))
      → now ≤ r.expires_at
      → ((claim_row (some r) key q now rows).0 ≡ claimed → ⊥)
        × ((claim_row (some r) key q now rows).1 ≡ rows)
  live_claim r key q now rows le = ground arith

  pub claim_row_other :
      (r : Option (IdempotencyRecord R)) (key k : Text) (q : Request) (now : Time)
      (rows : List (IdempotencyRecord R))
      → (key == k) ≡ false
      → find (has_key k) (claim_row r key q now rows).1 ≡ find (has_key k) rows
  claim_row_other none key k q now rows h = find-put_other k (new_claim key q now) rows h
  claim_row_other (some r) key k q now rows h = elim (Bool-cases (ltb r.expires_at now)) [
    | inl e ↦ rw e (
        find-put_other k (new_claim key q now) (release_claim key rows) h
        ∙ find-release_other key k rows h)
    | inr e ↦ ap (find (has_key k)) (live_claim r key q now rows (ground arith)).1
  ]
