-- ===== src/Idempotency/Runs.antt =====
-- Sequences of commands through services/api_gateway/idempotency.py, and what they leave of a row.
use icici_breeze_api_trading.Prelude.{
  ◌≡◌, refl, ap, ◌∙◌, inl, inr, Bool, false, Option, some, List, [], ◌∷◌, ◌==◌, find, All,
  Bool-cases, ==_iff, ◌≤◌,
}
use icici_breeze_api_trading.Prelude.Result.{Error, Result, ok, err}
use icici_breeze_api_trading.Contracts.{Text, Time}
use icici_breeze_api_trading.Idempotency.{
  IdempotencyRecord, Claim, claimed, mismatch, executing, replayed, Request, Gateway, Web, has_key,
  claim_or_get, save_completion, cleanup_expired, execute_keyed, abandon, respond_claim,
  store_claim, complete_claim, finish_claimed, answer_claim,
}
use icici_breeze_api_trading.Idempotency.Rows.{
  find-release_other, find-complete_other, find-cleanup, claim_row_other, live_claim,
}

-- What may happen to the table: a command under a key, or the deletion of the rows that expired.
pub data Op (W A : Type 0) : Type 0 where
  execute : Text → Request → Time → (W → Result A × W) → Op W A
  cleanup : Time → Op W A

abbrev pub time_of : {W A : Type 0} → Op W A → Time
time_of (execute _ _ now _) = now
time_of (cleanup now) = now

abbrev pub IsBy : {W A : Type 0} → Time → Op W A → Type 0
IsBy last op = time_of op ≤ last

module _ {W A R : Type 0} (web : Web A R) (is_valid : Text → Bool) where
  abbrev pub run : Op W A → Gateway W R → Gateway W R
  run (execute key q now command) g = (execute_keyed web is_valid key q now command g).1
  run (cleanup now) g = record g { records = cleanup_expired now g.records }

  abbrev pub run_all : List (Op W A) → Gateway W R → Gateway W R
  run_all [] g = g
  run_all (op ∷ ops) g = run_all ops (run op g)

  abbrev pub row_of : Text → Gateway W R → Option (IdempotencyRecord R)
  row_of k g = find (has_key k) g.records

  module _ (key k : Text) (other : (key == k) ≡ false) where
    abandon_other : (e : Error) (g : Gateway W R) → row_of k (abandon web key e g).1 ≡ row_of k g
    abandon_other e g = find-release_other key k g.records other

    respond_other :
        (body : R) (x : Result (Unit {0})) (g : Gateway W R)
        → row_of k (respond_claim web key body x g).1 ≡ row_of k g
    respond_other body (ok _) g = refl
    respond_other body (err e) g = abandon_other e g

    store_other :
        (body : R) (x : Result (Unit {0})) (g : Gateway W R)
        → row_of k (store_claim web key body x g).1 ≡ row_of k g
    unfolding save_completion
    store_other body (ok _) g =
        respond_other body (web.render (some body)) _
        ∙ find-complete_other key k 200 body g.records other
    store_other body (err e) g = abandon_other e g

    complete_other :
        (x : Result R) (g : Gateway W R) → row_of k (complete_claim web key x g).1 ≡ row_of k g
    complete_other (ok body) g = store_other body (web.dump body) g
    complete_other (err e) g = abandon_other e g

    finish_other :
        (x : Result A × W) (g : Gateway W R) → row_of k (finish_claimed web key x g).1 ≡ row_of k g
    finish_other (ok a, w) g = complete_other (web.encode a) (record g { world = w })
    finish_other (err e, w) g = abandon_other e (record g { world = w })

    answer_other :
        (command : W → Result A × W) (c : Claim R) (g : Gateway W R)
        → row_of k (answer_claim web key command c g).1 ≡ row_of k g
    answer_other command claimed g = finish_other (command g.world) g
    answer_other command mismatch g = refl
    answer_other command executing g = refl
    answer_other command (replayed code body) g = refl

  respond_world :
      (key : Text) (body : R) (x : Result (Unit {0})) (g : Gateway W R)
      → (respond_claim web key body x g).1.world ≡ g.world
  respond_world key body (ok _) g = refl
  respond_world key body (err e) g = refl

  store_world :
      (key : Text) (body : R) (x : Result (Unit {0})) (g : Gateway W R)
      → (store_claim web key body x g).1.world ≡ g.world
  store_world key body (ok _) g = respond_world key body (web.render (some body)) _
  store_world key body (err e) g = refl

  complete_world :
      (key : Text) (x : Result R) (g : Gateway W R) → (complete_claim web key x g).1.world ≡ g.world
  complete_world key (ok body) g = store_world key body (web.dump body) g
  complete_world key (err e) g = refl

  pub finish_world :
      (key : Text) (x : Result A × W) (g : Gateway W R) → (finish_claimed web key x g).1.world ≡ x.1
  finish_world key (ok a, w) g = complete_world key (web.encode a) (record g { world = w })
  finish_world key (err e, w) g = refl

  -- A completed row that has not expired stays as it is.
  answer_live :
      (key : Text) (command : W → Result A × W) (c : Claim R) (g : Gateway W R)
      → (c ≡ claimed → ⊥)
      → (answer_claim web key command c g).1.records ≡ g.records
  answer_live key command claimed g n = absurd (n refl)
  answer_live key command mismatch g n = refl
  answer_live key command executing g n = refl
  answer_live key command (replayed code body) g n = refl

  module _ (k : Text) (row : IdempotencyRecord R) where
    execute_row :
        (key : Text) (q : Request) (now : Time) (command : W → Result A × W) (g : Gateway W R)
        → now ≤ row.expires_at
        → row_of k g ≡ some row
        → row_of k (execute_keyed web is_valid key q now command g).1 ≡ some row
    unfolding execute_keyed claim_or_get
    execute_row key q now command g le f = elim (Bool-cases (is_valid key)) [
      | inr v ↦ rw v f
      | inl v ↦ rw v (elim (Bool-cases (key == k)) [
        | inr n ↦
            answer_other key k n command _ _
            ∙ (claim_row_other (find (has_key key) g.records) key k q now g.records n ∙ f)
        | inl s ↦
            let same = (==_iff key k).0 s in
            let live = live_claim row k q now g.records le in
            rw (same, f)
              (ap (find (has_key k)) (answer_live k command _ _ live.0)
                ∙ (ap (find (has_key k)) live.1 ∙ f))
      ])
    ]

    run_row :
        (op : Op W A) (g : Gateway W R)
        → IsBy row.expires_at op
        → row_of k g ≡ some row
        → row_of k (run op g) ≡ some row
    run_row (execute key q now command) g le f = execute_row key q now command g le f
    run_row (cleanup now) g le f = find-cleanup k now g.records f le

    pub run_all_row :
        (ops : List (Op W A)) (g : Gateway W R)
        → All (IsBy row.expires_at) ops
        → row_of k g ≡ some row
        → row_of k (run_all ops g) ≡ some row
    run_all_row [] g le f = f
    run_all_row (op ∷ ops) g (le, les) f = run_all_row ops (run op g) les (run_row op g le f)
