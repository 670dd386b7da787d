-- ===== src/Idempotency.antt =====
-- services/api_gateway/idempotency.py: the table of idempotency keys, and the wrapper that executes
-- a mutating command under a key. The command acts on a world of its own; a body is stored and read
-- back by JSON, and stands as the JSON value itself.
pub mod Rows
pub mod Runs
pub mod Replay
use icici_breeze_api_trading.Prelude.{
  ℕ, ◌+◌, Bool, true, false, not, Option, none, some, List, [], ◌∷◌, ◌++◌, ltb, ◌==◌, if◌then◌else◌,
  find, map, keep,
}
use icici_breeze_api_trading.Prelude.Result.{Error, Result, ok, err}
use icici_breeze_api_trading.Contracts.{Text, Time, AuditEvent, idempotency_mismatch}

pub data RecordStatus : Type 0 where
  in_progress completed : RecordStatus

-- A row of `idempotency_records`; the stored headers are never used again.
pub record IdempotencyRecord (R : Type 0) : Type 0 where
  pub idempotency_key : Text
  pub user_id : Text
  pub request_path : Text
  pub request_hash : Text
  pub status : RecordStatus
  pub response_code : Option ℕ
  pub response_body : Option R
  pub created_at : Time
  pub expires_at : Time

pub data Claim (R : Type 0) : Type 0 where
  claimed mismatch executing : Claim R
  replayed : Option ℕ → Option R → Claim R

-- What the caller of a command sees: a response, marked where it is replayed, an `HTTPException`
-- with its status, or the exception of the command.
pub data Reply (R : Type 0) : Type 0 where
  response : ℕ → Option R → Bool → Reply R
  refused : ℕ → Reply R
  raised : Error → Reply R

pub record Request : Type 0 where
  pub idempotency_key : Option Text
  pub user_id : Text
  pub path : Text
  -- `compute_request_hash` of the user, the method, the path and the body.
  pub request_hash : Text
  pub ttl_microseconds : ℕ

pub record Gateway (W R : Type 0) : Type 0 where
  pub records : List (IdempotencyRecord R)
  pub audit : List AuditEvent
  pub world : W

module _ {R : Type 0} where
  abbrev pub has_key : Text → IdempotencyRecord R → Bool
  has_key k r = r.idempotency_key == k

  abbrev pub new_claim : Text → Request → Time → IdempotencyRecord R
  new_claim key q now = record {
    idempotency_key = key;
    user_id = q.user_id;
    request_path = q.path;
    request_hash = q.request_hash;
    status = in_progress;
    response_code = none;
    response_body = none;
    created_at = now;
    expires_at = now + q.ttl_microseconds;
  }

  -- `INSERT … ON CONFLICT(idempotency_key) DO UPDATE`, which takes every column over.
  abbrev pub put_record :
      IdempotencyRecord R → List (IdempotencyRecord R) → List (IdempotencyRecord R)
  put_record row [] = row ∷ []
  put_record row (r ∷ rs) =
      if r.idempotency_key == row.idempotency_key then row ∷ rs else r ∷ put_record row rs

  unfoldable pub release_claim : Text → List (IdempotencyRecord R) → List (IdempotencyRecord R)
  release_claim key = keep (λ r. not (has_key key r))

  abbrev pub evaluate_record :
      IdempotencyRecord R
      → Text
      → Request
      → Time
      → List (IdempotencyRecord R)
      → Claim R × List (IdempotencyRecord R)
  evaluate_record r key q now rows =
      if ltb r.expires_at now
      then (claimed, put_record (new_claim key q now) (release_claim key rows))
      else if not (r.request_hash == q.request_hash)
      then (mismatch, rows)
      else elim r.status [
        | completed ↦ (replayed r.response_code r.response_body, rows)
        | in_progress ↦ (executing, rows)
      ]

  abbrev pub claim_row :
      Option (IdempotencyRecord R)
      → Text
      → Request
      → Time
      → List (IdempotencyRecord R)
      → Claim R × List (IdempotencyRecord R)
  claim_row none key q now rows = (claimed, put_record (new_claim key q now) rows)
  claim_row (some r) key q now rows = evaluate_record r key q now rows

  unfoldable pub claim_or_get :
      Text → Request → Time → List (IdempotencyRecord R) → Claim R × List (IdempotencyRecord R)
  unfolding release_claim
  claim_or_get key q now rows = claim_row (find (has_key key) rows) key q now rows

  abbrev pub complete_row : Text → ℕ → R → IdempotencyRecord R → IdempotencyRecord R
  complete_row key code body r =
      if has_key key r
      then record r { status = completed; response_code = some code; response_body = some body }
      else r

  unfoldable pub save_completion :
      Text → ℕ → R → List (IdempotencyRecord R) → List (IdempotencyRecord R)
  save_completion key code body = map (complete_row key code body)

  unfoldable pub cleanup_expired : Time → List (IdempotencyRecord R) → List (IdempotencyRecord R)
  cleanup_expired now = keep (λ r. not (ltb r.expires_at now))

abbrev pub code_or_200 : Option ℕ → ℕ
code_or_200 none = 200
code_or_200 (some c) = if c == 0 then 200 else c

abbrev or_empty : Option Text → Text
or_empty none = 0
or_empty (some k) = k

abbrev key_given : Option Text → Bool
key_given none = false
key_given (some k) = not (k == 0)

-- What is done with the value of a command, each step of which may raise: `jsonable_encoder`, then
-- `json.dumps` and the transaction that stores the text, then `JSONResponse`, of null for no body.
pub record Web (A R : Type 0) : Type 0 where
  pub encode : A → Result R
  pub dump : R → Result (Unit {0})
  pub render : Option R → Result (Unit {0})

module _ {R : Type 0} where
  abbrev replay_stored : Option ℕ → Option R → Result (Unit {0}) → Reply R
  replay_stored code body (ok _) = response (code_or_200 code) body true
  replay_stored code body (err e) = raised e

  abbrev respond_direct : R → Result (Unit {0}) → Reply R
  respond_direct body (ok _) = response 200 (some body) false
  respond_direct body (err e) = raised e

module _ {A R : Type 0} (web : Web A R) where
  abbrev encode_direct : Result R → Reply R
  encode_direct (ok body) = respond_direct body (web.render (some body))
  encode_direct (err e) = raised e

module _ {W A R : Type 0} (web : Web A R) where
  -- The exception goes on, and the key is given back.
  abbrev pub abandon : Text → Error → Gateway W R → Reply R × Gateway W R
  abandon key e g = (raised e, record g { records = release_claim key g.records })

  abbrev pub respond_claim : Text → R → Result (Unit {0}) → Gateway W R → Reply R × Gateway W R
  respond_claim key body (ok _) g = (response 200 (some body) false, g)
  respond_claim key body (err e) g = abandon key e g

  abbrev pub store_claim : Text → R → Result (Unit {0}) → Gateway W R → Reply R × Gateway W R
  store_claim key body (ok _) g =
      respond_claim key body (web.render (some body))
        (record g { records = save_completion key 200 body g.records })
  store_claim key body (err e) g = abandon key e g

  abbrev pub complete_claim : Text → Result R → Gateway W R → Reply R × Gateway W R
  complete_claim key (ok body) g = store_claim key body (web.dump body) g
  complete_claim key (err e) g = abandon key e g

  -- The command has run under its claim.
  abbrev pub finish_claimed : Text → Result A × W → Gateway W R → Reply R × Gateway W R
  finish_claimed key (ok a, w) g = complete_claim key (web.encode a) (record g { world = w })
  finish_claimed key (err e, w) g = abandon key e (record g { world = w })

  abbrev pub answer_claim :
      Text → (W → Result A × W) → Claim R → Gateway W R → Reply R × Gateway W R
  answer_claim key command (replayed code body) g = (replay_stored code body (web.render body), g)
  answer_claim key command executing g = (refused 409, g)
  answer_claim key command mismatch g =
      (refused 422, record g { audit = g.audit ++ (idempotency_mismatch ∷ []) })
  answer_claim key command claimed g = finish_claimed key (command g.world) g

  abbrev run_direct : Result A × W → Gateway W R → Reply R × Gateway W R
  run_direct (ok a, w) g = (encode_direct web (web.encode a), record g { world = w })
  run_direct (err e, w) g = (raised e, record g { world = w })

  -- With a key; `is_valid` is the regular expression of keys.
  unfoldable pub execute_keyed :
      (Text → Bool)
      → Text
      → Request
      → Time
      → (W → Result A × W)
      → Gateway W R
      → Reply R × Gateway W R
  unfolding claim_or_get save_completion release_claim
  execute_keyed is_valid key q now command g =
      if not (is_valid key)
      then (refused 400, g)
      else let (claim, rows) = claim_or_get key q now g.records in
        answer_claim key command claim (record g { records = rows })

  unfoldable pub execute_idempotent_command :
      (Text → Bool) → Request → Time → (W → Result A × W) → Gateway W R → Reply R × Gateway W R
  unfolding execute_keyed
  execute_idempotent_command is_valid q now command g =
      if key_given q.idempotency_key
      then execute_keyed is_valid (or_empty q.idempotency_key) q now command g
      else run_direct (command g.world) g
