-- ===== src/Idempotency/Replay.antt =====
-- services/api_gateway/idempotency.py: a key executes its command once, unless what follows the
-- command raises.
use icici_breeze_api_trading.Prelude.{
  ◌+◌, ◌≡◌, refl, ap, ◌∙◌, Bool, true, some, List, find, All, ◌≤◌,
}
use icici_breeze_api_trading.Prelude.Result.{Error, Result, ok, err}
use icici_breeze_api_trading.Contracts.{Text, Time}
use icici_breeze_api_trading.Idempotency.{
  claimed, response, raised, Request, Gateway, Web, has_key, new_claim, release_claim, claim_or_get,
  save_completion, execute_keyed,
}
use icici_breeze_api_trading.Idempotency.Rows.{
  done, done_option, find_complete, find-release, claimed_row, completed_row,
}
use icici_breeze_api_trading.Idempotency.Runs.{Op, IsBy, run_all, row_of, run_all_row, finish_world}

module _ {W A R : Type 0} (web : Web A R) (is_valid : Text → Bool) where
  -- The row that a command leaves that went through.
  completed_first :
      (key : Text) (q : Request) (now : Time) (command : W → Result A × W) (g : Gateway W R) {a : A}
      {w : W} {body : R}
      → is_valid key ≡ true
      → (claim_or_get key q now g.records).0 ≡ claimed
      → command g.world ≡ (ok a, w)
      → web.encode a ≡ ok body
      → web.dump body ≡ ok tt
      → web.render (some body) ≡ ok tt
      → row_of web is_valid key (execute_keyed web is_valid key q now command g).1
        ≡ some (done 200 body (new_claim key q now))
  unfolding execute_keyed save_completion claim_or_get
  completed_first key q now command g {body = body} v c runs enc dum ren =
      rw (v, c, runs, enc, dum, ren)
        (find_complete key 200 body (claim_or_get key q now g.records).1
          ∙ ap (done_option 200 body)
              (claimed_row (find (has_key key) g.records) key q now g.records c))

  replayed_again :
      (key : Text) (q q' : Request) (now now' : Time) (command : W → Result A × W) (g : Gateway W R)
      {body : R}
      → is_valid key ≡ true
      → web.render (some body) ≡ ok tt
      → q'.request_hash ≡ q.request_hash
      → now' ≤ now + q.ttl_microseconds
      → row_of web is_valid key g ≡ some (done 200 body (new_claim key q now))
      → execute_keyed web is_valid key q' now' command g ≡ (response 200 (some body) true, g)
  unfolding execute_keyed claim_or_get
  replayed_again key q q' now now' command g {body} v ren same le f =
      rw (v, completed_row key q q' now now' 200 body g.records le same f, ren) refl

  -- A command that has succeeded under a valid key that it claimed, and whose value was encoded,
  -- stored and rendered, is not executed again for a request with the same hash up to the instant
  -- at which the key expires, after any commands under any keys and any deletions of expired rows
  -- up to that instant: its answer is replayed, and nothing changes.
  pub executed_once :
      (key : Text) (q q' : Request) (now now' : Time) (command command' : W → Result A × W)
      (ops : List (Op W A)) (g : Gateway W R) {a : A} {w : W} {body : R}
      → is_valid key ≡ true
      → (claim_or_get key q now g.records).0 ≡ claimed
      → command g.world ≡ (ok a, w)
      → web.encode a ≡ ok body
      → web.dump body ≡ ok tt
      → web.render (some body) ≡ ok tt
      → q'.request_hash ≡ q.request_hash
      → All (IsBy (now + q.ttl_microseconds)) ops
      → now' ≤ now + q.ttl_microseconds
      → let g' = run_all web is_valid ops (execute_keyed web is_valid key q now command g).1 in
        execute_keyed web is_valid key q' now' command' g' ≡ (response 200 (some body) true, g')
  executed_once key q q' now now' command command' ops g {a} {w} {body} v c runs enc dum ren same
        les le =
      replayed_again key q q' now now' command' _ v ren same le (
        run_all_row web is_valid key (done 200 body (new_claim key q now)) ops
          (execute_keyed web is_valid key q now command g).1 les
          (completed_first key q now command g v c runs enc dum ren))

  -- A command that raises under a valid key that it claimed passes its exception on and gives the
  -- key back: the next request under it, whatever its hash and its instant, claims the key again.
  pub failure_releases_key :
      (key : Text) (q q' : Request) (now now' : Time) (command : W → Result A × W) (g : Gateway W R)
      {e : Error} {w : W}
      → is_valid key ≡ true
      → (claim_or_get key q now g.records).0 ≡ claimed
      → command g.world ≡ (err e, w)
      → ((execute_keyed web is_valid key q now command g).0 ≡ raised e)
        × ((claim_or_get key q' now' (execute_keyed web is_valid key q now command g).1.records).0
            ≡ claimed)
  unfolding execute_keyed claim_or_get release_claim
  failure_releases_key key q q' now now' command g v c raises =
      rw (v, c, raises) (refl, rw (find-release key _) refl)

  -- A command that has succeeded under a valid key that it claimed, and whose value was stored but
  -- cannot be rendered, is answered with that exception, and the next request under the key,
  -- whatever its hash and its instant, executes its command.
  pub late_failure_runs_again :
      (key : Text) (q q' : Request) (now now' : Time) (command command' : W → Result A × W)
      (g : Gateway W R) {a : A} {w : W} {body : R} {e : Error}
      → is_valid key ≡ true
      → (claim_or_get key q now g.records).0 ≡ claimed
      → command g.world ≡ (ok a, w)
      → web.encode a ≡ ok body
      → web.dump body ≡ ok tt
      → web.render (some body) ≡ err e
      → let (reply, g') = execute_keyed web is_valid key q now command g in
        (reply ≡ raised e)
        × ((execute_keyed web is_valid key q' now' command' g').1.world ≡ (command' w).1)
  unfolding execute_keyed claim_or_get release_claim
  late_failure_runs_again key q q' now now' command command' g {a} {w} v c runs enc dum ren =
      rw (v, c, runs, enc, dum, ren)
        (refl, rw (find-release key _) (finish_world web is_valid key (command' w) _))
