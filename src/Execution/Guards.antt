-- ===== src/Execution/Guards.antt =====
-- services/execution/service.py: what keeps an order from the broker at the last moment, and where
-- the reservation does not.
use icici_breeze_api_trading.Prelude.{
  suc, ◌≡◌, refl, inl, inr, true, false, ◌&&◌, some, [], ◌∷◌, ◌++◌, arith, Bool-cases,
}
use icici_breeze_api_trading.Prelude.Float.{Float}
use icici_breeze_api_trading.Prelude.Result.{Result, ok, err}
use icici_breeze_api_trading.Contracts.{Text, BrokerOrder, approved, submitting}
use icici_breeze_api_trading.LiveGate.{validate_live_order}
use icici_breeze_api_trading.Oms.Repository.{get_order_by_id}
use icici_breeze_api_trading.Oms.Service.{mark_order_submitting, reserve_order}
use icici_breeze_api_trading.Execution.Requests.{
  BrokerRequest, BrokerResponse, ExecutionConfig, build_broker_request,
}
use icici_breeze_api_trading.Execution.Service.{
  Execution, Run, report, send_order, submit_reserved, reserve_and_submit, start_order,
  execute_order, is_live_exposure, runtime_healthy,
}
use icici_breeze_api_trading.Execution.Service.{own_update}
use icici_breeze_api_trading.Contracts.{broker_order_event, failed_safe_word}
use icici_breeze_api_trading.Execution.Single.{submissions, submissions-append}

module _ {F : Type 0} ⦃fl : Float F⦄ where
  -- An approved LIVE order that is not reduce-only is not sent where the session or the feed is not
  -- healthy or the gate does not authorize it at that instant: the calls to the broker and the
  -- tables stay as they are, and one FAILED_SAFE update of it is published.
  pub unsafe_order_fails_safe :
      (cfg : ExecutionConfig F) (run : Run F) (id : Text) (s : Execution F) (o : BrokerOrder F)
      → get_order_by_id id s.oms.repo ≡ some o
      → o.status ≡ approved
      → is_live_exposure o ≡ true
      → (runtime_healthy run && validate_live_order run.gate_now cfg.live_account_id run.live_gate)
        ≡ false
      → ((execute_order cfg run id s).1.placed ≡ s.placed)
        × ((execute_order cfg run id s).1.oms.repo ≡ s.oms.repo)
        × ((text : Text) × ((execute_order cfg run id s).1.oms.bus
              ≡ s.oms.bus ++ (broker_order_event (own_update failed_safe_word text o) ∷ [])))
  unfolding execute_order start_order
  unsafe_order_fails_safe cfg run id s o f a l u =
      rw (f, a, l)
        (elim (Bool-cases (runtime_healthy run)) [
          | inl e ↦ rw (e, (rw e at u)) (refl, refl, (run.gate_text, refl))
          | inr e ↦ rw e (refl, refl, (run.health_text, refl))
        ])

  report-placed :
      (cfg : ExecutionConfig F) (run : Run F) (o : BrokerOrder F) (r : Result (BrokerResponse F))
      (s : Execution F)
      → (report cfg run o r s).1.placed ≡ s.placed
  unfolding report
  report-placed cfg run o (ok resp) s = ground arith
  report-placed cfg run o (err e) s = refl

  -- The reservation does not tell an order that it reserved from one that stands as SUBMITTING
  -- already: an execution that goes on to the reservation of such an order, whose request can be
  -- built, sends it once more.
  pub reserved_order_sent_again :
      (cfg : ExecutionConfig F) (run : Run F) (id : Text) (s : Execution F) (o : BrokerOrder F)
      (req : BrokerRequest F)
      → get_order_by_id id s.oms.repo ≡ some o
      → o.status ≡ submitting
      → build_broker_request cfg o ≡ some req
      → submissions o.order_id (reserve_and_submit cfg run id s).1.placed
        ≡ suc (submissions o.order_id s.placed)
  unfolding reserve_and_submit mark_order_submitting reserve_order submit_reserved send_order report
  reserved_order_sent_again cfg run id s o req f a r =
      rw
        (
          f,
          a,
          r,
          report-placed cfg run o run.answer (record s {
            placed =
                s.placed
                ++ (record { order_id = o.order_id; request = req; mode = o.trading_mode } ∷ []);
          }),
          submissions-append o.order_id s.placed
              (record { order_id = o.order_id; request = req; mode = o.trading_mode }),
        )
        (ground arith)
