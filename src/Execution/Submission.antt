-- ===== src/Execution/Submission.antt =====
-- services/execution/service.py, `execute_order`: an order is reserved before it is sent, and what
-- was reserved has not been sent before.
use icici_breeze_api_trading.Prelude.{
  ℕ, zero, suc, ◌≤◌, ◌≡◌, refl, inl, inr, not, ◌&&◌, Option, none, some, [], ◌∷◌, ◌++◌, ◌==◌,
  ==_iff, arith, Bool-cases,
}
use icici_breeze_api_trading.Prelude.Int.{pos, ltb_ℤ}
use icici_breeze_api_trading.Prelude.Float.{Float, or_f}
use icici_breeze_api_trading.Prelude.Result.{Result, ok, err}
use icici_breeze_api_trading.Prelude.Action.{
  Action, pure, finish, ◌>>◌, bind_keeps, bind_case, if_keeps,
}
use icici_breeze_api_trading.Contracts.{
  StatusWord, broker_order_event, Text, BrokerOrder, OrderState, approved, submitting, same_state,
}
use icici_breeze_api_trading.Oms.StateMachine.{validate_transition, can_transition}
use icici_breeze_api_trading.Oms.Repository.{Stamp, get_order_by_id, execution_reserved}
use icici_breeze_api_trading.Oms.Service.{
  Oms, publish, mark_order_submitting, reserve_order, save_transition,
}
use icici_breeze_api_trading.Oms.Journal.{save_transition-state}
use icici_breeze_api_trading.Oms.Handlers.{mark_order_submitting-Kept}
use icici_breeze_api_trading.Oms.Past.{IsPast, Past, state_in}
use icici_breeze_api_trading.Execution.Requests.{
  BrokerRequest, BrokerResponse, ExecutionConfig, build_broker_request, normalize_broker_status,
}
use icici_breeze_api_trading.Execution.Service.{
  Placement, Execution, Run, on_oms, report, send_order, submit_reserved, reserve_and_submit,
  publish_fill, answer_update, trade_fill, is_filled_word,
}
use icici_breeze_api_trading.Execution.Single.{
  submissions, submissions-append, IsSingle, on_oms-IsSingle, publish-IsSingle,
}

not_any : (n : ℕ) → (1 ≤ n → ⊥) → n ≡ 0
not_any zero f = refl
not_any (suc n) f = absurd (f (omega arith))

approved_not_past : (x : Option OrderState) → x ≡ some approved → IsPast x → ⊥
approved_not_past none e h = h
approved_not_past (some a) e h = ground arith

module _ {F : Type 0} where
  abbrev reserved : Stamp → BrokerOrder F → BrokerOrder F
  reserved stamp o = record o { status = submitting; updated_at = stamp.now }

  abbrev reservation : Stamp → BrokerOrder F → Action (Oms F) (Unit {0})
  reservation stamp o =
      save_transition (reserved stamp o) (some o.status) submitting execution_reserved stamp

  reserve_order-approved :
      (stamp : Stamp) (o : BrokerOrder F) (s : Oms F)
      → o.status ≡ approved
      → reserve_order stamp (some o) s ≡ (reservation stamp o >> pure (some (reserved stamp o))) s
  unfolding reserve_order validate_transition can_transition
  reserve_order-approved stamp o s e = ground arith

  reservation_case :
      (k : Text) (u : BrokerOrder F) (r : Result (Unit {0})) (s : Oms F)
      {a : Option (BrokerOrder F)}
      → ((w : Unit {0}) → r ≡ ok w → state_in k s ≡ some submitting)
      → (finish r (λ _. pure (some u)) s).0 ≡ ok a
      → (a ≡ some u) × (state_in k (finish r (λ _. pure (some u)) s).1 ≡ some submitting)
  reservation_case k u (ok w) s f h = (ground arith, f w refl)
  reservation_case k u (err e) s f h = cc

  -- An approved order that the reservation returns stands as SUBMITTING.
  reserved_state :
      (stamp : Stamp) (o : BrokerOrder F) (s : Oms F) {a : Option (BrokerOrder F)}
      → o.status ≡ approved
      → (reserve_order stamp (some o) s).0 ≡ ok a
      → (a ≡ some (reserved stamp o))
        × (state_in o.order_id (reserve_order stamp (some o) s).1 ≡ some submitting)
  reserved_state stamp o s {a} e h = rw (reserve_order-approved stamp o s e) (
      reservation_case o.order_id (reserved stamp o) (reservation stamp o s).0
        (reservation stamp o s).1
        (λ w.
          save_transition-state (reserved stamp o) (some o.status) submitting execution_reserved
            stamp s)
        (rw (reserve_order-approved stamp o s e) at h))

  -- An order that was not submitted before, and has left the approved state.
  abbrev IsFresh : Text → Text → Execution F → Type 0
  IsFresh k id s = id ≡ k → (submissions k s.placed ≡ 0) × Past k s.oms

  placed-IsSingle :
      (k : Text) (p : Placement F) (s : Execution F)
      → IsSingle k s
      → IsFresh k p.order_id s
      → IsSingle k (record s { placed = s.placed ++ (p ∷ []) })
  placed-IsSingle k p s h f = elim (Bool-cases (p.order_id == k)) [
    | inl e ↦
        (let (none_yet, gone) = f ((==_iff p.order_id k).0 e) in
          record {
            audited = h.audited;
            once = rw (submissions-append k s.placed p, e, none_yet) (omega arith);
            past = λ _. gone;
          })
    | inr e ↦ record {
      audited = h.audited;
      once = rw (submissions-append k s.placed p, e) (omega (arith, h.once));
      past = λ c. h.past (omega (arith, (rw (submissions-append k s.placed p, e) at c)));
    }
  ]

  -- An order that is still approved was not submitted.
  approved_unsent :
      (k : Text) (s : Execution F)
      → IsSingle k s
      → state_in k s.oms ≡ some approved
      → submissions k s.placed ≡ 0
  approved_unsent k s h e = not_any (submissions k s.placed) (λ c. approved_not_past _ e (h.past c))

  mark_state :
      (stamp : Stamp) (o : BrokerOrder F) (s : Oms F) {a : Option (BrokerOrder F)}
      → get_order_by_id o.order_id s.repo ≡ some o
      → o.status ≡ approved
      → (mark_order_submitting o.order_id stamp s).0 ≡ ok a
      → (a ≡ some (reserved stamp o))
        × (state_in o.order_id (mark_order_submitting o.order_id stamp s).1 ≡ some submitting)
  unfolding mark_order_submitting
  mark_state stamp o s c e h = rw c (reserved_state stamp o s e (rw c at h))

module _ {F : Type 0} ⦃fl : Float F⦄ where
  report-IsSingle :
      (cfg : ExecutionConfig F) (run : Run F) (k : Text) (o : BrokerOrder F)
      (r : Result (BrokerResponse F)) (s : Execution F)
      → IsSingle k s
      → IsSingle k (report cfg run o r s).1
  unfolding report
  report-IsSingle cfg run k o (ok resp) s h =
      bind_keeps (IsSingle k) (on_oms (publish (broker_order_event (answer_update word o resp))))
        (λ _. publish_fill (is_filled_word word && ltb_ℤ (pos 0) resp.filled_quantity) o resp) s
        (publish-IsSingle k _ s h)
        (λ _ t p.
          if_keeps (IsSingle k) (is_filled_word word && ltb_ℤ (pos 0) resp.filled_quantity)
            (on_oms (
              publish (
                trade_fill o resp.filled_quantity resp.filled_quantity
                  (or_f resp.average_price o.price))))
            (pure tt) t (λ _. publish-IsSingle k _ t p) (λ _. p))
    where
      word : StatusWord
      word = normalize_broker_status cfg resp.status
  report-IsSingle cfg run k o (err e) s h = publish-IsSingle k _ s h

  send_order-IsSingle :
      (cfg : ExecutionConfig F) (run : Run F) (k : Text) (o : BrokerOrder F)
      (req : Option (BrokerRequest F)) (s : Execution F)
      → IsSingle k s
      → IsFresh k o.order_id s
      → IsSingle k (send_order cfg run o req s).1
  unfolding send_order
  send_order-IsSingle cfg run k o none s h f = publish-IsSingle k _ s h
  send_order-IsSingle cfg run k o (some req) s h f = report-IsSingle cfg run k o run.answer _ (
      placed-IsSingle k (record { order_id = o.order_id; request = req; mode = o.trading_mode }) s h
        f)

  submit_reserved-IsSingle :
      (cfg : ExecutionConfig F) (run : Run F) (k : Text) (o : BrokerOrder F) (s : Execution F)
      → IsSingle k s
      → IsFresh k o.order_id s
      → IsSingle k (submit_reserved cfg run (some o) s).1
  unfolding submit_reserved
  submit_reserved-IsSingle cfg run k o s h f =
      if_keeps (IsSingle k) (not (same_state o.status submitting)) (pure tt)
        (send_order cfg run o (build_broker_request cfg o)) s (λ _. h)
        (λ _. send_order-IsSingle cfg run k o _ s h f)

  -- The order that an approved order's reservation returns may be sent.
  pub reserve_and_submit-IsSingle :
      (cfg : ExecutionConfig F) (run : Run F) (k : Text) (o : BrokerOrder F) (s : Execution F)
      → get_order_by_id o.order_id s.oms.repo ≡ some o
      → o.status ≡ approved
      → IsSingle k s
      → IsSingle k (reserve_and_submit cfg run o.order_id s).1
  unfolding reserve_and_submit get_order_by_id
  reserve_and_submit-IsSingle cfg run k o s c a h =
      bind_case (IsSingle k) (on_oms (mark_order_submitting o.order_id run.stamp))
        (submit_reserved cfg run) s marked
        (λ t q.
          let (e, state) = mark_state run.stamp o s.oms c a q in
          rw e (
            submit_reserved-IsSingle cfg run k (reserved run.stamp o) _ marked
              (λ i. (approved_unsent k s h (rw (← i, c, a)), rw (← i, state) (omega arith)))))
    where
      marked : IsSingle k (on_oms (mark_order_submitting o.order_id run.stamp) s).1
      marked =
          on_oms-IsSingle k (mark_order_submitting o.order_id run.stamp) s
            (λ P st. mark_order_submitting-Kept st o.order_id run.stamp s.oms) h
