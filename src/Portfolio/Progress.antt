-- ===== src/Portfolio/Progress.antt =====
-- services/portfolio: a fill is applied once, and takes the executed quantity of its order to the
-- cumulative quantity that the execution service published.
use icici_breeze_api_trading.Prelude.{
  ℕ, ◌≡◌, refl, sym, inl, inr, true, false, Option, none, some, List, [], ◌∷◌, ◌++◌, ◌==◌,
  if◌then◌else◌, any, find, arith, Bool-cases, ==_iff,
}
use icici_breeze_api_trading.Prelude.Int.{pos, ◌+ℤ◌, +ℤ_assoc, +ℤ_comm}
use icici_breeze_api_trading.Prelude.Float.{Float}
use icici_breeze_api_trading.Prelude.Result.{ok, err, integrity}
use icici_breeze_api_trading.Contracts.{Text, Time, TradingMode, TradeFill, broker_trade_event}
use icici_breeze_api_trading.Execution.Reconcile.{Evidence}
use icici_breeze_api_trading.Execution.Fills.{IsExactFill}
use icici_breeze_api_trading.Portfolio.Repository.{
  FillExecution, Position, PortfolioDb, has_instrument, get_position, put_position, id_taken,
  position_after, reuse_position, apply_execution_atomic, same_execution, sum_executed,
  get_executed_quantity_for_order,
}
use icici_breeze_api_trading.Portfolio.Service.{execution_of}

same_number : (a : ℕ) → (a == a) ≡ true
same_number a = (==_iff a a).1 refl

module _ {F : Type 0} where
  -- Two deliveries of one execution: the id of the execution and the instrument are the same, and
  -- nothing else needs to be.
  pub record IsRedelivery (e e' : FillExecution F) : Type 0 where
    pub same_order : e'.order_id ≡ e.order_id
    pub same_cumulative : e'.cumulative ≡ e.cumulative
    pub same_instrument : e'.instrument_id ≡ e.instrument_id

  any-append :
      (e e' : FillExecution F) (es : List (FillExecution F))
      → IsRedelivery e e'
      → any (same_execution e') (es ++ (e ∷ [])) ≡ true
  any-append e e' [] d =
      rw (d.same_order, d.same_cumulative, (==_iff e.order_id e.order_id).1 refl) (ground arith)
  any-append e e' (x ∷ es) d = rw (any-append e e' es d) (ground arith)

  find-put :
      (row : Position F) (ps : List (Position F))
      → (q : Position F) × (find (has_instrument row.instrument_id) (put_position row ps) ≡ some q)
  find-put row [] = (row, rw (same_number row.instrument_id) refl)
  find-put row (p ∷ ps) = elim (Bool-cases (p.instrument_id == row.instrument_id)) [
    | inl m ↦
        (record row { position_id = p.position_id }, rw (m, same_number row.instrument_id) refl)
    | inr m ↦ (let (q, e) = find-put row ps in (q, rw (m, m) e))
  ]

  sum_executed-append :
      (id : Text) (es : List (FillExecution F)) (e : FillExecution F)
      → sum_executed id (es ++ (e ∷ []))
        ≡ (if e.order_id == id then sum_executed id es +ℤ e.quantity else sum_executed id es)
  sum_executed-append id [] e = elim (Bool-cases (e.order_id == id)) [
    | inl m ↦ rw m (+ℤ_comm e.quantity (pos 0))
    | inr m ↦ rw m refl
  ]
  sum_executed-append id (x ∷ es) e =
      rw (sum_executed-append id es e) (elim (Bool-cases (e.order_id == id)) [
        | inl m ↦ rw m (elim (Bool-cases (x.order_id == id)) [
          | inl n ↦ rw n (sym (+ℤ_assoc x.quantity (sum_executed id es) e.quantity))
          | inr n ↦ rw n refl
        ])
        | inr m ↦ rw m refl
      ])

module _ {F : Type 0} ⦃fl : Float F⦄ where
  not_reused :
      (r : Option (Position F)) (db : PortfolioDb F) {p : Position F}
      → (reuse_position r db).0 ≡ ok (p, true)
      → ⊥
  not_reused none db h = cc
  not_reused (some q) db h = ground arith

  -- What an applied fill has written.
  applied_db :
      (e : FillExecution F) (mode : TradingMode) (current : F) (new_id : Text) (now : Time)
      (db : PortfolioDb F) {p : Position F}
      → (apply_execution_atomic e mode current new_id now db).0 ≡ ok (p, true)
      → (apply_execution_atomic e mode current new_id now db).1 ≡ record db {
        executions = db.executions ++ (e ∷ []);
        positions =
            put_position
              (position_after e mode current new_id now (get_position e.instrument_id db))
              db.positions;
      }
  unfolding apply_execution_atomic
  applied_db e mode current new_id now db h =
      elim (Bool-cases (any (same_execution e) db.executions)) [
        | inl m ↦ absurd (not_reused (get_position e.instrument_id db) db (rw m at h))
        | inr m ↦
            rw m
              (elim (Bool-cases (id_taken new_id (get_position e.instrument_id db) db.positions)) [
                | inl t ↦ absurd (taken (rw (m, t) at h))
                | inr t ↦ rw t refl
              ])
      ]
    where
      taken : {A : Type 0} {x : A} → err integrity ≡ ok x → ⊥
      taken q = cc

  reapplied :
      (e e' : FillExecution F) (mode : TradingMode) (current : F) (new_id : Text) (now : Time)
      (row : Position F) (db : PortfolioDb F)
      → IsRedelivery e e'
      → row.instrument_id ≡ e'.instrument_id
      → (q : Position F) × (apply_execution_atomic e' mode current new_id now (record db {
        executions = db.executions ++ (e ∷ []);
        positions = put_position row db.positions;
      })
          ≡ (
            ok (q, false),
            record db {
              executions = db.executions ++ (e ∷ []);
              positions = put_position row db.positions;
            },
          ))
  unfolding apply_execution_atomic get_position
  reapplied e e' mode current new_id now row db d i =
      let (q, f) = find-put row db.positions in
      (q, rw (any-append e e' db.executions d, ← i, f) refl)

  -- A fill that was applied is ignored when its execution id is delivered again for the same
  -- instrument, with any other side, quantity and price and at any instant: it is reported as not
  -- applied, and the tables stay as they are.
  pub apply_execution_atomic-replay :
      (e e' : FillExecution F) (mode mode' : TradingMode) (current current' : F) (new_id id' : Text)
      (now now' : Time) (db : PortfolioDb F) {p : Position F}
      → IsRedelivery e e'
      → (apply_execution_atomic e mode current new_id now db).0 ≡ ok (p, true)
      → (q : Position F) × (apply_execution_atomic e' mode' current' id' now'
            (apply_execution_atomic e mode current new_id now db).1
          ≡ (ok (q, false), (apply_execution_atomic e mode current new_id now db).1))
  unfolding apply_execution_atomic get_position
  apply_execution_atomic-replay e e' mode mode' current current' new_id id' now now' db d h =
      rw (applied_db e mode current new_id now db h) (
        reapplied e e' mode' current' id' now'
          (position_after e mode current new_id now (get_position e.instrument_id db)) db d
          (sym d.same_instrument))

  -- A published fill that is exact for the evidence of a round of reconciliation, where that
  -- evidence says what the portfolio has executed of the order, takes the executed quantity of the
  -- order to the cumulative quantity that the fill names, once it is applied.
  pub applied_fill_closes_gap :
      (evidence : Evidence F) (f : TradeFill F) (current : F) (new_id : Text) (now : Time)
      (db : PortfolioDb F) {p : Position F}
      → IsExactFill evidence (broker_trade_event f)
      → evidence.executed f.order_id ≡ get_executed_quantity_for_order f.order_id db
      → (apply_execution_atomic (execution_of f) f.trading_mode current new_id now db).0
        ≡ ok (p, true)
      → get_executed_quantity_for_order f.order_id
          (apply_execution_atomic (execution_of f) f.trading_mode current new_id now db).1
        ≡ f.cumulative_filled_quantity
  unfolding get_executed_quantity_for_order
  applied_fill_closes_gap evidence f current new_id now db x known h =
      rw (applied_db (execution_of f) f.trading_mode current new_id now db h) (
        rw
          (
            sum_executed-append f.order_id db.executions (execution_of f),
            same_number f.order_id,
            ← known,
          )
          x.1)
