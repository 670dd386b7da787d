-- ===== src/Portfolio/Balance.antt =====
-- services/portfolio/repository.py: every position is the sum of its executions.
use icici_breeze_api_trading.Prelude.{
  ◌≡◌, refl, sym, ap, ◌∙◌, inl, inr, Bool, true, false, not, ◌&&◌, Option, none, some, List, [],
  ◌∷◌, ◌++◌, ◌==◌, if◌then◌else◌, any, find, arith, Bool-cases, ==_iff,
}
use icici_breeze_api_trading.Prelude.Int.{ℤ, pos, ◌+ℤ◌, ◌-ℤ◌, +ℤ_assoc, +ℤ_comm}
use icici_breeze_api_trading.Prelude.Float.{Float}
use icici_breeze_api_trading.Contracts.{Text, Time, TradingMode, is_buy}
use icici_breeze_api_trading.Portfolio.Repository.{
  FillExecution, Position, PortfolioDb, has_instrument, get_position, put_position, totals_of,
  position_after, reuse_position, apply_execution_atomic, same_execution, id_taken,
}

module _ {F : Type 0} where
  abbrev on_side : Bool → FillExecution F → Bool
  on_side true e = is_buy e.side
  on_side false e = not (is_buy e.side)

  -- The quantity that an execution adds to a side of an instrument.
  abbrev pub share : Bool → Text → FillExecution F → ℤ
  share side k e = if e.instrument_id == k && on_side side e then e.quantity else pos 0

  -- The quantity that the executions of an instrument have on one side.
  abbrev pub traded : Bool → Text → List (FillExecution F) → ℤ
  traded side k [] = pos 0
  traded side k (e ∷ es) = share side k e +ℤ traded side k es

  abbrev pub side_quantity : Bool → Option (Position F) → ℤ
  side_quantity side none = pos 0
  side_quantity true (some p) = p.buy_quantity
  side_quantity false (some p) = p.sell_quantity

  abbrev pub net_quantity : Option (Position F) → ℤ
  net_quantity none = pos 0
  net_quantity (some p) = p.quantity

  -- Each position holds what its executions bought and sold, and its quantity is the difference.
  pub record IsBalanced (db : PortfolioDb F) : Type 0 where
    pub sides :
        (side : Bool) (k : Text)
        → side_quantity side (find (has_instrument k) db.positions) ≡ traded side k db.executions
    pub net :
        (k : Text)
        → net_quantity (find (has_instrument k) db.positions)
          ≡ side_quantity true (find (has_instrument k) db.positions)
            -ℤ side_quantity false (find (has_instrument k) db.positions)

  traded-append :
      (side : Bool) (k : Text) (es : List (FillExecution F)) (e : FillExecution F)
      → traded side k (es ++ (e ∷ [])) ≡ traded side k es +ℤ share side k e
  traded-append side k [] e = +ℤ_comm (share side k e) (pos 0)
  traded-append side k (x ∷ es) e =
      ap (λ q. share side k x +ℤ q) (traded-append side k es e)
      ∙ sym (+ℤ_assoc (share side k x) (traded side k es) (share side k e))

  side-put :
      (side : Bool) (row : Position F) (ps : List (Position F)) (k : Text)
      → side_quantity side (find (has_instrument k) (put_position row ps)) ≡ (
          if row.instrument_id == k
          then side_quantity side (some row)
          else side_quantity side (find (has_instrument k) ps))
  side-put true row [] k = ground arith
  side-put false row [] k = ground arith
  side-put true row (p ∷ ps) k = ground (arith, side-put true row ps k)
  side-put false row (p ∷ ps) k = ground (arith, side-put false row ps k)

  net-put :
      (row : Position F) (ps : List (Position F)) (k : Text)
      → net_quantity (find (has_instrument k) (put_position row ps)) ≡ (
          if row.instrument_id == k
          then row.quantity
          else net_quantity (find (has_instrument k) ps))
  net-put row [] k = ground arith
  net-put row (p ∷ ps) k = ground (arith, net-put row ps k)

plus_zero : (a : ℤ) → a +ℤ pos 0 ≡ a
unfolding ◌+ℤ◌
plus_zero a = ground arith

module _ {F : Type 0} where
  share_own :
      (side : Bool) (e : FillExecution F)
      → share side e.instrument_id e ≡ (if on_side side e then e.quantity else pos 0)
  share_own side e = rw ((==_iff e.instrument_id e.instrument_id).1 refl) refl

  share_other :
      (side : Bool) (k : Text) (e : FillExecution F)
      → (e.instrument_id == k) ≡ false
      → share side k e ≡ pos 0
  share_other side k e h = rw h refl

module _ {F : Type 0} ⦃fl : Float F⦄ where
  side_totals :
      (side : Bool) (new_id : Text) (old : Option (Position F)) (q : ℤ)
      → side_quantity side old ≡ q
      → (if side then (totals_of new_id old).buy_quantity else (totals_of new_id old).sell_quantity)
        ≡ q
  side_totals true new_id none q h = h
  side_totals true new_id (some p) q h = h
  side_totals false new_id none q h = h
  side_totals false new_id (some p) q h = h

  side_after :
      (side : Bool) (e : FillExecution F) (mode : TradingMode) (current : F) (new_id : Text)
      (now : Time) (old : Option (Position F))
      → side_quantity side (some (position_after e mode current new_id now old))
        ≡ side_quantity side old +ℤ (if on_side side e then e.quantity else pos 0)
  side_after true e mode current new_id now old = elim (Bool-cases (is_buy e.side)) [
    | inl b ↦ rw (b, side_totals true new_id old _ refl) refl
    | inr b ↦ rw b (side_totals true new_id old _ refl ∙ sym (plus_zero _))
  ]
  side_after false e mode current new_id now old = elim (Bool-cases (is_buy e.side)) [
    | inl b ↦ rw b (side_totals false new_id old _ refl ∙ sym (plus_zero _))
    | inr b ↦ rw (b, side_totals false new_id old _ refl) refl
  ]

  applied_side :
      (e : FillExecution F) (mode : TradingMode) (current : F) (new_id : Text) (now : Time)
      (db : PortfolioDb F) (side : Bool) (k : Text)
      → IsBalanced db
      → side_quantity side (
          find (has_instrument k) (
            put_position
              (position_after e mode current new_id now
                (find (has_instrument e.instrument_id) db.positions))
              db.positions))
        ≡ traded side k (db.executions ++ (e ∷ []))
  applied_side e mode current new_id now db side k h =
      side-put side (row) db.positions k ∙ (elim (Bool-cases (e.instrument_id == k)) [
        | inl m ↦ rw (m, ← ((==_iff e.instrument_id k).0 m)) own
        | inr m ↦ rw m (
            h.sides side k
            ∙ sym (
                traded-append side k db.executions e
                ∙ (ap (λ q. traded side k db.executions +ℤ q) (share_other side k e m)
                    ∙ plus_zero (traded side k db.executions))))
      ])
    where
      row : Position F
      row =
          position_after e mode current new_id now
            (find (has_instrument e.instrument_id) db.positions)

      own : side_quantity side (some row) ≡ traded side e.instrument_id (db.executions ++ (e ∷ []))
      own =
          side_after side e mode current new_id now
            (find (has_instrument e.instrument_id) db.positions)
          ∙ (rw
              (
                h.sides side e.instrument_id,
                traded-append side e.instrument_id db.executions e,
                share_own side e,
              )
              refl)

  applied_net :
      (row : Position F) (ps : List (Position F)) (k : Text)
      → row.quantity ≡ row.buy_quantity -ℤ row.sell_quantity
      → net_quantity (find (has_instrument k) ps)
        ≡ side_quantity true (find (has_instrument k) ps)
          -ℤ side_quantity false (find (has_instrument k) ps)
      → net_quantity (find (has_instrument k) (put_position row ps))
        ≡ side_quantity true (find (has_instrument k) (put_position row ps))
          -ℤ side_quantity false (find (has_instrument k) (put_position row ps))
  applied_net row ps k e h =
      rw (net-put row ps k, side-put true row ps k, side-put false row ps k)
        (elim (Bool-cases (row.instrument_id == k)) [ inl m ↦ rw m e | inr m ↦ rw m h ])

  applied-IsBalanced :
      (e : FillExecution F) (mode : TradingMode) (current : F) (new_id : Text) (now : Time)
      (db : PortfolioDb F)
      → IsBalanced db
      → IsBalanced (record db {
        executions = db.executions ++ (e ∷ []);
        positions =
            put_position
              (position_after e mode current new_id now
                (find (has_instrument e.instrument_id) db.positions))
              db.positions;
      })
  applied-IsBalanced e mode current new_id now db h = record {
    sides = λ side k. applied_side e mode current new_id now db side k h;
    net = λ k. applied_net _ db.positions k refl (h.net k);
  }

  reused-IsBalanced :
      (r : Option (Position F)) (db : PortfolioDb F)
      → IsBalanced db
      → IsBalanced (reuse_position r db).1
  reused-IsBalanced none db h = h
  reused-IsBalanced (some p) db h = h

  -- Where each position holds what its executions bought and sold, with their difference as its
  -- quantity, applying a fill keeps this, whether the fill is new, repeated or refused.
  pub apply_execution_atomic-IsBalanced :
      (e : FillExecution F) (mode : TradingMode) (current : F) (new_id : Text) (now : Time)
      (db : PortfolioDb F)
      → IsBalanced db
      → IsBalanced (apply_execution_atomic e mode current new_id now db).1
  unfolding apply_execution_atomic
  apply_execution_atomic-IsBalanced e mode current new_id now db h =
      elim (Bool-cases (any (same_execution e) db.executions)) [
        | inl m ↦ rw m (reused-IsBalanced (get_position e.instrument_id db) db h)
        | inr m ↦
            rw m
              (elim (Bool-cases (id_taken new_id (get_position e.instrument_id db) db.positions)) [
                | inl t ↦ rw t h
                | inr t ↦ rw t (applied-IsBalanced e mode current new_id now db h)
              ])
      ]
