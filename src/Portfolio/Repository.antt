-- ===== src/Portfolio/Repository.antt =====
-- services/portfolio/repository.py: the tables of portfolio.db, and the atomic application of a
-- fill. The id of an execution is the pair of the order and of the cumulative filled quantity, of
-- which the execution service makes its text.
use icici_breeze_api_trading.Prelude.{
  ℕ, Bool, true, false, not, ◌&&◌, ◌||◌, Option, none, some, List, [], ◌∷◌, ◌++◌, ◌==◌,
  if◌then◌else◌, any, find, keep,
}
use icici_breeze_api_trading.Prelude.Int.{ℤ, pos, ◌+ℤ◌, ◌-ℤ◌, ltb_ℤ, eq_ℤ, min_ℤ}
use icici_breeze_api_trading.Prelude.Float.{Float, zero_f}
use icici_breeze_api_trading.Prelude.Result.{Result, ok, err, integrity, other_error}
use icici_breeze_api_trading.Contracts.{Text, Time, OrderSide, TradingMode, is_buy}

pub record FillExecution (F : Type 0) : Type 0 where
  pub order_id : Text
  pub cumulative : ℤ
  pub instrument_id : Text
  pub symbol : Text
  pub side : OrderSide
  pub quantity : ℤ
  pub price : F

pub record Position (F : Type 0) : Type 0 where
  pub position_id : Text
  pub instrument_id : Text
  pub symbol : Text
  pub quantity : ℤ
  pub buy_quantity : ℤ
  pub sell_quantity : ℤ
  pub buy_value : F
  pub sell_value : F
  pub average_price : F
  pub current_price : F
  pub realized_pnl : F
  pub unrealized_pnl : F
  pub total_pnl : F
  pub trading_mode : TradingMode
  pub updated_at : Time

pub record PnlSnapshot (F : Type 0) : Type 0 where
  pub snapshot_id : Text
  pub realized_pnl : F
  pub unrealized_pnl : F
  pub total_pnl : F
  pub day_pnl : F
  pub open_positions_count : ℕ
  pub timestamp : Time

pub record PortfolioDb (F : Type 0) : Type 0 where
  pub executions : List (FillExecution F)
  pub positions : List (Position F)
  pub pnl_snapshots : List (PnlSnapshot F)

-- What the position of an instrument has added up so far.
pub record Totals (F : Type 0) : Type 0 where
  pub position_id : Text
  pub buy_quantity : ℤ
  pub sell_quantity : ℤ
  pub buy_value : F
  pub sell_value : F

module _ {F : Type 0} where
  -- `WHERE execution_id = ?`
  abbrev pub same_execution : FillExecution F → FillExecution F → Bool
  same_execution e x = x.order_id == e.order_id && eq_ℤ x.cumulative e.cumulative

  abbrev pub has_instrument : Text → Position F → Bool
  has_instrument k p = p.instrument_id == k

  abbrev has_position_id : Text → Position F → Bool
  has_position_id k p = p.position_id == k

  unfoldable pub get_position : Text → PortfolioDb F → Option (Position F)
  get_position k db = find (has_instrument k) db.positions

  abbrev pub sum_executed : Text → List (FillExecution F) → ℤ
  sum_executed id [] = pos 0
  sum_executed id (e ∷ es) =
      let rest = sum_executed id es in if e.order_id == id then e.quantity +ℤ rest else rest

  unfoldable pub get_executed_quantity_for_order : Text → PortfolioDb F → ℤ
  get_executed_quantity_for_order id db = sum_executed id db.executions

  -- `ON CONFLICT(instrument_id) DO UPDATE`, which leaves the id of the position.
  abbrev pub put_position : Position F → List (Position F) → List (Position F)
  put_position row [] = row ∷ []
  put_position row (p ∷ ps) =
      if p.instrument_id == row.instrument_id
      then record row { position_id = p.position_id } ∷ ps
      else p ∷ put_position row ps

  -- `INSERT OR REPLACE`: the rows in conflict go.
  unfoldable pub save_position : Position F → PortfolioDb F → PortfolioDb F
  save_position row db = record db {
    positions =
        keep (λ p. not (has_instrument row.instrument_id p || has_position_id row.position_id p))
          db.positions
        ++ (row ∷ []);
  }

  unfoldable pub save_pnl_snapshot : PnlSnapshot F → PortfolioDb F → Result (PortfolioDb F)
  save_pnl_snapshot x db =
      if any (λ y. y.snapshot_id == x.snapshot_id) db.pnl_snapshots
      then err integrity
      else ok (record db { pnl_snapshots = db.pnl_snapshots ++ (x ∷ []) })

module _ {F : Type 0} ⦃fl : Float F⦄ where
  open fl use {add, sub, mul, div, of_int, round}

  abbrev pub totals_of : Text → Option (Position F) → Totals F
  totals_of new_id none = record {
    position_id = new_id;
    buy_quantity = pos 0;
    sell_quantity = pos 0;
    buy_value = zero_f;
    sell_value = zero_f;
  }
  totals_of new_id (some p) = record {
    position_id = p.position_id;
    buy_quantity = p.buy_quantity;
    sell_quantity = p.sell_quantity;
    buy_value = p.buy_value;
    sell_value = p.sell_value;
  }

  abbrev pub add_fill : FillExecution F → Totals F → Totals F
  add_fill e t =
      if is_buy e.side
      then record t {
        buy_quantity = t.buy_quantity +ℤ e.quantity;
        buy_value = add t.buy_value (mul (of_int e.quantity) e.price);
      }
      else record t {
        sell_quantity = t.sell_quantity +ℤ e.quantity;
        sell_value = add t.sell_value (mul (of_int e.quantity) e.price);
      }

  abbrev average : F → ℤ → F
  average value quantity = if ltb_ℤ (pos 0) quantity then div value (of_int quantity) else zero_f

  abbrev realized : Totals F → F
  realized t =
      let closed = min_ℤ t.buy_quantity t.sell_quantity in
      if ltb_ℤ (pos 0) closed
      then mul (sub (average t.sell_value t.sell_quantity) (average t.buy_value t.buy_quantity))
          (of_int closed)
      else zero_f

  abbrev unrealized : F → Totals F → F
  unrealized current t =
      let net = t.buy_quantity -ℤ t.sell_quantity in
      if eq_ℤ net (pos 0)
      then zero_f
      else mul (sub current (average t.buy_value t.buy_quantity)) (of_int net)

  abbrev pub valued : FillExecution F → TradingMode → F → Time → Totals F → Position F
  valued e mode current now t = record {
    position_id = t.position_id;
    instrument_id = e.instrument_id;
    symbol = e.symbol;
    quantity = t.buy_quantity -ℤ t.sell_quantity;
    buy_quantity = t.buy_quantity;
    sell_quantity = t.sell_quantity;
    buy_value = t.buy_value;
    sell_value = t.sell_value;
    average_price = round (average t.buy_value t.buy_quantity) 2;
    current_price = round current 2;
    realized_pnl = round (realized t) 2;
    unrealized_pnl = round (unrealized current t) 2;
    total_pnl = round (add (realized t) (unrealized current t)) 2;
    trading_mode = mode;
    updated_at = now;
  }

  -- A new position whose id is taken violates the primary key.
  abbrev pub id_taken : Text → Option (Position F) → List (Position F) → Bool
  id_taken new_id none ps = any (has_position_id new_id) ps
  id_taken new_id (some _) ps = false

  abbrev pub position_after :
      FillExecution F → TradingMode → F → Text → Time → Option (Position F) → Position F
  position_after e mode current new_id now old =
      valued e mode current now (add_fill e (totals_of new_id old))

  abbrev pub apply_new :
      FillExecution F
      → TradingMode
      → F
      → Text
      → Time
      → Option (Position F)
      → PortfolioDb F
      → Result (Position F × Bool) × PortfolioDb F
  apply_new e mode current new_id now old db =
      if id_taken new_id old db.positions then (err integrity, db) else (
        ok (position_after e mode current new_id now old, true),
        record db {
          executions = db.executions ++ (e ∷ []);
          positions = put_position (position_after e mode current new_id now old) db.positions;
        },
      )

  abbrev pub reuse_position :
      Option (Position F) → PortfolioDb F → Result (Position F × Bool) × PortfolioDb F
  reuse_position none db = (err other_error, db)
  reuse_position (some p) db = (ok (p, false), db)

  unfoldable pub apply_execution_atomic :
      FillExecution F
      → TradingMode
      → F
      → Text
      → Time
      → PortfolioDb F
      → Result (Position F × Bool) × PortfolioDb F
  unfolding get_position
  apply_execution_atomic e mode current new_id now db =
      if any (same_execution e) db.executions
      then reuse_position (get_position e.instrument_id db) db
      else apply_new e mode current new_id now (get_position e.instrument_id db) db
