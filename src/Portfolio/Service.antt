-- ===== src/Portfolio/Service.antt =====
-- services/portfolio/service.py: the handlers of fills and of market quotes. How SQLite orders the
-- symbols of positions is an argument.
use icici_breeze_api_trading.Prelude.{
  Bool, not, Option, none, some, List, [], ◌∷◌, ◌++◌, if◌then◌else◌, keep, length, order_by,
  some_or,
}
use icici_breeze_api_trading.Prelude.Int.{pos, eq_ℤ}
use icici_breeze_api_trading.Prelude.Float.{Float, zero_f}
use icici_breeze_api_trading.Prelude.Result.{Result, ok, err}
use icici_breeze_api_trading.Contracts.{Text, Time, TradeFill}
use icici_breeze_api_trading.Portfolio.Repository.{
  FillExecution, Position, PnlSnapshot, PortfolioDb, apply_execution_atomic, get_position,
  save_position, save_pnl_snapshot,
}

pub data PortfolioMessage (F : Type 0) : Type 0 where
  portfolio_position : Position F → PortfolioMessage F
  portfolio_pnl : PnlSnapshot F → PortfolioMessage F

pub record Portfolio (F : Type 0) : Type 0 where
  pub db : PortfolioDb F
  pub bus : List (PortfolioMessage F)

-- What one run generates: the ids of a new position and of a snapshot, and its instant.
pub record PortfolioStamp : Type 0 where
  pub position_id : Text
  pub snapshot_id : Text
  pub now : Time

module _ {F : Type 0} where
  abbrev pub execution_of : TradeFill F → FillExecution F
  execution_of f = record {
    order_id = f.order_id;
    cumulative = f.cumulative_filled_quantity;
    instrument_id = f.instrument_id;
    symbol = f.symbol;
    side = f.side;
    quantity = f.quantity;
    price = f.price;
  }

  abbrev is_open : Position F → Bool
  is_open p = not (eq_ℤ p.quantity (pos 0))

  abbrev publish_saved :
      PnlSnapshot F → Portfolio F → Result (PortfolioDb F) → Result (Unit {0}) × Portfolio F
  publish_saved x s (err e) = (err e, s)
  publish_saved x s (ok db) = (ok tt, record { db = db; bus = s.bus ++ (portfolio_pnl x ∷ []) })

module _ {F : Type 0} ⦃fl : Float F⦄ (by_symbol : Text → Text → Bool) where
  open fl use {add, sub, mul, of_int, round}

  abbrev list_positions : PortfolioDb F → List (Position F)
  list_positions db = order_by (λ p q. by_symbol p.symbol q.symbol) db.positions

  abbrev sum_of : (Position F → F) → F → List (Position F) → F
  sum_of f x [] = x
  sum_of f x (p ∷ ps) = sum_of f (add x (f p)) ps

  abbrev snapshot : PortfolioStamp → List (Position F) → PnlSnapshot F
  snapshot stamp ps = record {
    snapshot_id = stamp.snapshot_id;
    realized_pnl = round gained 2;
    unrealized_pnl = round held 2;
    total_pnl = round (add gained held) 2;
    day_pnl = round (add gained held) 2;
    open_positions_count = length (keep is_open ps);
    timestamp = stamp.now;
  }
    where
      gained : F
      gained = sum_of (λ p. p.realized_pnl) zero_f ps

      held : F
      held = sum_of (λ p. p.unrealized_pnl) zero_f (keep is_open ps)

  unfoldable pub publish_pnl_snapshot :
      PortfolioStamp → Portfolio F → Result (Unit {0}) × Portfolio F
  unfolding save_pnl_snapshot
  publish_pnl_snapshot stamp s =
      let x = snapshot stamp (list_positions s.db) in publish_saved x s (save_pnl_snapshot x s.db)

  abbrev pub publish_applied :
      PortfolioStamp
      → Portfolio F
      → Result (Position F × Bool) × PortfolioDb F
      → Result (Unit {0}) × Portfolio F
  publish_applied stamp s (err e, db) = (err e, record s { db = db })
  publish_applied stamp s (ok (p, applied), db) =
      if not applied
      then (ok tt, record s { db = db })
      else publish_pnl_snapshot stamp
          (record { db = db; bus = s.bus ++ (portfolio_position p ∷ []) })

  -- `_handle_trade_event`; `quote` is the last price of the instrument, where there is one.
  unfoldable pub handle_trade_event :
      TradeFill F → Option F → PortfolioStamp → Portfolio F → Result (Unit {0}) × Portfolio F
  unfolding apply_execution_atomic publish_pnl_snapshot
  handle_trade_event f quote stamp s = publish_applied stamp s (
      apply_execution_atomic (execution_of f) f.trading_mode (some_or quote f.price)
        stamp.position_id stamp.now s.db)

module _ {F : Type 0} ⦃fl : Float F⦄ where
  open fl use {add, sub, mul, of_int, round}

  abbrev marked : F → Time → Position F → Position F
  marked price now p =
      let unrealized = mul (sub price p.average_price) (of_int p.quantity) in
      record p {
        current_price = price;
        unrealized_pnl = round unrealized 2;
        total_pnl = round (add p.realized_pnl unrealized) 2;
        updated_at = now;
      }

  abbrev pub mark_position : Option (Position F) → F → Time → PortfolioDb F → PortfolioDb F
  mark_position none price now db = db
  mark_position (some p) price now db =
      if eq_ℤ p.quantity (pos 0) then db else save_position (marked price now p) db

  -- `_handle_market_quote`
  unfoldable pub handle_market_quote : Text → F → Time → PortfolioDb F → PortfolioDb F
  unfolding get_position save_position
  handle_market_quote instrument_id price now db =
      mark_position (get_position instrument_id db) price now db
