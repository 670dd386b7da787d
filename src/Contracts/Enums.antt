-- ===== src/Contracts/Enums.antt =====
-- The enums of libs/contracts/models.py, with Python's `==` and `!=` on order states.
use icici_breeze_api_trading.Prelude.{
  ℕ, zero, suc, ◌≡◌, refl, sym, ap, ◌∙◌, Bool, true, false, not, Option, none, some, ◌==◌, ==_iff,
  if◌then◌else◌,
}

-- Texts and identifiers are only compared, copied and tested for being empty: a number stands for
-- each, and 0 for the empty text. An instant is a number of microseconds.
abbrev pub Text : Type 0
Text = ℕ

abbrev pub Time : Type 0
Time = ℕ

pub data SystemMode : Type 0 where
  normal entry_blocked exit_only halted : SystemMode

pub data TradingMode : Type 0 where
  shadow paper live : TradingMode

pub data OrderSide : Type 0 where
  buy sell : OrderSide

pub data OrderType : Type 0 where
  market limit stop_limit : OrderType

pub data ProductType : Type 0 where
  cash margin options futures : ProductType

pub data SourceType : Type 0 where
  manual strategy : SourceType

pub data TimeInForce : Type 0 where
  day ioc : TimeInForce

pub data OrderState : Type 0 where
  created validating risk_rejected approved submitting submission_unknown acknowledged : OrderState
  open_state partially_filled filled cancelled rejected expired failed_safe : OrderState

abbrev pub is_live : TradingMode → Bool
is_live live = true
is_live _ = false

abbrev pub is_buy : OrderSide → Bool
is_buy buy = true
is_buy sell = false

abbrev pub is_sell : OrderSide → Bool
is_sell sell = true
is_sell buy = false

-- The place of a state in the enum, by which states are compared.
abbrev pub index : OrderState → ℕ
index created = 0
index validating = 1
index risk_rejected = 2
index approved = 3
index submitting = 4
index submission_unknown = 5
index acknowledged = 6
index open_state = 7
index partially_filled = 8
index filled = 9
index cancelled = 10
index rejected = 11
index expired = 12
index failed_safe = 13

abbrev of_index : ℕ → OrderState
of_index zero = created
of_index (suc zero) = validating
of_index (suc (suc zero)) = risk_rejected
of_index (suc (suc (suc zero))) = approved
of_index (suc (suc (suc (suc zero)))) = submitting
of_index (suc (suc (suc (suc (suc zero))))) = submission_unknown
of_index (suc (suc (suc (suc (suc (suc zero)))))) = acknowledged
of_index (suc (suc (suc (suc (suc (suc (suc zero))))))) = open_state
of_index (suc (suc (suc (suc (suc (suc (suc (suc zero)))))))) = partially_filled
of_index (suc (suc (suc (suc (suc (suc (suc (suc (suc zero))))))))) = filled
of_index (suc (suc (suc (suc (suc (suc (suc (suc (suc (suc zero)))))))))) = cancelled
of_index (suc (suc (suc (suc (suc (suc (suc (suc (suc (suc (suc zero))))))))))) = rejected
of_index (suc (suc (suc (suc (suc (suc (suc (suc (suc (suc (suc (suc zero)))))))))))) = expired
of_index _ = failed_safe

of_index-index : (s : OrderState) → of_index (index s) ≡ s
of_index-index created = refl
of_index-index validating = refl
of_index-index risk_rejected = refl
of_index-index approved = refl
of_index-index _ = refl

-- `a == b`
abbrev pub same_state : OrderState → OrderState → Bool
same_state a b = index a == index b

pub same_state-eq : (a b : OrderState) → same_state a b ≡ true → a ≡ b
same_state-eq a b h =
    sym (of_index-index a) ∙ (ap of_index ((==_iff (index a) (index b)).0 h) ∙ of_index-index b)

-- An optional text is true in a condition unless it is missing or empty.
abbrev pub truthy_id : Option Text → Bool
truthy_id none = false
truthy_id (some t) = not (t == 0)

-- `a or b`
abbrev pub or_id : Option Text → Option Text → Option Text
or_id a b = if truthy_id a then a else b

-- `a == b`
abbrev pub same_id : Option Text → Option Text → Bool
same_id none none = true
same_id (some a) (some b) = a == b
same_id _ _ = false
