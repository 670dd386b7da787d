-- ===== src/Execution/Single.antt =====
-- How often an order is sent to the broker: the invariant behind services/execution/service.py's
-- "reserve exactly one submission".
use icici_breeze_api_trading.Prelude.{
  ℕ, suc, ◌+◌, ◌≤◌, ◌≡◌, List, [], ◌∷◌, ◌++◌, if◌then◌else◌, ◌==◌, arith,
}
use icici_breeze_api_trading.Prelude.Action.{Action}
use icici_breeze_api_trading.Contracts.{Text, Message}
use icici_breeze_api_trading.Oms.Service.{Oms, publish}
use icici_breeze_api_trading.Oms.Journal.{IsAudited}
use icici_breeze_api_trading.Oms.Stable.{IsStable, Kept, posted_keeps}
use icici_breeze_api_trading.Oms.Past.{Past, Past-IsStable}
use icici_breeze_api_trading.Execution.Service.{Placement, Execution, on_oms}

module _ {F : Type 0} where
  abbrev pub submissions : Text → List (Placement F) → ℕ
  submissions k [] = 0
  submissions k (p ∷ ps) = let rest = submissions k ps in if p.order_id == k then suc rest else rest

  pub submissions-append :
      (k : Text) (ps : List (Placement F)) (p : Placement F)
      → submissions k (ps ++ (p ∷ [])) ≡ submissions k ps + submissions k (p ∷ [])
  submissions-append k [] p = omega arith
  submissions-append k (q ∷ ps) p = ground (arith, submissions-append k ps p)

  -- An order is submitted once, and then it has left the approved state for good.
  pub record IsSingle (k : Text) (s : Execution F) : Type 0 where
    pub audited : IsAudited s.oms.repo
    pub once : submissions k s.placed ≤ 1
    pub past : 1 ≤ submissions k s.placed → Past k s.oms

  abbrev After : ℕ → Text → Oms F → Type 0
  After n k o = 1 ≤ n → Past k o

  After-IsStable : (n : ℕ) (k : Text) → IsStable (After n k)
  After-IsStable n k = record {
    saves = λ order a b reason stamp s h f e p c.
        (Past-IsStable k).saves order a b reason stamp s h (f c) e p;
    intents = λ i id s f c. (Past-IsStable k).intents i id s (f c);
    posts = λ m s f c. (Past-IsStable k).posts m s (f c);
  }

  -- What the OMS does by itself submits nothing and takes no submission back.
  pub on_oms-IsSingle :
      {A : Type 0} (k : Text) (m : Action (Oms F) A) (s : Execution F)
      → ((P : Oms F → Type 0) → IsStable P → Kept P s.oms → Kept P (m s.oms).1)
      → IsSingle k s
      → IsSingle k (on_oms m s).1
  on_oms-IsSingle k m s keep h =
      let after =
        keep (After (submissions k s.placed) k) (After-IsStable (submissions k s.placed) k)
          (record { audited = h.audited; kept = h.past }) in
      record { audited = after.audited; once = h.once; past = after.kept }

  pub publish-IsSingle :
      (k : Text) (m : Message F) (s : Execution F)
      → IsSingle k s
      → IsSingle k (on_oms (publish m) s).1
  publish-IsSingle k m s h = on_oms-IsSingle k (publish m) s (λ P st. posted_keeps st m s.oms) h
