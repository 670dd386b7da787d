-- ===== src/RateLimit/Handled.antt =====
-- Sequences of requests through RateLimitMiddleware: those that reach the application are those
-- that the limiter let through.
use mathlib.Core.List.{append-nil, append_assoc}
use icici_breeze_api_trading.Prelude.{
  ◌≤◌, ◌≡◌, refl, ◌∙◌, sym, ap, Bool, true, false, not, ◌&&◌, List, [], ◌∷◌, ◌++◌, inl, inr,
  if◌then◌else◌, length, keep, arith, Bool-cases,
}
use icici_breeze_api_trading.Prelude.Int.{pos_part}
use icici_breeze_api_trading.Prelude.Result.{Result, ok, err}
use icici_breeze_api_trading.Contracts.{Time}
use icici_breeze_api_trading.RateLimit.{Settings, Key, same_key, History, Answer, limit_for_tier}
use icici_breeze_api_trading.RateLimit.Middleware.{
  Request, Strings, Response, Edge, answered, determine_tier, get_client_id, scope_of, is_exempt,
  ask, forward, obey, dispatch,
}
use icici_breeze_api_trading.RateLimit.Window.{
  Call, InOrder, in_window, let_through, call_key, passed, at_most_limit,
}

pub record Arrival : Type 0 where
  pub request : Request
  pub now : Time

-- An application that records what reaches it, and when.
abbrev recorded : Time → Request → List Arrival → Result Response × List Arrival
recorded now req seen = (ok (answered 200), seen ++ (record { request = req; now = now } ∷ []))

abbrev pub InTime : Time → List Arrival → Type 0
InTime last [] = Unit
InTime last (a ∷ xs) = (last ≤ a.now) × InTime a.now xs

abbrev pub start : Edge (List Arrival)
start = record { history = []; bus = []; app = [] }

module _ (str : Strings) (s : Settings) where
  abbrev call_of : Arrival → Call
  call_of a = record {
    client_id = get_client_id str a.request;
    tier = determine_tier str a.request.path;
    scope = scope_of str a.request.path;
    now = a.now;
  }

  unfoldable pub serve_all : List Arrival → Edge (List Arrival) → Edge (List Arrival)
  serve_all [] e = e
  serve_all (a ∷ xs) e = serve_all xs (dispatch str (recorded a.now) s a.request a.now e).1

  abbrev limited_as : Key → Arrival → Bool
  limited_as k a =
      not (is_exempt str a.request) && same_key (call_key str.upper str.strip s (call_of a)) k

  -- When requests that a limit holds for were handled under a key.
  abbrev pub handled : Key → List Arrival → List Time
  handled k [] = []
  handled k (a ∷ xs) = let rest = handled k xs in if limited_as k a then a.now ∷ rest else rest

  abbrev calls : List Arrival → List Call
  calls [] = []
  calls (a ∷ xs) = let rest = calls xs in if is_exempt str a.request then rest else call_of a ∷ rest

  handled-append :
      (k : Key) (xs ys : List Arrival) → handled k (xs ++ ys) ≡ handled k xs ++ handled k ys
  handled-append k [] ys = refl
  handled-append k (a ∷ xs) ys = elim (Bool-cases (limited_as k a)) [
    | inl e ↦ rw (e, handled-append k xs ys) refl
    | inr e ↦ rw (e, handled-append k xs ys) refl
  ]

  calls-InOrder :
      (xs : List Arrival) (early last : Time)
      → early ≤ last
      → InTime last xs
      → InOrder early (calls xs)
  calls-InOrder [] early last le o = tt
  calls-InOrder (a ∷ xs) early last le (h, o) = elim (Bool-cases (is_exempt str a.request)) [
    | inl e ↦ rw e (calls-InOrder xs early a.now (omega arith) o)
    | inr e ↦ rw e (omega arith, calls-InOrder xs a.now a.now (omega arith) o)
  ]

  -- One answer of the limiter, and what is handled from there on.
  handled-obey :
      (k : Key) (x : Answer) (h : History) (a : Arrival) (xs : List Arrival)
      (e : Edge (List Arrival))
      → is_exempt str a.request ≡ false
      → ((e' : Edge (List Arrival))
          → handled k (serve_all xs e').app
            ≡ handled k e'.app ++ passed str.upper str.strip s k (calls xs) e'.history)
      → handled k
          (serve_all xs (obey str (recorded a.now) x a.request (record e { history = h })).1).app
        ≡ handled k e.app
          ++ (let rest = passed str.upper str.strip s k (calls xs) h in
              if let_through x && same_key (call_key str.upper str.strip s (call_of a)) k
              then a.now ∷ rest
              else rest)
  handled-obey k (err x) h a xs e limited ih = ih (record e { history = h })
  handled-obey k (ok (false, n)) h a xs e limited ih = ih _
  handled-obey k (ok (true, n)) h a xs e limited ih =
      elim (Bool-cases (same_key (call_key str.upper str.strip s (call_of a)) k)) [
        | inl q ↦ rw q (
            ih _
            ∙ rw (handled-append k e.app (a ∷ []), limited, q)
                (append_assoc (handled k e.app) (a.now ∷ [])
                  (passed str.upper str.strip s k (calls xs) h)))
        | inr q ↦ rw q (
            ih _
            ∙ rw (handled-append k e.app (a ∷ []), limited, q, append-nil (handled k e.app)) refl)
      ]

  handled-forward :
      (k : Key) (a : Arrival) (seen : List Arrival)
      → is_exempt str a.request ≡ true
      → handled k (seen ++ (a ∷ [])) ≡ handled k seen
  handled-forward k a seen exempt =
      rw (handled-append k seen (a ∷ []), exempt, append-nil (handled k seen)) refl

  dispatch_exempt :
      (a : Arrival) (e : Edge (List Arrival))
      → is_exempt str a.request ≡ true
      → dispatch str (recorded a.now) s a.request a.now e ≡ forward str (recorded a.now) a.request e
  unfolding dispatch
  dispatch_exempt a e q = elim (Bool-cases s.rate_limit_enabled) [
    | inl on ↦ rw (on, q) refl
    | inr off ↦ rw off refl
  ]

  dispatch_limited :
      (a : Arrival) (e : Edge (List Arrival))
      → s.rate_limit_enabled ≡ true
      → is_exempt str a.request ≡ false
      → let x = ask str (recorded a.now) s a.request a.now e.history in
        dispatch str (recorded a.now) s a.request a.now e
        ≡ obey str (recorded a.now) x.0 a.request (record e { history = x.1 })
  unfolding dispatch
  dispatch_limited a e on q = rw (on, q) refl

  handled-serve_all :
      s.rate_limit_enabled ≡ true
      → (k : Key) (xs : List Arrival) (e : Edge (List Arrival))
      → handled k (serve_all xs e).app
        ≡ handled k e.app ++ passed str.upper str.strip s k (calls xs) e.history
  unfolding serve_all passed
  handled-serve_all on k [] e = sym (append-nil (handled k e.app))
  handled-serve_all on k (a ∷ xs) e = elim (Bool-cases (is_exempt str a.request)) [
    | inl q ↦
        ap (λ d. handled k (serve_all xs d.1).app) (dispatch_exempt a e q)
        ∙ rw q (handled-serve_all on k xs _ ∙ rw (handled-forward k a e.app q) refl)
    | inr q ↦
        ap (λ d. handled k (serve_all xs d.1).app) (dispatch_limited a e on q)
        ∙ rw q (
            let x = ask str (recorded a.now) s a.request a.now e.history in
            handled-obey k x.0 x.1 a xs e q (handled-serve_all on k xs))
  ]

  -- Where limiting is on, of any requests from a fresh start at instants that do not decrease, at
  -- most as many as the limit of its tier says are handed on to the application within sixty
  -- seconds under one key, apart from those that are exempt: OPTIONS requests and the paths of
  -- documentation and health.
  pub handled_bounded :
      s.rate_limit_enabled ≡ true
      → (k : Key) (xs : List Arrival) → InTime 0 xs
      → (from : Time)
      → length (keep (in_window from) (handled k (serve_all xs start).app))
        ≤ pos_part (limit_for_tier s k.tier)
  handled_bounded on k xs o from = rw (handled-serve_all on k xs start) (
      at_most_limit str.upper str.strip s on k (calls xs) (calls-InOrder xs 0 0 (omega arith) o)
        from)
