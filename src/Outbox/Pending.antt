-- ===== src/Outbox/Pending.antt =====
-- `get_pending_outbox_events` of libs/database/sqlite.py against what it is to read: the oldest of
-- the rows that are not published.
use mathlib.Core.List.{Memᴰ}
use icici_breeze_api_trading.Prelude.{
  ℕ, zero, suc, ◌≤◌, ◌≡◌, refl, ap, ◌⊎◌, inl, inr, Bool, true, false, not, List, [], ◌∷◌, take,
  keep, insert_by, order_by, length, length-take-le, All, Bool-cases, arith,
}
use icici_breeze_api_trading.Prelude.Members.{
  mem-take, mem-order_by, mem-keep, keep_mem, order_by_mem,
}
use icici_breeze_api_trading.Outbox.{OutboxRow, is_pending, earlier, get_pending_outbox_events}

not_published : (b : Bool) → not b ≡ true → b ≡ false
not_published b h = ground arith

module _ {M : Type 0} where
  abbrev NotAfter : OutboxRow M → OutboxRow M → Type 0
  NotAfter a b = a.created_at ≤ b.created_at

  abbrev IsOldestFirst : List (OutboxRow M) → Type 0
  IsOldestFirst [] = Unit
  IsOldestFirst (r ∷ rs) = All (NotAfter r) rs × IsOldestFirst rs

  abbrev IsBefore : OutboxRow M → OutboxRow M → Type 0
  IsBefore r x = NotAfter x r

  -- What a read of at most `limit` rows is to give: rows of the table that are not published, each
  -- no more often than in the table, the oldest first; and a row that is left, though not published, is no older than any that was read,
  -- and was left because the limit was reached.
  pub record IsOldestPending (limit : ℕ) (rows read : List (OutboxRow M)) : Type 0 where
    pub from_table : (r : OutboxRow M) → Memᴰ r read → Memᴰ r rows × (r.published ≡ false)
    pub no_copies : (p : OutboxRow M → Bool) → length (keep p read) ≤ length (keep p rows)
    pub oldest_first : IsOldestFirst read
    pub at_most : length read ≤ limit
    pub complete :
        (r : OutboxRow M)
        → Memᴰ r rows
        → r.published ≡ false
        → Memᴰ r read ⊎ ((length read ≡ limit) × All (IsBefore r) read)

  All-insert_by :
      (a x : OutboxRow M) (rs : List (OutboxRow M))
      → NotAfter a x
      → All (NotAfter a) rs
      → All (NotAfter a) (insert_by earlier x rs)
  All-insert_by a x [] le h = (le, tt)
  All-insert_by a x (r ∷ rs) le (h, hs) = elim (Bool-cases (earlier x r)) [
    | inl e ↦ rw e (le, (h, hs))
    | inr e ↦ rw e (h, All-insert_by a x rs le hs)
  ]

  All-NotAfter :
      (a b : OutboxRow M) (rs : List (OutboxRow M))
      → NotAfter a b
      → All (NotAfter b) rs
      → All (NotAfter a) rs
  All-NotAfter a b [] le h = tt
  All-NotAfter a b (r ∷ rs) le (h, hs) = (omega arith, All-NotAfter a b rs le hs)

  insert_by-IsOldestFirst :
      (x : OutboxRow M) (rs : List (OutboxRow M))
      → IsOldestFirst rs
      → IsOldestFirst (insert_by earlier x rs)
  insert_by-IsOldestFirst x [] s = (tt, tt)
  insert_by-IsOldestFirst x (r ∷ rs) (h, s) = elim (Bool-cases (earlier x r)) [
    | inl e ↦ rw e ((ground arith, All-NotAfter x r rs (ground arith) h), (h, s))
    | inr e ↦ rw e (All-insert_by r x rs (ground arith) h, insert_by-IsOldestFirst x rs s)
  ]

  order_by-IsOldestFirst : (rs : List (OutboxRow M)) → IsOldestFirst (order_by earlier rs)
  order_by-IsOldestFirst [] = tt
  order_by-IsOldestFirst (r ∷ rs) =
      insert_by-IsOldestFirst r (order_by earlier rs) (order_by-IsOldestFirst rs)

  All-take :
      (a : OutboxRow M) (n : ℕ) (rs : List (OutboxRow M))
      → All (NotAfter a) rs
      → All (NotAfter a) (take n rs)
  All-take a zero rs h = tt
  All-take a (suc n) [] h = tt
  All-take a (suc n) (r ∷ rs) (h, hs) = (h, All-take a n rs hs)

  take-IsOldestFirst :
      (n : ℕ) (rs : List (OutboxRow M)) → IsOldestFirst rs → IsOldestFirst (take n rs)
  take-IsOldestFirst zero rs s = tt
  take-IsOldestFirst (suc n) [] s = tt
  take-IsOldestFirst (suc n) (r ∷ rs) (h, s) = (All-take r n rs h, take-IsOldestFirst n rs s)

  NotAfter-mem :
      (a r : OutboxRow M) (rs : List (OutboxRow M)) → Memᴰ r rs → All (NotAfter a) rs → NotAfter a r
  NotAfter-mem a r [] m h = elim m [ ]
  NotAfter-mem a r (x ∷ rs) (Memᴰ.head e) (h, hs) = rw e h
  NotAfter-mem a r (x ∷ rs) (Memᴰ.tail m) (h, hs) = NotAfter-mem a r rs m hs

  taken_or_later :
      (n : ℕ) (r : OutboxRow M) (rs : List (OutboxRow M))
      → Memᴰ r rs
      → IsOldestFirst rs
      → Memᴰ r (take n rs) ⊎ ((length (take n rs) ≡ n) × All (IsBefore r) (take n rs))
  taken_or_later zero r rs m s = inr (refl, tt)
  taken_or_later (suc n) r [] m s = elim m [ ]
  taken_or_later (suc n) r (x ∷ rs) (Memᴰ.head e) s = inl (Memᴰ.head e)
  taken_or_later (suc n) r (x ∷ rs) (Memᴰ.tail m) (h, s) = elim (taken_or_later n r rs m s) [
    | inl t ↦ inl (Memᴰ.tail t)
    | inr (l, a) ↦ inr (ap suc l, (NotAfter-mem x r rs m h, a))
  ]

  length-keep-take :
      (p : OutboxRow M → Bool) (n : ℕ) (rs : List (OutboxRow M))
      → length (keep p (take n rs)) ≤ length (keep p rs)
  length-keep-take p zero rs = omega arith
  length-keep-take p (suc n) [] = omega arith
  length-keep-take p (suc n) (r ∷ rs) = ground (arith, length-keep-take p n rs)

  length-keep-insert_by :
      (p : OutboxRow M → Bool) (x : OutboxRow M) (rs : List (OutboxRow M))
      → length (keep p (insert_by earlier x rs)) ≡ length (keep p (x ∷ rs))
  length-keep-insert_by p x [] = refl
  length-keep-insert_by p x (r ∷ rs) = ground (arith, length-keep-insert_by p x rs)

  length-keep-order_by :
      (p : OutboxRow M → Bool) (rs : List (OutboxRow M))
      → length (keep p (order_by earlier rs)) ≡ length (keep p rs)
  length-keep-order_by p [] = refl
  length-keep-order_by p (r ∷ rs) =
      ground (arith, length-keep-insert_by p r (order_by earlier rs), length-keep-order_by p rs)

  length-keep-keep :
      (p q : OutboxRow M → Bool) (rs : List (OutboxRow M))
      → length (keep p (keep q rs)) ≤ length (keep p rs)
  length-keep-keep p q [] = omega arith
  length-keep-keep p q (r ∷ rs) = ground (arith, length-keep-keep p q rs)

  pub get_pending_outbox_events-IsOldestPending :
      (limit : ℕ) (rows : List (OutboxRow M))
      → IsOldestPending limit rows (get_pending_outbox_events limit rows)
  unfolding get_pending_outbox_events
  get_pending_outbox_events-IsOldestPending limit rows = record {
    from_table = λ r m.
        let (k, p) = mem-keep is_pending rows (
          mem-order_by earlier (keep is_pending rows)
            (mem-take limit (order_by earlier (keep is_pending rows)) m)) in
        (k, not_published r.published p);
    no_copies = λ p. omega (
      arith,
      length-keep-take p limit (order_by earlier (keep is_pending rows)),
      length-keep-order_by p (keep is_pending rows),
      length-keep-keep p is_pending rows,
    );
    oldest_first = take-IsOldestFirst limit _ (order_by-IsOldestFirst (keep is_pending rows));
    at_most = length-take-le limit _;
    complete = λ r m p.
        taken_or_later limit r _
          (order_by_mem earlier (keep is_pending rows) (keep_mem is_pending rows m (rw p refl)))
          (order_by-IsOldestFirst (keep is_pending rows));
  }
