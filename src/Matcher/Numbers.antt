-- ===== src/Matcher/Numbers.antt =====
-- The ids of the trades, and the status of the incoming order.
use beta_trader.Prelude.{
  ◌+◌, ◌<◌, ◌≡◌, refl, subst, ◌∙◌, ◌%◌, ◌≢◌, ◌⊎◌, inl, inr, some, List, [], ◌∷◌, ◌++◌, find, All,
  All-append_left, All-append_right, arith, length, length-append, u64_mod,
}
use beta_trader.Common.Types.{OrderId, TradeId, partially_filled}
use beta_trader.Common.Order.{Order, Trade}
use beta_trader.Book.{Store, PriceLevel, LevelMap, pointers}
use beta_trader.Matcher.Run.{
  LevelRun, emptied, satisfied, takes, bites, TableRun, ended, stopped, passes, find-after_trade,
}
use beta_trader.Matcher.{MatchState, make_trade, fill_incoming, after_trade}

-- The ids of the trades are `n + 1`, `n + 2` and so on.
abbrev pub Numbered : TradeId → List Trade → Type 0
Numbered n [] = Unit {0}
Numbered n (t ∷ ts) = (t.trade_id ≡ n + 1) × Numbered (n + 1) ts

Numbered-append :
    (n k : TradeId) (ts ts' : List Trade)
    → Numbered n ts
    → k ≡ n + length ts
    → Numbered k ts'
    → Numbered n (ts ++ ts')
Numbered-append n k [] ts' h e h' = subst (λ x. Numbered x ts') {x = k} {y = n} (omega arith) h'
Numbered-append n k (t ∷ ts) ts' h e h' =
    (h.0, Numbered-append (n + 1) k ts ts' h.1 (omega arith) h')

abbrev Numbers : MatchState → MatchState → List Trade → Type 0
Numbers s s' ts = Numbered s.trade_id ts × (s'.trade_id ≡ s.trade_id + length ts)

LevelRun-Numbers :
    {i : OrderId} {level left : PriceLevel} {s s' : MatchState} {ts : List Trade}
    → LevelRun i level s left s' ts
    → s.trade_id + length ts < u64_mod
    → Numbers s s' ts
unfolding make_trade after_trade
LevelRun-Numbers emptied b = (tt, omega arith)
LevelRun-Numbers (satisfied inc ei z) b = (tt, omega arith)
LevelRun-Numbers (bites inc res ei er z y) b = ((omega arith, tt), omega arith)
LevelRun-Numbers {i} (takes {r = r} {s = s} {s' = s'} {ts = ts} inc res ei er z y run) b =
    let next : (s.trade_id + 1) % u64_mod ≡ s.trade_id + 1 = omega arith in
    let rest = LevelRun-Numbers run (omega (arith, next)) in
    ((next, subst (λ x. Numbered x ts) next rest.0), omega (arith, rest.1, next))

pub TableRun-Numbers :
    {i : OrderId} {m m' : LevelMap} {s s' : MatchState} {ts : List Trade}
    → TableRun i m s m' s' ts
    → s.trade_id + length ts < u64_mod
    → Numbered s.trade_id ts × (s'.trade_id ≡ s.trade_id + length ts)
TableRun-Numbers ended b = (tt, omega arith)
TableRun-Numbers (stopped inc ei z) b = (tt, omega arith)
TableRun-Numbers (passes {s = s} {s' = s'} {ts = ts} {ts' = ts'} inc ei z y run rest) b =
    let len = length-append ts ts' in
    let first = LevelRun-Numbers run (omega (arith, len)) in
    let second = TableRun-Numbers rest (omega (arith, len, first.1)) in
    (
      Numbered-append s.trade_id s'.trade_id ts ts' first.0 first.1 second.0,
      omega (arith, len, first.1, second.1),
    )

-- Before the first trade the order is as it was; from then on it is partially filled.
abbrev pub Progress : OrderId → Store → Store → List Trade → Type 0
Progress i orders orders' ts =
    ((ts ≡ []) × (find i orders' ≡ find i orders))
    ⊎ ((ts ≢ []) × (o : Order) × (find i orders' ≡ some o) × (o.order_status ≡ partially_filled))

LevelRun-Progress :
    {i : OrderId} {level left : PriceLevel} {s s' : MatchState} {ts : List Trade}
    → LevelRun i level s left s' ts
    → All (λ r. r ≢ i) level
    → Progress i s.orders s'.orders ts
unfolding fill_incoming
LevelRun-Progress emptied ne = inl (refl, refl)
LevelRun-Progress (satisfied inc ei z) ne = inl (refl, refl)
LevelRun-Progress {i} (bites {r = r} {s = s} inc res ei er z y) ne =
    inr (
      λ e. cc e,
      fill_incoming inc res,
      ground (arith, find-after_trade i r i s inc res, ne.0),
      refl,
    )
LevelRun-Progress {i} (takes {r = r} {s = s} inc res ei er z y run) ne =
    elim (LevelRun-Progress run ne.1) [
      | inl (e, same) ↦ inr (
        λ e'. cc e',
        fill_incoming inc res,
        ground (arith, same, find-after_trade i r i s inc res, ne.0),
        refl,
      )
      | inr (some', o, e, h) ↦ inr (λ e'. cc e', o, e, h)
    ]

pub TableRun-Progress :
    {i : OrderId} {m m' : LevelMap} {s s' : MatchState} {ts : List Trade}
    → TableRun i m s m' s' ts
    → All (λ r. r ≢ i) (pointers m)
    → Progress i s.orders s'.orders ts
TableRun-Progress ended ne = inl (refl, refl)
TableRun-Progress (stopped inc ei z) ne = inl (refl, refl)
TableRun-Progress (passes {level = level} {m = m} {ts = ts} {ts' = ts'} inc ei z y run rest) ne =
    elim (TableRun-Progress rest (All-append_right _ level (pointers m) ne)) [
      | inr (more, o, e, h) ↦ inr (λ e'. more (nil_right ts ts' e'), o, e, h)
      | inl (none', same) ↦ elim (LevelRun-Progress run (All-append_left _ level (pointers m) ne)) [
        | inl (none'', same') ↦ inl (ground (arith, none', none''), same ∙ same')
        | inr (more, o, e, h) ↦ inr (λ e'. more (nil_left ts ts' e'), o, same ∙ e, h)
      ]
    ]
  where
    nil_left : (xs ys : List Trade) → xs ++ ys ≡ [] → xs ≡ []
    nil_left [] ys e = refl
    nil_left (x ∷ xs) ys e = cc e

    nil_right : (xs ys : List Trade) → xs ++ ys ≡ [] → ys ≡ []
    nil_right [] ys e = e
    nil_right (x ∷ xs) ys e = cc e
