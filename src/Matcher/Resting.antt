-- ===== src/Matcher/Resting.antt =====
-- What rests in the book stays sound: the orders that matching leaves in the map have something left,
-- and an order that is not matched is not touched.
use beta_trader.Prelude.{
  ◌<◌, ◌≡◌, refl, sym, ◌∙◌, ◌≢◌, some, List, [], ◌∷◌, find, All, All-map, All-append,
  All-append_left, All-append_right, All-zip, Distinct, Distinct-append_left, Distinct-append_right,
  Distinct-apart, Distinct-apart_rev, arith,
}
use beta_trader.Common.Types.{OrderId}
use beta_trader.Common.Order.{Order, Trade}
use beta_trader.Book.{Store, PriceLevel, LevelMap, pointers}
use beta_trader.Matcher.Run.{
  LevelRun, emptied, satisfied, takes, bites, TableRun, ended, stopped, passes, find-after_trade,
}
use beta_trader.Matcher.{MatchState, fill_resting, after_trade, keep_level}

-- Something is left of the order.
abbrev pub Positive : Store → OrderId → Type 0
Positive orders r = (o : Order) × (find r orders ≡ some o) × (0 < o.remaining_quantity)

untouched_by_trade :
    (i r k : OrderId) (s : MatchState) (inc res : Order)
    → r ≢ k
    → i ≢ k
    → find k (after_trade i r s inc res).orders ≡ find k s.orders
untouched_by_trade i r k s inc res h h' = ground (arith, find-after_trade i r k s inc res)

LevelRun-untouched :
    {i : OrderId} {level left : PriceLevel} {s s' : MatchState} {ts : List Trade}
    → LevelRun i level s left s' ts
    → (k : OrderId) → i ≢ k
    → All (λ r. r ≢ k) level
    → find k s'.orders ≡ find k s.orders
LevelRun-untouched emptied k h ne = refl
LevelRun-untouched (satisfied inc ei z) k h ne = refl
LevelRun-untouched {i} (takes {r = r} {s = s} inc res ei er z y run) k h ne =
    LevelRun-untouched run k h ne.1 ∙ untouched_by_trade i r k s inc res ne.0 h
LevelRun-untouched {i} (bites {r = r} {s = s} inc res ei er z y) k h ne =
    untouched_by_trade i r k s inc res ne.0 h

pub TableRun-untouched :
    {i : OrderId} {m m' : LevelMap} {s s' : MatchState} {ts : List Trade}
    → TableRun i m s m' s' ts
    → (k : OrderId) → i ≢ k
    → All (λ r. r ≢ k) (pointers m)
    → find k s'.orders ≡ find k s.orders
TableRun-untouched ended k h ne = refl
TableRun-untouched (stopped inc ei z) k h ne = refl
TableRun-untouched (passes {level = level} {m = m} inc ei z y run rest) k h ne =
    TableRun-untouched rest k h (All-append_right _ level (pointers m) ne)
    ∙ LevelRun-untouched run k h (All-append_left _ level (pointers m) ne)

Positive-untouched :
    (orders orders' : Store) (k : OrderId)
    → find k orders' ≡ find k orders
    → Positive orders k
    → Positive orders' k
Positive-untouched orders orders' k e (o, e', h) = (o, e ∙ e', h)

-- What is left of a level is a part of it.
pub LevelRun-All {κ} :
    {i : OrderId} {level left : PriceLevel} {s s' : MatchState} {ts : List Trade}
    (P : OrderId → Type κ)
    → LevelRun i level s left s' ts
    → All P level
    → All P left
LevelRun-All P emptied h = tt
LevelRun-All P (satisfied inc ei z) h = h
LevelRun-All P (takes inc res ei er z y run) h = LevelRun-All P run h.1
LevelRun-All P (bites inc res ei er z y) h = h

-- The orders of a level behind `r` are not touched by a trade of `r`.
Positive-after_trade :
    (i r : OrderId) (s : MatchState) (inc res : Order) (qs : PriceLevel)
    → All (λ q. q ≢ r) qs
    → All (λ q. q ≢ i) qs
    → All (Positive s.orders) qs
    → All (Positive (after_trade i r s inc res).orders) qs
Positive-after_trade i r s inc res [] a b c = tt
Positive-after_trade i r s inc res (q ∷ qs) a b c = (
  Positive-untouched _ _ q
      (untouched_by_trade i r q s inc res (λ e. a.0 (sym e)) (λ e. b.0 (sym e))) c.0,
  Positive-after_trade i r s inc res qs a.1 b.1 c.1,
)

LevelRun-Positive :
    {i : OrderId} {level left : PriceLevel} {s s' : MatchState} {ts : List Trade}
    → LevelRun i level s left s' ts
    → Distinct level
    → All (λ r. r ≢ i) level
    → All (Positive s.orders) level
    → All (Positive s'.orders) left
unfolding fill_resting
LevelRun-Positive emptied d ne h = tt
LevelRun-Positive (satisfied inc ei z) d ne h = h
LevelRun-Positive {i} (takes {r = r} {rs = rs} {s = s} inc res ei er z y run) d ne h =
    LevelRun-Positive run d.1 ne.1 (Positive-after_trade i r s inc res rs d.0 ne.1 h.1)
LevelRun-Positive {i} (bites {r = r} {rs = rs} {s = s} inc res ei er z y) d ne h = (
  (fill_resting inc res, ground (arith, find-after_trade i r r s inc res), ground arith),
  Positive-after_trade i r s inc res rs d.0 ne.1 h.1,
)

-- In a map with each order once, every order that is left has something left.
pub TableRun-Positive :
    {i : OrderId} {m m' : LevelMap} {s s' : MatchState} {ts : List Trade}
    → TableRun i m s m' s' ts
    → Distinct (pointers m)
    → All (λ r. r ≢ i) (pointers m)
    → All (Positive s.orders) (pointers m)
    → All (Positive s'.orders) (pointers m')
TableRun-Positive ended d ne h = tt
TableRun-Positive (stopped inc ei z) d ne h = h
TableRun-Positive {i}
      (passes {p = p} {level = level} {level' = level'} {m = m} {m' = m'} {s = s} {s' = s'}
        {s'' = s''} inc ei z y run rest)
      d ne h =
    let ne1 = All-append_left _ level (pointers m) ne in
    let ne2 = All-append_right _ level (pointers m) ne in
    let apart =
      All-zip _ _ level' (LevelRun-All _ run (Distinct-apart level (pointers m) d))
        (LevelRun-All _ run ne1) in
    join level'
      (All-map _ _ level'
        (λ k c.
          Positive-untouched s'.orders s''.orders k
            (TableRun-untouched rest k (λ e. c.0.1 (sym e)) c.0.0) c.1)
        (All-zip _ _ level' apart (
          LevelRun-Positive run (Distinct-append_left level (pointers m) d) ne1
            (All-append_left _ level (pointers m) h))))
      (TableRun-Positive rest (Distinct-append_right level (pointers m) d) ne2 (
        untouched (pointers m) ne2 (Distinct-apart_rev level (pointers m) d)
          (All-append_right _ level (pointers m) h)))
  where
    join :
        (left : PriceLevel)
        → All (Positive s''.orders) left
        → All (Positive s''.orders) (pointers m')
        → All (Positive s''.orders) (pointers (keep_level p left m'))
    join [] a b = b
    join (r ∷ rs) a b = All-append _ (r ∷ rs) (pointers m') a b

    untouched :
        (ks : List OrderId)
        → All (λ r. r ≢ i) ks
        → All (λ k. All (λ x. x ≢ k) level) ks
        → All (Positive s.orders) ks
        → All (Positive s'.orders) ks
    untouched [] a b c = tt
    untouched (k ∷ ks) a b c = (
      Positive-untouched _ _ k (LevelRun-untouched run k (λ e. a.0 (sym e)) b.0) c.0,
      untouched ks a.1 b.1 c.1,
    )
