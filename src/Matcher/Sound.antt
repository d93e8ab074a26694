-- ===== src/Matcher/Sound.antt =====
-- Matching leaves a sound map sound.
use beta_trader.Prelude.{
  ap, ◌∙◌, ◌≢◌, subst, List, [], ◌∷◌, All, Distinct, Distinct-append_right, arith,
}
use beta_trader.Common.Types.{OrderSide, OrderId, Price}
use beta_trader.Common.Order.{Order, Trade}
use beta_trader.Book.{LevelMap, pointers}
use beta_trader.Book.Sound.{Resting, AllRest, IsSound, AllRest-pointers, AllRest-zip}
use beta_trader.Matcher.Run.{TableRun, ended, stopped, passes}
use beta_trader.Matcher.Fills.{IsKeyed, TableRun-Filled}
use beta_trader.Matcher.Priority.{Incoming, TableRun-Serves}
use beta_trader.Matcher.Prices.{TableRun-IsSorted}
use beta_trader.Matcher.Resting.{Positive, LevelRun-All, TableRun-Positive}
use beta_trader.Matcher.{MatchState}

-- The levels that are left are parts of levels.
TableRun-AllRest {κ} :
    {i : OrderId} {m m' : LevelMap} {s s' : MatchState} {ts : List Trade}
    (Q : Price → OrderId → Type κ)
    → TableRun i m s m' s' ts
    → AllRest Q m
    → AllRest Q m'
TableRun-AllRest Q ended h = tt
TableRun-AllRest Q (stopped inc ei z) h = h
TableRun-AllRest Q (passes {level' = []} inc ei z y run rest) h = TableRun-AllRest Q rest h.1
TableRun-AllRest Q (passes {p = p} {level' = r ∷ rs} inc ei z y run rest) h =
    (LevelRun-All (Q p) run h.0, TableRun-AllRest Q rest h.1)

pub TableRun-IsSound :
    {i : OrderId} {m m' : LevelMap} {s s' : MatchState} {ts : List Trade} (side : OrderSide)
    (inc : Order)
    → TableRun i m s m' s' ts
    → IsKeyed s.orders
    → All (λ r. r ≢ i) (pointers m)
    → Incoming s.orders i inc
    → IsSound s.orders side m
    → IsSound s'.orders side m'
TableRun-IsSound {m = m} {m' = m'} {s = s} {s' = s'} {ts = ts} side inc run keyed ne hi h = record {
  sorted = TableRun-IsSorted side run h.sorted;
  resting =
      AllRest-zip (λ p r. Resting s.orders side p r) (Positive s'.orders) (Resting s'.orders side)
        m'
        (λ p r (o, e, price, sided, _) (o', e', pos).
          let (o'', e'', f) = TableRun-Filled run keyed ne r o e in
          (
            o'',
            e'',
            ap (λ x. x.price) f.same ∙ price,
            ap (λ x. x.order_side) f.same ∙ sided,
            ground (arith, e', e'', pos),
          ))
        (TableRun-AllRest (Resting s.orders side) run h.resting)
        (TableRun-Positive run h.distinct ne (
          AllRest-pointers (Resting s.orders side) (Positive s.orders) m
            (λ p r (o, e, _, _, pos). (o, e, pos)) h.resting));
  distinct =
      let v = TableRun-Serves inc run keyed ne hi in
      Distinct-append_right v.gone (pointers m') (subst Distinct v.split h.distinct);
}
