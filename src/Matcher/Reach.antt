-- ===== src/Matcher/Reach.antt =====
-- Matching trades only with orders at prices within reach of the incoming order.
use beta_trader.Prelude.{
  ◌≡◌, sym, ◌∙◌, ◌≢◌, List, All, All-map, All-append, All-append_left, All-append_right, arith,
  false, subst,
}
use beta_trader.Common.Types.{OrderId}
use beta_trader.Common.Order.{Order, Trade}
use beta_trader.Book.{PriceLevel, LevelMap, pointers}
use beta_trader.Book.Sound.{AllRest}
use beta_trader.Matcher.Run.{
  LevelRun, emptied, satisfied, takes, bites, TableRun, ended, stopped, passes,
}
use beta_trader.Matcher.Fills.{IsKeyed, LevelRun-IsKeyed, IsKeyed-after_trade}
use beta_trader.Matcher.Priority.{
  Incoming, LevelRun-Incoming, Incoming-after_trade, counterparty, counterparty-make_trade,
}
use beta_trader.Matcher.Prices.{out_of_reach-terms}
use beta_trader.Matcher.{MatchState, out_of_reach}

LevelRun-reach {κ} :
    {i : OrderId} {level left : PriceLevel} {s s' : MatchState} {ts : List Trade}
    (P : OrderId → Type κ) (inc0 : Order)
    → LevelRun i level s left s' ts
    → IsKeyed s.orders
    → All (λ r. r ≢ i) level
    → Incoming s.orders i inc0
    → All P level
    → All (λ t. P (counterparty inc0.order_side t)) ts
LevelRun-reach P inc0 emptied keyed ne h a = tt
LevelRun-reach P inc0 (satisfied inc ei z) keyed ne h a = tt
LevelRun-reach {i} P inc0 (bites {r = r} {s = s} inc res ei er z y) keyed ne h a =
    (subst P (sym (counterparty-make_trade i r s inc res inc0 keyed ei er h)) a.0, tt)
LevelRun-reach {i} P inc0 (takes {r = r} {s = s} inc res ei er z y run) keyed ne h a = (
  subst P (sym (counterparty-make_trade i r s inc res inc0 keyed ei er h)) a.0,
  LevelRun-reach P inc0 run (IsKeyed-after_trade i r s inc res keyed ei er) ne.1
      (Incoming-after_trade i r s inc res inc0 keyed ne.0 ei er h) a.1,
)

-- What holds of the orders at prices within reach holds of the orders that the trades are with.
pub TableRun-reach {κ} :
    {i : OrderId} {m m' : LevelMap} {s s' : MatchState} {ts : List Trade} (P : OrderId → Type κ)
    (inc0 : Order)
    → TableRun i m s m' s' ts
    → IsKeyed s.orders
    → All (λ r. r ≢ i) (pointers m)
    → Incoming s.orders i inc0
    → AllRest (λ p r. out_of_reach inc0 p ≡ false → P r) m
    → All (λ t. P (counterparty inc0.order_side t)) ts
TableRun-reach P inc0 ended keyed ne h a = tt
TableRun-reach P inc0 (stopped inc ei z) keyed ne h a = tt
TableRun-reach P inc0
      (passes {p = p} {level = level} {m = m} {ts = ts} {ts' = ts'} inc ei z y run rest) keyed ne
      (o, e, t) a =
    let ne1 = All-append_left _ level (pointers m) ne in
    let ne2 = All-append_right _ level (pointers m) ne in
    All-append _ ts ts'
      (LevelRun-reach P inc0 run keyed ne1 (o, e, t) (All-map _ _ level (λ r f. f (same ∙ y)) a.0))
      (TableRun-reach P inc0 rest (LevelRun-IsKeyed run keyed) ne2
        (LevelRun-Incoming run keyed ne1 inc0 (o, e, t)) a.1)
  where
    same : out_of_reach inc0 p ≡ out_of_reach inc p
    same = out_of_reach-terms inc0 inc p (ground (arith, t, e, ei))
