-- ===== src/Publisher/Balance.antt =====
-- The quantities of the execution reports on orders that have been matched.
use beta_trader.Prelude.{
  ◌+◌, ◌-◌, ◌≤◌, ◌<◌, ◌≡◌, ap, some, [], ◌∷◌, List, find, All, arith, u64_mod,
}
use beta_trader.Common.Types.{OrderId}
use beta_trader.Common.Order.{Order, Trade}
use beta_trader.Book.{OrderBook}
use beta_trader.Matcher.{MatchState}
use beta_trader.Matcher.Fills.{traded, Filled}
use beta_trader.Matcher.Ends.{IsMatchable, Ends}
use beta_trader.Matcher.Laws.{match-Filled}
use beta_trader.Publisher.{
  Environment, ExecutionId, ExecutionReport, Action, cumulative, execution_report, trade_report,
}

cumulative-balance :
    (o : Order)
    → o.remaining_quantity ≤ o.original_quantity
    → o.original_quantity < u64_mod
    → cumulative o + o.remaining_quantity ≡ o.original_quantity
unfolding cumulative
cumulative-balance o le lt = omega (arith, le, lt)

-- A report on the order under the id `k`, which was `o` before the given trades.
abbrev pub Tallies : OrderId → Order → List Trade → ExecutionReport → Type 0
Tallies k o ts r =
    (r.order_quantity ≡ o.original_quantity)
    × (r.leaves_quantity + traded k ts ≡ o.remaining_quantity)
    × (r.cumulative_quantity ≡ (o.original_quantity - o.remaining_quantity) + traded k ts)

Filled-Tallies :
    (env : Environment) (id : ExecutionId) (t : Trade) (action : Action) (k : OrderId)
    (ts : List Trade) (o o' : Order)
    → o.remaining_quantity ≤ o.original_quantity
    → o.original_quantity < u64_mod
    → Filled k ts o o'
    → All (Tallies k o ts) (execution_report env o' action ∷ trade_report env id t o' ∷ [])
unfolding execution_report trade_report
Filled-Tallies env id t action k ts o o' le lt f =
    let original : o'.original_quantity ≡ o.original_quantity =
      ap (λ x. x.original_quantity) f.same in
    let sum =
      cumulative-balance o' (omega (arith, original, f.balance, le))
        (omega (arith, original, lt)) in
    let total : cumulative o' ≡ (o.original_quantity - o.remaining_quantity) + traded k ts =
      omega (arith, sum, original, f.balance, le) in
    ((original, f.balance, total), ((original, f.balance, total), tt))

-- If the incoming order can be matched, then after the matching the report of any action on an
-- owned order, and the report of any trade to its owner, have the quantity that the order is for,
-- as the quantity left what was left of the order before less the quantity of all trades of this
-- matching that name it, and as the quantity done what was done before and the quantity of these
-- trades, if no more was left of the order than it was for, and that is below 2^64.
pub match-Tallies :
    (i : OrderId) (inc : Order) (b : OrderBook) (s : MatchState) (env : Environment)
    (id : ExecutionId) (t : Trade) (action : Action) (k : OrderId) (o : Order)
    → IsMatchable i inc b s
    → find k s.orders ≡ some o
    → o.remaining_quantity ≤ o.original_quantity
    → o.original_quantity < u64_mod
    → Ends i inc b s λ _ s' ts.
      (o' : Order) × (find k s'.orders ≡ some o')
      × All (Tallies k o ts) (execution_report env o' action ∷ trade_report env id t o' ∷ [])
match-Tallies i inc b s env id t action k o h at le lt =
    let (m, s', ts, e, (o', at', f)) = match-Filled i inc b s h k o at in
    (m, s', ts, e, (o', at', Filled-Tallies env id t action k ts o o' le lt f))
