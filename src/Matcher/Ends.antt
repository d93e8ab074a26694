-- ===== src/Matcher/Ends.antt =====
-- A call of `Matcher::match` that ends without a fault, and the state that it ends in.
use beta_trader.Prelude.{
  ◌≡◌, refl, ap, ◌∙◌, ◌≢◌, inl, inr, some, map, suc, length-append, ◌≤◌, List, [], ◌∷◌, find,
  insert, find-insert, All, arith, Bool-cases, ◌==◌, if◌then◌else◌, length,
}
use beta_trader.Common.Types.{OrderSide, buy, sell, OrderId, OrderStatus, partially_filled}
use beta_trader.Common.Order.{Order, Trade, set_status}
use beta_trader.Book.{Store, LevelMap, pointers, OrderBook}
use beta_trader.Matcher.Run.{Has}
use beta_trader.Matcher.Fills.{IsKeyed, FilledIn, Matched, match_table-Matched}
use beta_trader.Matcher.Priority.{Serves, Spent, counterparty}
use beta_trader.Matcher.{MatchState, match, match_table, final_status}

-- The map that an order of the given side is matched against, and the book with another such map.
abbrev pub opposite_map : OrderSide → OrderBook → LevelMap
opposite_map buy b = b.asks
opposite_map sell b = b.bids

abbrev pub with_opposite : OrderSide → LevelMap → OrderBook → OrderBook
with_opposite buy m b = record b { asks = m }
with_opposite sell m b = record b { bids = m }

-- The incoming order `inc` can be matched: its id is `i`, the pointers of the opposite map can be
-- read, each order is owned under its own id, and the incoming order is not in that map.
pub record IsMatchable (i : OrderId) (inc : Order) (b : OrderBook) (s : MatchState) : Type 0 where
  pub incoming : find i s.orders ≡ some inc
  pub resting : All (Has s.orders) (pointers (opposite_map inc.order_side b))
  pub keyed : IsKeyed s.orders
  pub apart : All (λ r. r ≢ i) (pointers (opposite_map inc.order_side b))

-- The result of a call of `match` without a fault: the opposite map that is left, the state, the
-- trades, and what holds of them.
abbrev pub Ends {ℓ} :
    OrderId
    → Order
    → OrderBook
    → MatchState
    → (LevelMap → MatchState → List Trade → Type ℓ)
    → Type ℓ
Ends i inc b s P =
    (m : LevelMap) × (s' : MatchState) × (ts : List Trade) × (match i b s
      ≡ some (with_opposite inc.order_side m b, s', ts))
    × P m s' ts

abbrev pub closed : {i : OrderId} {m : LevelMap} {s : MatchState} → Matched i m s → MatchState
closed {i} r = record (r.after) {
  orders = insert i (set_status (final_status r.last) r.last) (r.after).orders;
}

matched :
    (i : OrderId) (inc : Order) (b : OrderBook) (s : MatchState)
    → IsMatchable i inc b s
    → Matched i (opposite_map inc.order_side b) s
matched i inc b s h =
    match_table-Matched i (opposite_map inc.order_side b) s (inc, h.incoming) h.resting

match-eq :
    (i : OrderId) (inc : Order) (b : OrderBook) (s : MatchState)
    → find i s.orders ≡ some inc
    → (r : Matched i (opposite_map inc.order_side b) s)
    → match i b s ≡ some (with_opposite inc.order_side r.left b, closed r, r.trades)
unfolding match
match-eq i inc b s e r = go inc.order_side refl (r.result)
  where
    go :
        (d : OrderSide)
        → inc.order_side ≡ d
        → match_table i (opposite_map d b) s ≡ some (r.left, closed r, r.trades)
        → match i b s ≡ some (with_opposite d r.left b, closed r, r.trades)
    go buy h k = ground (arith, e, h, k)
    go sell h k = ground (arith, e, h, k)

-- The status of an order that matching has not closed.
abbrev pub progress_status : Order → List Trade → OrderStatus
progress_status inc [] = inc.order_status
progress_status inc (t ∷ ts) = partially_filled

pub progress_status-ne-nil :
    (inc : Order) (ts : List Trade) → ts ≢ [] → progress_status inc ts ≡ partially_filled
progress_status-ne-nil inc [] h = absurd (h refl)
progress_status-ne-nil inc (t ∷ ts) h = refl

length-map : (side : OrderSide) (ts : List Trade) → length (map (counterparty side) ts) ≡ length ts
length-map side [] = refl
length-map side (t ∷ ts) = ap suc (length-map side ts)

-- There is at most one trade for each order of the queue.
pub Serves-length :
    {side : OrderSide} {old left : List OrderId} {orders : Store} {ts : List Trade}
    → Serves side old left orders ts
    → length ts ≤ length old
Serves-length {side} {left = left} {ts = ts} v =
    let total = ap length v.split ∙ length-append v.gone left in
    elim v.served [
      | inl e ↦ omega (arith, total, ap length e, length-map side ts)
      | inr (r, rest, e, e') ↦ omega (
        arith,
        total,
        ap length e,
        ap length e' ∙ length-append v.gone (r ∷ []),
        length-map side ts,
      )
    ]

pub find-closed :
    {i : OrderId} {m : LevelMap} {s : MatchState} (r : Matched i m s) (k : OrderId)
    → find k (closed r).orders
      ≡ (if i == k then some (set_status (final_status r.last) r.last) else find k (r.after).orders)
find-closed {i} r k = find-insert i k (set_status (final_status r.last) r.last) (r.after).orders

pub find-closed_ne :
    {i : OrderId} {m : LevelMap} {s : MatchState} (r : Matched i m s) (k : OrderId)
    → k ≢ i
    → find k (closed r).orders ≡ find k (r.after).orders
find-closed_ne {i} r k n = ground (arith, find-closed r k)

pub Spent-closed :
    {i : OrderId} {m : LevelMap} {s : MatchState} (r : Matched i m s) (k : OrderId)
    → Spent (r.after).orders k
    → Spent (closed r).orders k
Spent-closed {i} r k (o, e, z) = elim (Bool-cases (i == k)) [
  | inl h ↦ (
    set_status (final_status r.last) r.last,
    ground (arith, find-closed r k),
    ground (arith, r.is_last, e),
  )
  | inr h ↦ (o, ground (arith, find-closed r k), z)
]

pub FilledIn-closed :
    {i : OrderId} {m : LevelMap} {s : MatchState} (r : Matched i m s) (k : OrderId)
    (ts : List Trade) (o : Order)
    → FilledIn k ts o (r.after).orders
    → FilledIn k ts o (closed r).orders
FilledIn-closed {i} r k ts o (o', e, f) = elim (Bool-cases (i == k)) [
  | inl h ↦ (
    set_status (final_status r.last) r.last,
    ground (arith, find-closed r k),
    record {
      same = ground (arith, f.same, r.is_last, e);
      balance = ground (arith, f.balance, r.is_last, e);
    },
  )
  | inr h ↦ (o', ground (arith, find-closed r k), f)
]

module _ (i : OrderId) (inc : Order) (b : OrderBook) (s : MatchState)
    (h : IsMatchable i inc b s) where
  run : Matched i (opposite_map inc.order_side b) s
  run = matched i inc b s h

  pub ends {ℓ} :
      (P : LevelMap → MatchState → List Trade → Type ℓ)
      → ((r : Matched i (opposite_map inc.order_side b) s) → P r.left (closed r) r.trades)
      → Ends i inc b s P
  ends P p = (run.left, closed run, run.trades, match-eq i inc b s h.incoming run, p run)
