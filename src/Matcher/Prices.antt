-- ===== src/Matcher/Prices.antt =====
-- The prices of the trades, and the prices that are left in the map.
use beta_trader.Prelude.{
  ◌≡◌, ap, ◌∙◌, ◌≢◌, ◌⊎◌, inl, inr, some, List, [], ◌∷◌, find, All, All-map, All-append,
  All-append_left, All-append_right, arith, true, false, ◌≤◌,
}
use beta_trader.Common.Types.{OrderSide, buy, sell, OrderId, Price, OrderType, limit}
use beta_trader.Common.Order.{Order, Trade}
use beta_trader.Book.{Store, PriceLevel, LevelMap, pointers, before}
use beta_trader.Book.Sorted.{Behind, IsSorted}
use beta_trader.Matcher.Run.{
  LevelRun, emptied, satisfied, takes, bites, TableRun, ended, stopped, passes,
}
use beta_trader.Matcher.Fills.{
  IsKeyed, terms, FilledIn, LevelRun-Filled, LevelRun-IsKeyed, IsKeyed-after_trade, trade-Filled,
}
use beta_trader.Matcher.Priority.{Incoming, Spent, LevelRun-Incoming, LevelRun-left, TableRun-Spent}
use beta_trader.Matcher.{MatchState, make_trade, after_trade, out_of_reach, keep_level}

-- The order rests at a level of its own price.
abbrev pub Rests : Store → Price → OrderId → Type 0
Rests orders p r = (o : Order) × (find r orders ≡ some o) × (o.price ≡ p)

abbrev pub IsPriced : Store → LevelMap → Type 0
IsPriced orders = All λ e. All (Rests orders e.0) e.1

-- The map of the other side.
abbrev pub opposite : OrderSide → OrderSide
opposite buy = sell
opposite sell = buy

pub out_of_reach-terms :
    (a b : Order) (p : Price) → terms a ≡ terms b → out_of_reach a p ≡ out_of_reach b p
unfolding out_of_reach
out_of_reach-terms a b p e = ground arith

-- What lies behind an unreachable price is unreachable.
pub out_of_reach-before :
    (o : Order) (p q : Price)
    → before (opposite o.order_side) p q ≡ true
    → out_of_reach o p ≡ true
    → out_of_reach o q ≡ true
unfolding out_of_reach
out_of_reach-before o p q h k = ground arith

-- The prices that an order of this type, side and price may trade at.
abbrev pub WithinLimit : OrderType → OrderSide → Price → Price → Type 0
WithinLimit limit buy own p = p ≤ own
WithinLimit limit sell own p = own ≤ p
WithinLimit t side own p = Unit

pub out_of_reach-WithinLimit :
    (o : Order) (p : Price)
    → out_of_reach o p ≡ false
    → WithinLimit o.order_type o.order_side o.price p
unfolding out_of_reach
out_of_reach-WithinLimit o p h = ground arith

FilledIn-Rests :
    (p : Price) (r : OrderId) (ts : List Trade) (o : Order) (orders : Store)
    → o.price ≡ p
    → FilledIn r ts o orders
    → Rests orders p r
FilledIn-Rests p r ts o orders e (o', e', f) = (o', e', ap (λ x. x.price) f.same ∙ e)

Rests-after_trade :
    (i r : OrderId) (s : MatchState) (inc res : Order)
    → IsKeyed s.orders
    → r ≢ i
    → find i s.orders ≡ some inc
    → find r s.orders ≡ some res
    → (p : Price) (k : OrderId) → Rests s.orders p k
    → Rests (after_trade i r s inc res).orders p k
Rests-after_trade i r s inc res keyed ne ei er p k (o, e, h) =
    FilledIn-Rests p k (make_trade s inc res ∷ []) o _ h
      (trade-Filled i r k s inc res o keyed ne ei er e)

LevelRun-Rests :
    {i : OrderId} {level left : PriceLevel} {s s' : MatchState} {ts : List Trade}
    → LevelRun i level s left s' ts
    → IsKeyed s.orders
    → All (λ r. r ≢ i) level
    → (p : Price) (k : OrderId) → Rests s.orders p k
    → Rests s'.orders p k
LevelRun-Rests {ts = ts} run keyed ne p k (o, e, h) =
    FilledIn-Rests p k ts o _ h (LevelRun-Filled run keyed ne k o e)

pub IsPriced-map :
    (orders orders' : Store) (m : LevelMap)
    → ((p : Price) (k : OrderId) → Rests orders p k → Rests orders' p k)
    → IsPriced orders m
    → IsPriced orders' m
IsPriced-map orders orders' m f h = All-map _ _ m (λ e. All-map _ _ e.1 (f e.0)) h

-- The trades of a level are at its price.
LevelRun-price :
    {i : OrderId} {level left : PriceLevel} {s s' : MatchState} {ts : List Trade} (p : Price)
    → LevelRun i level s left s' ts
    → IsKeyed s.orders
    → All (λ r. r ≢ i) level
    → All (Rests s.orders p) level
    → All (λ t. t.price ≡ p) ts
unfolding make_trade
LevelRun-price p emptied keyed ne h = tt
LevelRun-price p (satisfied inc ei z) keyed ne h = tt
LevelRun-price p (bites inc res ei er z y) keyed ne h = ((ground (arith, h.0)), tt)
LevelRun-price {i} p (takes {r = r} {rs = rs} {s = s} inc res ei er z y run) keyed ne h = (
  (ground (arith, h.0)),
  LevelRun-price p run (IsKeyed-after_trade i r s inc res keyed ei er) ne.1
      (All-map _ _ rs (Rests-after_trade i r s inc res keyed ne.0 ei er p) h.1),
)

-- No trade is beyond the limit of the incoming order.
pub TableRun-price :
    {i : OrderId} {m m' : LevelMap} {s s' : MatchState} {ts : List Trade} (inc0 : Order)
    → TableRun i m s m' s' ts
    → IsKeyed s.orders
    → All (λ r. r ≢ i) (pointers m)
    → IsPriced s.orders m
    → Incoming s.orders i inc0
    → All (λ t. out_of_reach inc0 t.price ≡ false) ts
TableRun-price inc0 ended keyed ne h hi = tt
TableRun-price inc0 (stopped inc ei z) keyed ne h hi = tt
TableRun-price inc0
      (passes {p = p} {level = level} {m = m} {s' = s'} {ts = ts} {ts' = ts'} inc ei z y run rest)
      keyed ne h (o, e, t) =
    let ne1 = All-append_left _ level (pointers m) ne in
    let ne2 = All-append_right _ level (pointers m) ne in
    All-append _ ts ts' (All-map _ _ ts (λ t' e'. reach t' e') (LevelRun-price p run keyed ne1 h.0))
      (TableRun-price inc0 rest (LevelRun-IsKeyed run keyed) ne2
        (IsPriced-map _ s'.orders m (LevelRun-Rests run keyed ne1) h.1)
        (LevelRun-Incoming run keyed ne1 inc0 (o, e, t)))
  where
    same : out_of_reach inc0 p ≡ out_of_reach inc p
    same = out_of_reach-terms inc0 inc p (ground (arith, t, e, ei))

    reach : (t' : Trade) → t'.price ≡ p → out_of_reach inc0 t'.price ≡ false
    reach t' e' = rw (e', same) y

-- What is left of the map keeps its order.
Behind-TableRun :
    {i : OrderId} {m m' : LevelMap} {s s' : MatchState} {ts : List Trade} (side : OrderSide)
    (q : Price)
    → TableRun i m s m' s' ts
    → Behind side q m
    → Behind side q m'
Behind-TableRun side q ended h = h
Behind-TableRun side q (stopped inc ei z) h = h
Behind-TableRun side q (passes {p = p} {level' = []} inc ei z y run rest) h =
    Behind-TableRun side q rest h.1
Behind-TableRun side q (passes {p = p} {level' = r ∷ rs} inc ei z y run rest) h =
    (h.0, Behind-TableRun side q rest h.1)

pub TableRun-IsSorted :
    {i : OrderId} {m m' : LevelMap} {s s' : MatchState} {ts : List Trade} (side : OrderSide)
    → TableRun i m s m' s' ts
    → IsSorted side m
    → IsSorted side m'
TableRun-IsSorted side ended h = h
TableRun-IsSorted side (stopped inc ei z) h = h
TableRun-IsSorted side (passes {level = []} inc ei z y run rest) h = absurd h
TableRun-IsSorted side (passes {level = q ∷ qs} {level' = []} inc ei z y run rest) h =
    TableRun-IsSorted side rest h.1
TableRun-IsSorted side (passes {p = p} {level = q ∷ qs} {level' = r ∷ rs} inc ei z y run rest) h =
    (Behind-TableRun side p rest h.0, TableRun-IsSorted side rest h.1)

-- No price that is left is within reach.
abbrev pub AllOutOfReach : Order → LevelMap → Type 0
AllOutOfReach inc = All λ e. out_of_reach inc e.0 ≡ true

-- The loop ends when nothing is left of the incoming order, or nothing within its reach.
pub TableRun-stops :
    {i : OrderId} {m m' : LevelMap} {s s' : MatchState} {ts : List Trade} (inc0 : Order)
    → TableRun i m s m' s' ts
    → IsKeyed s.orders
    → All (λ r. r ≢ i) (pointers m)
    → IsSorted (opposite inc0.order_side) m
    → Incoming s.orders i inc0
    → Spent s'.orders i ⊎ AllOutOfReach inc0 m'
TableRun-stops inc0 ended keyed ne h hi = inr tt
TableRun-stops inc0 (stopped inc ei (inl z)) keyed ne h hi = inl (inc, ei, z)
TableRun-stops inc0 (stopped {level = []} inc ei (inr far)) keyed ne h hi = absurd h
TableRun-stops inc0 (stopped {p = p} {level = q ∷ qs} {m = m} inc ei (inr far)) keyed ne h
      (o, e, t) =
    inr (far', All-map _ _ m (λ e' b. out_of_reach-before inc0 p e'.0 b far') h.0)
  where
    far' : out_of_reach inc0 p ≡ true
    far' = out_of_reach-terms inc0 inc p (ground (arith, t, e, ei)) ∙ far
TableRun-stops inc0 (passes {level = []} inc ei z y run rest) keyed ne h hi = absurd h
TableRun-stops {i} inc0
      (passes {p = p} {level = q ∷ qs} {level' = level'} {m = m} inc ei z y run rest) keyed ne h
      hi =
    let ne1 = All-append_left _ (q ∷ qs) (pointers m) ne in
    let ne2 = All-append_right _ (q ∷ qs) (pointers m) ne in
    let keyed' = LevelRun-IsKeyed run keyed in
    go p level' rest keyed' ne2 (LevelRun-left run ne1)
      (TableRun-stops inc0 rest keyed' ne2 h.1 (LevelRun-Incoming run keyed ne1 inc0 hi))
  where
    go :
        (p : Price) {m m' : LevelMap} {s' s'' : MatchState} {ts' : List Trade} (left : PriceLevel)
        → TableRun i m s' m' s'' ts'
        → IsKeyed s'.orders
        → All (λ r. r ≢ i) (pointers m)
        → (left ≡ []) ⊎ Spent s'.orders i
        → Spent s''.orders i ⊎ AllOutOfReach inc0 m'
        → Spent s''.orders i ⊎ AllOutOfReach inc0 (keep_level p left m')
    go p [] run' k n _ r = r
    go p (r ∷ rs) run' k n (inl e) _ = absurd (cc e)
    go p (r ∷ rs) run' k n (inr sp) _ = inl (TableRun-Spent run' k n i sp)

-- The prices that are left are prices of the map.
pub TableRun-AllPrices {κ} :
    {i : OrderId} {m m' : LevelMap} {s s' : MatchState} {ts : List Trade} (P : Price → Type κ)
    → TableRun i m s m' s' ts
    → All (λ e. P e.0) m
    → All (λ e. P e.0) m'
TableRun-AllPrices P ended h = h
TableRun-AllPrices P (stopped inc ei z) h = h
TableRun-AllPrices P (passes {p = p} {level' = []} inc ei z y run rest) h =
    TableRun-AllPrices P rest h.1
TableRun-AllPrices P (passes {p = p} {level' = r ∷ rs} inc ei z y run rest) h =
    (h.0, TableRun-AllPrices P rest h.1)
