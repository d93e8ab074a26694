-- ===== src/Matcher/Fills.antt =====
-- What matching does to the orders: quantity moves from orders into trades, and only there.
use beta_trader.Prelude.{
  ◌+◌, ◌≡◌, refl, ◌∙◌, ◌≢◌, inl, inr, some, List, [], ◌∷◌, ◌++◌, ◌==◌, ◌||◌, if◌then◌else◌, find,
  insert, find-insert, All, All-append_left, All-append_right, arith, Bool-cases,
}
use beta_trader.Common.Types.{OrderId, Quantity, new}
use beta_trader.Common.Order.{Order, Trade, set_remaining_quantity, set_status}
use beta_trader.Book.{Store, PriceLevel, LevelMap, pointers}
use beta_trader.Matcher.Run.{
  Has, LevelRun, emptied, satisfied, takes, bites, TableRun, ended, stopped, passes,
  find-after_trade, match_levels-TableRun, TableRun-Has,
}
use beta_trader.Matcher.{
  MatchState, make_trade, fill_incoming, fill_resting, after_trade, match_table, final_status,
}

-- Each order is owned under its own id.
abbrev pub IsKeyed : Store → Type 0
IsKeyed orders = (k : OrderId) (o : Order) → find k orders ≡ some o → o.core_order_id ≡ k

-- The quantity that an order trades.
abbrev pub traded : OrderId → List Trade → Quantity
traded k [] = 0
traded k (t ∷ ts) =
    (if t.buy_order_id == k || t.sell_order_id == k then t.quantity else 0) + traded k ts

-- An order without what matching may change in it.
abbrev pub terms : Order → Order
terms o = set_status new (set_remaining_quantity 0 o)

-- `o'` is `o` after the given trades.
pub record Filled (k : OrderId) (ts : List Trade) (o o' : Order) : Type 0 where
  pub same : terms o' ≡ terms o
  pub balance : o'.remaining_quantity + traded k ts ≡ o.remaining_quantity

abbrev pub FilledIn : OrderId → List Trade → Order → Store → Type 0
FilledIn k ts o orders = (o' : Order) × (find k orders ≡ some o') × Filled k ts o o'

traded-append :
    (k : OrderId) (ts ts' : List Trade) → traded k (ts ++ ts') ≡ traded k ts + traded k ts'
traded-append k [] ts' = omega arith
traded-append k (t ∷ ts) ts' = omega (arith, traded-append k ts ts')

pub Filled-trans :
    (k : OrderId) (ts ts' : List Trade) (o o' o'' : Order)
    → Filled k ts o o'
    → Filled k ts' o' o''
    → Filled k (ts ++ ts') o o''
Filled-trans k ts ts' o o' o'' f g = record {
  same = g.same ∙ f.same;
  balance = omega (arith, traded-append k ts ts', f.balance, g.balance);
}

pub trade-Filled :
    (i r k : OrderId) (s : MatchState) (inc res o : Order)
    → IsKeyed s.orders
    → r ≢ i
    → find i s.orders ≡ some inc
    → find r s.orders ≡ some res
    → find k s.orders ≡ some o
    → FilledIn k (make_trade s inc res ∷ []) o (after_trade i r s inc res).orders
unfolding make_trade fill_incoming fill_resting
trade-Filled i r k s inc res o keyed ne ei er ek = elim (Bool-cases (r == k)) [
  | inl h ↦ (
    fill_resting inc res,
    ground (arith, find-after_trade i r k s inc res),
    record { same = ground arith; balance = ground (arith, keyed i inc ei, keyed r res er) },
  )
  | inr h ↦ elim (Bool-cases (i == k)) [
    | inl h' ↦ (
      fill_incoming inc res,
      ground (arith, find-after_trade i r k s inc res),
      record { same = ground arith; balance = ground (arith, keyed i inc ei, keyed r res er) },
    )
    | inr h' ↦ (
      o,
      ground (arith, find-after_trade i r k s inc res),
      record { same = refl; balance = ground (arith, keyed i inc ei, keyed r res er) },
    )
  ]
]

pub IsKeyed-after_trade :
    (i r : OrderId) (s : MatchState) (inc res : Order)
    → IsKeyed s.orders
    → find i s.orders ≡ some inc
    → find r s.orders ≡ some res
    → IsKeyed (after_trade i r s inc res).orders
unfolding fill_incoming fill_resting
IsKeyed-after_trade i r s inc res keyed ei er k o h =
    ground (arith, find-after_trade i r k s inc res, keyed i inc ei, keyed r res er, keyed k o)

pub LevelRun-IsKeyed :
    {i : OrderId} {level left : PriceLevel} {s s' : MatchState} {ts : List Trade}
    → LevelRun i level s left s' ts
    → IsKeyed s.orders
    → IsKeyed s'.orders
LevelRun-IsKeyed emptied keyed = keyed
LevelRun-IsKeyed (satisfied inc ei z) keyed = keyed
LevelRun-IsKeyed {i} (takes {r = r} {s = s} inc res ei er z y run) keyed =
    LevelRun-IsKeyed run (IsKeyed-after_trade i r s inc res keyed ei er)
LevelRun-IsKeyed {i} (bites {r = r} {s = s} inc res ei er z y) keyed =
    IsKeyed-after_trade i r s inc res keyed ei er

pub TableRun-IsKeyed :
    {i : OrderId} {m m' : LevelMap} {s s' : MatchState} {ts : List Trade}
    → TableRun i m s m' s' ts
    → IsKeyed s.orders
    → IsKeyed s'.orders
TableRun-IsKeyed ended keyed = keyed
TableRun-IsKeyed (stopped inc ei z) keyed = keyed
TableRun-IsKeyed (passes inc ei z y run rest) keyed =
    TableRun-IsKeyed rest (LevelRun-IsKeyed run keyed)

abbrev nothing_traded : (k : OrderId) (o : Order) → Filled k [] o o
nothing_traded k o = record { same = refl; balance = omega arith }

pub LevelRun-Filled :
    {i : OrderId} {level left : PriceLevel} {s s' : MatchState} {ts : List Trade}
    → LevelRun i level s left s' ts
    → IsKeyed s.orders
    → All (λ r. r ≢ i) level
    → (k : OrderId) (o : Order) → find k s.orders ≡ some o
    → FilledIn k ts o s'.orders
LevelRun-Filled emptied keyed ne k o e = (o, e, nothing_traded k o)
LevelRun-Filled (satisfied inc ei z) keyed ne k o e = (o, e, nothing_traded k o)
LevelRun-Filled {i} (takes {r = r} {s = s} {ts = ts} inc res ei er z y run) keyed ne k o e =
    let (o1, e1, f1) = trade-Filled i r k s inc res o keyed ne.0 ei er e in
    let (o2, e2, f2) =
      LevelRun-Filled run (IsKeyed-after_trade i r s inc res keyed ei er) ne.1 k o1 e1 in
    (o2, e2, Filled-trans k (make_trade s inc res ∷ []) ts o o1 o2 f1 f2)
LevelRun-Filled {i} (bites {r = r} {s = s} inc res ei er z y) keyed ne k o e =
    trade-Filled i r k s inc res o keyed ne.0 ei er e

pub TableRun-Filled :
    {i : OrderId} {m m' : LevelMap} {s s' : MatchState} {ts : List Trade}
    → TableRun i m s m' s' ts
    → IsKeyed s.orders
    → All (λ r. r ≢ i) (pointers m)
    → (k : OrderId) (o : Order) → find k s.orders ≡ some o
    → FilledIn k ts o s'.orders
TableRun-Filled ended keyed ne k o e = (o, e, nothing_traded k o)
TableRun-Filled (stopped inc ei z) keyed ne k o e = (o, e, nothing_traded k o)
TableRun-Filled (passes {level = level} {m = m} {ts = ts} {ts' = ts'} inc ei z y run rest) keyed ne
      k o e =
    let (o1, e1, f1) = LevelRun-Filled run keyed (All-append_left _ level (pointers m) ne) k o e in
    let (o2, e2, f2) =
      TableRun-Filled rest (LevelRun-IsKeyed run keyed) (All-append_right _ level (pointers m) ne) k
        o1 e1 in
    (o2, e2, Filled-trans k ts ts' o o1 o2 f1 f2)

-- What `match_table` needs of the orders: its pointers can be read, each order is owned under
-- its own id, and the incoming order is not in the map.
pub record IsReady (i : OrderId) (m : LevelMap) (s : MatchState) : Type 0 where
  pub incoming : Has s.orders i
  pub resting : All (Has s.orders) (pointers m)
  pub keyed : IsKeyed s.orders
  pub apart : All (λ r. r ≢ i) (pointers m)

-- The run behind a call of `match_table`.
pub record Matched (i : OrderId) (m : LevelMap) (s : MatchState) : Type 0 where
  pub left : LevelMap
  pub after : MatchState
  pub trades : List Trade
  pub last : Order
  pub run : TableRun i m s left after trades
  pub is_last : find i after.orders ≡ some last
  pub result :
      match_table i m s
      ≡ some (
        left,
        record after { orders = insert i (set_status (final_status last) last) after.orders },
        trades,
      )

pub match_table-Matched :
    (i : OrderId) (m : LevelMap) (s : MatchState)
    → Has s.orders i
    → All (Has s.orders) (pointers m)
    → Matched i m s
unfolding match_table
match_table-Matched i m s hi h =
    let (m', s', ts, e, run) = match_levels-TableRun i m s hi h in
    let (o, eo) = TableRun-Has run i hi in
    record {
      left = m';
      after = s';
      trades = ts;
      last = o;
      run = run;
      is_last = eo;
      result = ground (arith, e, eo);
    }

-- The loop ends without a fault, and then every order has its old terms, and has lost exactly the
-- quantity of the trades that name it.
pub match_table-Filled :
    (i : OrderId) (m : LevelMap) (s : MatchState)
    → IsReady i m s
    → (m' : LevelMap) × (s' : MatchState) × (ts : List Trade) × (match_table i m s
        ≡ some (m', s', ts))
      × ((k : OrderId) (o : Order) → find k s.orders ≡ some o → FilledIn k ts o s'.orders)
match_table-Filled i m s ready =
    let r = match_table-Matched i m s ready.incoming ready.resting in
    (
      r.left,
      record (r.after) {
        orders = insert i (set_status (final_status r.last) r.last) (r.after).orders;
      },
      r.trades,
      r.result,
      λ k o e. finish r k o (TableRun-Filled r.run ready.keyed ready.apart k o e),
    )
  where
    finish :
        (r : Matched i m s) (k : OrderId) (o : Order)
        → FilledIn k r.trades o (r.after).orders
        → FilledIn k r.trades o
            (insert i (set_status (final_status r.last) r.last) (r.after).orders)
    finish r k o (o', e, f) = elim (Bool-cases (i == k)) [
      | inl h ↦ (
        set_status (final_status r.last) r.last,
        ground (arith, find-insert i k (set_status (final_status r.last) r.last) (r.after).orders),
        record {
          same = ground (arith, f.same, r.is_last, e);
          balance = ground (arith, f.balance, r.is_last, e);
        },
      )
      | inr h ↦ (
        o',
        ground
            (arith, find-insert i k (set_status (final_status r.last) r.last) (r.after).orders, e),
        f,
      )
    ]
