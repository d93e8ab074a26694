-- ===== src/Matcher/Priority.antt =====
-- The order in which matching comes to the resting orders: by price, and then by time.
use beta_trader.Prelude.{
  ◌≡◌, refl, sym, ap, ap₂, ◌∙◌, ◌≢◌, ◌⊎◌, inl, inr, some, List, [], ◌∷◌, ◌++◌, map, append_assoc,
  append-nil, find, All, All-map, All-append, All-append_left, All-append_right, arith,
}
use mathlib.Core.List.{map-append}
use beta_trader.Common.Types.{OrderSide, buy, sell, OrderId}
use beta_trader.Common.Order.{Order, Trade}
use beta_trader.Book.{Store, PriceLevel, LevelMap, pointers}
use beta_trader.Matcher.Run.{
  LevelRun, emptied, satisfied, takes, bites, TableRun, ended, stopped, passes, find-after_trade,
}
use beta_trader.Matcher.Fills.{
  IsKeyed, terms, FilledIn, LevelRun-Filled, TableRun-Filled, LevelRun-IsKeyed, IsKeyed-after_trade,
  trade-Filled,
}
use beta_trader.Matcher.{
  MatchState, make_trade, fill_incoming, fill_resting, after_trade, keep_level,
}

-- The resting side of a trade, for an incoming order of the given side.
abbrev pub counterparty : OrderSide → Trade → OrderId
counterparty buy t = t.sell_order_id
counterparty sell t = t.buy_order_id

-- Nothing remains of the order.
abbrev pub Spent : Store → OrderId → Type 0
Spent orders k = (o : Order) × (find k orders ≡ some o) × (o.remaining_quantity ≡ 0)

-- The trades serve the orders of a queue from its front: those that leave the queue have nothing
-- left, each has one trade, and at most one more trade is with the order that is then in front.
pub record Serves (side : OrderSide) (old left : List OrderId) (orders : Store) (ts : List Trade)
    : Type 0 where
  pub gone : List OrderId
  pub split : old ≡ gone ++ left
  pub served :
      (map (counterparty side) ts ≡ gone)
      ⊎ ((r : OrderId) × (rest : List OrderId) × (left ≡ r ∷ rest)
          × (map (counterparty side) ts ≡ gone ++ r ∷ []))
  pub spent : All (Spent orders) gone

-- The incoming order, up to what matching changes in it.
abbrev pub Incoming : Store → OrderId → Order → Type 0
Incoming orders i inc = (o : Order) × (find i orders ≡ some o) × (terms o ≡ terms inc)

FilledIn-Spent :
    (k : OrderId) (ts : List Trade) (o : Order) (orders : Store)
    → o.remaining_quantity ≡ 0
    → FilledIn k ts o orders
    → Spent orders k
FilledIn-Spent k ts o orders z (o', e, f) = (o', e, omega (arith, f.balance))

pub LevelRun-Incoming :
    {i : OrderId} {level left : PriceLevel} {s s' : MatchState} {ts : List Trade}
    → LevelRun i level s left s' ts
    → IsKeyed s.orders
    → All (λ r. r ≢ i) level
    → (inc : Order) → Incoming s.orders i inc
    → Incoming s'.orders i inc
LevelRun-Incoming {i} run keyed ne inc (o, e, t) =
    let (o', e', f) = LevelRun-Filled run keyed ne i o e in (o', e', f.same ∙ t)

pub Incoming-after_trade :
    (i r : OrderId) (s : MatchState) (inc res inc0 : Order)
    → IsKeyed s.orders
    → r ≢ i
    → find i s.orders ≡ some inc
    → find r s.orders ≡ some res
    → Incoming s.orders i inc0
    → Incoming (after_trade i r s inc res).orders i inc0
Incoming-after_trade i r s inc res inc0 keyed ne ei er (o, e, t) =
    let (o', e', f) = trade-Filled i r i s inc res o keyed ne ei er e in (o', e', f.same ∙ t)

pub counterparty-make_trade :
    (i r : OrderId) (s : MatchState) (inc res inc0 : Order)
    → IsKeyed s.orders
    → find i s.orders ≡ some inc
    → find r s.orders ≡ some res
    → Incoming s.orders i inc0
    → counterparty inc0.order_side (make_trade s inc res) ≡ r
unfolding make_trade
counterparty-make_trade i r s inc res inc0 keyed ei er (o, e, t) =
    let side : inc0.order_side ≡ inc.order_side = ground (arith, t, e, ei) in
    rw side (go inc.order_side refl)
  where
    go : (d : OrderSide) → inc.order_side ≡ d → counterparty d (make_trade s inc res) ≡ r
    go buy h = ground (arith, keyed r res er)
    go sell h = ground (arith, keyed r res er)

-- A level that is not used up leaves nothing of the incoming order.
pub LevelRun-left :
    {i : OrderId} {level left : PriceLevel} {s s' : MatchState} {ts : List Trade}
    → LevelRun i level s left s' ts
    → All (λ r. r ≢ i) level
    → (left ≡ []) ⊎ Spent s'.orders i
unfolding fill_incoming
LevelRun-left emptied ne = inl refl
LevelRun-left (satisfied inc ei z) ne = inr (inc, ei, z)
LevelRun-left (takes inc res ei er z y run) ne = LevelRun-left run ne.1
LevelRun-left {i} (bites {r = r} {s = s} inc res ei er z y) ne =
    inr
      (fill_incoming inc res, ground (arith, find-after_trade i r i s inc res, ne.0), ground arith)

LevelRun-Serves :
    {i : OrderId} {level left : PriceLevel} {s s' : MatchState} {ts : List Trade} (inc0 : Order)
    → LevelRun i level s left s' ts
    → IsKeyed s.orders
    → All (λ r. r ≢ i) level
    → Incoming s.orders i inc0
    → Serves inc0.order_side level left s'.orders ts
unfolding fill_resting
LevelRun-Serves inc0 emptied keyed ne h = record {
  gone = [];
  split = refl;
  served = inl refl;
  spent = tt;
}
LevelRun-Serves inc0 (satisfied inc ei z) keyed ne h = record {
  gone = [];
  split = refl;
  served = inl refl;
  spent = tt;
}
LevelRun-Serves {i} inc0 (bites {r = r} {rs = rs} {s = s} inc res ei er z y) keyed ne h = record {
  gone = [];
  split = refl;
  served =
      inr
        (r, rs, refl, ap (λ c. c ∷ []) (counterparty-make_trade i r s inc res inc0 keyed ei er h));
  spent = tt;
}
LevelRun-Serves {i} inc0 (takes {r = r} {s = s} {ts = ts} inc res ei er z y run) keyed ne h =
    let keyed' = IsKeyed-after_trade i r s inc res keyed ei er in
    let rest =
      LevelRun-Serves inc0 run keyed' ne.1
        (Incoming-after_trade i r s inc res inc0 keyed ne.0 ei er h) in
    let first = counterparty-make_trade i r s inc res inc0 keyed ei er h in
    record {
      gone = r ∷ rest.gone;
      split = ap (◌∷◌ r) rest.split;
      served = elim rest.served [
        | inl e ↦ inl (ground (arith, first, e))
        | inr (q, more, e, e') ↦ inr (q, more, e, ground (arith, first, e'))
      ];
      spent = (
        FilledIn-Spent r ts (fill_resting inc res) _ (ground arith) (
            LevelRun-Filled run keyed' ne.1 r (fill_resting inc res)
              (ground (arith, find-after_trade i r r s inc res))),
        rest.spent,
      );
    }

-- With nothing left of the incoming order the loop does not go on.
pub TableRun-Spent' :
    {i : OrderId} {m m' : LevelMap} {s s' : MatchState} {ts : List Trade}
    → TableRun i m s m' s' ts
    → Spent s.orders i
    → (m' ≡ m) × (ts ≡ [])
TableRun-Spent' ended h = (refl, refl)
TableRun-Spent' (stopped inc ei z) h = (refl, refl)
TableRun-Spent' (passes inc ei z y run rest) (o, e, h) = absurd (ground arith)

pub TableRun-Spent :
    {i : OrderId} {m m' : LevelMap} {s s' : MatchState} {ts : List Trade}
    → TableRun i m s m' s' ts
    → IsKeyed s.orders
    → All (λ r. r ≢ i) (pointers m)
    → (k : OrderId) → Spent s.orders k
    → Spent s'.orders k
TableRun-Spent {ts = ts} run keyed ne k (o, e, z) =
    FilledIn-Spent k ts o _ z (TableRun-Filled run keyed ne k o e)

Serves-append :
    (side : OrderSide) (level queue left : List OrderId) (orders orders' : Store)
    (ts ts' : List Trade)
    → ((k : OrderId) → Spent orders k → Spent orders' k)
    → Serves side level [] orders ts
    → Serves side queue left orders' ts'
    → Serves side (level ++ queue) left orders' (ts ++ ts')
Serves-append side level queue left orders orders' ts ts' keep f g = record {
  gone = f.gone ++ g.gone;
  split = ground (arith, f.split, g.split, append-nil f.gone, append_assoc f.gone g.gone left);
  served = elim f.served [
    | inr (r, rest, e, e') ↦ absurd (cc e)
    | inl e ↦ elim g.served [
      | inl e' ↦ inl (map-append (counterparty side) ts ts' ∙ ap₂ ◌++◌ e e')
      | inr (r, rest, e', e'') ↦ inr (
        r,
        rest,
        e',
        map-append (counterparty side) ts ts'
            ∙ ap₂ ◌++◌ e e''
            ∙ sym (append_assoc f.gone g.gone (r ∷ [])),
      )
    ]
  ];
  spent = All-append (Spent orders') f.gone g.gone (All-map _ _ f.gone keep f.spent) g.spent;
}

Serves-left :
    (side : OrderSide) (level queue : List OrderId) (q : OrderId) (qs : List OrderId)
    (orders orders' : Store) (ts : List Trade)
    → ((k : OrderId) → Spent orders k → Spent orders' k)
    → Serves side level (q ∷ qs) orders ts
    → Serves side (level ++ queue) (q ∷ qs ++ queue) orders' (ts ++ [])
Serves-left side level queue q qs orders orders' ts keep f = record {
  gone = f.gone;
  split = ground (arith, f.split, append_assoc f.gone (q ∷ qs) queue);
  served = elim f.served [
    | inl e ↦ inl (ground (arith, e, append-nil ts))
    | inr (r, rest, e, e') ↦
        inr (r, rest ++ queue, ground (arith, e), ground (arith, append-nil ts, e'))
  ];
  spent = All-map _ _ f.gone keep f.spent;
}

pub TableRun-Serves :
    {i : OrderId} {m m' : LevelMap} {s s' : MatchState} {ts : List Trade} (inc0 : Order)
    → TableRun i m s m' s' ts
    → IsKeyed s.orders
    → All (λ r. r ≢ i) (pointers m)
    → Incoming s.orders i inc0
    → Serves inc0.order_side (pointers m) (pointers m') s'.orders ts
TableRun-Serves inc0 ended keyed ne h = record {
  gone = [];
  split = refl;
  served = inl refl;
  spent = tt;
}
TableRun-Serves inc0 (stopped inc ei z) keyed ne h = record {
  gone = [];
  split = refl;
  served = inl refl;
  spent = tt;
}
TableRun-Serves {i} inc0
      (passes {p = p} {level = level} {level' = level'} {m = m} {m' = m'} {s' = s'} {s'' = s''}
        {ts = ts} {ts' = ts'} inc ei z y run rest)
      keyed ne h =
    let ne1 = All-append_left _ level (pointers m) ne in
    let ne2 = All-append_right _ level (pointers m) ne in
    let keyed' = LevelRun-IsKeyed run keyed in
    join level' (LevelRun-left run ne1) (LevelRun-Serves inc0 run keyed ne1 h)
      (TableRun-Serves inc0 rest keyed' ne2 (LevelRun-Incoming run keyed ne1 inc0 h))
      (TableRun-Spent' rest) (TableRun-Spent rest keyed' ne2)
  where
    join :
        (left : PriceLevel)
        → (left ≡ []) ⊎ Spent s'.orders i
        → Serves inc0.order_side level left s'.orders ts
        → Serves inc0.order_side (pointers m) (pointers m') s''.orders ts'
        → (Spent s'.orders i → (m' ≡ m) × (ts' ≡ []))
        → ((k : OrderId) → Spent s'.orders k → Spent s''.orders k)
        → Serves inc0.order_side
            (level ++ pointers m)
            (pointers (keep_level p left m'))
            s''.orders
            (ts ++ ts')
    join [] _ f g still keep =
        Serves-append inc0.order_side level (pointers m) (pointers m') s'.orders s''.orders ts ts'
          keep f g
    join (q ∷ qs) (inl e) f g still keep = cc
    join (q ∷ qs) (inr sp) f g still keep =
        rw ((still sp).0, (still sp).1)
          (Serves-left inc0.order_side level (pointers m) q qs s'.orders s''.orders ts keep f)
