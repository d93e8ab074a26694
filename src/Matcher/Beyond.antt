-- ===== src/Matcher/Beyond.antt =====
-- The levels beyond the price of an order, before and after matching.
use beta_trader.Prelude.{
  ◌≡◌, ◌≢◌, refl, ap, ◌∙◌, Bool, false, List, [], ◌∷◌, All, All-append_left, All-append_right,
  arith, ltb, if◌then◌else◌,
}
use beta_trader.Common.Types.{OrderSide, buy, sell, OrderType, limit, OrderId, Price}
use beta_trader.Common.Order.{Order, Trade}
use beta_trader.Book.{PriceLevel, LevelMap, pointers}
use beta_trader.Matcher.Run.{TableRun, ended, stopped, passes}
use beta_trader.Matcher.Fills.{IsKeyed, LevelRun-IsKeyed}
use beta_trader.Matcher.Priority.{Incoming, LevelRun-Incoming}
use beta_trader.Matcher.Prices.{out_of_reach-terms, AllOutOfReach}
use beta_trader.Matcher.{MatchState, out_of_reach, keep_level}

-- Whether an order of this type, side and price may not trade at the price `p`.
abbrev pub is_beyond : OrderType → OrderSide → Price → Price → Bool
is_beyond limit buy own p = ltb own p
is_beyond limit sell own p = ltb p own
is_beyond t side own p = false

-- The levels at these prices.
abbrev pub beyond : OrderType → OrderSide → Price → LevelMap → LevelMap
beyond t side own [] = []
beyond t side own ((p, level) ∷ m) =
    if is_beyond t side own p then (p, level) ∷ beyond t side own m else beyond t side own m

out_of_reach-is_beyond :
    (o : Order) (p : Price) → is_beyond o.order_type o.order_side o.price p ≡ out_of_reach o p
unfolding out_of_reach
out_of_reach-is_beyond o p = ground arith

beyond-keep_level :
    (o : Order) (p : Price) (left : PriceLevel) (m : LevelMap)
    → is_beyond o.order_type o.order_side o.price p ≡ false
    → beyond o.order_type o.order_side o.price (keep_level p left m)
      ≡ beyond o.order_type o.order_side o.price m
beyond-keep_level o p [] m h = refl
beyond-keep_level o p (r ∷ rs) m h = rw h

pub TableRun-beyond :
    {i : OrderId} {m m' : LevelMap} {s s' : MatchState} {ts : List Trade} (inc0 : Order)
    → TableRun i m s m' s' ts
    → IsKeyed s.orders
    → All (λ r. r ≢ i) (pointers m)
    → Incoming s.orders i inc0
    → beyond inc0.order_type inc0.order_side inc0.price m'
      ≡ beyond inc0.order_type inc0.order_side inc0.price m
TableRun-beyond inc0 ended keyed ne hi = refl
TableRun-beyond inc0 (stopped inc ei z) keyed ne hi = refl
TableRun-beyond inc0
      (passes {p = p} {level = level} {level' = level'} {m = m} {m' = m'} inc ei z y run rest) keyed
      ne (o, e, t) =
    let ne1 = All-append_left _ level (pointers m) ne in
    let ne2 = All-append_right _ level (pointers m) ne in
    let near : is_beyond inc0.order_type inc0.order_side inc0.price p ≡ false =
      out_of_reach-is_beyond inc0 p
      ∙ out_of_reach-terms inc0 inc p (ground (arith, t, e, ei))
      ∙ y in
    beyond-keep_level inc0 p level' m' near
    ∙ TableRun-beyond inc0 rest (LevelRun-IsKeyed run keyed) ne2
        (LevelRun-Incoming run keyed ne1 inc0 (o, e, t))
    ∙ rw near

-- Where nothing is within reach, all of the map is beyond.
pub AllOutOfReach-beyond :
    (o : Order) (m : LevelMap) → AllOutOfReach o m → m ≡ beyond o.order_type o.order_side o.price m
AllOutOfReach-beyond o [] h = refl
AllOutOfReach-beyond o ((p, level) ∷ m) (far, h) =
    rw (out_of_reach-is_beyond o p ∙ far) (ap (λ n. (p, level) ∷ n) (AllOutOfReach-beyond o m h))
