-- ===== src/Worker/Skipped.antt =====
-- What the settlement of trades leaves out: once an order with nothing left is forgotten, the further
-- trades of that order are not settled.
use beta_trader.Prelude.{
  ◌≡◌, ◌⊎◌, refl, inl, inr, some, none, List, [], ◌∷◌, find, arith, All, ◌==◌, ◌&&◌, if◌then◌else◌,
}
use beta_trader.Common.Types.{OrderId}
use beta_trader.Common.Order.{Order, Trade}
use beta_trader.Manager.{get_order_by_id}
use beta_trader.Matcher.Fills.{IsKeyed}
use beta_trader.Worker.{World, settle_trade, forget_if_filled, settle_new, send_db, add_trade}
use beta_trader.Worker.Settle.{find-forget_order}

-- The trade names the order.
abbrev pub Names : OrderId → Trade → Type 0
Names i t = (t.buy_order_id ≡ i) ⊎ (t.sell_order_id ≡ i)

settle_trade-gone :
    (i : OrderId) (t : Trade) (w : World)
    → Names i t
    → find i w.orders ≡ none
    → settle_trade t w ≡ w
unfolding settle_trade get_order_by_id
settle_trade-gone i t w (inl e) gone = ground arith
settle_trade-gone i t w (inr e) gone = ground arith

find-forget_if_filled :
    (o : Order) (k : OrderId) (w : World)
    → find k (forget_if_filled o w).orders
      ≡ (if o.remaining_quantity == 0 && o.core_order_id == k then none else find k w.orders)
unfolding forget_if_filled
find-forget_if_filled o k w = ground (arith, find-forget_order o.core_order_id k w)

-- A settled trade of an order with nothing left forgets the order.
settle_trade-forgets :
    (i : OrderId) (o buyer seller : Order) (t : Trade) (w : World)
    → IsKeyed w.orders
    → Names i t
    → find i w.orders ≡ some o
    → o.remaining_quantity ≡ 0
    → find t.buy_order_id w.orders ≡ some buyer
    → find t.sell_order_id w.orders ≡ some seller
    → find i (settle_trade t w).orders ≡ none
unfolding settle_trade get_order_by_id
settle_trade-forgets i o buyer seller t w keyed names ei z eb es =
    rw (eb, settle_trade) (rw (es, settle_trade) (both names _))
  where
    both :
        Names i t
        → (v : World) → find i (forget_if_filled seller (forget_if_filled buyer v)).orders ≡ none
    both (inl e) v = ground (
      arith,
      find-forget_if_filled seller i (forget_if_filled buyer v),
      find-forget_if_filled buyer i v,
      keyed t.buy_order_id buyer eb,
      eb,
      ei,
    )
    both (inr e) v = ground (
      arith,
      find-forget_if_filled seller i (forget_if_filled buyer v),
      keyed t.sell_order_id seller es,
      es,
      ei,
    )

settle_new-gone :
    (i : OrderId) (ts : List Trade) (w : World)
    → All (Names i) ts
    → find i w.orders ≡ none
    → ((settle_new ts w).orders ≡ w.orders) × ((settle_new ts w).reports ≡ w.reports)
unfolding settle_new
settle_new-gone i [] w names gone = (refl, refl)
settle_new-gone i (t ∷ ts) w names gone =
    let v = send_db (add_trade t ∷ []) w in
    rw (settle_trade-gone i t v names.0 gone, settle_new) (settle_new-gone i ts v names.1 gone)

-- If orders are owned under their own ids, nothing is left of an owned order, and each of the given
-- trades names it, where both parties of the first trade are owned, then only the first trade is
-- settled: the orders and the reports are as if there were no further trades.
pub settle_new-skips :
    (i : OrderId) (o buyer seller : Order) (t : Trade) (ts : List Trade) (w : World)
    → IsKeyed w.orders
    → find i w.orders ≡ some o
    → o.remaining_quantity ≡ 0
    → find t.buy_order_id w.orders ≡ some buyer
    → find t.sell_order_id w.orders ≡ some seller
    → Names i t
    → All (Names i) ts
    → ((settle_new (t ∷ ts) w).orders ≡ (settle_new (t ∷ []) w).orders)
      × ((settle_new (t ∷ ts) w).reports ≡ (settle_new (t ∷ []) w).reports)
unfolding settle_new
settle_new-skips i o buyer seller t ts w keyed ei z eb es names more =
    let v = send_db (add_trade t ∷ []) w in
    settle_new-gone i ts (settle_trade t v) more
      (settle_trade-forgets i o buyer seller t v keyed names ei z eb es)
