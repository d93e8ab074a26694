-- ===== src/Worker/Settle.antt =====
-- The loop over the trades: it leaves the book alone, and forgets only orders with nothing left.
use beta_trader.Prelude.{
  ◌≡◌, refl, ◌∙◌, inl, inr, some, none, List, [], ◌∷◌, find, find-erase, arith, Bool-cases,
  Option-cases, if◌then◌else◌, ◌==◌,
}
use beta_trader.Common.Types.{OrderId}
use beta_trader.Common.Order.{Order, Trade}
use beta_trader.Book.{Store}
use beta_trader.Manager.{remove_order_by_id, get_order_by_id}
use beta_trader.Matcher.Fills.{IsKeyed}
use beta_trader.Matcher.Resting.{Positive}
use beta_trader.Publisher.{trade_reports}
use beta_trader.Worker.{
  update_order, add_trade, World, forget_order, forget_if_filled, settle_trade, settle_new,
  settle_modified, send_db, publish,
}

-- The orders of `orders'` are orders of `orders`, and those with something left are all there.
pub record Keeps (orders orders' : Store) : Type 0 where
  pub part : (k : OrderId) (o : Order) → find k orders' ≡ some o → find k orders ≡ some o
  pub positive : (k : OrderId) → Positive orders k → find k orders' ≡ find k orders

Keeps-refl : (orders : Store) → Keeps orders orders
Keeps-refl orders = record { part = λ k o e. e; positive = λ k p. refl }

Keeps-trans : (a b c : Store) → Keeps a b → Keeps b c → Keeps a c
Keeps-trans a b c f g = record {
  part = λ k o e. f.part k o (g.part k o e);
  positive =
      λ k (o, e, p). g.positive k (o, f.positive k (o, e, p) ∙ e, p) ∙ f.positive k (o, e, p);
}

pub Keeps-IsKeyed :
    (orders orders' : Store) → Keeps orders orders' → IsKeyed orders → IsKeyed orders'
Keeps-IsKeyed orders orders' f keyed k o e = keyed k o (f.part k o e)

pub find-forget_order :
    (id k : OrderId) (w : World)
    → find k (forget_order id w).orders ≡ (if id == k then none else find k w.orders)
unfolding forget_order remove_order_by_id
find-forget_order id k w = ground (arith, find-erase id k w.orders)

-- An order that is owned with nothing left is forgotten without a loss.
Keeps-forget_if_filled :
    (o : Order) (w : World)
    → ((o' : Order)
        → find o.core_order_id w.orders ≡ some o'
        → o'.remaining_quantity ≡ o.remaining_quantity)
    → Keeps w.orders (forget_if_filled o w).orders
unfolding forget_if_filled
Keeps-forget_if_filled o w h = elim (Bool-cases (o.remaining_quantity == 0)) [
  | inr some' ↦ rw some' (Keeps-refl w.orders)
  | inl gone ↦ rw gone (record {
    part = λ k x e. ground (arith, find-forget_order o.core_order_id k w);
    positive = λ k (x, e, p). ground (arith, find-forget_order o.core_order_id k w, h x);
  })
]

book-forget_if_filled :
    (o : Order) (w : World)
    → ((forget_if_filled o w).book ≡ w.book) × ((forget_if_filled o w).trade_id ≡ w.trade_id)
unfolding forget_if_filled forget_order
book-forget_if_filled o w = ground arith

-- `w'` has the book of `w`, and keeps its orders.
pub record Settles (w w' : World) : Type 0 where
  pub keeps : Keeps w.orders w'.orders
  pub book : w'.book ≡ w.book
  pub trade_id : w'.trade_id ≡ w.trade_id

Settles-trans : (u v w : World) → Settles u v → Settles v w → Settles u w
Settles-trans u v w f g = record {
  keeps = Keeps-trans u.orders v.orders w.orders f.keeps g.keeps;
  book = g.book ∙ f.book;
  trade_id = g.trade_id ∙ f.trade_id;
}

Settles-forget_if_filled :
    (o : Order) (w : World)
    → ((o' : Order)
        → find o.core_order_id w.orders ≡ some o'
        → o'.remaining_quantity ≡ o.remaining_quantity)
    → Settles w (forget_if_filled o w)
Settles-forget_if_filled o w h = record {
  keeps = Keeps-forget_if_filled o w h;
  book = (book-forget_if_filled o w).0;
  trade_id = (book-forget_if_filled o w).1;
}

pub settle_trade-Settles : (t : Trade) (w : World) → IsKeyed w.orders → Settles w (settle_trade t w)
unfolding settle_trade get_order_by_id
settle_trade-Settles t w keyed = elim (Option-cases (find t.buy_order_id w.orders)) [
  | inl none' ↦ rw (none', settle_trade) (same w)
  | inr (buyer, eb) ↦ elim (Option-cases (find t.sell_order_id w.orders)) [
    | inl none' ↦ rw (eb, settle_trade) (rw (none', settle_trade) (same w))
    | inr (seller, es) ↦
        let v : World =
          publish (trade_reports w.env t buyer seller)
            (send_db (update_order buyer ∷ update_order seller ∷ []) w) in
        let r = both buyer seller v (keyed _ buyer eb) (keyed _ seller es) eb es in
        rw (eb, settle_trade)
          (rw (es, settle_trade) (record { keeps = r.keeps; book = r.book; trade_id = r.trade_id }))
  ]
]
  where
    same : (v : World) → Settles v v
    same v = record { keeps = Keeps-refl v.orders; book = refl; trade_id = refl }

    both :
        (buyer seller : Order) (v : World)
        → buyer.core_order_id ≡ t.buy_order_id
        → seller.core_order_id ≡ t.sell_order_id
        → find t.buy_order_id v.orders ≡ some buyer
        → find t.sell_order_id v.orders ≡ some seller
        → Settles v (forget_if_filled seller (forget_if_filled buyer v))
    both buyer seller v kb ks eb es =
        let first = Settles-forget_if_filled buyer v (λ x e. ground (arith, eb, kb, e)) in
        Settles-trans v (forget_if_filled buyer v) _ first (
          Settles-forget_if_filled seller (forget_if_filled buyer v)
            (λ x e. ground (arith, (first.keeps).part seller.core_order_id x e, es, ks)))

pub settle_modified-Settles :
    (ts : List Trade) (w : World) → IsKeyed w.orders → Settles w (settle_modified ts w)
unfolding settle_modified
settle_modified-Settles [] w keyed = record {
  keeps = Keeps-refl w.orders;
  book = refl;
  trade_id = refl;
}
settle_modified-Settles (t ∷ ts) w keyed =
    let first = settle_trade-Settles t w keyed in
    Settles-trans w (settle_trade t w) _ first (
      settle_modified-Settles ts (settle_trade t w)
        (Keeps-IsKeyed w.orders (settle_trade t w).orders first.keeps keyed))

pub settle_new-Settles :
    (ts : List Trade) (w : World) → IsKeyed w.orders → Settles w (settle_new ts w)
unfolding settle_new
settle_new-Settles [] w keyed = record { keeps = Keeps-refl w.orders; book = refl; trade_id = refl }
settle_new-Settles (t ∷ ts) w keyed =
    let v = send_db (add_trade t ∷ []) w in
    let first = settle_trade-Settles t v keyed in
    let rest =
      settle_new-Settles ts (settle_trade t v)
        (Keeps-IsKeyed w.orders (settle_trade t v).orders first.keeps keyed) in
    record {
      keeps = Keeps-trans w.orders (settle_trade t v).orders _ first.keeps rest.keeps;
      book = rest.book ∙ first.book;
      trade_id = rest.trade_id ∙ first.trade_id;
    }
