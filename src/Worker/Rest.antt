-- ===== src/Worker/Rest.antt =====
-- What is left of an order goes into the book, and the book stays uncrossed.
use beta_trader.Prelude.{
  ◌<◌, ◌≡◌, refl, sym, subst, inl, inr, true, some, find, All, All-map, All-zip, arith, ltb,
  Bool-cases, Option-cases,
}
use beta_trader.Common.Types.{OrderSide, buy, sell, limit, OrderId, Price}
use beta_trader.Common.Order.{Order}
use beta_trader.Book.{insert_order, insert_side, push_back}
use beta_trader.Book.Sound.{push_back-IsSound, push_back-AllPrices}
use beta_trader.Matcher.{out_of_reach}
use beta_trader.Matcher.Fills.{IsKeyed}
use beta_trader.Matcher.Prices.{AllOutOfReach}
use beta_trader.Matcher.Ends.{opposite_map}
use beta_trader.Worker.{World, rest_order}
use beta_trader.Worker.Consistent.{IsConsistent, IsOutside}

out_of_reach-lt :
    (o : Order) (p : Price)
    → o.order_type ≡ limit
    → o.order_side ≡ buy
    → out_of_reach o p ≡ true
    → o.price < p
unfolding out_of_reach
out_of_reach-lt o p t d h = ground arith

out_of_reach-gt :
    (o : Order) (p : Price)
    → o.order_type ≡ limit
    → o.order_side ≡ sell
    → out_of_reach o p ≡ true
    → p < o.price
unfolding out_of_reach
out_of_reach-gt o p t d h = ground arith

module _ (i : OrderId) (o : Order) (w : World) (h : IsConsistent w) (out : IsOutside i w.book)
    (owned : find i w.orders ≡ some o) (pos : 0 < o.remaining_quantity)
    (is_limit : o.order_type ≡ limit) where
  buy_rests :
      o.order_side ≡ buy
      → AllOutOfReach o w.book.asks
      → (v : World) → v.orders ≡ w.orders
      → v.book ≡ record (w.book) { bids = push_back buy o.price i w.book.bids }
      → IsConsistent v
  buy_rests d far v e e' =
      let sound =
        push_back-IsSound w.orders buy o.price i w.book.bids (o, owned, refl, d, pos) out.bids_apart
          h.bids_sound in
      record {
        keyed = subst IsKeyed (sym e) h.keyed;
        bids_sound = rw (e, e') sound;
        asks_sound = rw (e, e') h.asks_sound;
        uncrossed = rw e' (
            All-map _ _ w.book.asks
              (λ a c.
                push_back-AllPrices (λ p. p < a.0) buy o.price i w.book.bids
                  (out_of_reach-lt o a.0 is_limit d c.0) c.1)
              (All-zip _ _ w.book.asks far h.uncrossed));
      }

  sell_rests :
      o.order_side ≡ sell
      → AllOutOfReach o w.book.bids
      → (v : World) → v.orders ≡ w.orders
      → v.book ≡ record (w.book) { asks = push_back sell o.price i w.book.asks }
      → IsConsistent v
  sell_rests d far v e e' =
      let sound =
        push_back-IsSound w.orders sell o.price i w.book.asks (o, owned, refl, d, pos)
          out.asks_apart h.asks_sound in
      record {
        keyed = subst IsKeyed (sym e) h.keyed;
        bids_sound = rw (e, e') h.bids_sound;
        asks_sound = rw (e, e') sound;
        uncrossed = rw e' (
            push_back-AllPrices (λ p. All (λ d. d.0 < p) w.book.bids) sell o.price i w.book.asks
              (All-map _ _ w.book.bids (λ b c. out_of_reach-gt o b.0 is_limit d c) far)
              h.uncrossed);
      }

  inserts :
      AllOutOfReach o (opposite_map o.order_side w.book)
      → (v : World) → v.orders ≡ w.orders
      → v.book ≡ (insert_order o w.book).0
      → IsConsistent v
  unfolding insert_order
  inserts far v e e' = go o.order_side refl far e'
    where
      go :
          (d : OrderSide)
          → o.order_side ≡ d
          → AllOutOfReach o (opposite_map d w.book)
          → v.book ≡ insert_side d o w.book
          → IsConsistent v
      go buy d f k = buy_rests d f v e (ground (arith, k, h.keyed i o owned))
      go sell d f k = sell_rests d f v e (ground (arith, k, h.keyed i o owned))

-- `rest_order` keeps the invariant, for a limit order that is not in the book, if no price of the
-- other side is within its reach when something is left of it.
pub rest_order-IsConsistent :
    (i : OrderId) (w : World)
    → IsConsistent w
    → IsOutside i w.book
    → ((o : Order)
        → find i w.orders ≡ some o
        → 0 < o.remaining_quantity
        → (o.order_type ≡ limit) × AllOutOfReach o (opposite_map o.order_side w.book))
    → IsConsistent (rest_order i w)
unfolding rest_order
rest_order-IsConsistent i w h out f = elim (Option-cases (find i w.orders)) [
  | inl none' ↦ rw (none', rest_order) h
  | inr (o, e) ↦ elim (Bool-cases (ltb 0 o.remaining_quantity)) [
    | inl more ↦
        let pos : 0 < o.remaining_quantity = ground arith in
        let (t, far) = f o e pos in
        rw (e, rest_order) (rw (more, rest_order) (inserts i o w h out e pos t far _ refl refl))
    | inr done ↦ rw (e, rest_order) (rw (done, rest_order) h)
  ]
]
