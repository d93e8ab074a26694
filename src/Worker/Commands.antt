-- ===== src/Worker/Commands.antt =====
-- A new order keeps the invariant of the partition, and no destroyed order is used.
use beta_trader.Prelude.{
  ◌<◌, ◌≡◌, refl, sym, subst, ◌∙◌, ◌≢◌, ◌⊎◌, inl, inr, some, none, [], ◌∷◌, String, find, insert,
  find-insert, All, All-map, arith, Bool-cases, Option-cases, ◌&&◌, not,
}
use beta_trader.Common.Types.{
  OrderSide, buy, sell, OrderType, limit, market, stop, stop_limit, OrderId, Timestamp,
}
use beta_trader.Common.Order.{Order}
use beta_trader.Book.{pointers}
use beta_trader.Book.Sound.{AllRest-pointers}
use beta_trader.Manager.{add_order, contains_order_by_id}
use beta_trader.Matcher.Run.{Has}
use beta_trader.Matcher.Fills.{IsKeyed, terms}
use beta_trader.Matcher.Priority.{Spent}
use beta_trader.Matcher.Prices.{AllOutOfReach, out_of_reach-terms}
use beta_trader.Matcher.Ends.{opposite_map}
use beta_trader.Risk.{is_sane, is_fat_finger, against}
use beta_trader.Risk.Check.{pre_check-total}
use beta_trader.Publisher.{execution_report, Action}
use beta_trader.Worker.{
  World, process_new_order, settle_new, finish_new, send_db, publish, is_rejected, save_order,
}
use beta_trader.Worker.Settle.{Settles, settle_new-Settles}
use beta_trader.Worker.Consistent.{
  IsConsistent, IsOutside, MatchedWorld, match_in-MatchedWorld, Keeps-IsConsistent,
  frame-IsConsistent, forget_order-IsConsistent,
}
use beta_trader.Worker.Rest.{rest_order-IsConsistent}

-- After matching and settling, an order with something left finds nothing within its reach.
pub settled_far :
    (i : OrderId) (inc : Order) (w v : World) (r : MatchedWorld i inc w)
    → Settles r.after v
    → inc.order_type ≡ limit
    → (o : Order) → find i v.orders ≡ some o
    → 0 < o.remaining_quantity
    → (o.order_type ≡ limit) × AllOutOfReach o (opposite_map o.order_side v.book)
settled_far i inc w v r st t o e pos =
    let (o', e', same) = r.still_incoming in
    let before = (st.keeps).part i o e in
    let terms_eq : terms o ≡ terms inc = ground (arith, same, before, e') in
    let side : o.order_side ≡ inc.order_side = ground (arith, terms_eq) in
    (ground (arith, terms_eq, t), go r.stops before terms_eq side)
  where
    go :
        Spent (r.after).orders i ⊎ AllOutOfReach inc (opposite_map inc.order_side (r.after).book)
        → find i (r.after).orders ≡ some o
        → terms o ≡ terms inc
        → o.order_side ≡ inc.order_side
        → AllOutOfReach o (opposite_map o.order_side v.book)
    go (inl (x, ex, z)) before same side = absurd (ground arith)
    go (inr far) before same side =
        subst (λ d. AllOutOfReach o (opposite_map d v.book)) (sym side)
          (subst (λ b. AllOutOfReach o (opposite_map inc.order_side b)) (sym st.book)
            (All-map _ _ (opposite_map inc.order_side (r.after).book)
              (λ e c. out_of_reach-terms o inc e.0 same ∙ c) far))

pub settled-IsConsistent :
    (i : OrderId) (inc : Order) (w v : World) (r : MatchedWorld i inc w)
    → Settles r.after v
    → IsConsistent v × IsOutside i v.book
settled-IsConsistent i inc w v r st = (
  Keeps-IsConsistent r.after v st.keeps st.book r.consistent,
  subst (IsOutside i) (sym st.book) r.outside,
)

finish_new-IsConsistent :
    (i : OrderId) (inc : Order) (w v : World) (r : MatchedWorld i inc w)
    → Settles r.after v
    → (t : OrderType) → inc.order_type ≡ t
    → IsConsistent (finish_new t i v)
unfolding finish_new contains_order_by_id
finish_new-IsConsistent i inc w v r st limit e =
    let (c, out) = settled-IsConsistent i inc w v r st in
    rest_order-IsConsistent i v c out (settled_far i inc w v r st e)
finish_new-IsConsistent i inc w v r st market e =
    let (c, out) = settled-IsConsistent i inc w v r st in
    elim (Option-cases (find i v.orders)) [
      | inl gone ↦ rw (gone) c
      | inr (o, here) ↦ rw (here) (forget_order-IsConsistent i v out c)
    ]
finish_new-IsConsistent i inc w v r st stop e = (settled-IsConsistent i inc w v r st).0
finish_new-IsConsistent i inc w v r st stop_limit e = (settled-IsConsistent i inc w v r st).0

-- Writing an order that is not in the book keeps the invariant.
pub insert-IsConsistent :
    (o : Order) (v w : World)
    → w.orders ≡ insert o.core_order_id o v.orders
    → w.book ≡ v.book
    → IsOutside o.core_order_id v.book
    → IsConsistent v
    → IsConsistent w
insert-IsConsistent o v w e same out h =
    frame-IsConsistent o.core_order_id v w
      (λ k n. ground (arith, e, find-insert o.core_order_id k o v.orders))
      (λ k x ex. ground (arith, e, find-insert o.core_order_id k o v.orders, h.keyed k x)) same out
      h

fresh-IsOutside :
    (i : OrderId) (w : World) → find i w.orders ≡ none → IsConsistent w → IsOutside i w.book
fresh-IsOutside i w fresh h = record {
  bids_apart =
      AllRest-pointers _ _ w.book.bids (λ p k (o, e, _, _, _) e'. absurd (differ k o e e'))
        (h.bids_sound).resting;
  asks_apart =
      AllRest-pointers _ _ w.book.asks (λ p k (o, e, _, _, _) e'. absurd (differ k o e e'))
        (h.asks_sound).resting;
}
  where
    differ : (k : OrderId) (o : Order) → find k w.orders ≡ some o → k ≢ i
    differ k o e e' = absurd (ground arith)

-- What changes neither the orders nor the book keeps the invariant.
pub unchanged :
    (v w : World) → w.orders ≡ v.orders → w.book ≡ v.book → IsConsistent v → IsConsistent w
unchanged v w e e' h = record {
  keyed = subst IsKeyed (sym e) h.keyed;
  bids_sound = rw (e, e') h.bids_sound;
  asks_sound = rw (e, e') h.asks_sound;
  uncrossed = rw e' h.uncrossed;
}

against_alive :
    (d : OrderSide) (w : World) → IsConsistent w → All (Has w.orders) (pointers (against d w.book))
against_alive buy w h =
    AllRest-pointers _ _ w.book.asks (λ p k (o, e, _, _, _). (o, e)) (h.asks_sound).resting
against_alive sell w h =
    AllRest-pointers _ _ w.book.bids (λ p k (o, e, _, _, _). (o, e)) (h.bids_sound).resting

-- From a consistent partition, a new order whose id no order has is processed without a fault, and
-- the partition is consistent again.
pub process_new_order-IsConsistent :
    (client : String) (ts : Timestamp) (o : Order) (w : World)
    → IsConsistent w
    → find o.core_order_id w.orders ≡ none
    → (w' : World) × (process_new_order client ts o w ≡ some w') × IsConsistent w'
unfolding process_new_order add_order contains_order_by_id
process_new_order-IsConsistent client ts o w h fresh =
    let w1 =
      publish (execution_report w.env o Action.new ∷ [])
        (send_db (save_order o ∷ []) (record w { orders = insert o.core_order_id o w.orders })) in
    let out = fresh-IsOutside o.core_order_id w fresh h in
    let c1 = insert-IsConsistent o w w1 refl refl out h in
    let r =
      match_in-MatchedWorld o.core_order_id o w1 c1 out
        (ground (arith, find-insert o.core_order_id o.core_order_id o w.orders)) in
    let st = settle_new-Settles r.trades r.after (r.consistent).keyed in
    let (found, _, checked) = pre_check-total o w.book w.orders (against_alive o.order_side w h) in
    elim (Bool-cases (is_sane o && not (is_fat_finger o w.book) && not found)) [
      | inl passed ↦ (
        finish_new o.order_type o.core_order_id (settle_new r.trades r.after),
        ground (arith, checked, passed, fresh, r.result),
        finish_new-IsConsistent o.core_order_id o w1 _ r st o.order_type refl,
      )
      | inr failed ↦ (
        is_rejected w o.client_id o.core_order_id o.symbol o.order_side "Risk check failed",
        ground (arith, checked, failed),
        unchanged w _ refl refl h,
      )
    ]
