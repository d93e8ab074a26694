-- ===== src/Worker/Cancel.antt =====
-- Cancelling: the order leaves the book, and the invariant stays.
use beta_trader.Prelude.{
  ◌<◌, ◌≡◌, refl, sym, subst, ◌≢◌, inl, inr, some, none, List, [], ◌∷◌, ◌++◌, String, find, All,
  All-map, arith, Option-cases,
}
use beta_trader.Common.Types.{OrderSide, buy, sell, OrderId, Price}
use beta_trader.Book
use beta_trader.Book.{Store, LevelMap, OrderBook, pointers, cancel_side, erase_from_book}
use beta_trader.Book.{refresh_of, MdUpdateAction}
use beta_trader.Book.Pointers.{Inserts-All_rev, cancel_side-Inserts}
use beta_trader.Book.Sound.{
  Resting, AllRest-pointers, IsSound, cancel_side-IsSound, cancel_side-none, cancel_side-AllPrices,
}
use beta_trader.Manager.{get_order_by_id}
use beta_trader.Matcher.Fills.{IsKeyed}
use beta_trader.Publisher.{execution_report, Action}
use beta_trader.Worker.{
  World, process_cancel_order, forget_order, publish, is_rejected, unknown_symbol,
}
use beta_trader.Worker.Consistent.{IsConsistent, IsOutside, IsUncrossed, forget_order-IsConsistent}
use beta_trader.Worker.Commands.{unchanged}

Sided : Store → OrderSide → OrderId → Type 0
Sided orders side k = (p : Price) × Resting orders side p k

all-Sided :
    (orders : Store) (side : OrderSide) (m : LevelMap)
    → IsSound orders side m
    → All (Sided orders side) (pointers m)
unfolding Sided
all-Sided orders side m h = AllRest-pointers _ _ m (λ p k r. (p, r)) h.resting

Sided-apart :
    (orders : Store) (id : OrderId) (ks : List OrderId)
    → Sided orders buy id
    → All (Sided orders sell) ks
    → All (λ k. k ≢ id) ks
unfolding Sided
Sided-apart orders id [] h a = tt
Sided-apart orders id (k ∷ ks) (p, (o, e, pr, d, pos)) ((p', (o', e', pr', d', pos')), a) =
    ((λ eq. ground (arith, e, e', d, d', eq)), Sided-apart orders id ks (p, (o, e, pr, d, pos)) a)

-- The book after `cancelOrder`: consistent, and without the order.
pub record Erased (id : OrderId) (w : World) (b : OrderBook) : Type 0 where
  pub bids_sound : IsSound w.orders buy b.bids
  pub asks_sound : IsSound w.orders sell b.asks
  pub uncrossed : IsUncrossed b
  pub outside : IsOutside id b

pub erase_from_book-Erased :
    (id : OrderId) (w : World) (b : OrderBook)
    → IsConsistent w
    → erase_from_book id w.book ≡ some b
    → Erased id w b
unfolding erase_from_book
erase_from_book-Erased id w b h e = elim (Option-cases (cancel_side id w.book.bids)) [
  | inr (bids', found) ↦
      let (sound, ne) = cancel_side-IsSound w.orders buy id w.book.bids bids' found h.bids_sound in
      let hit =
        (Inserts-All_rev (Sided w.orders buy) id (pointers bids') (pointers w.book.bids)
          (cancel_side-Inserts id w.book.bids bids' found)
          (all-Sided w.orders buy w.book.bids h.bids_sound)).0 in
      subst (Erased id w) {x = record (w.book) { bids = bids' }} {y = b} (ground arith) (record {
        bids_sound = sound;
        asks_sound = h.asks_sound;
        uncrossed =
            All-map _ _ w.book.asks
              (λ a c. cancel_side-AllPrices (λ p. p < a.0) id w.book.bids bids' found c)
              h.uncrossed;
        outside = record {
          bids_apart = ne;
          asks_apart =
              Sided-apart w.orders id (pointers w.book.asks) hit
                (all-Sided w.orders sell w.book.asks h.asks_sound);
        };
      })
  | inl gone ↦ elim (Option-cases (cancel_side id w.book.asks)) [
    | inl gone' ↦ absurd (ground arith)
    | inr (asks', found) ↦
        let (sound, ne) =
          cancel_side-IsSound w.orders sell id w.book.asks asks' found h.asks_sound in
        subst (Erased id w) {x = record (w.book) { asks = asks' }} {y = b} (ground arith) (record {
          bids_sound = h.bids_sound;
          asks_sound = sound;
          uncrossed =
              cancel_side-AllPrices (λ p. All (λ d. d.0 < p) w.book.bids) id w.book.asks asks' found
                h.uncrossed;
          outside = record { bids_apart = cancel_side-none id w.book.bids gone; asks_apart = ne };
        })
  ]
]

pub erase_from_book-none :
    (id : OrderId) (b : OrderBook) → erase_from_book id b ≡ none → IsOutside id b
unfolding erase_from_book
erase_from_book-none id b e = elim (Option-cases (cancel_side id b.bids)) [
  | inr (bids', found) ↦ absurd (ground arith)
  | inl gone ↦ elim (Option-cases (cancel_side id b.asks)) [
    | inl gone' ↦ record {
      bids_apart = cancel_side-none id b.bids gone;
      asks_apart = cancel_side-none id b.asks gone';
    }
    | inr (asks', found) ↦ absurd (ground arith)
  ]
]

pub Erased-IsConsistent :
    (id : OrderId) (w v : World) (b : OrderBook)
    → IsConsistent w
    → Erased id w b
    → v.orders ≡ w.orders
    → v.book ≡ b
    → IsConsistent v
Erased-IsConsistent id w v b h r e e' = record {
  keyed = subst IsKeyed (sym e) h.keyed;
  bids_sound = rw (e, e') r.bids_sound;
  asks_sound = rw (e, e') r.asks_sound;
  uncrossed = rw e' r.uncrossed;
}

-- From a consistent partition, a cancellation is processed without a fault, whatever its id, and
-- the partition is consistent again.
pub process_cancel_order-IsConsistent :
    (client : String) (id : OrderId) (w : World)
    → IsConsistent w
    → (w' : World) × (process_cancel_order client id w ≡ some w') × IsConsistent w'
unfolding process_cancel_order get_order_by_id Book.cancel_order
process_cancel_order-IsConsistent client id w h = elim (Option-cases (find id w.orders)) [
  | inl gone ↦ (
    is_rejected w client id unknown_symbol buy "Order not found",
    ground arith,
    unchanged w _ refl refl h,
  )
  | inr (o, e) ↦ elim (Option-cases (erase_from_book id w.book)) [
    | inl missing ↦ (
      is_rejected w client id o.symbol o.order_side "Order cannot be canceled",
      ground arith,
      unchanged w _ refl refl h,
    )
    | inr (b, found) ↦
        let r = erase_from_book-Erased id w b h found in
        let w1 : World = publish (execution_report w.env o Action.canceled ∷ []) (record w {
          book = b;
          market_data =
              w.market_data ++ (refresh_of w.book.symbol MdUpdateAction.delete o w.env.now ∷ []);
        }) in
        (
          forget_order id w1,
          ground arith,
          forget_order-IsConsistent id w1 r.outside (Erased-IsConsistent id w w1 b h r refl refl),
        )
  ]
]
