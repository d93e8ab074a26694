-- ===== src/Worker/Consistent.antt =====
-- The invariant of a partition, and the steps that keep it: matching, settling, resting, forgetting.
use beta_trader.Prelude.{
  ◌<◌, ◌≡◌, refl, sym, subst, ◌≢◌, ◌⊎◌, inl, inr, some, List, find, All, All-map, All-zip, arith,
}
use beta_trader.Common.Types.{OrderSide, buy, sell, OrderId, Price}
use beta_trader.Common.Order.{Order, Trade}
use beta_trader.Book.{Store, LevelMap, OrderBook, pointers}
use beta_trader.Book.Sound.{Resting, AllRest-pointers, IsSound, IsSound-frame}
use beta_trader.Matcher.{MatchState, match}
use beta_trader.Matcher.Fills.{IsKeyed}
use beta_trader.Matcher.Priority.{Incoming, Spent}
use beta_trader.Matcher.Prices.{opposite, AllOutOfReach}
use beta_trader.Matcher.Resting.{Positive}
use beta_trader.Matcher.Ends.{opposite_map, with_opposite, IsMatchable}
use beta_trader.Matcher.Summary.{match-Summary}
use beta_trader.Worker.{World, match_in, forget_order}
use beta_trader.Worker.Settle.{Keeps, Keeps-IsKeyed, find-forget_order}

-- Every bid is below every ask.
abbrev pub IsUncrossed : OrderBook → Type 0
IsUncrossed b = All (λ a. All (λ d. d.0 < a.0) b.bids) b.asks

-- Each order is owned under its own id, both maps of the book are sound (so that no pointer of the
-- book dangles), and the book is not crossed.
pub record IsConsistent (w : World) : Type 0 where
  pub keyed : IsKeyed w.orders
  pub bids_sound : IsSound w.orders buy w.book.bids
  pub asks_sound : IsSound w.orders sell w.book.asks
  pub uncrossed : IsUncrossed w.book

-- The order is not in the book.
pub record IsOutside (i : OrderId) (b : OrderBook) : Type 0 where
  pub bids_apart : All (λ k. k ≢ i) (pointers b.bids)
  pub asks_apart : All (λ k. k ≢ i) (pointers b.asks)

sound-Positive :
    (orders : Store) (side : OrderSide) (m : LevelMap)
    → IsSound orders side m
    → All (Positive orders) (pointers m)
sound-Positive orders side m h =
    AllRest-pointers (Resting orders side) (Positive orders) m
      (λ p r (o, e, _, _, pos). (o, e, pos)) h.resting

-- What changes no order with something left, and not the book, keeps the invariant.
pub Keeps-IsConsistent :
    (v w : World) → Keeps v.orders w.orders → w.book ≡ v.book → IsConsistent v → IsConsistent w
Keeps-IsConsistent v w keeps same h = record {
  keyed = Keeps-IsKeyed v.orders w.orders keeps h.keyed;
  bids_sound =
      subst (λ b. IsSound w.orders buy b.bids) (sym same)
        (IsSound-frame v.orders w.orders buy v.book.bids
          (All-map _ _ (pointers v.book.bids) keeps.positive (sound-Positive _ buy _ h.bids_sound))
          h.bids_sound);
  asks_sound =
      subst (λ b. IsSound w.orders sell b.asks) (sym same)
        (IsSound-frame v.orders w.orders sell v.book.asks
          (All-map _ _ (pointers v.book.asks) keeps.positive (sound-Positive _ sell _ h.asks_sound))
          h.asks_sound);
  uncrossed = subst IsUncrossed (sym same) h.uncrossed;
}

-- So does what changes no order of the book.
pub frame-IsConsistent :
    (i : OrderId) (v w : World)
    → ((k : OrderId) → k ≢ i → find k w.orders ≡ find k v.orders)
    → IsKeyed w.orders
    → w.book ≡ v.book
    → IsOutside i v.book
    → IsConsistent v
    → IsConsistent w
frame-IsConsistent i v w frame keyed same out h = record {
  keyed = keyed;
  bids_sound =
      subst (λ b. IsSound w.orders buy b.bids) (sym same)
        (IsSound-frame v.orders w.orders buy v.book.bids
          (All-map _ _ (pointers v.book.bids) frame out.bids_apart) h.bids_sound);
  asks_sound =
      subst (λ b. IsSound w.orders sell b.asks) (sym same)
        (IsSound-frame v.orders w.orders sell v.book.asks
          (All-map _ _ (pointers v.book.asks) frame out.asks_apart) h.asks_sound);
  uncrossed = subst IsUncrossed (sym same) h.uncrossed;
}

forget_order-book : (i : OrderId) (w : World) → (forget_order i w).book ≡ w.book
unfolding forget_order
forget_order-book i w = refl

pub forget_order-IsConsistent :
    (i : OrderId) (w : World)
    → IsOutside i w.book
    → IsConsistent w
    → IsConsistent (forget_order i w)
forget_order-IsConsistent i w out h =
    frame-IsConsistent i w (forget_order i w) (λ k n. ground (arith, find-forget_order i k w))
      (λ k o e. ground (arith, find-forget_order i k w, h.keyed k o)) (forget_order-book i w) out h

-- Orders that rest on different sides are different.
sides_differ :
    (orders : Store) (side : OrderSide) (p : Price) (r k : OrderId)
    → Resting orders side p r
    → ((q : Price) → Resting orders (opposite side) q k → r ≢ k)
sides_differ orders buy p r k (o, e, _, d, _) q (o', e', _, d', _) h =
    ground (arith, e, e', d, d', h)
sides_differ orders sell p r k (o, e, _, d, _) q (o', e', _, d', _) h =
    ground (arith, e, e', d, d', h)

maps_apart :
    (orders : Store) (side : OrderSide) (own opp : LevelMap)
    → IsSound orders side own
    → IsSound orders (opposite side) opp
    → All (λ k. All (λ r. r ≢ k) (pointers opp)) (pointers own)
maps_apart orders side own opp h h' =
    AllRest-pointers (Resting orders side) (λ k. All (λ r. r ≢ k) (pointers opp)) own
      (λ p k rest.
        AllRest-pointers (Resting orders (opposite side)) (λ r. r ≢ k) opp
          (λ q r rest' e. sides_differ orders side p k r rest q rest' (sym e)) h'.resting)
      h.resting

-- The state in which the matcher is called.
abbrev pub match_state : World → MatchState
match_state w = record { orders = w.orders; trade_id = w.trade_id; clock = w.env.trade_clock }

abbrev pub own_map : OrderSide → OrderBook → LevelMap
own_map buy b = b.bids
own_map sell b = b.asks

pub own-IsSound :
    (d : OrderSide) (w : World) → IsConsistent w → IsSound w.orders d (own_map d w.book)
own-IsSound buy w h = h.bids_sound
own-IsSound sell w h = h.asks_sound

pub opposite-IsSound :
    (d : OrderSide) (w : World)
    → IsConsistent w
    → IsSound w.orders (opposite d) (opposite_map d w.book)
opposite-IsSound buy w h = h.asks_sound
opposite-IsSound sell w h = h.bids_sound

pub own_apart :
    (d : OrderSide) (i : OrderId) (b : OrderBook)
    → IsOutside i b
    → All (λ k. k ≢ i) (pointers (own_map d b))
own_apart buy i b h = h.bids_apart
own_apart sell i b h = h.asks_apart

pub opposite_apart :
    (d : OrderSide) (i : OrderId) (b : OrderBook)
    → IsOutside i b
    → All (λ k. k ≢ i) (pointers (opposite_map d b))
opposite_apart buy i b h = h.asks_apart
opposite_apart sell i b h = h.bids_apart

-- What a call of the matcher leaves behind.
pub record MatchedWorld (i : OrderId) (inc : Order) (w : World) : Type 0 where
  pub after : World
  pub trades : List Trade
  pub result : match_in i w ≡ some (after, trades)
  pub consistent : IsConsistent after
  pub outside : IsOutside i after.book
  pub still_incoming : Incoming after.orders i inc
  pub stops : Spent after.orders i ⊎ AllOutOfReach inc (opposite_map inc.order_side after.book)

-- Matching an owned order that is not in the book keeps the invariant.
pub match_in-MatchedWorld :
    (i : OrderId) (inc : Order) (w : World)
    → IsConsistent w
    → IsOutside i w.book
    → find i w.orders ≡ some inc
    → MatchedWorld i inc w
unfolding match_in
match_in-MatchedWorld i inc w h out e =
    let sound = opposite-IsSound inc.order_side w h in
    let ready : IsMatchable i inc w.book (match_state w) = record {
      incoming = e;
      resting =
          AllRest-pointers _ _ (opposite_map inc.order_side w.book)
            (λ p r (o, e', _, _, _). (o, e')) sound.resting;
      keyed = h.keyed;
      apart = opposite_apart inc.order_side i w.book out;
    } in
    let (m, s', ts, result, v) = match-Summary i inc w.book (match_state w) ready sound in
    let own = own-IsSound inc.order_side w h in
    let same =
      All-map _ _ (pointers (own_map inc.order_side w.book)) (λ k c. v.untouched k c.0 c.1)
        (All-zip _ _ (pointers (own_map inc.order_side w.book))
          (own_apart inc.order_side i w.book out)
          (maps_apart w.orders inc.order_side _ _ own sound)) in
    let own' = IsSound-frame w.orders s'.orders inc.order_side _ same own in
    build m s' ts result v.sound v.left_apart v.still_keyed v.still_incoming v.stops v.prices own'
  where
    build :
        (m : LevelMap) (s' : MatchState) (ts : List Trade)
        → match i w.book (match_state w) ≡ some (with_opposite inc.order_side m w.book, s', ts)
        → IsSound s'.orders (opposite inc.order_side) m
        → All (λ k. k ≢ i) (pointers m)
        → IsKeyed s'.orders
        → Incoming s'.orders i inc
        → Spent s'.orders i ⊎ AllOutOfReach inc m
        → ((P : Price → Type 0)
            → All (λ e'. P e'.0) (opposite_map inc.order_side w.book)
            → All (λ e'. P e'.0) m)
        → IsSound s'.orders inc.order_side (own_map inc.order_side w.book)
        → MatchedWorld i inc w
    build m s' ts result sound apart keyed incoming stops prices own = record {
      after = record w {
        orders = s'.orders;
        book = with_opposite inc.order_side m w.book;
        trade_id = s'.trade_id;
      };
      trades = ts;
      result = ground (arith, result);
      consistent = record {
        keyed = keyed;
        bids_sound = bids inc.order_side m sound own;
        asks_sound = asks inc.order_side m sound own;
        uncrossed = uncross inc.order_side m prices;
      };
      outside = record {
        bids_apart = bids_out inc.order_side m apart;
        asks_apart = asks_out inc.order_side m apart;
      };
      still_incoming = incoming;
      stops = elim stops [ inl z ↦ inl z | inr far ↦ inr (same_map inc.order_side m far) ];
    }
      where
        bids :
            (d : OrderSide) (m : LevelMap)
            → IsSound s'.orders (opposite d) m
            → IsSound s'.orders d (own_map d w.book)
            → IsSound s'.orders buy (with_opposite d m w.book).bids
        bids buy m a b = b
        bids sell m a b = a

        asks :
            (d : OrderSide) (m : LevelMap)
            → IsSound s'.orders (opposite d) m
            → IsSound s'.orders d (own_map d w.book)
            → IsSound s'.orders sell (with_opposite d m w.book).asks
        asks buy m a b = a
        asks sell m a b = b

        uncross :
            (d : OrderSide) (m : LevelMap)
            → ((P : Price → Type 0)
                → All (λ e'. P e'.0) (opposite_map d w.book)
                → All (λ e'. P e'.0) m)
            → IsUncrossed (with_opposite d m w.book)
        uncross buy m f = f (λ p. All (λ d. d.0 < p) w.book.bids) h.uncrossed
        uncross sell m f = All-map _ _ w.book.asks (λ a. f (λ p. p < a.0)) h.uncrossed

        bids_out :
            (d : OrderSide) (m : LevelMap)
            → All (λ k. k ≢ i) (pointers m)
            → All (λ k. k ≢ i) (pointers (with_opposite d m w.book).bids)
        bids_out buy m a = out.bids_apart
        bids_out sell m a = a

        asks_out :
            (d : OrderSide) (m : LevelMap)
            → All (λ k. k ≢ i) (pointers m)
            → All (λ k. k ≢ i) (pointers (with_opposite d m w.book).asks)
        asks_out buy m a = a
        asks_out sell m a = out.asks_apart

        same_map :
            (d : OrderSide) (m : LevelMap)
            → AllOutOfReach inc m
            → AllOutOfReach inc (opposite_map d (with_opposite d m w.book))
        same_map buy m a = a
        same_map sell m a = a
