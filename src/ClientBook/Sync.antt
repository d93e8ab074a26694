-- ===== src/ClientBook/Sync.antt =====
-- A snapshot brings a client's ladders up to date with the exchange's book.
use beta_trader.Prelude.{
  ◌≡◌, ◌++◌, refl, sym, subst, ap, ap₂, ◌∙◌, some, List, [], ◌∷◌, arith, All, All-append_right,
  append_assoc, append-nil,
}
use beta_trader.Common.Types.{OrderSide, buy, sell, Price, Quantity, SessionId}
use beta_trader.Book.{
  Store, LevelMap, OrderBook, pointers, bid, offer, MarketDataEntry, MarketDataSnapshotFullRefresh,
  publish_snapshot,
}
use beta_trader.Book.Sorted.{IsSorted, Behind}
use beta_trader.Book.Snapshot.{depth, pairs, publish_snapshot-Shows}
use beta_trader.Matcher.Run.{Has}
use beta_trader.ClientBook.{Ladder, ClientBook, set_level, load_entries, handle_snapshot}
use beta_trader.ClientBook.Valid.{IsOrdered, Later}

set_level-snoc :
    (side : OrderSide) (p : Price) (q : Quantity) (m rest : Ladder)
    → IsOrdered side (m ++ (p, q) ∷ rest)
    → set_level side p q m ≡ m ++ (p, q) ∷ []
unfolding set_level
set_level-snoc side p q [] rest h = refl
set_level-snoc buy p q ((r, x) ∷ m) rest h =
    ground (arith, (All-append_right _ m ((p, q) ∷ rest) h.0).0, set_level-snoc buy p q m rest h.1)
set_level-snoc sell p q ((r, x) ∷ m) rest h =
    ground (arith, (All-append_right _ m ((p, q) ∷ rest) h.0).0, set_level-snoc sell p q m rest h.1)

depth-Later :
    (side : OrderSide) (p : Price) (m : LevelMap) (orders : Store)
    → Behind side p m
    → Later side p (depth orders m)
depth-Later side p [] orders b = tt
depth-Later side p ((q, level) ∷ m) orders b = (b.0, depth-Later side p m orders b.1)

depth-IsOrdered :
    (side : OrderSide) (m : LevelMap) (orders : Store)
    → IsSorted side m
    → IsOrdered side (depth orders m)
depth-IsOrdered side [] orders s = tt
depth-IsOrdered side ((p, []) ∷ m) orders s = absurd s
depth-IsOrdered side ((p, r ∷ rs) ∷ m) orders s =
    (depth-Later side p m orders s.0, depth-IsOrdered side m orders s.1)

load_bids :
    (es fs : List MarketDataEntry) (c : ClientBook)
    → All (λ e. e.entry_type ≡ bid) es
    → IsOrdered buy (c.bids ++ pairs es)
    → load_entries (es ++ fs) c ≡ load_entries fs (record c { bids = c.bids ++ pairs es })
unfolding load_entries
load_bids [] fs c t h = ap (λ n. load_entries fs (record c { bids = n })) (sym (append-nil c.bids))
load_bids (e ∷ es) fs c t h =
    let one = append_assoc c.bids ((e.price, e.size) ∷ []) (pairs es) in
    rw (t.0, load_entries)
      (ap (λ n. load_entries (es ++ fs) (record c { bids = n }))
          (set_level-snoc buy e.price e.size c.bids (pairs es) h)
        ∙ load_bids es fs (record c { bids = c.bids ++ (e.price, e.size) ∷ [] }) t.1
            (subst (IsOrdered buy) (sym one) h)
        ∙ ap (λ n. load_entries fs (record c { bids = n })) one)

load_asks :
    (es : List MarketDataEntry) (c : ClientBook)
    → All (λ e. e.entry_type ≡ offer) es
    → IsOrdered sell (c.asks ++ pairs es)
    → load_entries es c ≡ record c { asks = c.asks ++ pairs es }
unfolding load_entries
load_asks [] c t h = ap (λ n. record c { asks = n }) (sym (append-nil c.asks))
load_asks (e ∷ es) c t h =
    let one = append_assoc c.asks ((e.price, e.size) ∷ []) (pairs es) in
    rw (t.0, load_entries)
      (ap (λ n. load_entries es (record c { asks = n }))
          (set_level-snoc sell e.price e.size c.asks (pairs es) h)
        ∙ load_asks es (record c { asks = c.asks ++ (e.price, e.size) ∷ [] }) t.1
            (subst (IsOrdered sell) (sym one) h)
        ∙ ap (λ n. record c { asks = n }) one)

-- For a sorted book whose pointers can all be read, a snapshot is published, and a client that
-- handles it has, whatever it had before, the prices of the book with the sum of the quantities
-- left at each price, modulo 2^64.
pub handle_snapshot-publish_snapshot :
    (session : SessionId) (orders : Store) (b : OrderBook) (c : ClientBook)
    → IsSorted buy b.bids
    → IsSorted sell b.asks
    → All (Has orders) (pointers b.bids)
    → All (Has orders) (pointers b.asks)
    → (s : MarketDataSnapshotFullRefresh) × (publish_snapshot session orders b ≡ some s)
      × (handle_snapshot s c ≡ record c { bids = depth orders b.bids; asks = depth orders b.asks })
unfolding handle_snapshot
handle_snapshot-publish_snapshot session orders b c sb sa hb ha =
    let (es, fs, e, w, v) = publish_snapshot-Shows session orders b sb sa hb ha in
    let ob = subst (IsOrdered buy) (sym w.levels) (depth-IsOrdered buy b.bids orders sb) in
    let oa = subst (IsOrdered sell) (sym v.levels) (depth-IsOrdered sell b.asks orders sa) in
    (
      _,
      e,
      load_bids es fs (record c { bids = []; asks = [] }) w.typed ob
          ∙ load_asks fs (record c { bids = pairs es; asks = [] }) v.typed oa
          ∙ ap₂ (λ m n. record c { bids = m; asks = n }) w.levels v.levels,
    )
