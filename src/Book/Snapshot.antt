-- ===== src/Book/Snapshot.antt =====
-- What `publishSnapshot` tells of a book.
use beta_trader.Prelude.{
  ◌<◌, ◌≡◌, ◌+◌, ◌%◌, ◌++◌, refl, ap, ℕ, none, some, List, [], ◌∷◌, find, arith, All,
  All-append_left, All-append_right, u64_mod,
}
use beta_trader.Common.Types.{OrderSide, buy, sell, Price, Quantity, SessionId}
use beta_trader.Book.{
  Store, PriceLevel, LevelMap, OrderBook, pointers, MdEntryType, bid, offer, MarketDataEntry,
  total_from, snapshot_side, publish_snapshot,
}
use beta_trader.Book.Sorted.{IsSorted}
use beta_trader.Matcher.Run.{Has}

-- What is left of the orders of a level.
abbrev pub quantity : Store → PriceLevel → Quantity
quantity orders [] = 0
quantity orders (r ∷ rs) = elim (find r orders) [
  | none ↦ quantity orders rs
  | some o ↦ o.remaining_quantity + quantity orders rs
]

-- The view of a map that an observer of prices has.
abbrev pub depth : Store → LevelMap → List (Price × Quantity)
depth orders [] = []
depth orders ((p, level) ∷ m) = (p, quantity orders level % u64_mod) ∷ depth orders m

total_from-quantity :
    (acc : Quantity) (level : PriceLevel) (orders : Store)
    → acc < u64_mod
    → All (Has orders) level
    → total_from acc level orders ≡ some ((acc + quantity orders level) % u64_mod)
unfolding total_from
total_from-quantity acc [] orders b h = ground arith
total_from-quantity acc (r ∷ rs) orders b ((o, e), h) =
    let v = (acc + o.remaining_quantity) % u64_mod in
    let rest = total_from-quantity v rs orders (omega arith) h in ground (arith, e, rest)

abbrev pub pairs : List MarketDataEntry → List (Price × Quantity)
pairs [] = []
pairs (e ∷ es) = (e.price, e.size) ∷ pairs es

-- The entries of one side of a snapshot, in order.
pub record Shows (type : MdEntryType) (es : List MarketDataEntry) (m : List (Price × Quantity))
    : Type 0 where
  pub levels : pairs es ≡ m
  pub typed : All (λ e. e.entry_type ≡ type) es

snapshot_side-Shows :
    (type : MdEntryType) (side : OrderSide) (pos : ℕ) (m : LevelMap) (orders : Store)
    → IsSorted side m
    → All (Has orders) (pointers m)
    → (es : List MarketDataEntry) × (snapshot_side type pos m orders ≡ some es)
      × Shows type es (depth orders m)
unfolding snapshot_side
snapshot_side-Shows type side pos [] orders s h = ([], refl, record { levels = refl; typed = tt })
snapshot_side-Shows type side pos ((p, []) ∷ m) orders s h = absurd s
snapshot_side-Shows type side pos ((p, r ∷ rs) ∷ m) orders s ((o, e), h) =
    let t =
      total_from-quantity 0 (r ∷ rs) orders (omega arith)
        ((o, e), All-append_left _ rs (pointers m) h) in
    let (es, e', w) =
      snapshot_side-Shows type side (pos + 1) m orders s.1 (All-append_right _ rs (pointers m) h) in
    (
      record {
        entry_type = type;
        price = p;
        size = quantity orders (r ∷ rs) % u64_mod;
        entry_time = o.timestamp;
        entry_position = pos;
      }
          ∷ es,
      ground (arith, t, e, e'),
      record {
        levels = ap (λ n. (p, quantity orders (r ∷ rs) % u64_mod) ∷ n) w.levels;
        typed = (refl, w.typed);
      },
    )

-- A snapshot has the entries of the bids and then those of the asks.
pub publish_snapshot-Shows :
    (session : SessionId) (orders : Store) (b : OrderBook)
    → IsSorted buy b.bids
    → IsSorted sell b.asks
    → All (Has orders) (pointers b.bids)
    → All (Has orders) (pointers b.asks)
    → (es : List MarketDataEntry) × (fs : List MarketDataEntry) × (publish_snapshot session orders b
        ≡ some (record {
          target_session_id = session;
          md_req_id = "";
          symbol = b.symbol;
          entries = es ++ fs;
        }))
      × Shows bid es (depth orders b.bids)
      × Shows offer fs (depth orders b.asks)
unfolding publish_snapshot
publish_snapshot-Shows session orders b sb sa hb ha =
    let (es, e, w) = snapshot_side-Shows bid buy 1 b.bids orders sb hb in
    let (fs, f, v) = snapshot_side-Shows offer sell 1 b.asks orders sa ha in
    (es, fs, ground (arith, e, f), w, v)
