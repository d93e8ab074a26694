-- ===== src/Book.antt =====
-- exchange/exchange_matching/src/OrderBook.cpp. A raw pointer to an order is the key under which
-- the order manager owns the order, which is the order's own id.
pub mod Sorted
pub mod Pointers
pub mod Sound
pub mod Snapshot
use beta_trader.Prelude.{
  ℕ, ◌+◌, ◌%◌, Bool, true, false, Option, none, some, List, [], ◌∷◌, ◌++◌, String, ◌>>=◌, ltb, ◌==◌,
  if◌then◌else◌, find, u64_mod,
}
use beta_trader.Common.Types.{
  Instrument, OrderSide, buy, sell, Price, Quantity, OrderId, SessionId, Timestamp,
}
use beta_trader.Common.Order.{Order}

pub data MdUpdateAction : Type 0 where
  new change delete : MdUpdateAction

pub data MdEntryType : Type 0 where
  bid offer trade : MdEntryType

pub record MarketDataIncrementalEntry : Type 0 where
  pub update_action : MdUpdateAction
  pub entry_type : MdEntryType
  pub price : Price
  pub size : Quantity
  pub entry_time : Timestamp
  pub entry_position : ℕ

pub record MarketDataIncrementalRefresh : Type 0 where
  pub target_session_id : SessionId
  pub md_req_id : String
  pub symbol : Instrument
  pub entries : List MarketDataIncrementalEntry

pub record MarketDataEntry : Type 0 where
  pub entry_type : MdEntryType
  pub price : Price
  pub size : Quantity
  pub entry_time : Timestamp
  pub entry_position : ℕ

pub record MarketDataSnapshotFullRefresh : Type 0 where
  pub target_session_id : SessionId
  pub md_req_id : String
  pub symbol : Instrument
  pub entries : List MarketDataEntry

-- The orders that the manager owns, by id: what a pointer is read through.
abbrev pub Store : Type 0
Store = List (OrderId × Order)

abbrev pub PriceLevel : Type 0
PriceLevel = List OrderId

-- A `std::map` from prices to levels, in the order of its comparator.
abbrev pub LevelMap : Type 0
LevelMap = List (Price × PriceLevel)

-- The orders of a map, in the order in which matching comes to them.
abbrev pub pointers : LevelMap → List OrderId
pointers [] = []
pointers ((p, level) ∷ m) = level ++ pointers m

pub record OrderBook : Type 0 where
  pub symbol : Instrument
  pub bids : LevelMap
  pub asks : LevelMap

-- The comparators: `std::greater` for the bids, `std::less` for the asks.
abbrev pub before : OrderSide → Price → Price → Bool
before buy p q = ltb q p
before sell p q = ltb p q

-- `map[price].push_back(order)`
pub push_back : OrderSide → Price → OrderId → LevelMap → LevelMap
push_back side p r [] = (p, r ∷ []) ∷ []
push_back side p r ((q, level) ∷ m) =
    if p == q
    then (q, level ++ r ∷ []) ∷ m
    else if before side p q
    then (p, r ∷ []) ∷ (q, level) ∷ m
    else (q, level) ∷ push_back side p r m

abbrev pub entry_type_of : OrderSide → MdEntryType
entry_type_of buy = bid
entry_type_of sell = offer

-- The refresh with one entry that `insertOrder` and `cancelOrder` publish.
unfoldable pub refresh_of :
    Instrument → MdUpdateAction → Order → Timestamp → MarketDataIncrementalRefresh
refresh_of symbol action o time = record {
  target_session_id = 0;
  md_req_id = "";
  symbol = symbol;
  entries =
      record {
        update_action = action;
        entry_type = entry_type_of o.order_side;
        price = o.price;
        size = o.remaining_quantity;
        entry_time = time;
        entry_position = 0;
      }
      ∷ [];
}

unfoldable pub insert_side : OrderSide → Order → OrderBook → OrderBook
insert_side buy o b = record b { bids = push_back buy o.price o.core_order_id b.bids }
insert_side sell o b = record b { asks = push_back sell o.price o.core_order_id b.asks }

unfoldable pub insert_order : Order → OrderBook → OrderBook × MarketDataIncrementalRefresh
unfolding insert_side refresh_of
insert_order o b =
    (insert_side o.order_side o b, refresh_of b.symbol MdUpdateAction.new o o.timestamp)

-- `find_if` and `orders.erase(orderIt)`
unfoldable pub erase_order : OrderId → PriceLevel → Option PriceLevel
erase_order id [] = none
erase_order id (r ∷ rs) = if r == id then some rs else (do rs' ← erase_order id rs; some (r ∷ rs'))

-- One of the two loops of `cancelOrder`: `none` if no level has the order.
unfoldable pub cancel_side : OrderId → LevelMap → Option LevelMap
cancel_side id [] = none
cancel_side id ((p, level) ∷ m) = elim (erase_order id level) [
  | some [] ↦ some m
  | some (r ∷ rs) ↦ some ((p, r ∷ rs) ∷ m)
  | none ↦ do m' ← cancel_side id m; some ((p, level) ∷ m')
]

-- The book without the order, if it has it; the asks are searched only after the bids.
unfoldable pub erase_from_book : OrderId → OrderBook → Option OrderBook
erase_from_book id b = elim (cancel_side id b.bids) [
  | some bids' ↦ some (record b { bids = bids' })
  | none ↦ do asks' ← cancel_side id b.asks; some (record b { asks = asks' })
]

-- The outer `none` is a read through a dangling pointer.
unfoldable pub cancel_order :
    OrderId
    → Timestamp
    → Store
    → OrderBook
    → Option (Bool × OrderBook × List MarketDataIncrementalRefresh)
unfolding erase_from_book refresh_of
cancel_order id now orders b = elim (erase_from_book id b) [
  | none ↦ some (false, b, [])
  | some b' ↦ do
    o ← find id orders
    some (true, b', refresh_of b.symbol MdUpdateAction.delete o now ∷ [])
]

-- The sum over a level, in `uint64_t`.
pub total_from : Quantity → PriceLevel → Store → Option Quantity
total_from acc [] orders = some acc
total_from acc (r ∷ rs) orders = do
  o ← find r orders
  total_from ((acc + o.remaining_quantity) % u64_mod) rs orders

-- The entries of one map, from a position on; empty levels are skipped.
pub snapshot_side : MdEntryType → ℕ → LevelMap → Store → Option (List MarketDataEntry)
unfolding total_from
snapshot_side side pos [] orders = some []
snapshot_side side pos ((p, []) ∷ m) orders = snapshot_side side pos m orders
snapshot_side side pos ((p, r ∷ rs) ∷ m) orders = do
  total ← total_from 0 (r ∷ rs) orders
  front ← find r orders
  entries ← snapshot_side side (pos + 1) m orders
  some (
      record {
        entry_type = side;
        price = p;
        size = total;
        entry_time = front.timestamp;
        entry_position = pos;
      }
      ∷ entries)

pub publish_snapshot : SessionId → Store → OrderBook → Option MarketDataSnapshotFullRefresh
unfolding snapshot_side
publish_snapshot session orders b = do
  bids' ← snapshot_side bid 1 b.bids orders
  asks' ← snapshot_side offer 1 b.asks orders
  some (record {
    target_session_id = session;
    md_req_id = "";
    symbol = b.symbol;
    entries = bids' ++ asks';
  })
