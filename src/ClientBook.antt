-- ===== src/ClientBook.antt =====
-- client/client_orderbook/src/OrderBook.cpp: the ladders of prices that a client keeps, from the
-- refreshes of the exchange.
pub mod Valid
pub mod Stale
pub mod Sync
use beta_trader.Prelude.{
  ℕ, zero, suc, ◌+◌, ◌-◌, String, Option, none, some, List, [], ◌∷◌, ◌==◌, leb, if◌then◌else◌,
}
use beta_trader.Common.Types.{OrderSide, buy, sell, Price, Quantity}
use beta_trader.Book.{
  MdUpdateAction, delete, MdEntryType, bid, offer, trade, MarketDataIncrementalEntry,
  MarketDataIncrementalRefresh, MarketDataEntry, MarketDataSnapshotFullRefresh, before,
}
use beta_trader.Book

-- A map from prices to quantities, in the order of its comparator.
abbrev pub Ladder : Type 0
Ladder = List (Price × Quantity)

pub record ClientBook : Type 0 where
  pub symbol : String
  pub bids : Ladder
  pub asks : Ladder

-- `map[price] = qty`
unfoldable pub set_level : OrderSide → Price → Quantity → Ladder → Ladder
set_level side p q [] = (p, q) ∷ []
set_level side p q ((r, x) ∷ m) =
    let rest = set_level side p q m in
    if p == r then (p, q) ∷ m else if before side p r then (p, q) ∷ (r, x) ∷ m else (r, x) ∷ rest

-- `map.erase(price)`
unfoldable pub erase_level : Price → Ladder → Ladder
erase_level p [] = []
erase_level p ((r, x) ∷ m) = let rest = erase_level p m in if p == r then m else (r, x) ∷ rest

-- One branch of `updateLevel`.
unfoldable pub update_side : OrderSide → Price → Quantity → MdUpdateAction → Ladder → Ladder
unfolding set_level erase_level
update_side side price qty delete m = erase_level price m
update_side side price qty _ m =
    let m' = set_level side price qty m in if qty == 0 then erase_level price m' else m'

unfoldable pub update_level :
    MdEntryType → Price → Quantity → MdUpdateAction → ClientBook → ClientBook
unfolding update_side
update_level bid price qty action b = record b { bids = update_side buy price qty action b.bids }
update_level _ price qty action b = record b { asks = update_side sell price qty action b.asks }

unfoldable pub handle_entries : List MarketDataIncrementalEntry → ClientBook → ClientBook
unfolding update_level
handle_entries [] b = b
handle_entries (e ∷ es) b =
    handle_entries es (update_level e.entry_type e.price e.size e.update_action b)

unfoldable pub handle_incremental : MarketDataIncrementalRefresh → ClientBook → ClientBook
unfolding handle_entries
handle_incremental refresh b = handle_entries refresh.entries b

-- The loop of `handleSnapshot`.
unfoldable pub load_entries : List MarketDataEntry → ClientBook → ClientBook
unfolding set_level
load_entries [] b = b
load_entries (e ∷ es) b = load_entries es (elim e.entry_type [
  | bid ↦ record b { bids = set_level buy e.price e.size b.bids }
  | offer ↦ record b { asks = set_level sell e.price e.size b.asks }
  | trade ↦ b
])

unfoldable pub handle_snapshot : MarketDataSnapshotFullRefresh → ClientBook → ClientBook
unfolding load_entries
handle_snapshot snapshot b = load_entries snapshot.entries (record b { bids = []; asks = [] })

-- Differences of prices.
pub data ℤ : Type 0 where
  pos negsuc : ℕ → ℤ

abbrev pub difference : ℕ → ℕ → ℤ
difference a b = if leb b a then pos (a - b) else negsuc (b - a - 1)

-- The mid price is given twice over, since its half need not be a whole tick.
pub record Snapshot : Type 0 where
  pub symbol : String
  pub bids : Ladder
  pub asks : Ladder
  pub spread : ℤ
  pub twice_mid_price : ℕ

-- The first levels of a map.
pub top_levels : ℕ → Ladder → Ladder
top_levels zero m = []
top_levels (suc n) [] = []
top_levels (suc n) (e ∷ m) = e ∷ top_levels n m

abbrev pub spread_of : Ladder → Ladder → ℤ × ℕ
spread_of ((p, x) ∷ m) ((q, y) ∷ n) = (difference q p, p + q)
spread_of _ _ = (pos 0, 0)

pub get_ui_snapshot : ℕ → ClientBook → Snapshot
unfolding top_levels
get_ui_snapshot max_depth b =
    let bids' = top_levels max_depth b.bids in
    let asks' = top_levels max_depth b.asks in
    record {
      symbol = b.symbol;
      bids = bids';
      asks = asks';
      spread = (spread_of bids' asks').0;
      twice_mid_price = (spread_of bids' asks').1;
    }
