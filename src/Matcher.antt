-- ===== src/Matcher.antt =====
-- exchange/exchange_matching/src/Matcher.cpp. A `none` is a read through a dangling pointer.
pub mod Run
pub mod Fills
pub mod Priority
pub mod Prices
pub mod Beyond
pub mod Numbers
pub mod Resting
pub mod Sound
pub mod Reach
pub mod Ends
pub mod Laws
pub mod Summary
pub mod Within
use beta_trader.Prelude.{
  ◌+◌, ◌-◌, ◌%◌, min, Bool, false, ◌||◌, Option, some, List, [], ◌∷◌, ◌++◌, ◌>>=◌, ltb, ◌==◌,
  if◌then◌else◌, find, insert, u64_mod,
}
use beta_trader.Common.Types.{
  OrderSide, buy, sell, OrderType, limit, market, filled, partially_filled, cancelled, OrderStatus,
  Price, Quantity, OrderId, TradeId, Timestamp,
}
use beta_trader.Common.Order.{Order, Trade, set_remaining_quantity, set_status}
use beta_trader.Book.{Store, PriceLevel, LevelMap, OrderBook}

-- What matching reads and writes besides the book: the orders, the trade id generator, and the
-- clock, by the id of the trade that is stamped.
pub record MatchState : Type 0 where
  pub orders : Store
  pub trade_id : TradeId
  pub clock : TradeId → Timestamp

-- exchange/exchange_state/src/TradeIDGenerator.cpp: `++mCurrentId`.
abbrev pub next_id : TradeId → TradeId
next_id n = (n + 1) % u64_mod

abbrev pub trade_quantity : Order → Order → Quantity
trade_quantity inc res = min inc.remaining_quantity res.remaining_quantity

abbrev pub buy_id : Order → Order → OrderId
buy_id inc res = elim inc.order_side [ buy ↦ inc.core_order_id | sell ↦ res.core_order_id ]

abbrev pub sell_id : Order → Order → OrderId
sell_id inc res = elim inc.order_side [ buy ↦ res.core_order_id | sell ↦ inc.core_order_id ]

pub make_trade : MatchState → Order → Order → Trade
make_trade s inc res = record {
  trade_id = next_id s.trade_id;
  order_symbol = inc.symbol;
  buy_order_id = buy_id inc res;
  sell_order_id = sell_id inc res;
  quantity = trade_quantity inc res;
  price = res.price;
  timestamp = s.clock (next_id s.trade_id);
}

-- The incoming and the resting order after a trade between them.
pub fill_incoming : Order → Order → Order
fill_incoming inc res = record inc {
  remaining_quantity = inc.remaining_quantity - trade_quantity inc res;
  order_status = partially_filled;
}

pub fill_resting : Order → Order → Order
fill_resting inc res = record res {
  remaining_quantity = res.remaining_quantity - trade_quantity inc res;
  order_status =
      if res.remaining_quantity - trade_quantity inc res == 0 then filled else partially_filled;
}

pub after_trade : OrderId → OrderId → MatchState → Order → Order → MatchState
after_trade i r s inc res = record s {
  orders = insert r (fill_resting inc res) (insert i (fill_incoming inc res) s.orders);
  trade_id = next_id s.trade_id;
}

-- The inner loop: the level that is left, the state, and the trades in order.
pub match_level : OrderId → PriceLevel → MatchState → Option (PriceLevel × MatchState × List Trade)
unfolding make_trade fill_incoming fill_resting after_trade
match_level i [] s = some ([], s, [])
match_level i (r ∷ rs) s = do
  inc ← find i s.orders
  (if inc.remaining_quantity == 0 then some (r ∷ rs, s, []) else (do
    res ← find r s.orders
    let s' = after_trade i r s inc res
    (left, s'', trades) ←
        if (fill_resting inc res).remaining_quantity == 0
        then match_level i rs s'
        else some (r ∷ rs, s', [])
    some (left, s'', make_trade s inc res ∷ trades)))

-- The test that breaks the outer loop: the price is out of the reach of a limit order.
unfoldable pub out_of_reach : Order → Price → Bool
out_of_reach inc p = elim inc.order_type [
  | limit ↦ elim inc.order_side [ buy ↦ ltb inc.price p | sell ↦ ltb p inc.price ]
  | _ ↦ false
]

-- `if (restingLevel.empty()) it = erase(it) else ++it`
abbrev pub keep_level : Price → PriceLevel → LevelMap → LevelMap
keep_level p [] m = m
keep_level p (r ∷ rs) m = (p, r ∷ rs) ∷ m

-- The outer loop.
pub match_levels : OrderId → LevelMap → MatchState → Option (LevelMap × MatchState × List Trade)
unfolding match_level out_of_reach
match_levels i [] s = some ([], s, [])
match_levels i ((p, level) ∷ m) s = do
  inc ← find i s.orders
  (if inc.remaining_quantity == 0 || out_of_reach inc p then some ((p, level) ∷ m, s, []) else (do
    (level', s', trades) ← match_level i level s
    (m', s'', trades') ← match_levels i m s'
    some (keep_level p level' m', s'', trades ++ trades')))

-- The status of the incoming order when the loop is over.
pub final_status : Order → OrderStatus
final_status o = if o.remaining_quantity == 0 then filled else elim o.order_type [
  | market ↦ if o.original_quantity == o.remaining_quantity then cancelled else o.order_status
  | _ ↦ o.order_status
]

-- `matchTable`
pub match_table : OrderId → LevelMap → MatchState → Option (LevelMap × MatchState × List Trade)
unfolding match_levels final_status
match_table i m s = do
  (m', s', trades) ← match_levels i m s
  o ← find i s'.orders
  some (m', record s' { orders = insert i (set_status (final_status o) o) s'.orders }, trades)

-- The opposite map is matched against.
unfoldable pub match :
    OrderId → OrderBook → MatchState → Option (OrderBook × MatchState × List Trade)
unfolding match_table
match i b s = do
  inc ← find i s.orders
  elim inc.order_side [
    | buy ↦ do (m, s', trades) ← match_table i b.asks s; some (record b { asks = m }, s', trades)
    | sell ↦ do (m, s', trades) ← match_table i b.bids s; some (record b { bids = m }, s', trades)
  ]
