-- ===== src/Worker.antt =====
-- exchange/exchange_routing/src/WorkerThread.cpp: the commands of one partition. A `none` is a use of
-- an order that the order manager has destroyed. Logging is left out.
pub mod Settle
pub mod Consistent
pub mod Rest
pub mod Commands
pub mod Cancel
pub mod Modify
pub mod Reach
pub mod Skipped
pub mod Within
pub mod Batches
use beta_trader.Prelude.{
  ℕ, zero, suc, ◌+◌, Bool, true, false, ◌&&◌, ◌||◌, Option, none, some, List, [], ◌∷◌, ◌++◌, String,
  ◌>>=◌, ltb, ◌==◌, if◌then◌else◌, find, insert,
}
use beta_trader.Common.Types.{
  Instrument, eurusd, OrderSide, buy, OrderType, limit, market, OrderStatus, new, OrderId, TradeId,
  Price, Quantity, Timestamp,
}
use beta_trader.Common.Order.{Order, Trade, set_price, set_original_quantity, set_status}
use beta_trader.Book.{Store, OrderBook, MarketDataIncrementalRefresh, insert_order}
use beta_trader.Book
use beta_trader.Manager.{add_order, get_order_by_id, contains_order_by_id, remove_order_by_id}
use beta_trader.Matcher.{MatchState, match}
use beta_trader.Risk.{pre_check}
use beta_trader.Publisher.{
  Environment, ExecutionReport, Action, execution_report, trade_reports, rejection_report,
}

-- exchange/exchange_routing/include/exchange_routing: the commands.
pub data Command : Type 0 where
  new_order : String → Timestamp → Order → Command
  cancel_order : String → Timestamp → OrderId → Command
  modify_order : String → Timestamp → OrderId → Price → Quantity → Command

-- The statements that the repositories put into the queue of the database worker.
pub data DbCommand : Type 0 where
  save_order : Order → DbCommand
  update_order : Order → DbCommand
  remove_order : OrderId → DbCommand
  add_trade : Trade → DbCommand

-- What a worker reads and writes.
pub record World : Type 0 where
  pub env : Environment
  pub orders : Store
  pub book : OrderBook
  pub trade_id : TradeId
  pub db : List DbCommand
  pub reports : List ExecutionReport
  pub market_data : List MarketDataIncrementalRefresh

abbrev pub send_db : List DbCommand → World → World
send_db cs w = record w { db = w.db ++ cs }

abbrev pub publish : List ExecutionReport → World → World
publish rs w = record w { reports = w.reports ++ rs }

-- `mOrderRepository.removeOrder` and `mOrderManager.removeOrderById`
pub forget_order : OrderId → World → World
forget_order id w = record w {
  orders = (remove_order_by_id id w.orders).1;
  db = w.db ++ remove_order id ∷ [];
}

pub forget_if_filled : Order → World → World
unfolding forget_order
forget_if_filled o w = if o.remaining_quantity == 0 then forget_order o.core_order_id w else w

-- The body of the loop over the trades behind `postTradeUpdate`.
pub settle_trade : Trade → World → World
unfolding forget_if_filled
settle_trade t w = elim (get_order_by_id t.buy_order_id w.orders) [
  | none ↦ w
  | some buyer ↦ elim (get_order_by_id t.sell_order_id w.orders) [
    | none ↦ w
    | some seller ↦ forget_if_filled seller (
        forget_if_filled buyer (
          publish (trade_reports w.env t buyer seller)
            (send_db (update_order buyer ∷ update_order seller ∷ []) w)))
  ]
]

-- `RiskManager::postTradeUpdate`
abbrev pub post_trade_update : Trade → World → World
post_trade_update t w = send_db (add_trade t ∷ []) w

-- The loop of `processNewOrder`.
pub settle_new : List Trade → World → World
unfolding settle_trade
settle_new [] w = w
settle_new (t ∷ ts) w = settle_new ts (settle_trade t (post_trade_update t w))

-- The loop of `processModifyOrder`; the trades are not stored.
pub settle_modified : List Trade → World → World
unfolding settle_trade
settle_modified [] w = w
settle_modified (t ∷ ts) w = settle_modified ts (settle_trade t w)

-- `mMatcher.match(order, mOrderBook)`
pub match_in : OrderId → World → Option (World × List Trade)
match_in id w = do
  (book', s', trades) ←
      match id w.book
        (record { orders = w.orders; trade_id = w.trade_id; clock = w.env.trade_clock })
  some (record w { orders = s'.orders; book = book'; trade_id = s'.trade_id }, trades)

abbrev pub is_rejected : World → String → OrderId → Instrument → OrderSide → String → World
is_rejected w client id symbol side why =
    publish (rejection_report w.env id client symbol side why ∷ []) w

-- `mOrderBook.insertOrder(order)` if the order is still owned and something is left of it.
pub rest_order : OrderId → World → World
rest_order id w = elim (find id w.orders) [
  | none ↦ w
  | some o ↦
      if ltb 0 o.remaining_quantity
      then record w {
        book = (insert_order o w.book).0;
        market_data = w.market_data ++ (insert_order o w.book).1 ∷ [];
      }
      else w
]

-- What follows the loop in `processNewOrder`.
pub finish_new : OrderType → OrderId → World → World
unfolding rest_order forget_order
finish_new limit id w = rest_order id w
finish_new market id w = if contains_order_by_id id w.orders then forget_order id w else w
finish_new _ id w = w

unfoldable pub process_new_order : String → Timestamp → Order → World → Option World
unfolding match_in settle_new finish_new
process_new_order client ts o w = do
  passed ← pre_check o w.book w.orders
  let (added, orders') = add_order o w.orders
  (if passed
      then if added
        then (do
          let w1 =
              publish (execution_report w.env o Action.new ∷ [])
                (send_db (save_order o ∷ []) (record w { orders = orders' }))
          (w2, trades) ← match_in o.core_order_id w1
          some (finish_new o.order_type o.core_order_id (settle_new trades w2)))
        else none
      else some
          (is_rejected w o.client_id o.core_order_id o.symbol o.order_side "Risk check failed"))

-- The side and the symbol that a rejection names when the order is not known.
abbrev pub unknown_symbol : Instrument
unknown_symbol = eurusd

unfoldable pub process_cancel_order : String → OrderId → World → Option World
unfolding forget_order
process_cancel_order client id w = elim (get_order_by_id id w.orders) [
  | none ↦ some (is_rejected w client id unknown_symbol buy "Order not found")
  | some o ↦ do
    (found, book', refreshes) ← Book.cancel_order id w.env.now w.orders w.book
    some (
        if found
        then forget_order id (
            publish (execution_report w.env o Action.canceled ∷ [])
              (record w { book = book'; market_data = w.market_data ++ refreshes }))
        else is_rejected w client id o.symbol o.order_side "Order cannot be canceled")
]

-- The order with its new price and quantity.
abbrev pub revise : Price → Quantity → Order → Order
revise price quantity o = set_status new (set_original_quantity quantity (set_price price o))

-- What follows the loop in `processModifyOrder`.
pub finish_modified : OrderId → World → World
unfolding rest_order forget_order
finish_modified id w =
    let w' = rest_order id w in
    elim (get_order_by_id id w'.orders) [
      | none ↦ w'
      | some o ↦ if o.remaining_quantity == 0 then forget_order id w' else w'
    ]

pub process_modify_order : String → OrderId → Price → Quantity → World → Option World
unfolding match_in settle_modified finish_modified
process_modify_order client id price quantity w = elim (get_order_by_id id w.orders) [
  | none ↦ some (is_rejected w client id unknown_symbol buy "Order not found")
  | some o ↦ do
    (_, book', refreshes) ← Book.cancel_order id w.env.now w.orders w.book
    let o' = revise price quantity o
    let w1 = send_db (remove_order id ∷ save_order o' ∷ []) (record w {
      orders = insert id o' w.orders;
      book = book';
      market_data = w.market_data ++ refreshes;
    })
    (w2, trades) ← match_in id (publish (execution_report w.env o' Action.replaced ∷ []) w1)
    some (finish_modified id (settle_modified trades w2))
]

unfoldable pub process_command : Command → World → Option World
process_command (new_order client ts o) w = process_new_order client ts o w
process_command (cancel_order client ts id) w = process_cancel_order client id w
process_command (modify_order client ts id price quantity) w =
    process_modify_order client id price quantity w

-- `processBatch`: the commands in order.
unfoldable pub process_batch : List Command → World → Option World
process_batch [] w = some w
process_batch (c ∷ cs) w = do w' ← process_command c w; process_batch cs w'

-- `BATCH_SIZE`
abbrev pub batch_size : ℕ
batch_size = 64

-- Up to `n` commands from the front of the queue, and the rest of the queue.
unfoldable pub dequeue : ℕ → List Command → List Command × List Command
dequeue zero queue = ([], queue)
dequeue (suc n) [] = ([], [])
dequeue (suc n) (c ∷ queue) = let (batch, rest) = dequeue n queue in (c ∷ batch, rest)

-- `processNextCommand`
unfoldable pub process_next_command : List Command → World → Option (List Command × World)
unfolding dequeue
process_next_command queue w = do
  let (batch, rest) = dequeue batch_size queue
  w' ← process_batch batch w
  some (rest, w')
