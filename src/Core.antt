-- ===== src/Core.antt =====
-- exchange/exchange_app/src/TradingCore.cpp: the partitions of all instruments. The array of pointers
-- to partitions is a function; a `none` of a function that changes the core is the use of a null
-- pointer, or a fault of a command.
pub mod Safe
pub mod Reach
pub mod Routing
pub mod Drains
use beta_trader.Prelude.{
  ℕ, ◌+◌, ◌%◌, String, Bool, true, false, Option, none, some, List, [], ◌∷◌, ◌>>=◌, if◌then◌else◌,
  u64_mod,
}
use beta_trader.Common.Types.{
  Instrument, eurusd, usdjpy, gbpusd, usdcad, usdinr, eurinr, gbpinr, audusd, usdmxn, OrderId,
  TradeId, SessionId,
}
use beta_trader.Common.Order.{Order}
use beta_trader.Book.{MarketDataSnapshotFullRefresh, publish_snapshot}
use beta_trader.Manager.{contains_order_by_id, get_order_by_id, get_order_by_client_order_id}
use beta_trader.Publisher.{Environment}
use beta_trader.Worker.{World, Command, new_order, cancel_order, modify_order, process_next_command}
use beta_trader.MarketData.{
  MarketDataPublisher, CallbackId, same, add_subscription, remove_subscription,
  remove_all_subscriptions,
}
use beta_trader.MarketData
use beta_trader.Partition.{Partition, make_partition, enqueue, get_queue_size}
use beta_trader.Partition

pub record TradingCore : Type 0 where
  pub partitions : Instrument → Option Partition
  pub trade_id : TradeId
  pub order_id : OrderId
  pub market_data_publisher : MarketDataPublisher

-- The order of the array.
abbrev pub all_instruments : List Instrument
all_instruments =
    eurusd ∷ usdjpy ∷ gbpusd ∷ usdcad ∷ usdinr ∷ eurinr ∷ gbpinr ∷ audusd ∷ usdmxn ∷ []

-- exchange/exchange_state/src/OrderIDGenerator.cpp: `++mCurrentId`.
abbrev pub next_order_id : OrderId → OrderId
next_order_id n = (n + 1) % u64_mod

-- `mPartitions[i] = ...`
unfoldable pub set_partition : Instrument → Partition → TradingCore → TradingCore
set_partition i p core = record core {
  partitions = λ j. if same i j then some p else core.partitions j;
}

-- What `initPartitions` builds, for the orders that are loaded of each instrument.
pub init_partitions : Environment → (Instrument → List Order) → TradingCore → TradingCore
init_partitions env loaded core = record core {
  partitions = λ i. some (make_partition i env core.trade_id (loaded i));
}

-- A loop over the partitions that are there.
abbrev pub each : (Partition → Partition) → TradingCore → TradingCore
each f core = record core {
  partitions = λ i. elim (core.partitions i) [ none ↦ none | some p ↦ some (f p) ];
}

unfoldable pub start : TradingCore → TradingCore
start core = each Partition.start core

unfoldable pub stop : TradingCore → TradingCore
stop core = each Partition.stop core

unfoldable pub stop_accepting_commands : TradingCore → TradingCore
stop_accepting_commands core = each Partition.stop_accepting_commands core

-- The sum that `waitAllQueuesIdle` waits for, without the queue of the database worker.
pub total_queue_size : List Instrument → TradingCore → ℕ
total_queue_size [] core = 0
total_queue_size (i ∷ is) core = elim (core.partitions i) [
  | none ↦ total_queue_size is core
  | some p ↦ get_queue_size p + total_queue_size is core
]

-- The loop of `findPartitionForOrder`.
unfoldable pub find_partition : OrderId → List Instrument → TradingCore → Option Instrument
find_partition id [] core = none
find_partition id (i ∷ is) core = elim (core.partitions i) [
  | none ↦ find_partition id is core
  | some p ↦
      let rest = find_partition id is core in
      if contains_order_by_id id (p.world).orders then some p.symbol else rest
]

unfoldable pub find_partition_for_order : OrderId → TradingCore → Option Instrument
unfolding find_partition
find_partition_for_order id core = find_partition id all_instruments core

-- `mPartitions[i]->enqueue(command)`
unfoldable pub enqueue_at : Instrument → Command → TradingCore → Option TradingCore
unfolding set_partition
enqueue_at i c core = do p ← core.partitions i; some (set_partition i (enqueue c p) core)

-- `enqueue` at the partition of the order, if there is one.
unfoldable pub enqueue_for : OrderId → Command → TradingCore → Option TradingCore
unfolding find_partition_for_order enqueue_at
enqueue_for id c core = elim (find_partition_for_order id core) [
  | none ↦ some core
  | some i ↦ enqueue_at i c core
]

unfoldable pub submit_command : Command → TradingCore → Option TradingCore
unfolding enqueue_at enqueue_for
submit_command (new_order client ts o) core = enqueue_at o.symbol (new_order client ts o) core
submit_command (modify_order client ts id price quantity) core =
    enqueue_for id (modify_order client ts id price quantity) core
submit_command (cancel_order client ts id) core = enqueue_for id (cancel_order client ts id) core

pub get_order : OrderId → TradingCore → Option Order
get_order id core = do
  i ← find_partition_for_order id core
  p ← core.partitions i
  get_order_by_id id (p.world).orders

pub find_client_order : String → List Instrument → TradingCore → Option Order
find_client_order id [] core = none
find_client_order id (i ∷ is) core = elim (core.partitions i) [
  | none ↦ find_client_order id is core
  | some p ↦ elim (get_order_by_client_order_id id (p.world).orders) [
    | none ↦ find_client_order id is core
    | some o ↦ some o
  ]
]

pub find_by_client_order_id : String → TradingCore → Option Order
unfolding find_client_order
find_by_client_order_id id core = find_client_order id all_instruments core

abbrev pub with_subscriptions :
    (MarketData.Subscriptions → MarketData.Subscriptions) → TradingCore → TradingCore
with_subscriptions f core = record core {
  market_data_publisher = record (core.market_data_publisher) {
    subscriptions = f (core.market_data_publisher).subscriptions;
  };
}

-- The subscription, and what the callbacks get of the snapshot that follows it.
pub subscribe_to_market_data :
    Instrument
    → SessionId
    → TradingCore
    → Option (TradingCore × List (CallbackId × MarketDataSnapshotFullRefresh))
subscribe_to_market_data symbol id core =
    let core' = with_subscriptions (add_subscription symbol id) core in
    elim (core.partitions symbol) [
      | none ↦ some (core', [])
      | some p ↦ do
        snapshot ← publish_snapshot id (p.world).orders (p.world).book
        some (core', MarketData.publish_snapshot snapshot core.market_data_publisher)
    ]

pub unsubscribe_from_market_data : Instrument → SessionId → TradingCore → TradingCore
unsubscribe_from_market_data symbol id core =
    with_subscriptions (remove_subscription symbol id) core

pub unsubscribe_all_from_market_data : SessionId → TradingCore → TradingCore
unsubscribe_all_from_market_data id core = with_subscriptions (remove_all_subscriptions id) core

-- One pass of the worker of a partition, with the trade ids that all the partitions share.
unfoldable pub work : Instrument → TradingCore → Option TradingCore
unfolding set_partition
work i core = elim (core.partitions i) [
  | none ↦ some core
  | some p ↦
      if p.running
      then (do
        (rest, w') ← process_next_command p.queue (record (p.world) { trade_id = core.trade_id })
        some (
            set_partition i (record p { queue = rest; world = w' })
              (record core { trade_id = w'.trade_id })))
      else some core
]
