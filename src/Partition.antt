-- ===== src/Partition.antt =====
-- exchange/exchange_routing/src/Partition.cpp: the queue, the owner, the book and the worker of one
-- instrument. The list of owned orders stands for the iteration order of the `unordered_map`.
use beta_trader.Prelude.{ℕ, Bool, true, false, List, [], ◌∷◌, ◌++◌, ltb, if◌then◌else◌, length}
use beta_trader.Common.Types.{Instrument, TradeId}
use beta_trader.Common.Order.{Order}
use beta_trader.Book.{Store, insert_order}
use beta_trader.Manager.{add_order}
use beta_trader.Publisher.{Environment}
use beta_trader.Worker.{World, Command}

pub record Partition : Type 0 where
  pub symbol : Instrument
  pub queue : List Command
  pub accepting_commands : Bool
  pub running : Bool
  pub world : World

-- The capacity that the constructors give to the queue.
abbrev pub queue_capacity : ℕ
queue_capacity = 262144

-- The callback of `init`: the loaded orders become owned, in order.
unfoldable pub load_orders : List Order → Store → Store
load_orders [] orders = orders
load_orders (o ∷ os) orders = load_orders os (add_order o orders).1

-- The constructor, when the loading that it starts has ended.
unfoldable pub make_partition : Instrument → Environment → TradeId → List Order → Partition
unfolding load_orders
make_partition symbol env trade_id loaded = record {
  symbol = symbol;
  queue = [];
  accepting_commands = true;
  running = false;
  world = record {
    env = env;
    orders = load_orders loaded [];
    book = record { symbol = symbol; bids = []; asks = [] };
    trade_id = trade_id;
    db = [];
    reports = [];
    market_data = [];
  };
}

-- `mOrderBook->insertOrder(orderPtr.get())`
unfoldable pub insert_into_book : Order → World → World
insert_into_book o w = record w {
  book = (insert_order o w.book).0;
  market_data = w.market_data ++ (insert_order o w.book).1 ∷ [];
}

unfoldable pub populate_book : Store → World → World
unfolding insert_into_book
populate_book [] w = w
populate_book ((k, o) ∷ orders) w = populate_book orders (insert_into_book o w)

unfoldable pub start : Partition → Partition
unfolding populate_book
start p =
    if p.running
    then p
    else record p { running = true; world = populate_book (p.world).orders p.world }

pub stop : Partition → Partition
stop p = record p { running = false }

unfoldable pub stop_accepting_commands : Partition → Partition
stop_accepting_commands p = record p { accepting_commands = false }

-- `try_push` drops the command when the queue is full.
unfoldable pub enqueue : Command → Partition → Partition
enqueue c p =
    if p.accepting_commands
    then if ltb (length p.queue) queue_capacity then record p { queue = p.queue ++ c ∷ [] } else p
    else p

pub get_queue_size : Partition → ℕ
get_queue_size p = length p.queue
