-- ===== src/Publisher.antt =====
-- exchange/exchange_publishers/src/ExecutionPublisher.cpp: the execution reports, in the order in
-- which the callback gets them. The reading of a client id as a number, the decimal form of a number
-- and the clock belong to the C++ library.
pub mod Balance
use beta_trader.Prelude.{ℕ, ◌+◌, ◌-◌, ◌%◌, List, [], ◌∷◌, String, u64_mod, u32_mod}
use beta_trader.Common.Types.{
  Instrument, OrderSide, OrderStatus, cancelled, rejected, Price, Quantity, OrderId, Timestamp,
  TradeId,
}
use beta_trader.Common.Order.{Order, Trade}

-- What the publishers take from the C++ library: `stoul_safe_ep`, `std::to_string`, and the clock.
pub record Environment : Type 0 where
  pub stoul : String → ℕ
  pub to_string : ℕ → String
  pub now : Timestamp
  pub trade_clock : TradeId → Timestamp

-- The texts "exec_<n>", "exec_trade_<n>_buy", "exec_trade_<n>_sell" and "exec_reject_<n>".
pub data ExecutionId : Type 0 where
  exec exec_trade_buy exec_trade_sell exec_reject : ℕ → ExecutionId

pub data Action : Type 0 where
  new canceled replaced trade : Action
  reason : String → Action

-- common/include/common_fix/ExecutionReport.h
pub record ExecutionReport : Type 0 where
  pub sender_comp_id : ℕ
  pub target_comp_id : ℕ
  pub message_sequence_number : ℕ
  pub exchange_order_id : OrderId
  pub client_order_id : String
  pub execution_id : ExecutionId
  pub status : OrderStatus
  pub text : Action
  pub symbol : Instrument
  pub side : OrderSide
  pub order_quantity : Quantity
  pub cumulative_quantity : Quantity
  pub leaves_quantity : Quantity
  pub last_price : Price
  pub last_quantity : Quantity
  pub transaction_time : Timestamp

-- `getOriginalQuantity() - getRemainingQuantity()` in `uint64_t`.
pub cumulative : Order → Quantity
cumulative o = (o.original_quantity + u64_mod - o.remaining_quantity) % u64_mod

pub status_of : Action → Order → OrderStatus
status_of Action.new o = OrderStatus.new
status_of Action.canceled o = cancelled
status_of _ o = o.order_status

pub execution_report : Environment → Order → Action → ExecutionReport
unfolding cumulative status_of
execution_report env o action = record {
  sender_comp_id = 1;
  target_comp_id = env.stoul o.client_id % u32_mod;
  message_sequence_number = 0;
  exchange_order_id = o.core_order_id;
  client_order_id = o.client_order_id;
  execution_id = exec o.core_order_id;
  status = status_of action o;
  text = action;
  symbol = o.symbol;
  side = o.order_side;
  order_quantity = o.original_quantity;
  cumulative_quantity = cumulative o;
  leaves_quantity = o.remaining_quantity;
  last_price = o.price;
  last_quantity = 0;
  transaction_time = o.timestamp;
}

-- The report of a trade to the owner of one of its orders.
pub trade_report : Environment → ExecutionId → Trade → Order → ExecutionReport
unfolding cumulative
trade_report env id t o = record {
  sender_comp_id = 1;
  target_comp_id = env.stoul o.client_id % u32_mod;
  message_sequence_number = 0;
  exchange_order_id = o.core_order_id;
  client_order_id = o.client_order_id;
  execution_id = id;
  status = o.order_status;
  text = Action.trade;
  symbol = o.symbol;
  side = o.order_side;
  order_quantity = o.original_quantity;
  cumulative_quantity = cumulative o;
  leaves_quantity = o.remaining_quantity;
  last_price = t.price;
  last_quantity = t.quantity;
  transaction_time = t.timestamp;
}

-- `publishTrade`: the buyer's report, then the seller's.
unfoldable pub trade_reports : Environment → Trade → Order → Order → List ExecutionReport
unfolding trade_report
trade_reports env t buy_order sell_order =
    trade_report env (exec_trade_buy t.trade_id) t buy_order
    ∷ trade_report env (exec_trade_sell t.trade_id) t sell_order
    ∷ []

pub rejection_report :
    Environment → OrderId → String → Instrument → OrderSide → String → ExecutionReport
rejection_report env id client symbol side why = record {
  sender_comp_id = 1;
  target_comp_id = env.stoul client % u32_mod;
  message_sequence_number = 0;
  exchange_order_id = id;
  client_order_id = env.to_string id;
  execution_id = exec_reject id;
  status = rejected;
  text = reason why;
  symbol = symbol;
  side = side;
  order_quantity = 0;
  cumulative_quantity = 0;
  leaves_quantity = 0;
  last_price = 0;
  last_quantity = 0;
  transaction_time = env.now;
}
