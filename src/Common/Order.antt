-- ===== src/Common/Order.antt =====
-- common/include/common/Order.h and Trade.h.
use beta_trader.Prelude.{String}
use beta_trader.Common.Types.{
  Instrument, OrderSide, OrderType, TimeInForce, OrderStatus, new, Price, Quantity, OrderId,
  TradeId, Timestamp,
}

pub record Order : Type 0 where
  pub client_order_id : String
  pub core_order_id : OrderId
  pub symbol : Instrument
  pub client_id : String
  pub sender_comp_id : String
  pub order_side : OrderSide
  pub order_type : OrderType
  pub time_in_force : TimeInForce
  pub original_quantity : Quantity
  pub remaining_quantity : Quantity
  pub price : Price
  pub timestamp : Timestamp
  pub order_status : OrderStatus

-- The constructor: all of the quantity remains, and the status is `New`.
abbrev pub make_order :
    String
    → OrderId
    → Instrument
    → String
    → String
    → OrderSide
    → OrderType
    → TimeInForce
    → Quantity
    → Price
    → Timestamp
    → Order
make_order cl_id id symbol client sender side type tif quantity price ts = record {
  client_order_id = cl_id;
  core_order_id = id;
  symbol = symbol;
  client_id = client;
  sender_comp_id = sender;
  order_side = side;
  order_type = type;
  time_in_force = tif;
  original_quantity = quantity;
  remaining_quantity = quantity;
  price = price;
  timestamp = ts;
  order_status = new;
}

abbrev pub set_remaining_quantity : Quantity → Order → Order
set_remaining_quantity qty o = record o { remaining_quantity = qty }

abbrev pub set_status : OrderStatus → Order → Order
set_status s o = record o { order_status = s }

abbrev pub set_price : Price → Order → Order
set_price p o = record o { price = p }

abbrev pub set_original_quantity : Quantity → Order → Order
set_original_quantity qty o = record o { original_quantity = qty; remaining_quantity = qty }

pub record Trade : Type 0 where
  pub trade_id : TradeId
  pub order_symbol : Instrument
  pub buy_order_id : OrderId
  pub sell_order_id : OrderId
  pub quantity : Quantity
  pub price : Price
  pub timestamp : Timestamp
