-- ===== src/Common/Types.antt =====
-- common/include/common/Types.h and Instrument.h.
-- Prices are decimals read as a number of ticks; they are not negative.
use beta_trader.Prelude.{ℕ}

pub data Instrument : Type 0 where
  eurusd usdjpy gbpusd usdcad usdinr eurinr gbpinr audusd usdmxn : Instrument

pub data OrderSide : Type 0 where
  buy sell : OrderSide

pub data OrderType : Type 0 where
  limit market stop stop_limit : OrderType

pub data OrderStatus : Type 0 where
  new partially_filled filled cancelled rejected : OrderStatus

pub data TimeInForce : Type 0 where
  day gtc ioc fok moo moc : TimeInForce

abbrev pub Price : Type 0
Price = ℕ

abbrev pub Quantity : Type 0
Quantity = ℕ

abbrev pub OrderId : Type 0
OrderId = ℕ

abbrev pub TradeId : Type 0
TradeId = ℕ

abbrev pub SessionId : Type 0
SessionId = ℕ

abbrev pub Timestamp : Type 0
Timestamp = ℕ
