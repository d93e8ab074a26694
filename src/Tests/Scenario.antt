-- ===== src/Tests/Scenario.antt =====
-- Two sell orders that rest in a book, and a buy order that takes all of the first and part of the
-- second.
use beta_trader.Prelude.{◌+◌, String, refl, [], ◌∷◌, arith, find}
use beta_trader.Common.Types.{eurusd, OrderSide, buy, sell, limit, day, OrderId, Price, Quantity}
use beta_trader.Common.Order.{Order, make_order}
use beta_trader.Book.{Store, OrderBook, LevelMap}
use beta_trader.Book.Sound.{IsSound}
use beta_trader.Matcher.{MatchState}
use beta_trader.Matcher.Ends.{IsMatchable}
use beta_trader.Matcher.Fills.{IsKeyed}
use beta_trader.Publisher.{Environment}
use beta_trader.Worker.{World}
use beta_trader.Worker.Consistent.{IsConsistent}

abbrev pub order : OrderId → OrderSide → Quantity → Price → String → Order
order id side quantity price sender =
    make_order "client order" id eurusd "7" sender side limit day quantity price 1000

abbrev pub first_ask : Order
first_ask = order 1 sell 5 100 "alice"

abbrev pub second_ask : Order
second_ask = order 2 sell 7 101 "bob"

abbrev pub bid_order : Order
bid_order = order 3 buy 8 101 "carol"

abbrev pub resting : Store
resting = (1, first_ask) ∷ (2, second_ask) ∷ []

abbrev pub asks : LevelMap
asks = (100, 1 ∷ []) ∷ (101, 2 ∷ []) ∷ []

abbrev pub book : OrderBook
book = record { symbol = eurusd; bids = []; asks = asks }

abbrev pub start : MatchState
start = record {
  orders = (1, first_ask) ∷ (2, second_ask) ∷ (3, bid_order) ∷ [];
  trade_id = 40;
  clock = λ n. 2000 + n;
}

abbrev pub env : Environment
env = record { stoul = λ s. 7; to_string = λ n. "n"; now = 3000; trade_clock = λ n. 2000 + n }

abbrev pub world : World
world = record {
  env = env;
  orders = resting;
  book = book;
  trade_id = 40;
  db = [];
  reports = [];
  market_data = [];
}

pub resting-IsKeyed : IsKeyed resting
unfolding find
resting-IsKeyed k o e = ground arith

pub start-IsKeyed : IsKeyed start.orders
unfolding find
start-IsKeyed k o e = ground arith

pub asks-IsSound : IsSound resting sell asks
unfolding find
asks-IsSound = record {
  sorted = ((refl, tt), (tt, tt));
  resting = (
    ((first_ask, refl, refl, refl, omega arith), tt),
    (((second_ask, refl, refl, refl, omega arith), tt), tt),
  );
  distinct = ((λ e. omega (arith, e), tt), (tt, tt));
}

pub world-IsConsistent : IsConsistent world
world-IsConsistent = record {
  keyed = resting-IsKeyed;
  bids_sound = record { sorted = tt; resting = tt; distinct = tt };
  asks_sound = asks-IsSound;
  uncrossed = (tt, (tt, tt));
}

pub start-IsMatchable : IsMatchable 3 bid_order book start
unfolding find
start-IsMatchable = record {
  incoming = refl;
  resting = ((first_ask, refl), ((second_ask, refl), tt));
  keyed = start-IsKeyed;
  apart = (λ e. omega (arith, e), (λ e. omega (arith, e), tt));
}
