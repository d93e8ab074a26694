-- ===== src/Blotter.antt =====
-- client/client_blotter/src/BlotterModel.cpp: the orders of a client from its intents and the execution
-- reports. Of a report it has what the model reads. How a stream prints a price is the parameter
-- `print_price`. The rows stand in the order in which they came, where `std::map` sorts them.
pub mod Again
use beta_trader.Prelude.{
  ℕ, ◌+◌, String, str_eq, Bool, true, false, not, ◌&&◌, ◌||◌, Option, none, some, List, [], ◌∷◌,
  ◌++◌, ◌==◌, if◌then◌else◌,
}
use beta_trader.Common.Types.{
  Instrument, OrderSide, OrderType, limit, OrderStatus, new, partially_filled, filled, cancelled,
  rejected, OrderId, Price, Quantity, Timestamp,
}
use beta_trader.Common.Names.{to_string_order_status}
use beta_trader.Fix.Text.{Bytes, codes, print, eq_bytes}

pub record OrderIntent : Type 0 where
  pub client_order_id : String
  pub symbol : Instrument
  pub side : OrderSide
  pub order_type : OrderType
  pub price : Price
  pub original_quantity : Quantity

pub record OrderRow : Type 0 where
  pub client_order_id : String
  pub symbol : Instrument
  pub side : OrderSide
  pub order_type : OrderType
  pub order_type_known : Bool
  pub price : Price
  pub original_quantity : Quantity
  pub remaining_quantity : Quantity
  pub status : OrderStatus
  pub exchange_order_id : OrderId
  pub reason : Bytes

pub record HistoryRow : Type 0 where
  pub client_order_id : String
  pub exchange_order_id : OrderId
  pub symbol : Instrument
  pub side : OrderSide
  pub status : OrderStatus
  pub timestamp : Timestamp
  pub last_price : Price
  pub last_quantity : Quantity
  pub reason : Bytes

-- The getters of a report.
pub record ReceivedReport : Type 0 where
  pub execution_id : Bytes
  pub client_order_id : String
  pub exchange_order_id : OrderId
  pub symbol : Instrument
  pub side : OrderSide
  pub status : OrderStatus
  pub order_quantity : Quantity
  pub cumulative_quantity : Quantity
  pub leaves_quantity : Quantity
  pub last_price : Price
  pub last_quantity : Quantity
  pub transaction_time : Timestamp
  pub text : Bytes

pub record BlotterModel : Type 0 where
  pub orders : List (String × OrderRow)
  pub history : List HistoryRow
  pub seen_execution_keys : List Bytes

unfoldable pub find_row : String → List (String × OrderRow) → Option OrderRow
find_row id [] = none
find_row id ((k, r) ∷ rows) = let rest = find_row id rows in if str_eq k id then some r else rest

-- `mOrders[id] = row`
unfoldable pub put_row : String → OrderRow → List (String × OrderRow) → List (String × OrderRow)
put_row id row [] = (id, row) ∷ []
put_row id row ((k, r) ∷ rows) =
    let rest = put_row id row rows in if str_eq k id then (k, row) ∷ rows else (k, r) ∷ rest

unfoldable pub erase_row : String → List (String × OrderRow) → List (String × OrderRow)
erase_row id [] = []
erase_row id ((k, r) ∷ rows) =
    let rest = erase_row id rows in if str_eq k id then rest else (k, r) ∷ rest

unfoldable pub has_key : Bytes → List Bytes → Bool
unfolding eq_bytes
has_key key [] = false
has_key key (k ∷ ks) = eq_bytes k key || has_key key ks

-- `operator[]` with the initial values of the members.
abbrev pub empty_row : OrderRow
empty_row = record {
  client_order_id = "";
  symbol = Instrument.eurusd;
  side = OrderSide.buy;
  order_type = limit;
  order_type_known = false;
  price = 0;
  original_quantity = 0;
  remaining_quantity = 0;
  status = new;
  exchange_order_id = 0;
  reason = [];
}

abbrev pub row_or : OrderRow → Option OrderRow → OrderRow
row_or row none = row
row_or row (some r) = r

pub record_order_intent : OrderIntent → BlotterModel → BlotterModel
unfolding find_row put_row
record_order_intent i m = record m {
  orders =
      put_row i.client_order_id
        (record (row_or empty_row (find_row i.client_order_id m.orders)) {
          client_order_id = i.client_order_id;
          symbol = i.symbol;
          side = i.side;
          order_type = i.order_type;
          order_type_known = true;
          price = i.price;
          original_quantity = i.original_quantity;
          remaining_quantity = i.original_quantity;
          status = new;
          reason = [];
        })
        m.orders;
}

-- `common::to_string(status)`
abbrev pub status_name : OrderStatus → Bytes
status_name s = elim (to_string_order_status s) [ none ↦ [] | some name ↦ codes name ]

-- `<< '|' << ...`
abbrev pub behind_bar : Bytes → Bytes
behind_bar s = 124 ∷ s

unfoldable pub execution_key : (Price → Bytes) → ReceivedReport → Bytes
unfolding print
execution_key print_price r =
    r.execution_id
    ++ behind_bar (codes r.client_order_id)
    ++ behind_bar (status_name r.status)
    ++ behind_bar (print r.cumulative_quantity)
    ++ behind_bar (print r.leaves_quantity)
    ++ behind_bar (print_price r.last_price)
    ++ behind_bar (print r.last_quantity)
    ++ behind_bar r.text

abbrev pub is_terminal : OrderStatus → Bool
is_terminal filled = true
is_terminal cancelled = true
is_terminal rejected = true
is_terminal s = false

-- What `try_emplace` finds or makes.
abbrev pub row_for : ReceivedReport → List (String × OrderRow) → OrderRow
row_for r rows =
    row_or
      (record empty_row {
        client_order_id = r.client_order_id;
        symbol = r.symbol;
        side = r.side;
        price = r.last_price;
        original_quantity = r.order_quantity;
      })
      (find_row r.client_order_id rows)

unfoldable pub updated_row : ReceivedReport → OrderRow → OrderRow
updated_row r row = record row {
  symbol = r.symbol;
  side = r.side;
  exchange_order_id = r.exchange_order_id;
  status = r.status;
  remaining_quantity = r.leaves_quantity;
  original_quantity = if r.order_quantity == 0 then row.original_quantity else r.order_quantity;
  price = if not row.order_type_known && not (r.last_price == 0) then r.last_price else row.price;
  reason = r.text;
}

abbrev pub history_row : ReceivedReport → HistoryRow
history_row r = record {
  client_order_id = r.client_order_id;
  exchange_order_id = r.exchange_order_id;
  symbol = r.symbol;
  side = r.side;
  status = r.status;
  timestamp = r.transaction_time;
  last_price = r.last_price;
  last_quantity = r.last_quantity;
  reason = r.text;
}

-- Behind the search for a duplicate.
unfoldable pub apply_execution : ReceivedReport → BlotterModel → BlotterModel
unfolding updated_row put_row erase_row find_row
apply_execution r m = record m {
  orders =
      if is_terminal r.status
      then erase_row r.client_order_id m.orders
      else put_row r.client_order_id (updated_row r (row_for r m.orders)) m.orders;
  history = m.history ++ history_row r ∷ [];
}

abbrev pub is_empty : Bytes → Bool
is_empty [] = true
is_empty (c ∷ cs) = false

unfoldable pub process_execution : (Price → Bytes) → ReceivedReport → BlotterModel → BlotterModel
unfolding execution_key has_key apply_execution
process_execution print_price r m =
    if is_empty r.execution_id
    then apply_execution r m
    else if has_key (execution_key print_price r) m.seen_execution_keys
    then m
    else apply_execution r
        (record m { seen_execution_keys = execution_key print_price r ∷ m.seen_execution_keys })
