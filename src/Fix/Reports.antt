-- ===== src/Fix/Reports.antt =====
-- exchange/exchange_fix/src/ExecutionReportToBinaryConverter.cpp, and the reading of such a report by
-- client/client_fix/src/FixMessageParser.cpp. Texts are bytes. What a stream prints for a price, and
-- `gmtime_r` with `std::put_time`, are the parameters of `Printers`.
pub mod Fields
pub mod Times
pub mod Printable
pub mod RoundTrip
use beta_trader.Prelude.{
  ℕ, ◌+◌, ◌%◌, Bool, true, false, Option, none, some, List, [], ◌∷◌, ◌++◌, ◌>>=◌, ◌==◌,
  if◌then◌else◌, length, find, ◌/◌,
}
use beta_trader.Common.Types.{
  Instrument, OrderSide, buy, sell, OrderStatus, new, partially_filled, filled, cancelled, rejected,
  OrderId, Price, Quantity, Timestamp,
}
use beta_trader.Common.Names.{to_string_instrument, from_string_instrument}
use beta_trader.Fix.Text.{Bytes, codes, soh, print, zero_padded}
use beta_trader.Fix.Values.{TagMap, split_to_map, stoull, text, char_to_order_side, parse_timestamp}
use beta_trader.Fix.Requests.{Readers, unsigned_sum}

pub record Printers : Type 0 where
  pub print_price : Price → Bytes
  -- The text of a time in seconds, by the format of `timestampToString`.
  pub put_time : ℕ → Bytes
  -- The time of sending.
  pub now : Timestamp

-- `timestampToString`, of nanoseconds
unfoldable pub print_timestamp : Printers → Timestamp → Bytes
unfolding zero_padded print
print_timestamp p ts =
    p.put_time (ts / 1000000000) ++ (46 ∷ zero_padded 3 (print (ts / 1000000 % 1000)))

pub record Report : Type 0 where
  pub sender_comp_id : ℕ
  pub target_comp_id : ℕ
  pub message_sequence_number : ℕ
  pub exchange_order_id : OrderId
  pub client_order_id : Bytes
  pub execution_id : Bytes
  pub status : OrderStatus
  pub message : Bytes
  pub symbol : Instrument
  pub side : OrderSide
  pub order_quantity : Quantity
  pub cumulative_quantity : Quantity
  pub leaves_quantity : Quantity
  pub last_price : Price
  pub last_quantity : Quantity
  pub transaction_time : Timestamp

-- A tag with its value.
abbrev pub Field : Type 0
Field = ℕ × Bytes

-- `<< tag << "=" << value << SOH`, one after the other.
unfoldable pub join : List Field → Bytes
unfolding print
join [] = []
join ((tag, value) ∷ fields) = print tag ++ (61 ∷ (value ++ (soh ∷ join fields)))

abbrev pub order_status_to_char : OrderStatus → ℕ
order_status_to_char new = 48
order_status_to_char partially_filled = 49
order_status_to_char filled = 50
order_status_to_char cancelled = 52
order_status_to_char rejected = 56

abbrev pub order_side_to_char : OrderSide → ℕ
order_side_to_char buy = 49
order_side_to_char sell = 50

-- `common::to_string(symbol)`
unfoldable pub symbol_text : Instrument → Bytes
unfolding to_string_instrument
symbol_text i = elim (to_string_instrument i) [ none ↦ [] | some name ↦ codes name ]

-- The text, if there is one, before the other fields.
abbrev pub with_text : Bytes → List Field → List Field
with_text [] fields = fields
with_text (c ∷ cs) fields = (58, c ∷ cs) ∷ fields

abbrev pub header_fields : Printers → Report → ℕ → List Field
header_fields p r seq =
    (35, codes "8")
    ∷ (49, print r.sender_comp_id)
    ∷ (56, print r.target_comp_id)
    ∷ (34, print seq)
    ∷ (52, print_timestamp p p.now)
    ∷ []

abbrev pub quantity_fields : Printers → Report → List Field
quantity_fields p r =
    (55, symbol_text r.symbol)
    ∷ (54, order_side_to_char r.side ∷ [])
    ∷ (38, print r.order_quantity)
    ∷ (14, print r.cumulative_quantity)
    ∷ (151, print r.leaves_quantity)
    ∷ (31, p.print_price r.last_price)
    ∷ (32, print r.last_quantity)
    ∷ (60, print_timestamp p r.transaction_time)
    ∷ []

abbrev pub body_fields : Printers → Report → List Field
body_fields p r =
    (37, print r.exchange_order_id)
    ∷ (11, r.client_order_id)
    ∷ (17, r.execution_id)
    ∷ (39, order_status_to_char r.status ∷ [])
    ∷ with_text r.message (quantity_fields p r)

-- The fields before the checksum; the length is that of the header and the body.
abbrev pub message_fields : Printers → Report → ℕ → List Field
message_fields p r seq =
    (8, codes "FIX.4.4")
      ∷ (9, print (length (join (header_fields p r seq) ++ join (body_fields p r))))
      ∷ header_fields p r seq
    ++ body_fields p r

unfoldable pub convert_report : Printers → Report → ℕ → Bytes
unfolding join print unsigned_sum zero_padded symbol_text print_timestamp
convert_report p r seq =
    let before = join (message_fields p r seq) in
    before ++ join ((10, zero_padded 3 (print (unsigned_sum before % 256))) ∷ [])

-- `getStr`
abbrev pub get_str : ℕ → TagMap → Bytes
get_str tag m = elim (find tag m) [ none ↦ [] | some v ↦ v ]

-- `[0]`, which is the final null character of an empty text.
abbrev pub first_char : Bytes → ℕ
first_char [] = 0
first_char (c ∷ cs) = c

unfoldable pub char_to_order_status : ℕ → Option OrderStatus
char_to_order_status c =
    if c == 48
    then some new
    else if c == 49
    then some partially_filled
    else if c == 50
    then some filled
    else if c == 52
    then some cancelled
    else if c == 56
    then some rejected
    else none

-- A number, or 0 for a field that is missing or empty.
unfoldable pub optional_number : (Bytes → Option ℕ) → Bytes → Option ℕ
optional_number read [] = some 0
optional_number read (c ∷ cs) = read (c ∷ cs)

-- The report of the fields.
unfoldable pub report_of : Readers → TagMap → Option Report
unfolding parse_timestamp stoull text char_to_order_side char_to_order_status from_string_instrument
    optional_number
report_of readers m = do
  seq ← stoull (get_str 34 m)
  id ← stoull (get_str 37 m)
  status ← char_to_order_status (first_char (get_str 39 m))
  symbol ← from_string_instrument (text (get_str 55 m))
  side ← char_to_order_side (first_char (get_str 54 m))
  order_quantity ← stoull (get_str 38 m)
  cumulative_quantity ← stoull (get_str 14 m)
  leaves_quantity ← stoull (get_str 151 m)
  last_price ← optional_number readers.stod (get_str 31 m)
  last_quantity ← optional_number stoull (get_str 32 m)
  transaction_time ← parse_timestamp readers.get_time (get_str 60 m)
  some (record {
    sender_comp_id = 0;
    target_comp_id = 0;
    message_sequence_number = seq;
    exchange_order_id = id;
    client_order_id = get_str 11 m;
    execution_id = get_str 17 m;
    status = status;
    message = get_str 58 m;
    symbol = symbol;
    side = side;
    order_quantity = order_quantity;
    cumulative_quantity = cumulative_quantity;
    leaves_quantity = leaves_quantity;
    last_price = last_price;
    last_quantity = last_quantity;
    transaction_time = transaction_time;
  })

unfoldable pub parse_execution_report : Readers → Bytes → Option Report
unfolding split_to_map report_of
parse_execution_report readers s = split_to_map s soh >>= report_of readers
