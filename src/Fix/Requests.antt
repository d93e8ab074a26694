-- ===== src/Fix/Requests.antt =====
-- exchange/exchange_fix/src/BinaryTo*RequestConverter.cpp: requests from messages. A `none` is
-- `std::nullopt`, what every exception becomes. `std::stod` and the clock's `parseTimestamp`, which
-- `std::get_time` and `std::mktime` do, are the parameters of `Readers`.
use beta_trader.Prelude.{
  ℕ, zero, suc, ◌+◌, ◌-◌, ◌%◌, String, Bool, false, not, Option, none, some, List, [], ◌∷◌, ◌>>=◌,
  ltb, ◌==◌, if◌then◌else◌, length, u32_mod, find,
}
use beta_trader.Common.Types.{Instrument, OrderSide, OrderType, OrderId, Price, Quantity, Timestamp}
use beta_trader.Common.Names.{from_string_instrument}
use beta_trader.Fix.Text.{
  Bytes, codes, soh, substr, find_text, find_text_from, find_char_from, starts_with,
}
use beta_trader.Fix.Values.{
  TagMap, stoi, stoull, int_from_chars, split_to_map, front, char_to_order_side, char_to_order_type,
  text, field_after, parse_timestamp,
}

pub record Readers : Type 0 where
  pub stod : Bytes → Option Price
  pub get_time : Bytes → Option ℕ

pub record OrderRequest : Type 0 where
  pub sender_comp_id : String
  pub client_order_id : String
  pub symbol : Instrument
  pub side : OrderSide
  pub quantity : Quantity
  pub price : Price

pub record CancelOrderRequest : Type 0 where
  pub cl_ord_id : String
  pub orig_cl_ord_id : String
  pub order_id : OrderId
  pub symbol : Instrument
  pub side : OrderSide
  pub transact_time : Timestamp

pub record ModifyOrderRequest : Type 0 where
  pub cl_ord_id : String
  pub orig_cl_ord_id : String
  pub order_id : OrderId
  pub symbol : Instrument
  pub side : OrderSide
  pub order_qty : Quantity
  pub ord_type : OrderType
  pub price : Price
  pub transact_time : Timestamp

-- What is never written of the type stays `none`. The depth is read and checked, but nothing uses it.
pub record MarketDataRequest : Type 0 where
  pub md_req_id : Bytes
  pub subscription_request_type : Option ℕ
  pub market_depth : Option ℕ
  pub symbols : List Instrument

-- `s.rfind(text)`
unfoldable pub rfind_text : Bytes → Bytes → Option ℕ
unfolding starts_with
rfind_text needle [] = if starts_with needle [] then some 0 else none
rfind_text needle (x ∷ xs) =
    let here = starts_with needle (x ∷ xs) in
    elim (rfind_text needle xs) [ some n ↦ some (suc n) | none ↦ if here then some 0 else none ]

-- `calculatedChecksum += static_cast<unsigned int>(c)`, of signed characters.
unfoldable pub unsigned_sum : Bytes → ℕ
unsigned_sum [] = 0
unsigned_sum (c ∷ cs) =
    let rest = unsigned_sum cs in ((if ltb c 128 then c else u32_mod + c - 256) + rest) % u32_mod

-- The check of the checksum.
unfoldable pub has_checksum : Bytes → Bool
unfolding rfind_text unsigned_sum stoi substr
has_checksum s = elim (rfind_text (soh ∷ codes "10=") s) [
  | none ↦ false
  | some pos ↦ elim (stoi (substr (pos + 4) (length s - (pos + 4)) s)) [
    | none ↦ false
    | some expected ↦ unsigned_sum (substr 0 (pos + 1) s) % 256 == expected
  ]
]

unfoldable pub convert_order : Readers → Bytes → Option OrderRequest
unfolding has_checksum split_to_map front char_to_order_side stoull text from_string_instrument
convert_order readers s = if not (has_checksum s) then none else (do
  m ← split_to_map s soh
  sender ← find 49 m
  client ← find 11 m
  symbol ← (find 55 m >>= λ v. from_string_instrument (text v))
  side ← (find 54 m >>= λ v. char_to_order_side (front v))
  quantity ← (find 38 m >>= stoull)
  price ← (find 44 m >>= readers.stod)
  some (record {
    sender_comp_id = text sender;
    client_order_id = text client;
    symbol = symbol;
    side = side;
    quantity = quantity;
    price = price;
  }))

-- `contains(37) ? stoull(at(37)) : 0`
abbrev pub order_id_of : TagMap → Option OrderId
order_id_of m = elim (find 37 m) [ none ↦ some 0 | some v ↦ stoull v ]

unfoldable pub convert_cancel : Readers → Bytes → Option CancelOrderRequest
unfolding parse_timestamp split_to_map front char_to_order_side text from_string_instrument
convert_cancel readers s = do
  m ← split_to_map s soh
  client ← find 11 m
  order_id ← order_id_of m
  symbol ← (find 55 m >>= λ v. from_string_instrument (text v))
  side ← (find 54 m >>= λ v. char_to_order_side (front v))
  transact_time ← (find 60 m >>= parse_timestamp readers.get_time)
  some (record {
    cl_ord_id = text client;
    orig_cl_ord_id = elim (find 41 m) [ none ↦ "" | some v ↦ text v ];
    order_id = order_id;
    symbol = symbol;
    side = side;
    transact_time = transact_time;
  })

unfoldable pub convert_modify : Readers → Bytes → Option ModifyOrderRequest
unfolding parse_timestamp split_to_map front char_to_order_side char_to_order_type stoull text
    from_string_instrument
convert_modify readers s = do
  m ← split_to_map s soh
  client ← find 11 m
  original ← find 41 m
  order_id ← order_id_of m
  symbol ← (find 55 m >>= λ v. from_string_instrument (text v))
  side ← (find 54 m >>= λ v. char_to_order_side (front v))
  quantity ← (find 38 m >>= stoull)
  type ← (find 40 m >>= λ v. char_to_order_type (front v))
  price ← (find 44 m >>= readers.stod)
  transact_time ← (find 60 m >>= parse_timestamp readers.get_time)
  some (record {
    cl_ord_id = text client;
    orig_cl_ord_id = text original;
    order_id = order_id;
    symbol = symbol;
    side = side;
    order_qty = quantity;
    ord_type = type;
    price = price;
    transact_time = transact_time;
  })

-- The loop over the symbols, from a position on.
unfoldable pub read_symbols : ℕ → ℕ → Bytes → Option (List Instrument)
unfolding find_text_from find_char_from substr text from_string_instrument
read_symbols zero pos s = some []
read_symbols (suc n) pos s = elim (find_text_from pos (codes "55=") s) [
  | none ↦ none
  | some at ↦ elim (find_char_from soh at s) [
    | none ↦ none
    | some end ↦ elim (from_string_instrument (text (substr (at + 3) (end - (at + 3)) s))) [
      | none ↦ none
      | some symbol ↦ elim (read_symbols n (end + 1) s) [
        | none ↦ none
        | some symbols ↦ some (symbol ∷ symbols)
      ]
    ]
  ]
]

-- A count of symbols that is negative is none at all.
abbrev pub count_of : ℕ → ℕ
count_of n = if ltb n 2147483648 then n else 0

-- The symbols of the group behind the field of their number.
unfoldable pub related_symbols : Bytes → Option (List Instrument)
unfolding find_text find_char_from substr int_from_chars read_symbols
related_symbols s = elim (find_text (codes "146=") s) [
  | none ↦ some []
  | some pos ↦ elim (find_char_from soh pos s) [
    | none ↦ some []
    | some end ↦ elim (int_from_chars (substr (pos + 4) (end - (pos + 4)) s)) [
      | none ↦ none
      | some n ↦ read_symbols (count_of n) (end + 1) s
    ]
  ]
]

unfoldable pub depth_of : Bytes → Option (Option ℕ)
unfolding field_after int_from_chars
depth_of s = elim (field_after (codes "264=") s) [
  | none ↦ some none
  | some v ↦ elim (int_from_chars v) [ none ↦ none | some n ↦ some (some n) ]
]

unfoldable pub convert_market_data : Bytes → Option MarketDataRequest
unfolding field_after front related_symbols depth_of
convert_market_data s = do
  depth ← depth_of s
  symbols ← related_symbols s
  some (record {
    md_req_id = elim (field_after (codes "262=") s) [ none ↦ [] | some v ↦ v ];
    subscription_request_type = elim (field_after (codes "263=") s) [
      | none ↦ none
      | some v ↦ some (front v)
    ];
    market_depth = depth;
    symbols = symbols;
  })
