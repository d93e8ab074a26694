-- ===== src/Common/Names.antt =====
-- common/include/common/Types.h and Instrument.h: the names of the
-- enumerators. A `none` of `to_string` is an index past the end of the table of names; a `none` of
-- `from_string` is the exception on an unknown name.
use beta_trader.Prelude.{
  ◌≡◌, refl, ℕ, zero, suc, String, str_eq, Option, none, some, List, [], ◌∷◌, ◌>>=◌, if◌then◌else◌,
}
use beta_trader.Common.Types.{
  Instrument, eurusd, usdjpy, gbpusd, usdcad, usdinr, eurinr, gbpinr, audusd, usdmxn, OrderSide,
  buy, sell, OrderType, limit, market, stop, stop_limit, OrderStatus, new, partially_filled, filled,
  cancelled, rejected, TimeInForce, day, gtc, ioc, fok, moo, moc,
}

-- `names[i]`
unfoldable pub name_at : ℕ → List String → Option String
name_at i [] = none
name_at zero (s ∷ names) = some s
name_at (suc i) (s ∷ names) = name_at i names

-- The loop over the table: the first of the enumerators, in order, whose name it is.
unfoldable pub search_name {ℓ} : {E : Type ℓ} → String → List String → List E → Option E
search_name name [] es = none
search_name name (s ∷ names) [] = none
search_name name (s ∷ names) (e ∷ es) = if str_eq s name then some e else search_name name names es

abbrev pub symbol_names : List String
symbol_names =
    "EURUSD" ∷ "USDJPY" ∷ "GBPUSD" ∷ "USDCAD" ∷ "USDINR" ∷ "EURINR" ∷ "GBPINR" ∷ "AUDUSD" ∷ "USDMXN"
    ∷ []

abbrev pub order_side_names : List String
order_side_names = "Buy" ∷ "Sell" ∷ []

abbrev pub order_type_names : List String
order_type_names = "Limit" ∷ "Market" ∷ []

abbrev pub order_status_names : List String
order_status_names = "New" ∷ "PartiallyFilled" ∷ "Filled" ∷ "Cancelled" ∷ "Rejected" ∷ []

abbrev pub time_in_force_names : List String
time_in_force_names = "DAY" ∷ "GTC" ∷ "IOC" ∷ "FOK" ∷ "MOO" ∷ "MOC" ∷ []

-- The values of the enumerators.
abbrev pub instrument_index : Instrument → ℕ
instrument_index eurusd = 0
instrument_index usdjpy = 1
instrument_index gbpusd = 2
instrument_index usdcad = 3
instrument_index usdinr = 4
instrument_index eurinr = 5
instrument_index gbpinr = 6
instrument_index audusd = 7
instrument_index usdmxn = 8

abbrev pub order_side_index : OrderSide → ℕ
order_side_index buy = 0
order_side_index sell = 1

abbrev pub order_type_index : OrderType → ℕ
order_type_index limit = 0
order_type_index market = 1
order_type_index stop = 2
order_type_index stop_limit = 3

abbrev pub order_status_index : OrderStatus → ℕ
order_status_index new = 0
order_status_index partially_filled = 1
order_status_index filled = 2
order_status_index cancelled = 3
order_status_index rejected = 4

abbrev pub time_in_force_index : TimeInForce → ℕ
time_in_force_index day = 0
time_in_force_index gtc = 1
time_in_force_index ioc = 2
time_in_force_index fok = 3
time_in_force_index moo = 4
time_in_force_index moc = 5

unfoldable pub to_string_instrument : Instrument → Option String
unfolding name_at
to_string_instrument x = name_at (instrument_index x) symbol_names

unfoldable pub from_string_instrument : String → Option Instrument
unfolding search_name
from_string_instrument name =
    search_name name symbol_names
      (eurusd ∷ usdjpy ∷ gbpusd ∷ usdcad ∷ usdinr ∷ eurinr ∷ gbpinr ∷ audusd ∷ usdmxn ∷ [])

pub to_string_order_side : OrderSide → Option String
unfolding name_at
to_string_order_side x = name_at (order_side_index x) order_side_names

pub from_string_order_side : String → Option OrderSide
unfolding search_name
from_string_order_side name = search_name name order_side_names (buy ∷ sell ∷ [])

pub to_string_order_type : OrderType → Option String
unfolding name_at
to_string_order_type x = name_at (order_type_index x) order_type_names

pub from_string_order_type : String → Option OrderType
unfolding search_name
from_string_order_type name = search_name name order_type_names (limit ∷ market ∷ [])

pub to_string_order_status : OrderStatus → Option String
unfolding name_at
to_string_order_status x = name_at (order_status_index x) order_status_names

pub from_string_order_status : String → Option OrderStatus
unfolding search_name
from_string_order_status name =
    search_name name order_status_names
      (new ∷ partially_filled ∷ filled ∷ cancelled ∷ rejected ∷ [])

pub to_string_time_in_force : TimeInForce → Option String
unfolding name_at
to_string_time_in_force x = name_at (time_in_force_index x) time_in_force_names

pub from_string_time_in_force : String → Option TimeInForce
unfolding search_name
from_string_time_in_force name =
    search_name name time_in_force_names (day ∷ gtc ∷ ioc ∷ fok ∷ moo ∷ moc ∷ [])

instrument_round_trip :
    (x : Instrument) → to_string_instrument x >>= from_string_instrument ≡ some x
unfolding to_string_instrument from_string_instrument
instrument_round_trip eurusd = refl
instrument_round_trip usdjpy = refl
instrument_round_trip gbpusd = refl
instrument_round_trip usdcad = refl
instrument_round_trip usdinr = refl
instrument_round_trip eurinr = refl
instrument_round_trip gbpinr = refl
instrument_round_trip audusd = refl
instrument_round_trip usdmxn = refl

order_side_round_trip : (x : OrderSide) → to_string_order_side x >>= from_string_order_side ≡ some x
unfolding to_string_order_side from_string_order_side
order_side_round_trip buy = refl
order_side_round_trip sell = refl

order_status_round_trip :
    (x : OrderStatus) → to_string_order_status x >>= from_string_order_status ≡ some x
unfolding to_string_order_status from_string_order_status
order_status_round_trip new = refl
order_status_round_trip partially_filled = refl
order_status_round_trip filled = refl
order_status_round_trip cancelled = refl
order_status_round_trip rejected = refl

time_in_force_round_trip :
    (x : TimeInForce) → to_string_time_in_force x >>= from_string_time_in_force ≡ some x
unfolding to_string_time_in_force from_string_time_in_force
time_in_force_round_trip day = refl
time_in_force_round_trip gtc = refl
time_in_force_round_trip ioc = refl
time_in_force_round_trip fok = refl
time_in_force_round_trip moo = refl
time_in_force_round_trip moc = refl

-- The names of instruments, sides, statuses and times in force are read back as what they name.
pub from_string-to_string :
    ((x : Instrument) → to_string_instrument x >>= from_string_instrument ≡ some x)
    × (((x : OrderSide) → to_string_order_side x >>= from_string_order_side ≡ some x)
        × (((x : OrderStatus) → to_string_order_status x >>= from_string_order_status ≡ some x)
            × ((x : TimeInForce)
                → to_string_time_in_force x >>= from_string_time_in_force ≡ some x)))
from_string-to_string = (
  instrument_round_trip,
  (order_side_round_trip, (order_status_round_trip, time_in_force_round_trip)),
)

-- The name of an order type can be looked up without an index past the end of the table, and then
-- read back, exactly for the limit and the market type.
pub from_string-to_string_order_type :
    (x : OrderType)
    → (to_string_order_type x >>= from_string_order_type)
      ≡ elim x [ limit ↦ some limit | market ↦ some market | _ ↦ none ]
unfolding to_string_order_type from_string_order_type
from_string-to_string_order_type limit = refl
from_string-to_string_order_type market = refl
from_string-to_string_order_type stop = refl
from_string-to_string_order_type stop_limit = refl
