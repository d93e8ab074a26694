-- ===== src/Fix/Reports/Printable.antt =====
-- Reports that can be printed: every field of their messages is one that can be split off again.
use beta_trader.Fix.Reports.Times.{lacks-print_timestamp}
use beta_trader.Prelude.{
  ◌≡◌, refl, ℕ, ◌<◌, true, some, List, [], ◌∷◌, ◌++◌, arith, length, All, u64_mod, ◌/◌,
}
use beta_trader.Common.Types.{
  Instrument, OrderSide, OrderStatus, eurusd, usdjpy, gbpusd, usdcad, usdinr, eurinr, gbpinr,
  audusd, usdmxn, buy, sell, new, partially_filled, filled, cancelled, rejected, Price,
}
use beta_trader.Common.Names.{from_string_instrument}
use beta_trader.Fix.Text.{Bytes, soh, lacks}
use beta_trader.Fix.Values.{text, char_to_order_side}
use beta_trader.Fix.Requests.{Readers}
use beta_trader.Fix.Framer.Fields.{lacks-print}
use beta_trader.Fix.Reports.{
  Printers, Report, Field, join, order_status_to_char, order_side_to_char, symbol_text, with_text,
  header_fields, body_fields, quantity_fields, message_fields, char_to_order_status,
  optional_number,
}
use beta_trader.Fix.Reports.Fields.{IsField}

lacks-symbol_text : (i : Instrument) → lacks soh (symbol_text i) ≡ true
unfolding lacks symbol_text
lacks-symbol_text eurusd = refl
lacks-symbol_text usdjpy = refl
lacks-symbol_text gbpusd = refl
lacks-symbol_text usdcad = refl
lacks-symbol_text usdinr = refl
lacks-symbol_text eurinr = refl
lacks-symbol_text gbpinr = refl
lacks-symbol_text audusd = refl
lacks-symbol_text usdmxn = refl

pub from_string-symbol_text :
    (i : Instrument) → from_string_instrument (text (symbol_text i)) ≡ some i
unfolding from_string_instrument text symbol_text
from_string-symbol_text eurusd = refl
from_string-symbol_text usdjpy = refl
from_string-symbol_text gbpusd = refl
from_string-symbol_text usdcad = refl
from_string-symbol_text usdinr = refl
from_string-symbol_text eurinr = refl
from_string-symbol_text gbpinr = refl
from_string-symbol_text audusd = refl
from_string-symbol_text usdmxn = refl

pub status_round_trip : (s : OrderStatus) → char_to_order_status (order_status_to_char s) ≡ some s
unfolding char_to_order_status
status_round_trip new = refl
status_round_trip partially_filled = refl
status_round_trip filled = refl
status_round_trip cancelled = refl
status_round_trip rejected = refl

pub side_round_trip : (s : OrderSide) → char_to_order_side (order_side_to_char s) ≡ some s
unfolding char_to_order_side
side_round_trip buy = refl
side_round_trip sell = refl

lacks-status : (s : OrderStatus) → lacks soh (order_status_to_char s ∷ []) ≡ true
unfolding lacks
lacks-status new = refl
lacks-status partially_filled = refl
lacks-status filled = refl
lacks-status cancelled = refl
lacks-status rejected = refl

lacks-side : (s : OrderSide) → lacks soh (order_side_to_char s ∷ []) ≡ true
unfolding lacks
lacks-side buy = refl
lacks-side sell = refl

-- The texts of a report have no delimiter in them, and its numbers have 64 bits.
pub record IsPrintable (p : Printers) (r : Report) : Type 0 where
  pub stamp_clean : lacks soh (p.put_time (p.now / 1000000000)) ≡ true
  pub client_clean : lacks soh r.client_order_id ≡ true
  pub execution_clean : lacks soh r.execution_id ≡ true
  pub message_clean : lacks soh r.message ≡ true
  pub price_clean : lacks soh (p.print_price r.last_price) ≡ true
  pub time_clean : lacks soh (p.put_time (r.transaction_time / 1000000000)) ≡ true
  pub id_fits : r.exchange_order_id < u64_mod
  pub order_fits : r.order_quantity < u64_mod
  pub cumulative_fits : r.cumulative_quantity < u64_mod
  pub leaves_fits : r.leaves_quantity < u64_mod
  pub last_fits : r.last_quantity < u64_mod

-- What the readers make of the printed price and time: `price` and, for the text of the time, which
-- has the length of its format and no dot, `seconds`.
pub record Reads (readers : Readers) (p : Printers) (r : Report) (price : Price) (seconds : ℕ)
    : Type 0 where
  pub price_read : optional_number readers.stod (p.print_price r.last_price) ≡ some price
  pub width : length (p.put_time (r.transaction_time / 1000000000)) ≡ 17
  pub undotted : lacks 46 (p.put_time (r.transaction_time / 1000000000)) ≡ true
  pub time_read : readers.get_time (p.put_time (r.transaction_time / 1000000000)) ≡ some seconds

quantity_fields-IsField :
    (p : Printers) (r : Report) → IsPrintable p r → All IsField (quantity_fields p r)
quantity_fields-IsField p r h = (
  (omega arith, lacks-symbol_text r.symbol),
  (
    (omega arith, lacks-side r.side),
    (
      (omega arith, lacks-print r.order_quantity),
      (
        (omega arith, lacks-print r.cumulative_quantity),
        (
          (omega arith, lacks-print r.leaves_quantity),
          (
            (omega arith, h.price_clean),
            (
              (omega arith, lacks-print r.last_quantity),
              ((omega arith, lacks-print_timestamp p r.transaction_time h.time_clean), tt),
            ),
          ),
        ),
      ),
    ),
  ),
)

with_text-IsField :
    (s : Bytes) (fields : List Field)
    → lacks soh s ≡ true
    → All IsField fields
    → All IsField (with_text s fields)
with_text-IsField [] fields h hs = hs
with_text-IsField (c ∷ cs) fields h hs = ((omega arith, h), hs)

pub message_fields-IsField :
    (p : Printers) (r : Report) (seq : ℕ) → IsPrintable p r → All IsField (message_fields p r seq)
message_fields-IsField p r seq h = (
  (omega arith, unfold lacks in refl),
  (
    (omega arith, lacks-print (length (join (header_fields p r seq) ++ join (body_fields p r)))),
    (
      (omega arith, unfold lacks in refl),
      (
        (omega arith, lacks-print r.sender_comp_id),
        (
          (omega arith, lacks-print r.target_comp_id),
          (
            (omega arith, lacks-print seq),
            (
              (omega arith, lacks-print_timestamp p p.now h.stamp_clean),
              (
                (omega arith, lacks-print r.exchange_order_id),
                (
                  (omega arith, h.client_clean),
                  (
                    (omega arith, h.execution_clean),
                    (
                      (omega arith, lacks-status r.status),
                      with_text-IsField r.message (quantity_fields p r) h.message_clean
                          (quantity_fields-IsField p r h),
                    ),
                  ),
                ),
              ),
            ),
          ),
        ),
      ),
    ),
  ),
)
