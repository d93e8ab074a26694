-- ===== src/Fix/Reports/RoundTrip.antt =====
-- A client reads the report that the exchange wrote.
use beta_trader.Fix.Reports.Times.{parse_timestamp-print_timestamp}
use beta_trader.Common.Types.{Price}
use beta_trader.Prelude.{
  ◌≡◌, refl, sym, ap, ◌∙◌, ℕ, ◌%◌, ◌<◌, some, [], ◌∷◌, ◌++◌, ◌>>=◌, arith, length, All, u64_mod,
  find, insert, All-append, ◌/◌, ◌+◌, ◌*◌,
}
use beta_trader.Fix.Text.{Bytes, codes, soh, print, zero_padded}
use beta_trader.Fix.Values.{TagMap, stoull, split_to_map, parse_timestamp}
use beta_trader.Fix.Requests.{Readers, unsigned_sum}
use beta_trader.Fix.Framer.Fields.{lacks-zero_padded}
use beta_trader.Fix.Reports.{
  Printers, Report, join, order_status_to_char, order_side_to_char, symbol_text, with_text,
  header_fields, body_fields, quantity_fields, message_fields, convert_report, get_str,
  optional_number, report_of, parse_execution_report, print_timestamp,
}
use beta_trader.Fix.Reports.Fields.{
  IsField, insert_all, split_to_map-join, join-append, stoull-print,
}
use beta_trader.Fix.Reports.Printable.{
  from_string-symbol_text, status_round_trip, side_round_trip, IsPrintable, Reads,
  message_fields-IsField,
}

-- What the parser finds of a report.
record Holds (m : TagMap) (p : Printers) (r : Report) (seq : ℕ) (message : Bytes) : Type 0 where
  seq_at : get_str 34 m ≡ print seq
  id_at : get_str 37 m ≡ print r.exchange_order_id
  client_at : get_str 11 m ≡ r.client_order_id
  execution_at : get_str 17 m ≡ r.execution_id
  status_at : get_str 39 m ≡ order_status_to_char r.status ∷ []
  message_at : get_str 58 m ≡ message
  symbol_at : get_str 55 m ≡ symbol_text r.symbol
  side_at : get_str 54 m ≡ order_side_to_char r.side ∷ []
  order_at : get_str 38 m ≡ print r.order_quantity
  cumulative_at : get_str 14 m ≡ print r.cumulative_quantity
  leaves_at : get_str 151 m ≡ print r.leaves_quantity
  price_at : get_str 31 m ≡ p.print_price r.last_price
  last_at : get_str 32 m ≡ print r.last_quantity
  time_at : get_str 60 m ≡ print_timestamp p r.transaction_time

-- The map of all fields, with the length, the checksum and the text as they come.
abbrev map_of : Printers → Report → ℕ → Bytes → Bytes → Bytes → TagMap
map_of p r seq len check message =
    insert_all
      ((8, codes "FIX.4.4") ∷ (9, len) ∷ header_fields p r seq
        ++ ((37, print r.exchange_order_id)
            ∷ (11, r.client_order_id)
            ∷ (17, r.execution_id)
            ∷ (39, order_status_to_char r.status ∷ [])
            ∷ with_text message (quantity_fields p r))
        ++ (10, check) ∷ [])
      []

map_of-Holds :
    (p : Printers) (r : Report) (seq : ℕ) (len check message : Bytes)
    → Holds (map_of p r seq len check message) p r seq message
unfolding insert_all find insert
map_of-Holds p r seq len check [] = record {
  seq_at = refl;
  id_at = refl;
  client_at = refl;
  execution_at = refl;
  status_at = refl;
  message_at = refl;
  symbol_at = refl;
  side_at = refl;
  order_at = refl;
  cumulative_at = refl;
  leaves_at = refl;
  price_at = refl;
  last_at = refl;
  time_at = refl;
}
map_of-Holds p r seq len check (c ∷ cs) = record {
  seq_at = refl;
  id_at = refl;
  client_at = refl;
  execution_at = refl;
  status_at = refl;
  message_at = refl;
  symbol_at = refl;
  side_at = refl;
  order_at = refl;
  cumulative_at = refl;
  leaves_at = refl;
  price_at = refl;
  last_at = refl;
  time_at = refl;
}

-- What the client's report has in place of the parties, the number, the price and the time.
abbrev pub received : Report → ℕ → Price → ℕ → Report
received r seq price seconds = record r {
  sender_comp_id = 0;
  target_comp_id = 0;
  message_sequence_number = seq;
  last_price = price;
  transaction_time = seconds * 1000000000 + r.transaction_time / 1000000 % 1000 * 1000000;
}

optional_number-stoull : (s : Bytes) (n : ℕ) → stoull s ≡ some n → optional_number stoull s ≡ some n
unfolding optional_number stoull
optional_number-stoull [] n h = absurd (ground (arith, h))
optional_number-stoull (c ∷ cs) n h = h

optional_number-print : (n : ℕ) → n < u64_mod → optional_number stoull (print n) ≡ some n
optional_number-print n h = optional_number-stoull (print n) n (stoull-print n h)

report_of-Holds :
    (readers : Readers) (m : TagMap) (p : Printers) (r : Report) (seq : ℕ) (price : Price)
    (seconds : ℕ)
    → Holds m p r seq r.message
    → IsPrintable p r
    → Reads readers p r price seconds
    → seq < u64_mod
    → report_of readers m ≡ some (received r seq price seconds)
unfolding report_of
report_of-Holds readers m p r seq price seconds h k b fits =
    let time : parse_timestamp readers.get_time (get_str 60 m)
        ≡ some (seconds * 1000000000 + r.transaction_time / 1000000 % 1000 * 1000000) =
      ap (parse_timestamp readers.get_time) h.time_at
      ∙ parse_timestamp-print_timestamp p readers.get_time r.transaction_time seconds b.width
          b.undotted b.time_read in
    rw (
      h.seq_at,
      stoull-print seq fits,
      h.id_at,
      stoull-print r.exchange_order_id k.id_fits,
      h.status_at,
      status_round_trip r.status,
      h.symbol_at,
      from_string-symbol_text r.symbol,
      h.side_at,
      side_round_trip r.side,
      h.order_at,
      stoull-print r.order_quantity k.order_fits,
      h.cumulative_at,
      stoull-print r.cumulative_quantity k.cumulative_fits,
      h.leaves_at,
      stoull-print r.leaves_quantity k.leaves_fits,
      h.price_at,
      b.price_read,
      h.last_at,
      optional_number-print r.last_quantity k.last_fits,
      time,
      h.client_at,
      h.execution_at,
      h.message_at,
    )

-- A client reads every field of an execution report of the exchange back as it was, but for the
-- parties, which it leaves at 0, the sequence number, which is that of the message, the price,
-- which is what is read of the printed price, and the time, which has the milliseconds of the
-- report behind what is read of its printed seconds. This holds if the texts have no delimiter in
-- them, the numbers have 64 bits, the printed price and seconds can be read, as any price and any
-- second, and the printed seconds have 17 bytes and no dot.
pub parse_execution_report-convert_report :
    (readers : Readers) (p : Printers) (r : Report) (seq : ℕ) (price : Price) (seconds : ℕ)
    → IsPrintable p r
    → Reads readers p r price seconds
    → seq < u64_mod
    → parse_execution_report readers (convert_report p r seq) ≡ some (received r seq price seconds)
unfolding parse_execution_report convert_report
parse_execution_report-convert_report readers p r seq price seconds k b fits =
    let fields = message_fields p r seq in
    let check = zero_padded 3 (print (unsigned_sum (join fields) % 256)) in
    let all : All IsField (fields ++ (10, check) ∷ []) =
      All-append IsField fields ((10, check) ∷ []) (message_fields-IsField p r seq k)
        ((omega arith, lacks-zero_padded 3 (unsigned_sum (join fields) % 256)), tt) in
    let len = print (length (join (header_fields p r seq) ++ join (body_fields p r))) in
    ap (λ s. split_to_map s soh >>= report_of readers) (sym (join-append fields ((10, check) ∷ [])))
    ∙ ap (λ o. o >>= report_of readers) (split_to_map-join (fields ++ (10, check) ∷ []) all)
    ∙ report_of-Holds readers (map_of p r seq len check r.message) p r seq price seconds
        (map_of-Holds p r seq len check r.message) k b fits
