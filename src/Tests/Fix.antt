-- ===== src/Tests/Fix.antt =====
-- The theorems on messages, at messages of a client "alice".
use beta_trader.Fix.Session.Orders.{handle_messages-orders, requested}
use beta_trader.Prelude.{
  ◌≡◌, ◌≢◌, refl, true, Bool, ◌&&◌, none, some, [], ◌∷◌, ◌++◌, arith, find, ◌<◌, ◌≤◌, ltb, All,
  length, u64_mod, sym, subst, insert,
}
use beta_trader.Common.Types.{eurusd, buy}
use beta_trader.Worker.{new_order}
use beta_trader.Core.{set_partition}
use beta_trader.Partition.{enqueue}
use beta_trader.Session.{SessionManager, validate_sequence, contains, get_session_state}
use beta_trader.Fix.Text.{Bytes, codes, value, print, drop, take, soh}
use beta_trader.Fix.Values.{text}
use beta_trader.Fix.Builder.{
  field, build_message, header_and_body, before_checksum, positive_sum, negative_sum,
}
use beta_trader.Fix.Framer.{complete, need_more_data, extract_next_frame, throws}
use beta_trader.Fix.Framer.RoundTrip.{IsByte, extract_next_frame-build_message}
use beta_trader.Fix.Framer.Stable.{extract_next_frame-append}
use beta_trader.Fix.Framer.Prefix.{extract_next_frame-part}
use beta_trader.Fix.Requests.{OrderRequest, convert_order, Readers}
use beta_trader.Fix.Session.{is_logged_on, seq_num_of, sender_of, order_of}
use beta_trader.Fix.Sending.{Surroundings, FixSession}
use beta_trader.Fix.Reading.{handle_frame, do_read}
use beta_trader.Fix.Reading.Ends.{Ends, do_read-Ends, do_read-build_message}
use beta_trader.Fix.Session.Guarded.{IsRefused, handle_messages, handle_messages-refused}
use beta_trader.Fix.Values.{stoull}
use beta_trader.Fix.Text.{lacks}
use beta_trader.Common.Types.{partially_filled}
use beta_trader.Fix.Reports.{
  Printers, Report, optional_number, convert_report, parse_execution_report,
}
use beta_trader.Fix.Reports.RoundTrip.{received, parse_execution_report-convert_report}
use beta_trader.Fix.Reports.Printable.{IsPrintable, Reads}
use beta_trader.Fix.Server.{Connection, FixServer}
use beta_trader.Fix.Server.Routes.{publish_all, publish_all-numbered, with_messages}
use beta_trader.Tests.Core.{core, partition}

-- The fields of a NewOrderSingle.
abbrev order_fields : Bytes
order_fields =
    field (codes "11=") (codes "c1")
    ++ field (codes "55=") (codes "EURUSD")
    ++ field (codes "54=") (codes "1")
    ++ field (codes "38=") (codes "5")
    ++ field (codes "44=") (codes "101")

abbrev front : Bytes
front =
    before_checksum
      (header_and_body (codes "now") (codes "alice") (codes "X") 9 (codes "D") order_fields)

abbrev message : Bytes
message = build_message (codes "now") (codes "alice") (codes "X") 9 (codes "D") order_fields

all_bytes : Bytes → Bool
all_bytes [] = true
all_bytes (c ∷ cs) = ltb c 256 && all_bytes cs

all_bytes-IsByte : (s : Bytes) → all_bytes s ≡ true → All IsByte s
unfolding all_bytes
all_bytes-IsByte [] h = tt
all_bytes-IsByte (c ∷ cs) h = (ground (arith, h), all_bytes-IsByte cs (ground (arith, h)))

front-IsByte : All IsByte front
front-IsByte = all_bytes-IsByte front (unfold all_bytes before_checksum header_and_body in refl)

front-positive : negative_sum front ≤ positive_sum front
unfolding before_checksum header_and_body positive_sum negative_sum
front-positive = omega arith

length-message : length message < u64_mod
unfolding build_message
length-message = omega arith

extract_next_frame-build_message_example :
    extract_next_frame (message ++ codes "8=") ≡ complete (length message) message
extract_next_frame-build_message_example =
    extract_next_frame-build_message (codes "now") (codes "alice") (codes "X") 9 (codes "D")
      order_fields (codes "8=") front-IsByte front-positive length-message

abbrev malformed_front : Bytes
malformed_front = codes "35=D"

is_malformed : extract_next_frame malformed_front ≢ need_more_data
unfolding extract_next_frame
is_malformed = ground arith

extract_next_frame-append_example :
    extract_next_frame (malformed_front ++ codes "8=FIX") ≡ extract_next_frame malformed_front
extract_next_frame-append_example =
    extract_next_frame-append malformed_front (codes "8=FIX") is_malformed

-- The message but for its first 40 bytes.
abbrev arriving : Bytes
arriving = drop 40 message

abbrev arrived : Bytes
arrived = take 40 message

parts : arrived ++ arriving ≡ message
unfolding drop take build_message
parts = refl

length-arriving : 0 < length arriving
unfolding drop build_message
length-arriving = omega arith

extract_next_frame-part_example : extract_next_frame arrived ≡ need_more_data
extract_next_frame-part_example =
    extract_next_frame-part (codes "now") (codes "alice") (codes "X") 9 (codes "D") order_fields
      arrived arriving parts length-arriving front-IsByte front-positive
      (subst (λ x. length x < u64_mod) (sym parts) length-message)

abbrev env : Surroundings
env = record {
  session_id = 7;
  now = 3000;
  stamp = codes "now";
  readers = record { stod = λ v. some (value 0 v); get_time = λ v. some 1000 };
}

abbrev manager : SessionManager
manager = record {
  valid_clients = "alice" ∷ [];
  session_states =
      (
        "alice",
        record { sender_comp_id = "alice"; is_logged_on = true; in_seq_num = 4; out_seq_num = 6 },
      )
      ∷ [];
  connection_to_comp_id = (7, "alice") ∷ [];
  seq_repo = none;
  updates = [];
}

abbrev session : FixSession
session = record { manager = manager; core = core; request_ids = []; is_open = true; written = [] }

abbrev request : OrderRequest
request = record {
  sender_comp_id = "alice";
  client_order_id = "c1";
  symbol = eurusd;
  side = buy;
  quantity = 5;
  price = 101;
}

session-is_logged_on : is_logged_on env session ≡ true
unfolding is_logged_on find
session-is_logged_on = refl

seq_num_of-message : seq_num_of message ≡ some 9
unfolding seq_num_of build_message
seq_num_of-message = refl

convert_order-message : convert_order env.readers message ≡ some request
unfolding convert_order build_message find insert
convert_order-message = refl

do_read-Ends_example : Ends (do_read env arrived (arriving ++ codes "8=") session)
do_read-Ends_example = do_read-Ends env arrived (arriving ++ codes "8=") session

abbrev ordered : FixSession
ordered = record session {
  core =
      set_partition eurusd
        (enqueue (new_order (text (print 7)) 3000 (order_of env request 4)) partition)
        (record core { order_id = 4 });
  manager = (validate_sequence 7 9 manager).1;
}

handled : handle_frame env message session ≡ some ordered
unfolding handle_frame build_message text print set_partition find insert
handled = refl

do_read-build_message_example :
    do_read env [] (message ++ arrived) session ≡ do_read env [] arrived ordered
do_read-build_message_example =
    do_read-build_message env (codes "now") (codes "alice") (codes "X") 9 (codes "D") order_fields
      arrived session ordered front-IsByte front-positive length-message handled

-- On a connection without a logon: an order, and a logon of a client that is not known.
abbrev new_session : FixSession
new_session = record session { manager = record manager { connection_to_comp_id = [] } }

abbrev logon : Bytes
logon = field (codes "34=") (codes "1") ++ field (codes "49=") (codes "mallory")

is_refused : All (IsRefused ("alice" ∷ [])) ((message, 68) ∷ (logon, 65) ∷ [])
unfolding contains text sender_of
is_refused = (λ e. absurd (ground (arith, e)), (λ e. refl, tt))

handle_messages-refused_example :
    (s' : FixSession) × (handle_messages env ((message, 68) ∷ (logon, 65) ∷ []) new_session
      ≡ some s')
    × (s'.core ≡ core)
handle_messages-refused_example =
    handle_messages-refused env ((message, 68) ∷ (logon, 65) ∷ []) new_session (unfold find in refl)
      is_refused

-- Prices and times are printed in decimal here.
abbrev printers : Printers
printers = record {
  print_price = print;
  put_time = λ n. codes "20261127-10:00:00";
  now = 2000000000;
}

abbrev report_readers : Readers
report_readers = record { stod = stoull; get_time = λ v. some 7 }

abbrev report : Report
report = record {
  sender_comp_id = 1;
  target_comp_id = 7;
  message_sequence_number = 0;
  exchange_order_id = 4;
  client_order_id = codes "c1";
  execution_id = codes "exec_trade_41_buy";
  status = partially_filled;
  message = codes "Trade";
  symbol = eurusd;
  side = buy;
  order_quantity = 5;
  cumulative_quantity = 2;
  leaves_quantity = 3;
  last_price = 101;
  last_quantity = 2;
  transaction_time = 3004005006;
}

report-IsPrintable : IsPrintable printers report
unfolding lacks print
report-IsPrintable = record {
  stamp_clean = refl;
  client_clean = refl;
  execution_clean = refl;
  message_clean = refl;
  price_clean = refl;
  time_clean = refl;
  id_fits = omega arith;
  order_fits = omega arith;
  cumulative_fits = omega arith;
  leaves_fits = omega arith;
  last_fits = omega arith;
}

report-Reads : Reads report_readers printers report 101 7
unfolding optional_number stoull print lacks
report-Reads = record { price_read = refl; width = refl; undotted = refl; time_read = refl }

parse_execution_report-convert_report_example :
    parse_execution_report report_readers (convert_report printers report 6)
    ≡ some (received report 6 101 7)
parse_execution_report-convert_report_example =
    parse_execution_report-convert_report report_readers printers report 6 101 7 report-IsPrintable
      report-Reads (omega arith)

abbrev connection : Connection
connection = record { request_ids = []; is_open = true; written = []; read_buffer = [] }

abbrev server : FixServer
server = record {
  manager = manager;
  core = core;
  next_session_id = 9;
  sessions = (7, connection) ∷ (8, connection) ∷ [];
}

-- The second message has the number of the first one again.
handle_messages-orders_example :
    (s' : FixSession) × (handle_messages env ((message, 68) ∷ (message, 68) ∷ []) session ≡ some s')
    × ((s'.core).partitions eurusd
        ≡ some (record partition {
          queue =
              new_order (text (print 7)) 3000 (requested env request 4)
              ∷ new_order (text (print 7)) 3000 (requested env request 5)
              ∷ [];
        }))
    × (s'.written ≡ [])
handle_messages-orders_example =
    handle_messages-orders env eurusd ((message, request) ∷ (message, request) ∷ []) partition
      session "alice"
      (record { sender_comp_id = "alice"; is_logged_on = true; in_seq_num = 4; out_seq_num = 6 })
      (unfold get_session_state find in refl) refl refl refl (omega arith)
      (
        ((9, seq_num_of-message), convert_order-message, refl),
        (((9, seq_num_of-message), convert_order-message, refl), tt),
      )

publish_all-numbered_example :
    (find 7 (publish_all printers env (report ∷ report ∷ []) server).sessions
      ≡ some (
          with_messages
            (convert_report printers report 6 ∷ convert_report printers report 7 ∷ [])
            connection))
    × ((publish_all printers env (report ∷ report ∷ []) server).core ≡ core)
unfolding find
publish_all-numbered_example =
    publish_all-numbered printers env (report ∷ report ∷ []) server connection 7 7 "alice"
      (record { sender_comp_id = "alice"; is_logged_on = true; in_seq_num = 4; out_seq_num = 6 })
      (λ e. absurd (omega (arith, e))) (refl, (refl, tt)) refl
      (unfold get_session_state find in refl)

-- `checksumStart + 3` wraps around.
wraps :
    extract_next_frame (codes "8=FIX.4.4" ++ (soh ∷ codes "9=18446744073709551582") ++ soh ∷ [])
    ≡ throws
unfolding extract_next_frame
wraps = refl
