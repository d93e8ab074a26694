-- ===== src/Tests/Client.antt =====
-- The theorems on the client: its candles, its blotter and its session.
use beta_trader.Prelude.{◌≡◌, refl, ℕ, true, false, none, some, List, [], ◌∷◌, arith, ◌*◌}
use beta_trader.Common.Types.{eurusd, buy, Price}
use beta_trader.Common.Types
use beta_trader.Candles.{Aggregate, Tick, fresh_candle}
use beta_trader.Candles.Summary.{Finishes, update_all, update_all-Finishes}
use beta_trader.Blotter.{BlotterModel, ReceivedReport, find_row, has_key, process_execution}
use beta_trader.Blotter.Again.{
  process_execution-again, process_execution-row, process_all, first_row,
}
use beta_trader.Fix.Text.{Bytes, codes}
use beta_trader.ClientSession.{
  Settings, FixClientSession, connected, send_logon, send_message, heartbeat, handle_type,
}
use beta_trader.ClientSession.Reading.{do_read}
use beta_trader.ClientSession.Ends.{Ends, client_do_read-Ends}
use beta_trader.ClientSession.Numbers.{Continues}
use beta_trader.ClientSession.Trace.{
  Action, log_on, send, beat, receive, perform_all, perform_all-Continues,
}

-- Trades at 60, 70 and 65 seconds, and one in the next minute.
abbrev tick : Price → ℕ → Tick
tick price seconds = record { price = price; qty = 10; timestamp_ns = seconds * 1000000000 }

abbrev idle : Aggregate
idle = record { active = false; current = fresh_candle 1 "EURUSD" (tick 0 0) }

update_all-Finishes_example :
    Finishes 1 "EURUSD"
      (tick 100 60)
      (tick 97 125)
      (tick 103 70 ∷ tick 99 65 ∷ [])
      (update_all 1 "EURUSD" (tick 100 60 ∷ tick 103 70 ∷ tick 99 65 ∷ []) idle)
update_all-Finishes_example =
    update_all-Finishes 1 "EURUSD" (tick 100 60) (tick 97 125) (tick 103 70 ∷ tick 99 65 ∷ []) idle
      refl (omega arith) (omega arith, (omega arith, tt)) (omega arith)

abbrev report : ReceivedReport
report = record {
  execution_id = codes "exec_trade_41_buy";
  client_order_id = "c1";
  exchange_order_id = 4;
  symbol = eurusd;
  side = buy;
  status = Types.partially_filled;
  order_quantity = 5;
  cumulative_quantity = 2;
  leaves_quantity = 3;
  last_price = 101;
  last_quantity = 2;
  transaction_time = 3000;
  text = [];
}

abbrev no_orders : BlotterModel
no_orders = record { orders = []; history = []; seen_execution_keys = [] }

abbrev print_price : Price → Bytes
print_price p = p ∷ []

abbrev reports : List ReceivedReport
reports = record report { execution_id = codes "exec_2"; leaves_quantity = 1 } ∷ []

process_execution-again_example :
    process_execution print_price report (process_all print_price (report ∷ reports) no_orders)
    ≡ process_all print_price (report ∷ reports) no_orders
process_execution-again_example = process_execution-again print_price report reports no_orders refl

process_execution-row_example :
    find_row "c1" (process_execution print_price report no_orders).orders ≡ some (first_row report)
unfolding find_row
process_execution-row_example =
    process_execution-row print_price report no_orders "c1" λ e. unfold has_key in refl

abbrev settings : Settings
settings = record {
  sender_comp_id = codes "alice";
  target_comp_id = codes "BETA_EXCHANGE";
  stamp = codes "now";
}

abbrev session : FixClientSession
session = record {
  state = connected;
  in_seq_num = 1;
  out_seq_num = 5;
  saved = [];
  heartbeat_interval = 30;
  is_open = true;
  written = [];
}

client_do_read-Ends_example : Ends (do_read settings [] (codes "8=FIX.4.4") session)
client_do_read-Ends_example = client_do_read-Ends settings [] (codes "8=FIX.4.4") session

-- A logon, its answer, an order and a heartbeat.
abbrev actions : List Action
actions = log_on 30 ∷ receive 1 65 [] ∷ send (codes "D") (codes "11=c1") ∷ beat ∷ []

abbrev final : FixClientSession
final = elim (perform_all settings actions session) [ none ↦ session | some s ↦ s ]

performed : perform_all settings actions session ≡ some final
unfolding perform_all send_logon send_message heartbeat handle_type
performed = refl

perform_all-Continues_example : Continues settings session final
perform_all-Continues_example =
    perform_all-Continues settings actions session final
      (tt, (λ e. absurd (omega (arith, e)), (tt, (tt, tt)))) performed
