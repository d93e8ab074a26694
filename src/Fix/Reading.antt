-- ===== src/Fix/Reading.antt =====
-- exchange/exchange_fix/src/FixSession.cpp, `doRead`: the loop over the buffer of a connection.
-- A fault is one of the handler, or an exception that nothing catches.
pub mod Ends
use beta_trader.Prelude.{
  ℕ, zero, suc, ◌+◌, ◌-◌, ◌%◌, String, Bool, true, false, not, ◌&&◌, ◌||◌, str_eq, Option, none,
  some, List, [], ◌∷◌, ◌++◌, ◌>>=◌, ltb, ◌==◌, if◌then◌else◌, length, u32_mod, find, insert, erase,
}
use beta_trader.Common.Types.{Instrument, OrderId, limit, day, Timestamp}
use beta_trader.Common.Names.{instrument_index}
use beta_trader.Common.Order.{Order, make_order}
use beta_trader.Worker.{Command, new_order, cancel_order, modify_order}
use beta_trader.Core.{
  TradingCore, next_order_id, submit_command, find_by_client_order_id, subscribe_to_market_data,
  unsubscribe_from_market_data,
}
use beta_trader.Session.{
  SessionState, SessionManager, authenticate, get_session_state, validate_sequence, handle_logout,
  cleanup_connection, use_next_outbound_sequence,
}
use beta_trader.Fix.Text.{Bytes, codes, soh, print, drop, find_text, find_text_from}
use beta_trader.Fix.Values.{split_to_map, stoull, text, field_after}
use beta_trader.Fix.Requests.{
  Readers, OrderRequest, CancelOrderRequest, ModifyOrderRequest, MarketDataRequest, convert_order,
  convert_cancel, convert_modify, convert_market_data,
}
use beta_trader.Fix.Builder.{field, build_message, build_logon, build_logout, build_heartbeat}
use beta_trader.Fix.Framer.{
  FrameResult, need_more_data, complete, malformed, extract_next_frame, throws,
}
use beta_trader.Fix.Session.{handle_fix_message}
use beta_trader.Fix.Sending.{Surroundings, FixSession, send_reject}

-- What one round of the loop of `doRead` leaves: nothing to do, the buffer and the session, or a fault.
pub data Round : Type 0 where
  waits : Round
  goes_on : Bytes → FixSession → Round
  faults : Round

-- Where the buffer starts again behind what is malformed.
unfoldable pub resynchronised : Bytes → Bytes
unfolding find_text_from drop
resynchronised buffer = elim (find_text_from 1 (codes "8=FIX.") buffer) [
  | none ↦ []
  | some next_begin ↦ drop next_begin buffer
]

-- A frame, by its type. The exception of `splitToMap` is not caught.
unfoldable pub handle_frame : Surroundings → Bytes → FixSession → Option FixSession
unfolding split_to_map handle_fix_message send_reject
handle_frame env frame s = elim (split_to_map frame soh) [
  | none ↦ none
  | some fields ↦ elim (find 35 fields) [
    | none ↦ some (send_reject env 0 (codes "Missing MsgType (Tag 35)") s)
    | some [] ↦ some (send_reject env 0 (codes "Missing MsgType (Tag 35)") s)
    | some (type ∷ more) ↦ handle_fix_message env frame type s
  ]
]

unfoldable pub read_round : Surroundings → Bytes → FixSession → Round
unfolding extract_next_frame resynchronised handle_frame send_reject drop
read_round env buffer s = elim (extract_next_frame buffer) [
  | need_more_data ↦ waits
  | throws ↦ faults
  | malformed error ↦ goes_on (resynchronised buffer) (send_reject env 0 error s)
  | complete consumed frame ↦ elim (handle_frame env frame s) [
    | none ↦ faults
    | some s' ↦ goes_on (drop consumed buffer) s'
  ]
]

-- How the loop ends.
pub data Reading : Type 0 where
  read : Bytes → FixSession → Reading
  faulted : Reading
  out_of_fuel : Reading

unfoldable pub read_loop : ℕ → Surroundings → Bytes → FixSession → Reading
unfolding read_round
read_loop zero env [] s = read [] s
read_loop zero env (c ∷ cs) s = out_of_fuel
read_loop (suc fuel) env [] s = read [] s
read_loop (suc fuel) env (c ∷ cs) s = elim (read_round env (c ∷ cs) s) [
  | waits ↦ read (c ∷ cs) s
  | goes_on buffer s' ↦ read_loop fuel env buffer s'
  | faults ↦ faulted
]

-- The buffer, with what has arrived: a round takes at least one byte off it.
unfoldable pub do_read : Surroundings → Bytes → Bytes → FixSession → Reading
unfolding read_loop
do_read env buffer arrived s = read_loop (length (buffer ++ arrived)) env (buffer ++ arrived) s
