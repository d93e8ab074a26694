-- ===== src/Fix/Server.antt =====
-- exchange/exchange_fix/src/FixServer.cpp: the connections by their ids, and which of them gets what
-- arrives and what the core reports. The sockets and the acceptor are outside. A `none` is a fault.
pub mod Routes
use beta_trader.Prelude.{
  ℕ, ◌+◌, ◌%◌, Bool, true, false, Option, none, some, List, [], ◌∷◌, ◌++◌, ◌==◌, if◌then◌else◌,
  find, insert, erase, u32_mod,
}
use beta_trader.Core.{TradingCore, unsubscribe_all_from_market_data}
use beta_trader.Session.{SessionManager}
use beta_trader.Fix.Text.{Bytes}
use beta_trader.Fix.Reports.{Printers, Report}
use beta_trader.Fix.Sending.{Surroundings, FixSession, send_execution_report}
use beta_trader.Fix.Reading.{Reading, read, faulted, out_of_fuel, do_read}

-- What a session has for itself.
pub record Connection : Type 0 where
  pub request_ids : List (ℕ × Bytes)
  pub is_open : Bool
  pub written : List Bytes
  pub read_buffer : Bytes

pub record FixServer : Type 0 where
  pub manager : SessionManager
  pub core : TradingCore
  pub next_session_id : ℕ
  pub sessions : List (ℕ × Connection)

-- A connection with what it shares with the others.
abbrev pub session_of : Connection → FixServer → FixSession
session_of c server = record {
  manager = server.manager;
  core = server.core;
  request_ids = c.request_ids;
  is_open = c.is_open;
  written = c.written;
}

abbrev pub connection_of : Bytes → FixSession → Connection
connection_of buffer s = record {
  request_ids = s.request_ids;
  is_open = s.is_open;
  written = s.written;
  read_buffer = buffer;
}

abbrev pub with_session : ℕ → Bytes → FixSession → FixServer → FixServer
with_session id buffer s server = record server {
  manager = s.manager;
  core = s.core;
  sessions = insert id (connection_of buffer s) server.sessions;
}

-- A connection that has been accepted, and `registerSession`.
unfoldable pub accept : FixServer → FixServer
accept server = record server {
  next_session_id = (server.next_session_id + 1) % u32_mod;
  sessions =
      insert server.next_session_id
        (record { request_ids = []; is_open = true; written = []; read_buffer = [] })
        server.sessions;
}

unfoldable pub unregister_session : ℕ → FixServer → FixServer
unregister_session id server = record server {
  sessions = erase id server.sessions;
  core = unsubscribe_all_from_market_data id server.core;
}

-- `stop`: the sessions are closed and forgotten.
unfoldable pub stop_server : FixServer → FixServer
stop_server server = record server { sessions = [] }

-- The target of the report gets it, if it is a session.
unfoldable pub on_execution_report : Printers → Surroundings → Report → FixServer → FixServer
unfolding send_execution_report
on_execution_report printers env report server =
    if report.target_comp_id == 0
    then server
    else elim (find report.target_comp_id server.sessions) [
      | none ↦ server
      | some c ↦
          with_session report.target_comp_id c.read_buffer
            (send_execution_report printers report
              (record env { session_id = report.target_comp_id }) (session_of c server))
            server
    ]

-- Bytes for a connection.
unfoldable pub on_read : Surroundings → ℕ → Bytes → FixServer → Option FixServer
unfolding do_read
on_read env id arrived server = elim (find id server.sessions) [
  | none ↦ some server
  | some c ↦
      elim (do_read (record env { session_id = id }) c.read_buffer arrived (session_of c server)) [
        | read rest s ↦ some (with_session id rest s server)
        | faulted ↦ none
        | out_of_fuel ↦ none
      ]
]
