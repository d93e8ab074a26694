-- ===== src/Fix/Sending.antt =====
-- exchange/exchange_fix/src/FixSession.cpp: the state of a session, and what it sends. `written` is what
-- it hands to `async_write`; the socket itself is outside.
use beta_trader.Prelude.{ℕ, Bool, false, none, some, List, [], ◌∷◌, ◌++◌}
use beta_trader.Common.Types.{Timestamp}
use beta_trader.Core.{TradingCore}
use beta_trader.Session.{SessionManager, get_session_state, use_next_outbound_sequence}
use beta_trader.Fix.Text.{Bytes, codes, print}
use beta_trader.Fix.Requests.{Readers}
use beta_trader.Fix.Reports.{Printers, Report, convert_report}
use beta_trader.Fix.Builder.{field, build_message}

-- What a handler reads of the clock, as a time and as the text of `generateTimestamp`, and the parts of
-- the library that read numbers and times.
pub record Surroundings : Type 0 where
  pub session_id : ℕ
  pub now : Timestamp
  pub stamp : Bytes
  pub readers : Readers

-- A session with the server's managers. `request_ids` is `mMarketDataReqIdMap`, by index.
pub record FixSession : Type 0 where
  pub manager : SessionManager
  pub core : TradingCore
  pub request_ids : List (ℕ × Bytes)
  pub is_open : Bool
  pub written : List Bytes

abbrev pub write : Bytes → FixSession → FixSession
write message s = record s { written = s.written ++ message ∷ [] }

abbrev pub close : FixSession → FixSession
close s = record s { is_open = false }

-- `useNextOutboundSequence`, and what is written with the number.
unfoldable pub write_numbered : Surroundings → (ℕ → Bytes) → FixSession → FixSession
unfolding use_next_outbound_sequence
write_numbered env message s =
    let (seq, m) = use_next_outbound_sequence env.session_id s.manager in
    write (message seq) (record s { manager = m })

-- `state ? state->senderCompId : ""`
abbrev pub target_of : Surroundings → FixSession → Bytes
target_of env s = elim (get_session_state env.session_id s.manager) [
  | none ↦ []
  | some (id, state) ↦ codes state.sender_comp_id
]

unfoldable pub send_reject : Surroundings → ℕ → Bytes → FixSession → FixSession
unfolding write_numbered print
send_reject env ref_seq_num reason s =
    write_numbered env
      (λ seq.
        build_message env.stamp (codes "BETA_EXCHANGE") (target_of env s) seq (codes "3")
          (field (codes "45=") (print ref_seq_num) ++ field (codes "58=") reason))
      s

-- `sendExecutionReport`
unfoldable pub send_execution_report : Printers → Report → Surroundings → FixSession → FixSession
unfolding write_numbered convert_report
send_execution_report printers report env s =
    write_numbered env (λ seq. convert_report printers report seq) s

unfoldable pub send_business_message_reject :
    Surroundings → ℕ → ℕ → ℕ → Bytes → FixSession → FixSession
unfolding write_numbered print
send_business_message_reject env ref_seq_num ref_msg_type reason why s =
    write_numbered env
      (λ seq. build_message env.stamp (codes "BETA_EXCHANGE") (target_of env s) seq (codes "j") (
        field (codes "45=") (print ref_seq_num)
        ++ field (codes "372=") (ref_msg_type ∷ [])
        ++ field (codes "379=") (print reason)
        ++ field (codes "58=") why))
      s
