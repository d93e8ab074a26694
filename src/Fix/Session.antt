-- ===== src/Fix/Session.antt =====
-- exchange/exchange_fix/src/FixSession.cpp: what a connection does with a message. A `none` is a fault:
-- the use of a null or dangling pointer in the core.
pub mod Guarded
pub mod Orders
use beta_trader.Prelude.{
  ℕ, zero, suc, ◌+◌, ◌-◌, ◌%◌, String, Bool, true, false, not, ◌&&◌, ◌||◌, str_eq, Option, none,
  some, List, [], ◌∷◌, ◌++◌, ◌>>=◌, ltb, ◌==◌, if◌then◌else◌, length, u32_mod, find, insert, erase,
}
use beta_trader.Common.Types.{Instrument, OrderId, limit, day, Timestamp}
use beta_trader.Common.Names.{instrument_index}
use beta_trader.Common.Order.{Order, make_order}
use beta_trader.Worker.{Command, new_order, cancel_order, modify_order}
use beta_trader.Core.{
  TradingCore, next_order_id, submit_command, find_by_client_order_id, subscribe_to_market_data,
  unsubscribe_from_market_data,
}
use beta_trader.Session.{
  SessionState, SessionManager, authenticate, get_session_state, validate_sequence, handle_logout,
  cleanup_connection, use_next_outbound_sequence,
}
use beta_trader.Fix.Text.{Bytes, codes, soh, print, drop, find_text, find_text_from}
use beta_trader.Fix.Values.{split_to_map, stoull, text, field_after}
use beta_trader.Fix.Requests.{
  Readers, OrderRequest, CancelOrderRequest, ModifyOrderRequest, MarketDataRequest, convert_order,
  convert_cancel, convert_modify, convert_market_data,
}
use beta_trader.Fix.Reports.{Printers, Report, convert_report}
use beta_trader.Fix.Builder.{field, build_message, build_logon, build_logout, build_heartbeat}
use beta_trader.Fix.Framer.{FrameResult, need_more_data, complete, malformed, extract_next_frame}
use beta_trader.Fix.Sending.{
  Surroundings, FixSession, write, close, write_numbered, target_of, send_reject,
  send_execution_report, send_business_message_reject,
}

-- `mTradingCore.submitCommand(...)`
abbrev pub submit : Command → FixSession → Option FixSession
submit c s = elim (submit_command c s.core) [
  | none ↦ none
  | some core ↦ some (record s { core = core })
]

-- The order that a request makes, with the id from the generator.
abbrev pub order_of : Surroundings → OrderRequest → OrderId → Order
order_of env r id =
    make_order r.client_order_id id r.symbol (text (print env.session_id)) r.sender_comp_id r.side
      limit day r.quantity r.price env.now

unfoldable pub handle_new_order : Surroundings → ℕ → Bytes → FixSession → Option FixSession
unfolding convert_order submit_command send_business_message_reject text print
handle_new_order env msg_seq_num message s = elim (convert_order env.readers message) [
  | none ↦
      some (send_business_message_reject env msg_seq_num 68 5 (codes "Invalid NewOrderSingle") s)
  | some r ↦
      let id = next_order_id (s.core).order_id in
      submit (new_order (text (print env.session_id)) env.now (order_of env r id))
        (record s { core = record (s.core) { order_id = id } })
]

-- The id of the order that a client's id names, or 0.
abbrev pub id_by_client_order_id : String → TradingCore → OrderId
id_by_client_order_id id core = elim (find_by_client_order_id id core) [
  | none ↦ 0
  | some o ↦ o.core_order_id
]

abbrev pub order_to_cancel : CancelOrderRequest → TradingCore → OrderId
order_to_cancel r core =
    if r.order_id == 0
    then id_by_client_order_id
        (if str_eq r.orig_cl_ord_id "" then r.cl_ord_id else r.orig_cl_ord_id) core
    else r.order_id

unfoldable pub handle_cancel_order_request : Surroundings → Bytes → FixSession → Option FixSession
unfolding convert_cancel submit_command text print
handle_cancel_order_request env message s = elim (convert_cancel env.readers message) [
  | none ↦ some s
  | some r ↦
      let id = order_to_cancel r s.core in
      if id == 0
      then some s
      else submit (cancel_order (text (print env.session_id)) r.transact_time id) s
]

abbrev pub order_to_modify : ModifyOrderRequest → TradingCore → OrderId
order_to_modify r core =
    if r.order_id == 0 && not (str_eq r.orig_cl_ord_id "")
    then id_by_client_order_id r.orig_cl_ord_id core
    else r.order_id

unfoldable pub handle_modify_order_request : Surroundings → Bytes → FixSession → Option FixSession
unfolding convert_modify submit_command text print
handle_modify_order_request env message s = elim (convert_modify env.readers message) [
  | none ↦ some s
  | some r ↦
      let id = order_to_modify r s.core in
      if id == 0
      then some s
      else submit
          (modify_order (text (print env.session_id)) r.transact_time id r.price r.order_qty) s
]

-- Whether the type asks for a subscription, or for its end.
abbrev pub subscribes : Option ℕ → Bool
subscribes none = false
subscribes (some c) = c == 48 || c == 49

abbrev pub unsubscribes : Option ℕ → Bool
unsubscribes none = false
unsubscribes (some c) = c == 50

unfoldable pub handle_market_data_request : Surroundings → Bytes → FixSession → Option FixSession
unfolding convert_market_data
handle_market_data_request env message s = elim (convert_market_data message) [
  | none ↦ some s
  | some r ↦ elim r.symbols [
    | [] ↦ some s
    | symbol ∷ symbols ↦
        if subscribes r.subscription_request_type
        then elim (subscribe_to_market_data symbol env.session_id s.core) [
          | none ↦ none
          | some (core, calls) ↦ some (record s {
            core = core;
            request_ids = insert (instrument_index symbol) r.md_req_id s.request_ids;
          })
        ]
        else if unsubscribes r.subscription_request_type
        then some (record s {
          core = unsubscribe_from_market_data symbol env.session_id s.core;
          request_ids = erase (instrument_index symbol) s.request_ids;
        })
        else some s
  ]
]

unfoldable pub handle_logon : Surroundings → ℕ → Bytes → FixSession → FixSession
unfolding authenticate validate_sequence write_numbered text
handle_logon env msg_seq_num sender s =
    let (ok, m) = authenticate env.session_id (text sender) s.manager in
    if not ok
    then close (
        write
          (build_logout env.stamp (codes "BETA_EXCHANGE") sender 1 (codes "Invalid SenderCompID"))
          (record s { manager = m }))
    else write_numbered env (λ seq. build_logon env.stamp (codes "BETA_EXCHANGE") sender seq 30)
        (record s { manager = (validate_sequence env.session_id msg_seq_num m).1 })

unfoldable pub handle_logout_message : Surroundings → Bytes → FixSession → FixSession
unfolding use_next_outbound_sequence handle_logout cleanup_connection
handle_logout_message env sender s =
    let (seq, m) = use_next_outbound_sequence env.session_id s.manager in
    close (
      write
        (build_logout env.stamp (codes "BETA_EXCHANGE") sender seq (codes "Logout Acknowledged"))
        (record s { manager = cleanup_connection env.session_id (handle_logout env.session_id m) }))

unfoldable pub handle_test_request : Surroundings → Bytes → Bytes → FixSession → FixSession
unfolding field_after write_numbered get_session_state
handle_test_request env sender message s = elim (get_session_state env.session_id s.manager) [
  | none ↦ s
  | some state ↦
      write_numbered env
        (λ seq.
          build_heartbeat env.stamp (codes "BETA_EXCHANGE") sender seq
            (elim (field_after (codes "112=") message) [ none ↦ [] | some v ↦ v ]))
        s
]

-- The `switch`, for the types of a session that is logged on.
unfoldable pub dispatch : Surroundings → ℕ → Bytes → Bytes → ℕ → FixSession → Option FixSession
unfolding handle_test_request handle_new_order handle_cancel_order_request
    handle_modify_order_request handle_market_data_request
dispatch env msg_seq_num sender message type s =
    if type == 49
    then some (handle_test_request env sender message s)
    else if type == 68
    then handle_new_order env msg_seq_num message s
    else if type == 70
    then handle_cancel_order_request env message s
    else if type == 71
    then handle_modify_order_request env message s
    else if type == 86
    then handle_market_data_request env message s
    else some s

-- `!state || !state->isLoggedOn`, negated.
unfoldable pub is_logged_on : Surroundings → FixSession → Bool
unfolding get_session_state
is_logged_on env s = elim (get_session_state env.session_id s.manager) [
  | none ↦ false
  | some (id, state) ↦ state.is_logged_on
]

-- The number in the message, or 0; a `none` is the exception of `stoul`.
unfoldable pub seq_num_of : Bytes → Option ℕ
unfolding field_after stoull
seq_num_of message = elim (field_after (codes "34=") message) [
  | none ↦ some 0
  | some v ↦ elim (stoull v) [ none ↦ none | some n ↦ some (n % u32_mod) ]
]

unfoldable pub sender_of : Bytes → Bytes
unfolding field_after
sender_of message = elim (field_after (codes "49=") message) [ none ↦ [] | some v ↦ v ]

-- The handler catches the exception of `stoul`, which comes before everything else.
unfoldable pub handle_fix_message : Surroundings → Bytes → ℕ → FixSession → Option FixSession
unfolding seq_num_of sender_of handle_logon handle_logout_message is_logged_on validate_sequence
    dispatch
handle_fix_message env message type s = elim (seq_num_of message) [
  | none ↦ some s
  | some msg_seq_num ↦
      if type == 65
      then some (handle_logon env msg_seq_num (sender_of message) s)
      else if type == 53
      then some (handle_logout_message env (sender_of message) s)
      else if not (is_logged_on env s)
      then some (close s)
      else dispatch env msg_seq_num (sender_of message) message type
          (record s { manager = (validate_sequence env.session_id msg_seq_num s.manager).1 })
]
