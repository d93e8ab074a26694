-- ===== src/ClientSession.antt =====
-- client/client_fix/src/FixClientSession.cpp and SeqNumStore.cpp: the client's side of a connection.
-- `written` is what is handed to `async_write`, `saved` what the store writes to its file. Events and
-- callbacks are left out; the parser of reports and refreshes only feeds them. A `none` is an exception
-- that nothing catches.
pub mod Reading
pub mod Ends
pub mod Numbers
pub mod Trace
use beta_trader.Prelude.{
  ℕ, zero, suc, ◌+◌, ◌-◌, ◌%◌, Bool, true, false, not, ◌&&◌, ◌||◌, Option, none, some, List, [],
  ◌∷◌, ◌++◌, ◌>>=◌, ltb, ◌==◌, if◌then◌else◌, length, u32_mod, find, min,
}
use beta_trader.Fix.Text.{
  Bytes, codes, soh, print, drop, substr, find_text, find_text_from, find_char_from,
}
use beta_trader.Fix.Values.{TagMap, split_to_map, stoull}
use beta_trader.Fix.Builder.{field, build_message, build_logon, build_logout, build_heartbeat}

pub data FixClientState : Type 0 where
  disconnected connecting connected logon_sent active logging_out : FixClientState

-- The settings of a session, and the text that `generateTimestamp` makes of the clock.
pub record Settings : Type 0 where
  pub sender_comp_id : Bytes
  pub target_comp_id : Bytes
  pub stamp : Bytes

pub record FixClientSession : Type 0 where
  pub state : FixClientState
  pub in_seq_num : ℕ
  pub out_seq_num : ℕ
  pub saved : List (ℕ × ℕ)
  pub heartbeat_interval : ℕ
  pub is_open : Bool
  pub written : List Bytes

-- `mSeqStore.setSeqNums(...)`
unfoldable pub set_seq_nums : ℕ → ℕ → FixClientSession → FixClientSession
set_seq_nums in_seq out_seq s = record s {
  in_seq_num = in_seq;
  out_seq_num = out_seq;
  saved = s.saved ++ (in_seq, out_seq) ∷ [];
}

-- `mSeqStore.reset()`
unfoldable pub reset : FixClientSession → FixClientSession
unfolding set_seq_nums
reset s = set_seq_nums 1 1 s

abbrev pub do_write : Bytes → FixClientSession → FixClientSession
do_write message s = record s { written = s.written ++ message ∷ [] }

abbrev pub change_state : FixClientState → FixClientSession → FixClientSession
change_state new_state s = record s { state = new_state }

unfoldable pub disconnect : FixClientSession → FixClientSession
disconnect s = elim s.state [
  | disconnected ↦ s
  | _ ↦ record s { is_open = false; state = disconnected }
]

-- A message with the next number of the sender, which is then used up.
unfoldable pub send_numbered : (ℕ → Bytes) → FixClientSession → FixClientSession
unfolding set_seq_nums
send_numbered message s =
    do_write (message s.out_seq_num) (set_seq_nums s.in_seq_num ((s.out_seq_num + 1) % u32_mod) s)

-- `forceReset` sends the flag 141 as well.
unfoldable pub logon_message : Settings → ℕ → Bool → ℕ → Bytes
unfolding build_message print
logon_message c interval force_reset seq =
    if force_reset
    then build_message c.stamp c.sender_comp_id c.target_comp_id seq (codes "A")
        (codes "98=0" ++ soh ∷ field (codes "108=") (print interval) ++ codes "141=Y" ++ soh ∷ [])
    else build_logon c.stamp c.sender_comp_id c.target_comp_id seq interval

unfoldable pub may_log_on : FixClientState → Bool
may_log_on connected = true
may_log_on disconnected = true
may_log_on s = false

unfoldable pub send_logon : Settings → ℕ → Bool → FixClientSession → FixClientSession
unfolding may_log_on reset send_numbered logon_message
send_logon c interval force_reset s =
    if may_log_on s.state
    then change_state logon_sent (
        send_numbered (logon_message c interval force_reset)
          (record (if force_reset then reset s else s) { heartbeat_interval = interval }))
    else s

unfoldable pub may_log_out : FixClientState → Bool
may_log_out active = true
may_log_out logon_sent = true
may_log_out s = false

unfoldable pub send_logout : Settings → Bytes → FixClientSession → FixClientSession
unfolding may_log_out send_numbered
send_logout c reason s =
    if may_log_out s.state
    then change_state logging_out
        (send_numbered (λ seq. build_logout c.stamp c.sender_comp_id c.target_comp_id seq reason) s)
    else s

unfoldable pub is_active : FixClientState → Bool
is_active active = true
is_active s = false

unfoldable pub send_message : Settings → Bytes → Bytes → FixClientSession → FixClientSession
unfolding is_active send_numbered build_message
send_message c type body s =
    if is_active s.state
    then send_numbered
        (λ seq. build_message c.stamp c.sender_comp_id c.target_comp_id seq type body) s
    else s

-- The heartbeat timer has expired.
unfoldable pub heartbeat : Settings → FixClientSession → FixClientSession
unfolding is_active send_numbered
heartbeat c s =
    if is_active s.state
    then send_numbered (λ seq. build_heartbeat c.stamp c.sender_comp_id c.target_comp_id seq []) s
    else s

-- `if (it != map.end()) x = std::stoul(...)`, with 0 for what is missing.
unfoldable pub number_at : ℕ → TagMap → Option ℕ
unfolding stoull
number_at tag fields = elim (find tag fields) [
  | none ↦ some 0
  | some v ↦ elim (stoull v) [ none ↦ none | some n ↦ some (n % u32_mod) ]
]

unfoldable pub handle_test_request : Settings → TagMap → FixClientSession → FixClientSession
unfolding send_numbered
handle_test_request c fields s =
    send_numbered
      (λ seq.
        build_heartbeat c.stamp c.sender_comp_id c.target_comp_id seq
          (elim (find 112 fields) [ none ↦ [] | some v ↦ v ]))
      s

-- The gap is filled without a message of its own: the number is that of the request.
unfoldable pub handle_resend_request :
    Settings → TagMap → FixClientSession → Option FixClientSession
unfolding number_at build_message print
handle_resend_request c fields s = do
  begin_seq_no ← number_at 7 fields
  end_seq_no ← number_at 16 fields
  some (
      do_write
        (build_message c.stamp c.sender_comp_id c.target_comp_id begin_seq_no (codes "4")
          (codes "123=Y" ++ soh ∷ field (codes "36=") (print s.out_seq_num)))
        s)

unfoldable pub handle_sequence_reset : TagMap → FixClientSession → Option FixClientSession
unfolding stoull set_seq_nums
handle_sequence_reset fields s = elim (find 36 fields) [
  | none ↦ some s
  | some v ↦ elim (stoull v) [
    | none ↦ none
    | some n ↦ some (set_seq_nums (n % u32_mod) s.out_seq_num s)
  ]
]

unfoldable pub dispatch : Settings → ℕ → TagMap → FixClientSession → Option FixClientSession
unfolding disconnect handle_test_request handle_resend_request handle_sequence_reset
dispatch c type fields s =
    if type == 65
    then some (change_state active s)
    else if type == 49
    then some (handle_test_request c fields s)
    else if type == 50
    then handle_resend_request c fields s
    else if type == 52
    then handle_sequence_reset fields s
    else if type == 53
    then some (disconnect s)
    else some s

-- The sequence number of the server: a `none` is the end of the handler, with the session closed.
unfoldable pub accept_number : ℕ → FixClientSession → Option FixClientSession
unfolding set_seq_nums
accept_number seq s =
    if seq == s.in_seq_num
    then some (set_seq_nums ((s.in_seq_num + 1) % u32_mod) s.out_seq_num s)
    else if ltb s.in_seq_num seq
    then some (set_seq_nums ((seq + 1) % u32_mod) s.out_seq_num s)
    else none

unfoldable pub handle_type : Settings → ℕ → ℕ → TagMap → FixClientSession → Option FixClientSession
unfolding accept_number dispatch disconnect
handle_type c seq type fields s =
    if type == 52 || (type == 53) then dispatch c type fields s else elim (accept_number seq s) [
      | none ↦ some (disconnect s)
      | some s' ↦ dispatch c type fields s'
    ]

unfoldable pub handle_protocol_message :
    Settings → Bytes → FixClientSession → Option FixClientSession
unfolding split_to_map number_at handle_type
handle_protocol_message c message s = elim (split_to_map message soh) [
  | none ↦ none
  | some fields ↦ elim (number_at 34 fields) [
    | none ↦ none
    | some seq ↦ elim (find 35 fields) [
      | none ↦ some s
      | some [] ↦ some s
      | some (type ∷ more) ↦ handle_type c seq type fields s
    ]
  ]
]
