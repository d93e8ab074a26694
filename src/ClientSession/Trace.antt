-- ===== src/ClientSession/Trace.antt =====
-- Whatever happens to a client's session, as a sequence of actions.
use beta_trader.Prelude.{
  ◌≡◌, ◌≢◌, refl, subst, ℕ, false, ◌||◌, Option, some, List, [], ◌∷◌, ◌>>=◌, arith, ◌==◌,
  Option-cases, Bool-cases, inl, inr, All,
}
use beta_trader.Fix.Text.{Bytes}
use beta_trader.Fix.Values.{TagMap}
use beta_trader.ClientSession.{
  Settings, FixClientSession, active, set_seq_nums, send_logon, send_logout, send_message,
  heartbeat, handle_test_request, handle_sequence_reset, disconnect, dispatch, accept_number,
  handle_type,
}
use beta_trader.ClientSession.Numbers.{
  Continues, Continues-same, Continues-trans, send_logon-Continues, send_logout-Continues,
  send_message-Continues, heartbeat-Continues, test_request-Continues,
}

-- What happens to a session without a reset of its numbers.
pub data Action : Type 0 where
  log_on : (interval : ℕ) → Action
  log_out : (reason : Bytes) → Action
  send : (type : Bytes) (body : Bytes) → Action
  beat : Action
  receive : (seq : ℕ) (type : ℕ) (fields : TagMap) → Action

unfoldable pub perform : Settings → Action → FixClientSession → Option FixClientSession
unfolding send_logon send_logout send_message heartbeat handle_type
perform c (log_on interval) s = some (send_logon c interval false s)
perform c (log_out reason) s = some (send_logout c reason s)
perform c (send type body) s = some (send_message c type body s)
perform c beat s = some (heartbeat c s)
perform c (receive seq type fields) s = handle_type c seq type fields s

unfoldable pub perform_all : Settings → List Action → FixClientSession → Option FixClientSession
unfolding perform
perform_all c [] s = some s
perform_all c (a ∷ actions) s = perform c a s >>= perform_all c actions

-- The gap fill that answers a resend request has the number of the request.
abbrev pub IsNoResend : Action → Type 0
IsNoResend (receive seq type fields) = type ≢ 50
IsNoResend a = Unit

-- A handler that may throw.
abbrev Answers : Settings → FixClientSession → Option FixClientSession → Type 0
Answers c s r = (s' : FixClientSession) → r ≡ some s' → Continues c s s'

answer : (c : Settings) (s s' : FixClientSession) → Continues c s s' → Answers c s (some s')
answer c s s' k s'' e = subst (Continues c s) {x = s'} {y = s''} (ground (arith, e)) k

disconnect-Continues : (c : Settings) (s : FixClientSession) → Continues c s (disconnect s)
unfolding disconnect
disconnect-Continues c s = Continues-same c s (disconnect s) (ground arith) (ground arith)

sequence_reset-Answers :
    (c : Settings) (fields : TagMap) (s : FixClientSession)
    → Answers c s (handle_sequence_reset fields s)
unfolding handle_sequence_reset set_seq_nums
sequence_reset-Answers c fields s s' e =
    Continues-same c s s' (ground (arith, e)) (ground (arith, e))

dispatch-Answers :
    (c : Settings) (type : ℕ) (fields : TagMap) (s : FixClientSession)
    → type ≢ 50
    → Answers c s (dispatch c type fields s)
unfolding dispatch
dispatch-Answers c type fields s h = elim (Bool-cases (type == 65)) [
  | inl logon ↦ rw logon (
      answer c s (record s { state = active })
        (Continues-same c s (record s { state = active }) refl refl))
  | inr a ↦ elim (Bool-cases (type == 49)) [
    | inl test ↦
        rw (a, test)
          (answer c s (handle_test_request c fields s) (test_request-Continues c fields s))
    | inr b ↦
        let no_resend : (type == 50) ≡ false = ground (arith, h) in
        elim (Bool-cases (type == 52)) [
          | inl set ↦ rw (a, b, no_resend, set) (sequence_reset-Answers c fields s)
          | inr d ↦ elim (Bool-cases (type == 53)) [
            | inl out ↦
                rw (a, b, no_resend, d, out) (answer c s (disconnect s) (disconnect-Continues c s))
            | inr e ↦ rw (a, b, no_resend, d, e) (answer c s s (Continues-same c s s refl refl))
          ]
        ]
  ]
]

accept_number-Answers :
    (c : Settings) (seq : ℕ) (s : FixClientSession) → Answers c s (accept_number seq s)
unfolding accept_number set_seq_nums
accept_number-Answers c seq s s' e = Continues-same c s s' (ground (arith, e)) (ground (arith, e))

handle_type-Answers :
    (c : Settings) (seq type : ℕ) (fields : TagMap) (s : FixClientSession)
    → type ≢ 50
    → Answers c s (handle_type c seq type fields s)
unfolding handle_type
handle_type-Answers c seq type fields s h s'' e = elim (Bool-cases (type == 52 || (type == 53))) [
  | inl direct ↦ dispatch-Answers c type fields s h s'' (ground (arith, e, direct))
  | inr checked ↦ elim (Option-cases (accept_number seq s)) [
    | inl bad ↦
        answer c s (disconnect s) (disconnect-Continues c s) s'' (ground (arith, e, checked, bad))
    | inr (s', good) ↦
        Continues-trans c s s' s'' (accept_number-Answers c seq s s' good)
          (dispatch-Answers c type fields s' h s'' (ground (arith, e, checked, good)))
  ]
]

perform-Answers :
    (c : Settings) (a : Action) (s : FixClientSession) → IsNoResend a → Answers c s (perform c a s)
unfolding perform
perform-Answers c (log_on interval) s h =
    answer c s (send_logon c interval false s) (send_logon-Continues c interval s)
perform-Answers c (log_out reason) s h =
    answer c s (send_logout c reason s) (send_logout-Continues c reason s)
perform-Answers c (send type body) s h =
    answer c s (send_message c type body s) (send_message-Continues c type body s)
perform-Answers c beat s h = answer c s (heartbeat c s) (heartbeat-Continues c s)
perform-Answers c (receive seq type fields) s h = handle_type-Answers c seq type fields s h

-- Whatever a client logs on, logs out, sends and receives, without a reset and without resend
-- requests, and if it ends without an exception, what it writes are messages of the builder with
-- consecutive sequence numbers, modulo 2^32, from the stored number on, and the stored number is
-- the one behind the last.
pub perform_all-Continues :
    (c : Settings) (actions : List Action) (s s' : FixClientSession)
    → All IsNoResend actions
    → perform_all c actions s ≡ some s'
    → Continues c s s'
unfolding perform_all
perform_all-Continues c [] s s' h e = answer c s s (Continues-same c s s refl refl) s' e
perform_all-Continues c (a ∷ actions) s s' h e = elim (Option-cases (perform c a s)) [
  | inl bad ↦ absurd (ground (arith, e, bad))
  | inr (t, f) ↦
      Continues-trans c s t s' (perform-Answers c a s h.0 t f)
        (perform_all-Continues c actions t s' h.1 (ground (arith, e, f)))
]
