-- ===== src/Fix/Session/Guarded.antt =====
-- What reaches the core of a connection on which no client has logged on.
use beta_trader.Prelude.{
  ◌≡◌, ◌≢◌, refl, sym, ap, ◌∙◌, subst, ℕ, false, Option, none, some, List, [], ◌∷◌, arith, ◌==◌,
  Option-cases, Bool-cases, inl, inr, All, find, find-erase, String, ◌>>=◌,
}
use beta_trader.Session.{
  contains, get_session_state, handle_logout, cleanup_connection, use_next_outbound_sequence,
  authenticate,
}
use beta_trader.Fix.Text.{Bytes}
use beta_trader.Fix.Values.{text}
use beta_trader.Fix.Session.{
  seq_num_of, sender_of, is_logged_on, handle_logon, handle_logout_message, handle_fix_message,
}
use beta_trader.Fix.Sending.{Surroundings, FixSession, write_numbered}

-- Where no client is logged on, a message is handled without a fault and leaves the core as it is; the
-- session is closed after it, unless it is a logon or its number cannot be read.
pub handle_fix_message-before_logon :
    (env : Surroundings) (message : Bytes) (type : ℕ) (s : FixSession)
    → is_logged_on env s ≡ false
    → (s' : FixSession) × (handle_fix_message env message type s ≡ some s')
      × (s'.core ≡ s.core)
      × (type ≢ 65 → seq_num_of message ≢ none → s'.is_open ≡ false)
unfolding handle_fix_message handle_logon handle_logout_message write_numbered
handle_fix_message-before_logon env message type s out = elim (Option-cases (seq_num_of message)) [
  | inl bad ↦ (s, ground (arith, bad), refl, λ t n. absurd (n bad))
  | inr (n, e) ↦ elim (Bool-cases (type == 65)) [
    | inl logon ↦
        elim (Bool-cases (authenticate env.session_id (text (sender_of message)) s.manager).0) [
          | inl good ↦ (
            handle_logon env n (sender_of message) s,
            ground (arith, e, logon),
            ground (arith, good),
            λ t k. absurd (ground (arith, logon, t)),
          )
          | inr bad ↦ (
            handle_logon env n (sender_of message) s,
            ground (arith, e, logon),
            ground (arith, bad),
            λ t k. absurd (ground (arith, logon, t)),
          )
        ]
    | inr other ↦ elim (Bool-cases (type == 53)) [
      | inl logout ↦ (
        handle_logout_message env (sender_of message) s,
        ground (arith, e, other, logout),
        refl,
        λ t k. refl,
      )
      | inr rest ↦
          (record s { is_open = false }, ground (arith, e, other, rest, out), refl, λ t k. refl)
    ]
  ]
]

-- The connection is new to the manager: no logon has been accepted on it.
abbrev pub IsNew : Surroundings → FixSession → Type 0
IsNew env s = find env.session_id (s.manager).connection_to_comp_id ≡ none

IsNew-is_logged_on :
    (env : Surroundings) (s : FixSession) → IsNew env s → is_logged_on env s ≡ false
unfolding is_logged_on get_session_state
IsNew-is_logged_on env s h = ground (arith, h)

-- What a message keeps, of a session on which no logon has been accepted.
abbrev Keeps : Surroundings → FixSession → FixSession → Type 0
Keeps env s s' =
    IsNew env s' × (s'.core ≡ s.core) × ((s'.manager).valid_clients ≡ (s.manager).valid_clients)

handle_logon-Keeps :
    (env : Surroundings) (n : ℕ) (sender : Bytes) (s : FixSession)
    → IsNew env s
    → contains (text sender) (s.manager).valid_clients ≡ false
    → Keeps env s (handle_logon env n sender s)
unfolding handle_logon authenticate
handle_logon-Keeps env n sender s new refused = ground (arith, new, refused)

handle_logout_message-Keeps :
    (env : Surroundings) (sender : Bytes) (s : FixSession)
    → IsNew env s
    → Keeps env s (handle_logout_message env sender s)
unfolding handle_logout_message use_next_outbound_sequence handle_logout cleanup_connection
    get_session_state
handle_logout_message-Keeps env sender s new =
    ground (arith, new, find-erase env.session_id env.session_id (s.manager).connection_to_comp_id)

handle_fix_message-Keeps :
    (env : Surroundings) (message : Bytes) (type : ℕ) (s : FixSession)
    → IsNew env s
    → (type ≡ 65 → contains (text (sender_of message)) (s.manager).valid_clients ≡ false)
    → (s' : FixSession) × (handle_fix_message env message type s ≡ some s') × Keeps env s s'
unfolding handle_fix_message
handle_fix_message-Keeps env message type s new refused =
    let out = IsNew-is_logged_on env s new in
    elim (Option-cases (seq_num_of message)) [
      | inl bad ↦ (s, ground (arith, bad), (new, refl, refl))
      | inr (n, e) ↦ elim (Bool-cases (type == 65)) [
        | inl logon ↦ (
          handle_logon env n (sender_of message) s,
          ground (arith, e, logon),
          handle_logon-Keeps env n (sender_of message) s new (refused (ground (arith, logon))),
        )
        | inr other ↦ elim (Bool-cases (type == 53)) [
          | inl logout ↦ (
            handle_logout_message env (sender_of message) s,
            ground (arith, e, other, logout),
            handle_logout_message-Keeps env (sender_of message) s new,
          )
          | inr rest ↦
              (record s { is_open = false }, ground (arith, e, other, rest, out), (new, refl, refl))
        ]
      ]
    ]

-- Messages with their types, one after the other.
unfoldable pub handle_messages : Surroundings → List (Bytes × ℕ) → FixSession → Option FixSession
unfolding handle_fix_message
handle_messages env [] s = some s
handle_messages env ((message, type) ∷ messages) s =
    handle_fix_message env message type s >>= handle_messages env messages

-- A logon, if it is one, names none of these clients.
abbrev pub IsRefused : List String → Bytes × ℕ → Type 0
IsRefused clients (message, type) = type ≡ 65 → contains (text (sender_of message)) clients ≡ false

-- On a connection that is new to the session manager, any sequence of messages in which no logon
-- names a valid client is handled without a fault and leaves the core as it is.
pub handle_messages-refused :
    (env : Surroundings) (messages : List (Bytes × ℕ)) (s : FixSession)
    → IsNew env s
    → All (IsRefused (s.manager).valid_clients) messages
    → (s' : FixSession) × (handle_messages env messages s ≡ some s') × (s'.core ≡ s.core)
unfolding handle_messages
handle_messages-refused env [] s new all = (s, refl, refl)
handle_messages-refused env ((message, type) ∷ messages) s new all =
    let (s', e, (new', core, clients)) = handle_fix_message-Keeps env message type s new all.0 in
    let all' : All (IsRefused (s'.manager).valid_clients) messages =
      subst (λ c. All (IsRefused c) messages) (sym clients) all.1 in
    let (s'', e', core') = handle_messages-refused env messages s' new' all' in
    (s'', ap (λ o. o >>= handle_messages env messages) e ∙ e', core' ∙ core)
