-- ===== src/Session.antt =====
-- exchange/exchange_fix/src/FixSessionManager.cpp: which connections speak for which client, and the
-- sequence numbers of each client. The repository of sequence numbers is a parameter: `seq_repo` is
-- what its `getSequenceNumbers` answers, and `updates` keeps the calls of `updateSequenceNumbers`.
pub mod Laws
use beta_trader.Prelude.{
  ℕ, ◌+◌, ◌%◌, Bool, true, false, not, ◌||◌, String, str_eq, Option, none, some, List, [], ◌∷◌,
  ◌++◌, ◌==◌, if◌then◌else◌, find, insert, erase, u32_mod,
}

pub record SessionState : Type 0 where
  pub sender_comp_id : String
  pub is_logged_on : Bool
  pub in_seq_num : ℕ
  pub out_seq_num : ℕ

abbrev pub States : Type 0
States = List (String × SessionState)

pub record SessionManager : Type 0 where
  pub valid_clients : List String
  pub session_states : States
  pub connection_to_comp_id : List (ℕ × String)
  pub seq_repo : Option (String → ℕ × ℕ)
  pub updates : List (String × (ℕ × ℕ))

unfoldable pub contains : String → List String → Bool
contains s [] = false
contains s (t ∷ ts) = str_eq t s || contains s ts

unfoldable pub find_state : String → States → Option SessionState
find_state id [] = none
find_state id ((k, s) ∷ m) = if str_eq k id then some s else find_state id m

-- `mSessionStates[id] = s`
unfoldable pub put_state : String → SessionState → States → States
put_state id s [] = (id, s) ∷ []
put_state id s ((k, t) ∷ m) =
    let rest = put_state id s m in if str_eq k id then (k, s) ∷ m else (k, t) ∷ rest

-- `loadConfig`
pub load_config : List String → SessionManager → SessionManager
load_config clients m = record m { valid_clients = clients }

-- The state of a client that has none yet.
pub initial_state : String → SessionManager → SessionState
initial_state id m = elim m.seq_repo [
  | some stored ↦ record {
    sender_comp_id = id;
    is_logged_on = false;
    in_seq_num = (stored id).0;
    out_seq_num = (stored id).1;
  }
  | none ↦ record { sender_comp_id = id; is_logged_on = false; in_seq_num = 0; out_seq_num = 1 }
]

-- The entry that `authenticate` finds or makes.
pub known_state : String → SessionManager → SessionState
unfolding find_state initial_state
known_state id m = elim (find_state id m.session_states) [ some s ↦ s | none ↦ initial_state id m ]

unfoldable pub authenticate : ℕ → String → SessionManager → Bool × SessionManager
unfolding contains put_state known_state
authenticate session_id id m =
    if not (contains id m.valid_clients)
    then (false, m)
    else (let s = known_state id m in
        (
          true,
          record m {
            connection_to_comp_id = insert session_id id m.connection_to_comp_id;
            session_states = put_state id (record s { is_logged_on = true }) m.session_states;
          },
        ))

-- `if (mSeqRepo) mSeqRepo->updateSequenceNumbers(...)`
abbrev pub save_numbers : String → SessionState → SessionManager → SessionManager
save_numbers id s m = elim m.seq_repo [
  | none ↦ m
  | some stored ↦ record m { updates = m.updates ++ (id, (s.in_seq_num, s.out_seq_num)) ∷ [] }
]

-- The client of a connection, with its state.
unfoldable pub get_session_state : ℕ → SessionManager → Option (String × SessionState)
unfolding find_state
get_session_state session_id m = elim (find session_id m.connection_to_comp_id) [
  | none ↦ none
  | some id ↦ elim (find_state id m.session_states) [ none ↦ none | some s ↦ some (id, s) ]
]

unfoldable pub validate_sequence : ℕ → ℕ → SessionManager → Bool × SessionManager
unfolding get_session_state put_state
validate_sequence session_id incoming m = elim (get_session_state session_id m) [
  | none ↦ (false, m)
  | some (id, s) ↦
      if not s.is_logged_on
      then (false, m)
      else if incoming == (s.in_seq_num + 1) % u32_mod
      then (let s' = record s { in_seq_num = incoming } in
          (
            true,
            save_numbers id s' (record m { session_states = put_state id s' m.session_states }),
          ))
      else (false, m)
]

unfoldable pub handle_logout : ℕ → SessionManager → SessionManager
unfolding get_session_state put_state
handle_logout session_id m = elim (get_session_state session_id m) [
  | none ↦ m
  | some (id, s) ↦ record m {
    session_states = put_state id (record s { is_logged_on = false }) m.session_states;
  }
]

unfoldable pub cleanup_connection : ℕ → SessionManager → SessionManager
cleanup_connection session_id m = record m {
  connection_to_comp_id = erase session_id m.connection_to_comp_id;
}

unfoldable pub use_next_outbound_sequence : ℕ → SessionManager → ℕ × SessionManager
unfolding get_session_state put_state
use_next_outbound_sequence session_id m = elim (get_session_state session_id m) [
  | none ↦ (1, m)
  | some (id, s) ↦
      (let s' = record s { out_seq_num = (s.out_seq_num + 1) % u32_mod } in
        (
          s.out_seq_num,
          save_numbers s.sender_comp_id s'
              (record m { session_states = put_state id s' m.session_states }),
        ))
]

pub increment_outbound_sequence : ℕ → SessionManager → SessionManager
unfolding use_next_outbound_sequence
increment_outbound_sequence session_id m = (use_next_outbound_sequence session_id m).1
