-- ===== src/Session/Laws.antt =====
-- The laws of the session manager.
use beta_trader.Prelude.{
  ◌+◌, ◌%◌, ◌≡◌, refl, ℕ, zero, suc, true, false, String, str_eq, eq_iff, some, List, [], ◌∷◌, ◌==◌,
  arith, Bool-cases, Option-cases, if◌then◌else◌, inl, inr, u32_mod,
}
use beta_trader.Session.{
  SessionState, States, SessionManager, find_state, put_state, get_session_state, validate_sequence,
  handle_logout, use_next_outbound_sequence,
}

find_state-put_state :
    (id k : String) (s : SessionState) (m : States)
    → find_state k (put_state id s m) ≡ (if str_eq id k then some s else find_state k m)
unfolding find_state put_state
find_state-put_state id k s [] = refl
find_state-put_state id k s ((j, t) ∷ m) =
    ground (arith, find_state-put_state id k s m, eq_iff j id, eq_iff j k, eq_iff id k)

-- On a connection of a client that is logged on, a number is accepted exactly when it is the
-- successor, modulo 2^32, of the last one accepted; then it becomes the last one, and otherwise the
-- client's state stays as it is.
pub validate_sequence-accepts :
    (sid n : ℕ) (id : String) (s : SessionState) (m : SessionManager)
    → get_session_state sid m ≡ some (id, s)
    → s.is_logged_on ≡ true
    → (get_session_state sid (validate_sequence sid n m).1
        ≡ some (
          id,
          record s { in_seq_num = if n == (s.in_seq_num + 1) % u32_mod then n else s.in_seq_num },
        ))
      × ((validate_sequence sid n m).0 ≡ (n == (s.in_seq_num + 1) % u32_mod))
unfolding validate_sequence get_session_state
validate_sequence-accepts sid n id s m e on = ground (
  arith,
  find_state-put_state id id (record s { in_seq_num = n }) m.session_states,
  eq_iff id id,
  e,
  on,
)

-- A sequence number that is accepted is not accepted a second time, whatever the state.
pub validate_sequence-replay :
    (sid n : ℕ) (m : SessionManager)
    → (validate_sequence sid n m).0 ≡ true
    → (validate_sequence sid n (validate_sequence sid n m).1).0 ≡ false
unfolding validate_sequence get_session_state
validate_sequence-replay sid n m h = elim (Option-cases (get_session_state sid m)) [
  | inl gone ↦ absurd (ground arith)
  | inr ((id, s), e) ↦ elim (Bool-cases s.is_logged_on) [
    | inr off ↦ absurd (ground arith)
    | inl on ↦ again id s e on (validate_sequence-accepts sid n id s m e on)
  ]
]
  where
    again :
        (id : String) (s : SessionState)
        → get_session_state sid m ≡ some (id, s)
        → s.is_logged_on ≡ true
        → (get_session_state sid (validate_sequence sid n m).1
            ≡ some (
              id,
              record s {
                in_seq_num = if n == (s.in_seq_num + 1) % u32_mod then n else s.in_seq_num;
              },
            ))
          × ((validate_sequence sid n m).0 ≡ (n == (s.in_seq_num + 1) % u32_mod))
        → (validate_sequence sid n (validate_sequence sid n m).1).0 ≡ false
    again id s e on (e', a) =
        let s' : SessionState = record s {
          in_seq_num = if n == (s.in_seq_num + 1) % u32_mod then n else s.in_seq_num;
        } in
        let (_, b) = validate_sequence-accepts sid n id s' (validate_sequence sid n m).1 e' on in
        ground (arith, a, b, h)

-- After a logout, no number is accepted on the connection that logged out, and a rejection changes
-- nothing.
pub validate_sequence-handle_logout :
    (sid n : ℕ) (m : SessionManager)
    → validate_sequence sid n (handle_logout sid m) ≡ (false, handle_logout sid m)
unfolding validate_sequence handle_logout get_session_state
validate_sequence-handle_logout sid n m = elim (Option-cases (get_session_state sid m)) [
  | inl gone ↦ ground arith
  | inr ((id, s), e) ↦ ground (
    arith,
    find_state-put_state id id (record s { is_logged_on = false }) m.session_states,
    eq_iff id id,
    e,
  )
]

-- The numbers that `n` calls of `useNextOutboundSequence` return.
pub use_many : ℕ → ℕ → SessionManager → List ℕ
use_many zero sid m = []
use_many (suc n) sid m =
    (use_next_outbound_sequence sid m).0 ∷ use_many n sid (use_next_outbound_sequence sid m).1

-- `n` numbers in a row, modulo 2^32.
abbrev pub successors : ℕ → ℕ → List ℕ
successors zero k = []
successors (suc n) k = k ∷ successors n ((k + 1) % u32_mod)

pub use_next_outbound_sequence-state :
    (sid : ℕ) (id : String) (s : SessionState) (m : SessionManager)
    → get_session_state sid m ≡ some (id, s)
    → (get_session_state sid (use_next_outbound_sequence sid m).1
        ≡ some (id, record s { out_seq_num = (s.out_seq_num + 1) % u32_mod }))
      × ((use_next_outbound_sequence sid m).0 ≡ s.out_seq_num)
unfolding use_next_outbound_sequence get_session_state
use_next_outbound_sequence-state sid id s m e = ground (
  arith,
  find_state-put_state id id (record s { out_seq_num = (s.out_seq_num + 1) % u32_mod })
      m.session_states,
  eq_iff id id,
  e,
)

-- The messages that go out on a connection of a known client carry consecutive numbers, modulo
-- 2^32, from the number of the client's state on.
pub use_many-successors :
    (n sid : ℕ) (id : String) (s : SessionState) (m : SessionManager)
    → get_session_state sid m ≡ some (id, s)
    → use_many n sid m ≡ successors n s.out_seq_num
unfolding use_many
use_many-successors zero sid id s m e = refl
use_many-successors (suc n) sid id s m e =
    let (e', a) = use_next_outbound_sequence-state sid id s m e in
    ground (arith, a, use_many-successors n sid id _ _ e')
