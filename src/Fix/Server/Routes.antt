-- ===== src/Fix/Server/Routes.antt =====
-- Which connection a report reaches.
use beta_trader.Session.Laws.{use_next_outbound_sequence-state}
use beta_trader.Prelude.{
  ◌≡◌, ◌≢◌, refl, ℕ, false, some, [], ◌∷◌, ◌++◌, ◌==◌, if◌then◌else◌, find, find-insert, arith,
  List, String, All, sym, ap, ◌∙◌, ◌+◌, ◌%◌, append-nil, append_assoc,
}
use beta_trader.Session.{use_next_outbound_sequence, SessionState, get_session_state}
use beta_trader.Fix.Text.{Bytes}
use beta_trader.Fix.Reports.{Printers, Report, convert_report}
use beta_trader.Fix.Sending.{Surroundings, send_execution_report, write_numbered}
use beta_trader.Fix.Server.{Connection, FixServer, on_execution_report}

-- The connection with one message more.
abbrev pub with_message : Bytes → Connection → Connection
with_message message c = record c { written = c.written ++ message ∷ [] }

-- A report for a session, whose id is not 0, is written to the connection of this session, with the
-- next sequence number of its client, and to no other; only the sequence numbers change besides,
-- and the core does not.
pub on_execution_report-find :
    (p : Printers) (env : Surroundings) (r : Report) (server : FixServer) (c : Connection) (j : ℕ)
    → r.target_comp_id ≢ 0
    → find r.target_comp_id server.sessions ≡ some c
    → let seq = (use_next_outbound_sequence r.target_comp_id server.manager).0 in
      let server' = on_execution_report p env r server in
      (find j server'.sessions ≡ (
        if r.target_comp_id == j
        then some (with_message (convert_report p r seq) c)
        else find j server.sessions))
      × (server'.manager ≡ (use_next_outbound_sequence r.target_comp_id server.manager).1)
      × (server'.core ≡ server.core)
unfolding on_execution_report send_execution_report write_numbered
on_execution_report-find p env r server c j real at =
    let seq = (use_next_outbound_sequence r.target_comp_id server.manager).0 in
    let named : (r.target_comp_id == 0) ≡ false = ground (arith, real) in
    rw (named, at)
      (
        find-insert r.target_comp_id j (with_message (convert_report p r seq) c) server.sessions,
        refl,
        refl,
      )

-- The reports, published one after the other.
abbrev pub publish_all : Printers → Surroundings → List Report → FixServer → FixServer
publish_all p env [] server = server
publish_all p env (r ∷ rs) server = publish_all p env rs (on_execution_report p env r server)

-- The messages of reports, with numbers from `n` on, modulo 2^32.
abbrev pub numbered : Printers → ℕ → List Report → List Bytes
numbered p n [] = []
numbered p n (r ∷ rs) = convert_report p r n ∷ numbered p ((n + 1) % 4294967296) rs

-- A connection with messages more.
abbrev pub with_messages : List Bytes → Connection → Connection
with_messages messages c = record c { written = c.written ++ messages }

on_execution_report-numbered :
    (p : Printers) (env : Surroundings) (r : Report) (server : FixServer) (c : Connection) (id : ℕ)
    (client : String) (state : SessionState)
    → id ≢ 0
    → r.target_comp_id ≡ id
    → find id server.sessions ≡ some c
    → get_session_state id server.manager ≡ some (client, state)
    → let server' = on_execution_report p env r server in
      ((j : ℕ)
        → find j server'.sessions ≡ (
            if id == j
            then some (with_message (convert_report p r state.out_seq_num) c)
            else find j server.sessions))
      × (get_session_state id server'.manager
          ≡ some (client, record state { out_seq_num = (state.out_seq_num + 1) % 4294967296 }))
      × (server'.core ≡ server.core)
on_execution_report-numbered p env r server c id client state real e at known =
    let real' : r.target_comp_id ≢ 0 = λ z. real (sym e ∙ z) in
    let at' : find r.target_comp_id server.sessions ≡ some c =
      ap (λ x. find x server.sessions) e ∙ at in
    let (moved, number) = use_next_outbound_sequence-state id client state server.manager known in
    let (here, there, core) = on_execution_report-find p env r server c id real' at' in
    (
      λ j.
          (on_execution_report-find p env r server c j real' at').0
          ∙ ap
              (λ (x : ℕ).
                if x == j
                then some (
                    with_message
                      (convert_report p r (use_next_outbound_sequence x server.manager).0) c)
                else find j server.sessions)
              e
          ∙ ap
              (λ n.
                if id == j
                then some (with_message (convert_report p r n) c)
                else find j server.sessions)
              number,
      ap (get_session_state id)
            (there ∙ ap (λ x. (use_next_outbound_sequence x server.manager).1) e)
          ∙ moved,
      core,
    )

-- Reports for one session, with an id that is not 0 and a client that is known, are written to its
-- connection in their order, with consecutive sequence numbers, modulo 2^32, from the next number
-- of the client on; the other connections and the core stay as they are.
pub publish_all-numbered :
    (p : Printers) (env : Surroundings) (rs : List Report) (server : FixServer) (c : Connection)
    (id j : ℕ) (client : String) (state : SessionState)
    → id ≢ 0
    → All (λ r. r.target_comp_id ≡ id) rs
    → find id server.sessions ≡ some c
    → get_session_state id server.manager ≡ some (client, state)
    → let server' = publish_all p env rs server in
      (find j server'.sessions ≡ (
        if id == j
        then some (with_messages (numbered p state.out_seq_num rs) c)
        else find j server.sessions))
      × (server'.core ≡ server.core)
publish_all-numbered p env [] server c id j client state real all at known = (nothing, refl)
  where
    nothing : find j server.sessions ≡ (
        if id == j then some (record c { written = c.written ++ [] }) else find j server.sessions)
    nothing = ground (arith, at, append-nil c.written)
publish_all-numbered p env (r ∷ rs) server c id j client state real (e, all) at known =
    let m = convert_report p r state.out_seq_num in
    let (seen, moved, core) =
      on_execution_report-numbered p env r server c id client state real e at known in
    let at' : find id (on_execution_report p env r server).sessions ≡ some (with_message m c) =
      ground (arith, seen id) in
    let (rest, core') =
      publish_all-numbered p env rs (on_execution_report p env r server) (with_message m c) id j
        client (record state { out_seq_num = (state.out_seq_num + 1) % 4294967296 }) real all at'
        moved in
    let ns = numbered p ((state.out_seq_num + 1) % 4294967296) rs in
    (ground (arith, rest, seen j, append_assoc c.written (m ∷ []) ns), core' ∙ core)
