-- ===== src/ClientSession/Numbers.antt =====
-- The sequence numbers of what the client sends.
use beta_trader.Prelude.{
  ◌≡◌, refl, sym, ap, ap₂, ◌∙◌, ℕ, ◌+◌, ◌%◌, false, none, some, List, [], ◌∷◌, ◌++◌, Bool-cases,
  inl, inr, append_assoc, append-nil, u32_mod, find,
}
use beta_trader.Fix.Text.{Bytes, codes, soh, print}
use beta_trader.Fix.Values.{TagMap}
use beta_trader.Fix.Builder.{
  field, optional_field, build_message, build_logon, build_logout, build_heartbeat,
}
use beta_trader.ClientSession.{
  Settings, FixClientSession, logon_sent, logging_out, set_seq_nums, send_numbered, logon_message,
  may_log_on, may_log_out, is_active, send_logon, send_logout, send_message, heartbeat,
  handle_test_request,
}

-- Messages of these types and bodies, with consecutive numbers.
unfoldable pub numbered : Settings → ℕ → List (Bytes × Bytes) → List Bytes
numbered c n [] = []
numbered c n ((type, body) ∷ more) =
    build_message c.stamp c.sender_comp_id c.target_comp_id n type body
    ∷ numbered c ((n + 1) % u32_mod) more

unfoldable pub number_after : ℕ → List (Bytes × Bytes) → ℕ
number_after n [] = n
number_after n (m ∷ more) = number_after ((n + 1) % u32_mod) more

-- What was written since is a sequence of numbered messages.
abbrev pub Continues : Settings → FixClientSession → FixClientSession → Type 0
Continues c s s' =
    (messages : List (Bytes × Bytes)) × (s'.written
      ≡ s.written ++ numbered c s.out_seq_num messages)
    × (s'.out_seq_num ≡ number_after s.out_seq_num messages)

numbered-append :
    (c : Settings) (n : ℕ) (xs ys : List (Bytes × Bytes))
    → numbered c n (xs ++ ys) ≡ numbered c n xs ++ numbered c (number_after n xs) ys
unfolding numbered number_after
numbered-append c n [] ys = refl
numbered-append c n ((type, body) ∷ xs) ys =
    ap
      (λ (ms : List Bytes).
        build_message c.stamp c.sender_comp_id c.target_comp_id n type body ∷ ms)
      (numbered-append c ((n + 1) % u32_mod) xs ys)

number_after-append :
    (n : ℕ) (xs ys : List (Bytes × Bytes))
    → number_after n (xs ++ ys) ≡ number_after (number_after n xs) ys
unfolding number_after
number_after-append n [] ys = refl
number_after-append n (x ∷ xs) ys = number_after-append ((n + 1) % u32_mod) xs ys

-- A step that writes nothing and leaves the number of the sender.
pub Continues-same :
    (c : Settings) (s s' : FixClientSession)
    → s'.written ≡ s.written
    → s'.out_seq_num ≡ s.out_seq_num
    → Continues c s s'
unfolding numbered number_after
Continues-same c s s' w n = ([], w ∙ sym (append-nil s.written), n)

pub Continues-trans :
    (c : Settings) (s s' s'' : FixClientSession)
    → Continues c s s'
    → Continues c s' s''
    → Continues c s s''
Continues-trans c s s' s'' (xs, w, n) (ys, w', n') = (
  xs ++ ys,
  w'
      ∙ ap₂ (λ (a b : List Bytes). a ++ b) w (ap (λ k. numbered c k ys) n)
      ∙ append_assoc s.written (numbered c s.out_seq_num xs)
          (numbered c (number_after s.out_seq_num xs) ys)
      ∙ ap (λ (ms : List Bytes). s.written ++ ms) (sym (numbered-append c s.out_seq_num xs ys)),
  n' ∙ ap (λ k. number_after k ys) n ∙ sym (number_after-append s.out_seq_num xs ys),
)

-- `send_numbered`, whatever the state afterwards.
send_numbered-Continues :
    (c : Settings) (type body : Bytes) (message : ℕ → Bytes) (s s' : FixClientSession)
    → message s.out_seq_num
      ≡ build_message c.stamp c.sender_comp_id c.target_comp_id s.out_seq_num type body
    → s'.written ≡ (send_numbered message s).written
    → s'.out_seq_num ≡ (send_numbered message s).out_seq_num
    → Continues c s s'
unfolding send_numbered set_seq_nums numbered number_after
send_numbered-Continues c type body message s s' e w n =
    ((type, body) ∷ [], w ∙ ap (λ (m : Bytes). s.written ++ m ∷ []) e, n)

pub send_logon-Continues :
    (c : Settings) (interval : ℕ) (s : FixClientSession)
    → Continues c s (send_logon c interval false s)
unfolding send_logon logon_message build_logon send_numbered set_seq_nums
send_logon-Continues c interval s = elim (Bool-cases (may_log_on s.state)) [
  | inr barred ↦ rw barred (Continues-same c s s refl refl)
  | inl may ↦
      let message = logon_message c interval false in
      let s' : FixClientSession = record (send_numbered message s) {
        state = logon_sent;
        heartbeat_interval = interval;
      } in
      rw may (
        send_numbered-Continues c (codes "A")
          (codes "98=0" ++ soh ∷ field (codes "108=") (print interval)) message s s' refl refl refl)
]

pub send_logout-Continues :
    (c : Settings) (reason : Bytes) (s : FixClientSession) → Continues c s (send_logout c reason s)
unfolding send_logout build_logout
send_logout-Continues c reason s = elim (Bool-cases (may_log_out s.state)) [
  | inr barred ↦ rw barred (Continues-same c s s refl refl)
  | inl may ↦
      let message : ℕ → Bytes =
        λ seq. build_logout c.stamp c.sender_comp_id c.target_comp_id seq reason in
      let s' : FixClientSession = record (send_numbered message s) { state = logging_out } in
      rw may (
        send_numbered-Continues c (codes "5") (optional_field (codes "58=") reason) message s s'
          refl refl refl)
]

pub send_message-Continues :
    (c : Settings) (type body : Bytes) (s : FixClientSession)
    → Continues c s (send_message c type body s)
unfolding send_message
send_message-Continues c type body s = elim (Bool-cases (is_active s.state)) [
  | inr barred ↦ rw barred (Continues-same c s s refl refl)
  | inl may ↦
      let message : ℕ → Bytes =
        λ seq. build_message c.stamp c.sender_comp_id c.target_comp_id seq type body in
      rw may
        (send_numbered-Continues c type body message s (send_numbered message s) refl refl refl)
]

pub heartbeat-Continues : (c : Settings) (s : FixClientSession) → Continues c s (heartbeat c s)
unfolding heartbeat build_heartbeat
heartbeat-Continues c s = elim (Bool-cases (is_active s.state)) [
  | inr barred ↦ rw barred (Continues-same c s s refl refl)
  | inl may ↦
      let message : ℕ → Bytes =
        λ seq. build_heartbeat c.stamp c.sender_comp_id c.target_comp_id seq [] in
      rw may (
        send_numbered-Continues c (codes "0") [] message s (send_numbered message s) refl refl refl)
]

pub test_request-Continues :
    (c : Settings) (fields : TagMap) (s : FixClientSession)
    → Continues c s (handle_test_request c fields s)
unfolding handle_test_request build_heartbeat
test_request-Continues c fields s =
    let id : Bytes = elim (find 112 fields) [ none ↦ [] | some v ↦ v ] in
    let message : ℕ → Bytes =
      λ seq. build_heartbeat c.stamp c.sender_comp_id c.target_comp_id seq id in
    send_numbered-Continues c (codes "0") (optional_field (codes "112=") id) message s
      (send_numbered message s) refl refl refl
