-- ===== src/ClientSession/Ends.antt =====
-- The client's read loop ends.
use beta_trader.Prelude.{
  ◌≡◌, sym, subst, ℕ, zero, suc, ◌-◌, ◌≤◌, ◌<◌, none, some, ◌++◌, arith, length, Option-cases, inl,
  inr,
}
use beta_trader.Fix.Text.{
  Bytes, codes, soh, drop, substr, length-drop, find_text_from, find_char_from, find_char_from-lt,
}
use beta_trader.ClientSession.{Settings, FixClientSession, handle_protocol_message}
use beta_trader.ClientSession.Reading.{
  find_message_start, find_message, ClientReading, read, faulted, out_of_fuel, read_loop, do_read,
}

-- What is found ends in the buffer, behind its beginning.
find_message-lt :
    (buffer : Bytes) (pos end : ℕ)
    → find_message buffer ≡ some (pos, end)
    → 0 < length buffer × (0 < end)
unfolding find_message
find_message-lt buffer pos end h = elim (Option-cases (find_message_start buffer)) [
  | inl gone ↦ absurd (ground (arith, gone, h))
  | inr (p, e) ↦ elim (Option-cases (find_text_from p (codes "10=") buffer)) [
    | inl gone ↦ absurd (ground (arith, e, gone, h))
    | inr (q, f) ↦ elim (Option-cases (find_char_from soh q buffer)) [
      | inl gone ↦ absurd (ground (arith, e, f, gone, h))
      | inr (n, g) ↦ let at = find_char_from-lt soh q n buffer g in ground (arith, e, f, g, h, at.0)
    ]
  ]
]

-- A read ends with a rest in which no message is complete, or with an exception.
abbrev pub Ends : ClientReading → Type 0
Ends (read rest s) = find_message rest ≡ none
Ends faulted = Unit
Ends out_of_fuel = ⊥

read_loop-Ends :
    (fuel : ℕ) (c : Settings) (buffer : Bytes) (s : FixClientSession)
    → length buffer ≤ fuel
    → Ends (read_loop fuel c buffer s)
read_loop-Ends zero c buffer s h = elim (Option-cases (find_message buffer)) [
  | inl gone ↦
      let e : read_loop 0 c buffer s ≡ read buffer s = unfold read_loop in ground (arith, gone) in
      subst Ends (sym e) gone
  | inr ((pos, end), f) ↦ absurd (omega (arith, h, (find_message-lt buffer pos end f).0))
]
read_loop-Ends (suc fuel) c buffer s h = elim (Option-cases (find_message buffer)) [
  | inl gone ↦
      let e : read_loop (suc fuel) c buffer s ≡ read buffer s =
        unfold read_loop in ground (arith, gone) in
      subst Ends (sym e) gone
  | inr ((pos, end), f) ↦
      let lt = find_message-lt buffer pos end f in
      elim (Option-cases (handle_protocol_message c (substr pos (end - pos) buffer) s)) [
        | inl bad ↦
            let e : read_loop (suc fuel) c buffer s ≡ faulted =
              unfold read_loop in ground (arith, f, bad) in
            subst Ends (sym e) tt
        | inr (s', g) ↦
            let e : read_loop (suc fuel) c buffer s ≡ read_loop fuel c (drop end buffer) s' =
              unfold read_loop in ground (arith, f, g) in
            subst Ends (sym e) (
              read_loop-Ends fuel c (drop end buffer) s'
                (omega (arith, h, lt.0, lt.1, length-drop end buffer)))
      ]
]

-- The loop over what a client has read never runs out of fuel: it ends with an exception, or with a
-- rest of the buffer in which no message is complete.
pub client_do_read-Ends :
    (c : Settings) (buffer arrived : Bytes) (s : FixClientSession)
    → Ends (do_read c buffer arrived s)
unfolding do_read
client_do_read-Ends c buffer arrived s =
    read_loop-Ends (length (buffer ++ arrived)) c (buffer ++ arrived) s (omega arith)
