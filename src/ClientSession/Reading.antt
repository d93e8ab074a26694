-- ===== src/ClientSession/Reading.antt =====
-- `doRead` of client/client_fix/src/FixClientSession.cpp: the loop over the buffer.
use beta_trader.Prelude.{
  ℕ, zero, suc, ◌+◌, ◌-◌, Option, none, some, ◌∷◌, ◌++◌, ltb, if◌then◌else◌, length,
}
use beta_trader.Fix.Text.{
  Bytes, codes, soh, drop, substr, find_text, find_text_from, find_char_from,
}
use beta_trader.ClientSession.{Settings, FixClientSession, handle_protocol_message}

-- The first of the two beginnings.
unfoldable pub find_message_start : Bytes → Option ℕ
unfolding find_text
find_message_start buffer = elim (find_text (codes "8=FIX.4.4" ++ soh ∷ codes "9=") buffer) [
  | none ↦ find_text (codes "8=FIXT.1.1" ++ soh ∷ codes "9=") buffer
  | some a ↦ elim (find_text (codes "8=FIXT.1.1" ++ soh ∷ codes "9=") buffer) [
    | none ↦ some a
    | some b ↦ some (if ltb b a then b else a)
  ]
]

-- Where the first message begins, and the end of it.
unfoldable pub find_message : Bytes → Option (ℕ × ℕ)
unfolding find_message_start find_text_from find_char_from
find_message buffer = elim (find_message_start buffer) [
  | none ↦ none
  | some pos ↦ elim (find_text_from pos (codes "10=") buffer) [
    | none ↦ none
    | some checksum_at ↦ elim (find_char_from soh checksum_at buffer) [
      | none ↦ none
      | some end ↦ some (pos, end + 1)
    ]
  ]
]

pub data ClientReading : Type 0 where
  read : Bytes → FixClientSession → ClientReading
  faulted : ClientReading
  out_of_fuel : ClientReading

unfoldable pub read_loop : ℕ → Settings → Bytes → FixClientSession → ClientReading
unfolding find_message substr drop handle_protocol_message
read_loop zero c buffer s = elim (find_message buffer) [
  | none ↦ read buffer s
  | some (pos, end) ↦ out_of_fuel
]
read_loop (suc fuel) c buffer s = elim (find_message buffer) [
  | none ↦ read buffer s
  | some (pos, end) ↦ elim (handle_protocol_message c (substr pos (end - pos) buffer) s) [
    | none ↦ faulted
    | some s' ↦ read_loop fuel c (drop end buffer) s'
  ]
]

-- The buffer, with what has arrived: each message takes at least one byte off it.
unfoldable pub do_read : Settings → Bytes → Bytes → FixClientSession → ClientReading
unfolding read_loop
do_read c buffer arrived s = read_loop (length (buffer ++ arrived)) c (buffer ++ arrived) s
