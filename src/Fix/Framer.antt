-- ===== src/Fix/Framer.antt =====
-- exchange/exchange_fix/src/FixMessageFramer.cpp: one frame off the front of a receive buffer. The
-- stages are those of `extractNextFrame`, one for each field that it reads.
pub mod Fields
pub mod Stable
pub mod RoundTrip
pub mod Prefix
use beta_trader.Prelude.{
  ℕ, ◌+◌, ◌-◌, ◌%◌, Bool, true, false, ◌&&◌, not, Option, none, some, List, [], ◌∷◌, ltb, ◌==◌,
  if◌then◌else◌, length, u64_mod,
}
use beta_trader.Fix.Text.{
  Bytes, codes, soh, eq_bytes, substr, find_char, find_char_from, all_digits, value,
}

-- `FrameResult`; `throws` is the `std::out_of_range` that leaves `extractNextFrame`.
pub data FrameResult : Type 0 where
  need_more_data : FrameResult
  complete : (consumed : ℕ) (frame : Bytes) → FrameResult
  malformed : (error : Bytes) → FrameResult
  throws : FrameResult

-- `from_chars` fails on what is out of range.
unfoldable pub parse_unsigned : Bytes → Option ℕ
unfolding all_digits value
parse_unsigned [] = none
parse_unsigned (c ∷ cs) =
    if all_digits (c ∷ cs)
    then if ltb (value 0 (c ∷ cs)) u64_mod then some (value 0 (c ∷ cs)) else none
    else none

unfoldable pub sum : Bytes → ℕ
sum [] = 0
sum (c ∷ cs) = c + sum cs

unfoldable pub checksum : Bytes → ℕ
unfolding sum
checksum s = sum s % 256

-- `checksumStart` is known. `checksumStart + 3` wraps around: then `checksumStart` is behind the end
-- of every buffer that there can be, and `substr` throws. Otherwise `checksumStart + 3` is in the
-- buffer, so that `checksumStart + 7` does not wrap around.
unfoldable pub check_checksum : ℕ → Bytes → FrameResult
unfolding substr eq_bytes parse_unsigned checksum
check_checksum start buffer =
    if ltb (length buffer) ((start + 3) % u64_mod)
    then need_more_data
    else if not (ltb (start + 3) u64_mod)
    then throws
    else if not (eq_bytes (substr start 3 buffer) (codes "10="))
    then malformed (codes "FIX checksum field is not at the BodyLength boundary")
    else if ltb (length buffer) (start + 7)
    then need_more_data
    else elim (parse_unsigned (substr (start + 3) 3 buffer)) [
      | none ↦ malformed (codes "FIX checksum field is malformed")
      | some expected ↦
          if not (eq_bytes (substr (start + 6) 1 buffer) (soh ∷ []))
          then malformed (codes "FIX checksum field is malformed")
          else if not (checksum (substr 0 start buffer) == expected)
          then malformed (codes "FIX checksum validation failed")
          else complete (start + 7) (substr 0 (start + 7) buffer)
    ]

-- `bodyLengthStart` and `bodyLengthEnd` are known.
unfoldable pub check_body_length : ℕ → ℕ → Bytes → FrameResult
unfolding substr parse_unsigned check_checksum
check_body_length start end buffer =
    elim (parse_unsigned (substr (start + 2) (end - start - 2) buffer)) [
      | none ↦ malformed (codes "FIX BodyLength is not an unsigned decimal value")
      | some body_length ↦
          if ltb (u64_mod - 1 - (end + 1)) body_length
          then malformed (codes "FIX BodyLength overflows the receive buffer")
          else check_checksum (end + 1 + body_length) buffer
    ]

-- `beginStringEnd` is known.
unfoldable pub check_begin_string : ℕ → Bytes → FrameResult
unfolding substr eq_bytes find_char_from check_body_length
check_begin_string end buffer =
    if not (eq_bytes (substr 0 end buffer) (codes "8=FIX.4.4"))
    then malformed (codes "unsupported FIX BeginString")
    else if ltb (length buffer) (end + 1 + 2)
    then need_more_data
    else if not (eq_bytes (substr (end + 1) 2 buffer) (codes "9="))
    then malformed (codes "FIX frame is missing BodyLength (Tag 9)")
    else elim (find_char_from soh (end + 1 + 2) buffer) [
      | none ↦ need_more_data
      | some body_length_end ↦ check_body_length (end + 1) body_length_end buffer
    ]

unfoldable pub extract_next_frame : Bytes → FrameResult
unfolding substr eq_bytes find_char check_begin_string
extract_next_frame buffer =
    if length buffer == 0
    then need_more_data
    else if ltb (length buffer) 2
    then need_more_data
    else if not (eq_bytes (substr 0 2 buffer) (codes "8="))
    then malformed (codes "FIX frame must start with BeginString (Tag 8)")
    else elim (find_char soh buffer) [
      | none ↦ need_more_data
      | some end ↦ check_begin_string end buffer
    ]
