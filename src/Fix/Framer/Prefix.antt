-- ===== src/Fix/Framer/Prefix.antt =====
-- What is cut off, and that a message that has only arrived in part is waited for.
use beta_trader.Prelude.{
  ◌≡◌, refl, sym, ap, ◌∙◌, subst, ℕ, ◌+◌, ◌-◌, ◌≤◌, ◌<◌, false, [], ◌++◌, arith, ltb, ◌==◌, length,
  length-append, u64_mod, Bool-cases, Option-cases, inl, inr, append-nil, All,
}
use beta_trader.Fix.Text.{Bytes, codes, soh, eq_bytes, substr, find_char, find_char_from}
use beta_trader.Fix.Builder.{
  header_and_body, before_checksum, build_message, positive_sum, negative_sum,
}
use beta_trader.Fix.Framer.{
  FrameResult, need_more_data, complete, malformed, parse_unsigned, check_checksum,
  check_body_length, check_begin_string, extract_next_frame, throws,
}
use beta_trader.Fix.Framer.Stable.{extract_next_frame-append}
use beta_trader.Fix.Framer.RoundTrip.{IsByte, extract_next_frame-build_message}

-- A complete frame is not empty, lies in the buffer, and is the front of it.
abbrev pub CutsOff : Bytes → FrameResult → Type 0
CutsOff s need_more_data = Unit
CutsOff s (complete k frame) = (0 < k) × (k ≤ length s) × (frame ≡ substr 0 k s)
CutsOff s (malformed e) = Unit
CutsOff s throws = Unit

check_checksum-CutsOff : (start : ℕ) (s : Bytes) → CutsOff s (check_checksum start s)
unfolding check_checksum
check_checksum-CutsOff start s = elim (Bool-cases (ltb (length s) (start + 7))) [
  | inl short ↦ ground (arith, short)
  | inr long ↦ elim (Option-cases (parse_unsigned (substr (start + 3) 3 s))) [
    | inl bad ↦ ground (arith, long, bad)
    | inr (n, p) ↦ ground (arith, long, p)
  ]
]

check_body_length-CutsOff : (start end : ℕ) (s : Bytes) → CutsOff s (check_body_length start end s)
unfolding check_body_length
check_body_length-CutsOff start end s =
    elim (Option-cases (parse_unsigned (substr (start + 2) (end - start - 2) s))) [
      | inl bad ↦ ground (arith, bad)
      | inr (n, p) ↦ elim (Bool-cases (ltb (u64_mod - 1 - (end + 1)) n)) [
        | inl over ↦ ground (arith, p, over)
        | inr fits ↦
            let e : check_body_length start end s ≡ check_checksum (end + 1 + n) s =
              ground (arith, p, fits) in
            subst (CutsOff s) (sym e) (check_checksum-CutsOff (end + 1 + n) s)
      ]
    ]

check_begin_string-CutsOff : (end : ℕ) (s : Bytes) → CutsOff s (check_begin_string end s)
unfolding check_begin_string
check_begin_string-CutsOff end s =
    elim (Bool-cases (eq_bytes (substr 0 end s) (codes "8=FIX.4.4"))) [
      | inr other ↦ rw other tt
      | inl same ↦ elim (Bool-cases (ltb (length s) (end + 1 + 2))) [
        | inl short ↦ rw (same, short) tt
        | inr room ↦ elim (Bool-cases (eq_bytes (substr (end + 1) 2 s) (codes "9="))) [
          | inr other ↦ rw (same, room, other) tt
          | inl tag ↦ elim (Option-cases (find_char_from soh (end + 1 + 2) s)) [
            | inl gone ↦ rw (same, room, tag, gone) tt
            | inr (n, f) ↦ rw (same, room, tag, f) (check_body_length-CutsOff (end + 1) n s)
          ]
        ]
      ]
    ]

pub extract_next_frame-CutsOff : (s : Bytes) → CutsOff s (extract_next_frame s)
unfolding extract_next_frame
extract_next_frame-CutsOff s = elim (Bool-cases (ltb (length s) 2)) [
  | inl short ↦ elim (Bool-cases (length s == 0)) [
    | inl empty ↦ rw empty tt
    | inr some' ↦ rw (some', short) tt
  ]
  | inr room ↦
      let some' : (length s == 0) ≡ false = ground (arith, room) in
      elim (Bool-cases (eq_bytes (substr 0 2 s) (codes "8="))) [
        | inr other ↦ rw (some', room, other) tt
        | inl same ↦ elim (Option-cases (find_char soh s)) [
          | inl gone ↦ rw (some', room, same, gone) tt
          | inr (n, f) ↦ rw (some', room, same, f) (check_begin_string-CutsOff n s)
        ]
      ]
]

-- What is found for a part of the buffer is more to come, or a frame that lies in this part.
part :
    (s more message : Bytes) (r : FrameResult)
    → extract_next_frame s ≡ r
    → extract_next_frame (s ++ more) ≡ complete (length (s ++ more)) message
    → 0 < length more
    → extract_next_frame s ≡ need_more_data
part s more message need_more_data e h lt = e
part s more message (malformed t) e h lt =
    absurd (ground (arith, e, h, extract_next_frame-append s more (λ k. ground (arith, e, k))))
part s more message throws e h lt =
    absurd (ground (arith, e, h, extract_next_frame-append s more (λ k. ground (arith, e, k))))
part s more message (complete k frame) e h lt =
    let c : CutsOff s (complete k frame) = subst (CutsOff s) e (extract_next_frame-CutsOff s) in
    absurd (
      ground (
        arith,
        e,
        h,
        c.1,
        lt,
        length-append s more,
        extract_next_frame-append s more (λ x. ground (arith, e, x)),
      ))

-- When a message of the builder has arrived but for at least one byte, the framer waits for more
-- data, if what stands before its checksum are bytes of which the sum as signed characters is not
-- negative, and the length of the message is below 2^64.
pub extract_next_frame-part :
    (time sender target : Bytes) (seq : ℕ) (type body s more : Bytes)
    → let front = before_checksum (header_and_body time sender target seq type body) in
      s ++ more ≡ build_message time sender target seq type body
      → 0 < length more
      → All IsByte front
      → negative_sum front ≤ positive_sum front
      → length (s ++ more) < u64_mod
      → extract_next_frame s ≡ need_more_data
extract_next_frame-part time sender target seq type body s more e lt bytes sign bound =
    let message = build_message time sender target seq type body in
    part s more message (extract_next_frame s) refl
      (ap extract_next_frame (e ∙ sym (append-nil message))
        ∙ extract_next_frame-build_message time sender target seq type body [] bytes sign
            (subst (λ x. length x < u64_mod) e bound)
        ∙ ap (λ (x : Bytes). complete (length x) message) (sym e))
      lt
