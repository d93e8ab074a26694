-- ===== src/Fix/Framer/Stable.antt =====
-- What has been decided about the front of the buffer stays so when more bytes arrive.
use beta_trader.Prelude.{
  ◌≡◌, ◌≢◌, sym, ◌∙◌, ℕ, ◌+◌, ◌-◌, ◌≤◌, ◌<◌, true, false, ◌++◌, arith, ltb, ◌==◌, length,
  length-append, u64_mod, Bool-cases, Option-cases, inl, inr, ◌%◌, refl,
}
use beta_trader.Fix.Text.{
  Bytes, codes, soh, eq_bytes, substr, find_char, find_char_from, substr-more, find_char-more,
  find_char-lt, find_char_from-more, find_char_from-lt,
}
use beta_trader.Fix.Framer.{
  FrameResult, need_more_data, parse_unsigned, check_checksum, check_body_length,
  check_begin_string, extract_next_frame,
}

-- One result with less and with more of the buffer.
abbrev Stays : FrameResult → FrameResult → Type 0
Stays r r' = r ≢ need_more_data → r' ≡ r

-- The boundary of the body is in the buffer, but not the whole of the checksum field.
check_checksum-short :
    (start : ℕ) (s more : Bytes)
    → start + 3 < u64_mod
    → ltb (length s) (start + 3) ≡ false
    → ltb (length s) (start + 7) ≡ true
    → Stays (check_checksum start s) (check_checksum start (s ++ more))
unfolding check_checksum
check_checksum-short start s more fit h3 h7 h =
    let w : (start + 3) % u64_mod ≡ start + 3 = omega (arith, fit) in
    let w' : ltb (start + 3) u64_mod ≡ true = ground (arith, fit) in
    let e = substr-more start 3 s more (ground (arith, h3)) in
    elim (Bool-cases (eq_bytes (substr start 3 s) (codes "10="))) [
      | inl same ↦ absurd (h (rw (w, w', h3, same, h7)))
      | inr other ↦
          let t3 : ltb (length (s ++ more)) (start + 3) ≡ false =
            ground (arith, length-append s more, h3) in
          rw (w, w', h3, t3, e, other)
    ]

check_checksum-long :
    (start : ℕ) (s more : Bytes)
    → start + 3 < u64_mod
    → ltb (length s) (start + 3) ≡ false
    → ltb (length s) (start + 7) ≡ false
    → check_checksum start (s ++ more) ≡ check_checksum start s
unfolding check_checksum
check_checksum-long start s more fit h3 h7 =
    let w : (start + 3) % u64_mod ≡ start + 3 = omega (arith, fit) in
    let w' : ltb (start + 3) u64_mod ≡ true = ground (arith, fit) in
    let t3 : ltb (length (s ++ more)) (start + 3) ≡ false =
      ground (arith, length-append s more, h3) in
    let t7 : ltb (length (s ++ more)) (start + 7) ≡ false =
      ground (arith, length-append s more, h7) in
    let e3 = substr-more start 3 s more (ground (arith, h3)) in
    let e6 = substr-more (start + 3) 3 s more (ground (arith, h7)) in
    let e1 = substr-more (start + 6) 1 s more (ground (arith, h7)) in
    let e0 = substr-more 0 start s more (ground (arith, h7)) in
    let e7 = substr-more 0 (start + 7) s more (ground (arith, h7)) in
    elim (Option-cases (parse_unsigned (substr (start + 3) 3 s))) [
      | inl bad ↦ rw (w, w', h3, h7, t3, t7, e3, e6, bad)
      | inr (n, p) ↦ rw (w, w', h3, h7, t3, t7, e3, e6, p, e1, e0, e7)
    ]

check_checksum-Stays :
    (start : ℕ) (s more : Bytes) → Stays (check_checksum start s) (check_checksum start (s ++ more))
check_checksum-Stays start s more h = elim (Bool-cases (ltb (length s) ((start + 3) % u64_mod))) [
  | inl short ↦ absurd (h (unfold check_checksum in rw short refl))
  | inr h3 ↦ elim (Bool-cases (ltb (start + 3) u64_mod)) [
    | inr wraps ↦
        let t3 : ltb (length (s ++ more)) ((start + 3) % u64_mod) ≡ false =
          ground (arith, length-append s more, h3) in
        unfold check_checksum in rw (h3, t3, wraps)
    | inl fit ↦
        let fit' : start + 3 < u64_mod = ground (arith, fit) in
        let k3 : ltb (length s) (start + 3) ≡ false = ground (arith, h3, fit') in
        elim (Bool-cases (ltb (length s) (start + 7))) [
          | inl h7 ↦ check_checksum-short start s more fit' k3 h7 h
          | inr h7 ↦ check_checksum-long start s more fit' k3 h7
        ]
  ]
]

check_body_length-Stays :
    (start end : ℕ) (s more : Bytes)
    → start + 2 ≤ end
    → end < length s
    → Stays (check_body_length start end s) (check_body_length start end (s ++ more))
unfolding check_body_length
check_body_length-Stays start end s more le lt h =
    let e = substr-more (start + 2) (end - start - 2) s more (omega (arith, le, lt)) in
    elim (Option-cases (parse_unsigned (substr (start + 2) (end - start - 2) s))) [
      | inl bad ↦ ground (arith, e, bad)
      | inr (n, p) ↦ elim (Bool-cases (ltb (u64_mod - 1 - (end + 1)) n)) [
        | inl over ↦ ground (arith, e, p, over)
        | inr fits ↦
            let keep : check_body_length start end s ≡ check_checksum (end + 1 + n) s =
              ground (arith, p, fits) in
            let keep' : check_body_length start end (s ++ more)
                ≡ check_checksum (end + 1 + n) (s ++ more) =
              ground (arith, e, p, fits) in
            keep' ∙ check_checksum-Stays (end + 1 + n) s more (λ k. h (keep ∙ k)) ∙ sym keep
      ]
    ]

check_begin_string-Stays :
    (end : ℕ) (s more : Bytes)
    → end < length s
    → Stays (check_begin_string end s) (check_begin_string end (s ++ more))
unfolding check_begin_string
check_begin_string-Stays end s more lt h =
    let e = substr-more 0 end s more (omega (arith, lt)) in
    let l = length-append s more in
    elim (Bool-cases (eq_bytes (substr 0 end s) (codes "8=FIX.4.4"))) [
      | inr other ↦ rw (e, other)
      | inl same ↦ elim (Bool-cases (ltb (length s) (end + 1 + 2))) [
        | inl short ↦ absurd (h (rw (same, short)))
        | inr room ↦
            let room' : ltb (length (s ++ more)) (end + 1 + 2) ≡ false = ground (arith, l, room) in
            let e2 = substr-more (end + 1) 2 s more (ground (arith, room)) in
            elim (Bool-cases (eq_bytes (substr (end + 1) 2 s) (codes "9="))) [
              | inr other ↦ rw (e, e2, same, room, room', other)
              | inl tag ↦ elim (Option-cases (find_char_from soh (end + 1 + 2) s)) [
                | inl gone ↦ absurd (h (rw (same, room, tag, gone)))
                | inr (n, f) ↦
                    let f' =
                      find_char_from-more soh (end + 1 + 2) n s more (ground (arith, room)) f in
                    let at = find_char_from-lt soh (end + 1 + 2) n s f in
                    let keep : check_begin_string end s ≡ check_body_length (end + 1) n s =
                      rw (same, room, tag, f) in
                    rw (e, e2, same, room, room', tag, f, f')
                      (check_body_length-Stays (end + 1) n s more (omega (arith, at.1)) at.0
                        (λ k. h (keep ∙ k)))
              ]
            ]
      ]
    ]

-- When a buffer is enough for a frame, for the finding that it is malformed, or for an exception,
-- the result is the same with more bytes behind it.
pub extract_next_frame-append :
    (s more : Bytes)
    → extract_next_frame s ≢ need_more_data
    → extract_next_frame (s ++ more) ≡ extract_next_frame s
unfolding extract_next_frame
extract_next_frame-append s more h =
    let l = length-append s more in
    elim (Bool-cases (ltb (length s) 2)) [
      | inl short ↦ absurd (h (ground (arith, short)))
      | inr room ↦
          let e = substr-more 0 2 s more (ground (arith, room)) in
          let some' : (length s == 0) ≡ false = ground (arith, room) in
          let some'' : (length (s ++ more) == 0) ≡ false = ground (arith, l, room) in
          let room' : ltb (length (s ++ more)) 2 ≡ false = ground (arith, l, room) in
          elim (Bool-cases (eq_bytes (substr 0 2 s) (codes "8="))) [
            | inr other ↦ rw (some', some'', room, room', e, other)
            | inl same ↦ elim (Option-cases (find_char soh s)) [
              | inl gone ↦ absurd (h (rw (some', room, same, gone)))
              | inr (n, f) ↦
                  let f' = find_char-more soh n s more f in
                  let keep : extract_next_frame s ≡ check_begin_string n s =
                    rw (some', room, same, f) in
                  rw (some', some'', room, room', e, same, f, f')
                    (check_begin_string-Stays n s more (find_char-lt soh n s f) (λ k. h (keep ∙ k)))
            ]
          ]
    ]
