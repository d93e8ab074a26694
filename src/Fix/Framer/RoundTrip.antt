-- ===== src/Fix/Framer/RoundTrip.antt =====
-- The framer takes a message of the builder off the front of the buffer.
use beta_trader.Prelude.{
  ◌≡◌, refl, sym, ap, ◌∙◌, subst, ℕ, ◌+◌, ◌-◌, ◌≤◌, ◌<◌, true, false, some, [], ◌∷◌, ◌++◌, arith,
  ltb, ◌==◌, length, length-append, u64_mod, append_assoc, All, ◌%◌,
}
use beta_trader.Fix.Text.{
  Bytes, codes, soh, drop, take, substr, find_char, find_char_from, print, zero_padded, lacks,
  drop-append, take-append, find_char-append,
}
use beta_trader.Fix.Builder.{
  header_and_body, before_checksum, with_checksum, build_message, print_checksum, positive_sum,
  negative_sum,
}
use beta_trader.Fix.Framer.{
  complete, parse_unsigned, checksum, check_checksum, check_body_length, check_begin_string,
  extract_next_frame,
}
use beta_trader.Fix.Framer.Fields.{
  parse_unsigned-print, lacks-print, length-zero_padded, parse_unsigned-zero_padded,
  print_checksum-checksum, checksum-lt,
}

substr-front : (xs ys : Bytes) (n : ℕ) → length xs ≡ n → substr 0 n (xs ++ ys) ≡ xs
unfolding substr drop
substr-front xs ys n h = subst (λ k. take k (xs ++ ys) ≡ xs) h (take-append xs ys)

substr-behind :
    (xs ys : Bytes) (k from count : ℕ)
    → length xs + k ≡ from
    → substr from count (xs ++ ys) ≡ substr k count ys
unfolding substr
substr-behind xs ys k from count h = ap (take count) (drop-append xs ys k from h)

-- A text of three bytes, the way it stands in a list.
three : (s : Bytes) → length s ≡ 3 → (a : ℕ) × (b : ℕ) × (c : ℕ) × (s ≡ a ∷ b ∷ c ∷ [])
three [] h = absurd (omega (arith, h))
three (a ∷ []) h = absurd (omega (arith, h))
three (a ∷ b ∷ []) h = absurd (omega (arith, h))
three (a ∷ b ∷ c ∷ []) h = (a, b, c, refl)
three (a ∷ b ∷ c ∷ d ∷ s) h = absurd (omega (arith, h))

abbrev checksum_field : ℕ → ℕ → ℕ → Bytes → Bytes
checksum_field a b c rest = 49 ∷ 48 ∷ 61 ∷ a ∷ b ∷ c ∷ soh ∷ rest

check_checksum-field :
    (s rest : Bytes) (start a b c : ℕ)
    → length s ≡ start
    → start + 7 < u64_mod
    → parse_unsigned (a ∷ b ∷ c ∷ []) ≡ some (checksum s)
    → check_checksum start (s ++ checksum_field a b c rest)
      ≡ complete (start + 7) (s ++ checksum_field a b c [])
unfolding check_checksum
check_checksum-field s rest start a b c hl fit p =
    let w : (start + 3) % u64_mod ≡ start + 3 = omega (arith, fit) in
    let w' : ltb (start + 3) u64_mod ≡ true = ground (arith, fit) in
    let tail = checksum_field a b c rest in
    let whole = s ++ checksum_field a b c [] in
    let l = length-append s tail in
    let e0 = substr-front s tail start hl in
    let e3 : substr start 3 (s ++ tail) ≡ codes "10=" =
      unfold substr take drop in substr-behind s tail 0 start 3 (omega (arith, hl)) in
    let e6 : substr (start + 3) 3 (s ++ tail) ≡ a ∷ b ∷ c ∷ [] =
      unfold substr take drop in substr-behind s tail 3 (start + 3) 3 (omega (arith, hl)) in
    let e1 : substr (start + 6) 1 (s ++ tail) ≡ soh ∷ [] =
      unfold substr take drop in substr-behind s tail 6 (start + 6) 1 (omega (arith, hl)) in
    let lw = length-append s (checksum_field a b c []) in
    let e7 : substr 0 (start + 7) (s ++ tail) ≡ whole =
      ap (substr 0 (start + 7)) (sym (append_assoc s (checksum_field a b c []) rest))
      ∙ substr-front whole rest (start + 7) (omega (arith, lw, hl)) in
    let t3 : ltb (length (s ++ tail)) (start + 3) ≡ false = ground (arith, l, hl) in
    let t7 : ltb (length (s ++ tail)) (start + 7) ≡ false = ground (arith, l, hl) in
    let same : (checksum s == checksum s) ≡ true = ground arith in
    rw (w, w', t3, t7, e3, e6, p, e1, e0, same, e7)

-- The checksum field with the checksum of what stands before it.
check_checksum-complete :
    (s digits rest : Bytes) (start : ℕ)
    → length s ≡ start
    → start + 7 < u64_mod
    → length digits ≡ 3
    → parse_unsigned digits ≡ some (checksum s)
    → check_checksum start (s ++ (codes "10=" ++ (digits ++ soh ∷ rest)))
      ≡ complete (start + 7) (s ++ (codes "10=" ++ (digits ++ soh ∷ [])))
check_checksum-complete s digits rest start hl fit h3 hp =
    let (a, b, c, e) = three digits h3 in
    subst
      (λ ds.
        check_checksum start (s ++ (codes "10=" ++ (ds ++ soh ∷ rest)))
        ≡ complete (start + 7) (s ++ (codes "10=" ++ (ds ++ soh ∷ []))))
      (sym e)
      (check_checksum-field s rest start a b c hl fit
        (subst (λ ds. parse_unsigned ds ≡ some (checksum s)) e hp))

abbrev framed : Bytes → Bytes → Bytes
framed digits body = codes "8=FIX.4.4" ++ (soh ∷ codes "9=" ++ (digits ++ soh ∷ body))

-- The stages, when the field that each of them reads is right.
extract_next_frame-begins :
    (s : Bytes) (end : ℕ)
    → ltb (length s) 2 ≡ false
    → substr 0 2 s ≡ codes "8="
    → find_char soh s ≡ some end
    → extract_next_frame s ≡ check_begin_string end s
unfolding extract_next_frame
extract_next_frame-begins s end h e f =
    let some' : (length s == 0) ≡ false = ground (arith, h) in rw (some', h, e, f)

check_begin_string-goes_on :
    (s : Bytes) (end n : ℕ)
    → substr 0 end s ≡ codes "8=FIX.4.4"
    → ltb (length s) (end + 1 + 2) ≡ false
    → substr (end + 1) 2 s ≡ codes "9="
    → find_char_from soh (end + 1 + 2) s ≡ some n
    → check_begin_string end s ≡ check_body_length (end + 1) n s
unfolding check_begin_string
check_begin_string-goes_on s end n e h t f = rw (e, h, t, f)

check_body_length-goes_on :
    (s digits : Bytes) (start end n : ℕ)
    → substr (start + 2) (end - start - 2) s ≡ digits
    → parse_unsigned digits ≡ some n
    → end + 1 + n < u64_mod
    → check_body_length start end s ≡ check_checksum (end + 1 + n) s
unfolding check_body_length
check_body_length-goes_on s digits start end n e p h =
    let over : ltb (u64_mod - 1 - (end + 1)) n ≡ false = ground (arith, h) in
    ground (arith, e, p, over)

framed-digits :
    (body digits : Bytes) → substr 12 (12 + length digits - 10 - 2) (framed digits body) ≡ digits
unfolding substr drop
framed-digits body digits =
    let count : length digits ≡ 12 + length digits - 10 - 2 = omega arith in
    subst (λ k. take k (digits ++ soh ∷ body) ≡ digits) count (take-append digits (soh ∷ body))

framed-find :
    (body digits : Bytes)
    → lacks soh digits ≡ true
    → find_char_from soh 12 (framed digits body) ≡ some (12 + length digits)
unfolding find_char_from drop
framed-find body digits hs = ground (arith, find_char-append soh digits body hs)

-- The first two fields, up to the checksum at the end of the body.
extract_next_frame-framed :
    (body digits : Bytes) (n : ℕ)
    → lacks soh digits ≡ true
    → parse_unsigned digits ≡ some n
    → 12 + length digits + 1 + n < u64_mod
    → extract_next_frame (framed digits body)
      ≡ check_checksum (12 + length digits + 1 + n) (framed digits body)
extract_next_frame-framed body digits n hs hp bound =
    let s = framed digits body in
    extract_next_frame-begins s 9 (ground arith) (unfold substr take drop in refl)
      (unfold find_char in refl)
    ∙ check_begin_string-goes_on s 9 (12 + length digits) (unfold substr take drop in refl)
        (ground arith) (unfold substr take drop in refl) (framed-find body digits hs)
    ∙ check_body_length-goes_on s digits 10 (12 + length digits) n (framed-digits body digits) hp
        bound

framed-append : (digits body t : Bytes) → framed digits body ++ t ≡ framed digits (body ++ t)
framed-append digits body t =
    ap (λ (x : Bytes). codes "8=FIX.4.4" ++ (soh ∷ codes "9=" ++ x))
      (append_assoc digits (soh ∷ body) t)

-- A checksum behind a framed body, with three digits that are read back.
extract_next_frame-checked :
    (body digits check rest : Bytes)
    → lacks soh digits ≡ true
    → parse_unsigned digits ≡ some (length body)
    → length check ≡ 3
    → parse_unsigned check ≡ some (checksum (framed digits body))
    → length (framed digits body) + 7 < u64_mod
    → extract_next_frame (framed digits body ++ (codes "10=" ++ (check ++ soh ∷ rest)))
      ≡ complete
          (length (framed digits body) + 7)
          (framed digits body ++ (codes "10=" ++ (check ++ soh ∷ [])))
extract_next_frame-checked body digits check rest hs hp h3 hc bound =
    let tail = codes "10=" ++ (check ++ soh ∷ rest) in
    let s = framed digits body in
    let l : 12 + length digits + 1 + length body ≡ length s =
      omega (arith, length-append digits (soh ∷ body)) in
    ap extract_next_frame (framed-append digits body tail)
    ∙ extract_next_frame-framed (body ++ tail) digits (length body) hs hp (omega (arith, l, bound))
    ∙ ap (λ k. check_checksum k (framed digits (body ++ tail))) l
    ∙ ap (check_checksum (length s)) (sym (framed-append digits body tail))
    ∙ check_checksum-complete s check rest (length s) refl bound h3 hc

-- A byte.
abbrev pub IsByte : ℕ → Type 0
IsByte c = c < 256

with_checksum-append :
    (s rest : Bytes)
    → with_checksum s ++ rest
      ≡ s ++ (codes "10=" ++ (zero_padded 3 (print_checksum s) ++ soh ∷ rest))
unfolding with_checksum
with_checksum-append s rest =
    append_assoc s (codes "10=" ++ (zero_padded 3 (print_checksum s) ++ soh ∷ [])) rest
    ∙ ap (λ (x : Bytes). s ++ (codes "10=" ++ x))
        (append_assoc (zero_padded 3 (print_checksum s)) (soh ∷ []) rest)

extract_next_frame-with_checksum :
    (body rest : Bytes)
    → let s = framed (print (length body)) body in
      All IsByte s
      → negative_sum s ≤ positive_sum s
      → length (with_checksum s) < u64_mod
      → extract_next_frame (with_checksum s ++ rest)
        ≡ complete (length (with_checksum s)) (with_checksum s)
unfolding with_checksum
extract_next_frame-with_checksum body rest bytes sign bound =
    let digits = print (length body) in
    let s = framed digits body in
    let c = checksum s in
    let lt = checksum-lt s in
    let check = zero_padded 3 (print_checksum s) in
    let e : check ≡ zero_padded 3 (print c) =
      ap (zero_padded 3) (print_checksum-checksum s bytes sign) in
    let h3 : length check ≡ 3 = ap length e ∙ length-zero_padded c (omega (arith, lt)) in
    let hc : parse_unsigned check ≡ some c =
      ap parse_unsigned e ∙ parse_unsigned-zero_padded c (omega (arith, lt)) in
    let l = length-append s (codes "10=" ++ (check ++ soh ∷ [])) in
    let lc = length-append check (soh ∷ []) in
    let ls = length-append digits (soh ∷ body) in
    ap extract_next_frame (with_checksum-append s rest)
    ∙ extract_next_frame-checked body digits check rest (lacks-print (length body))
        (parse_unsigned-print (length body) (omega (arith, bound, l, lc, ls))) h3 hc
        (omega (arith, bound, l, lc, h3))
    ∙ ap (λ k. complete k (with_checksum s)) (omega (arith, l, lc, h3))

-- A message of the builder is taken whole off the front of the buffer, whatever its fields contain
-- and whatever follows it, if what stands before its checksum are bytes of which the sum as signed
-- characters is not negative, and its length is below 2^64.
pub extract_next_frame-build_message :
    (time sender target : Bytes) (seq : ℕ) (type body rest : Bytes)
    → let s = before_checksum (header_and_body time sender target seq type body) in
      let message = build_message time sender target seq type body in
      All IsByte s
      → negative_sum s ≤ positive_sum s
      → length message < u64_mod
      → extract_next_frame (message ++ rest) ≡ complete (length message) message
unfolding build_message before_checksum
extract_next_frame-build_message time sender target seq type body rest =
    extract_next_frame-with_checksum (header_and_body time sender target seq type body) rest
