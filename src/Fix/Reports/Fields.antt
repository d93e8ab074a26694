-- ===== src/Fix/Reports/Fields.antt =====
-- Fields that are printed one after the other are the map that `splitToMap` makes of them.
use beta_trader.Prelude.{
  ◌≡◌, refl, sym, ap, ◌∙◌, ℕ, zero, suc, ◌+◌, ◌-◌, ◌<◌, true, false, some, List, [], ◌∷◌, ◌++◌,
  arith, ltb, ◌==◌, length, length-append, All, u64_mod, insert, append_assoc, append-nil,
}
use beta_trader.Fix.Text.{
  Bytes, soh, all_digits, print, substr, take, drop, find_char, lacks, find_char-append,
  drop-append, take-append, zero_padded,
}
use beta_trader.Fix.Values.{
  TagMap, stoi, stoull, skip_spaces, read_sign, read_digits, leading_digits, to_int, add_token,
  split_tokens, split_to_map,
}
use beta_trader.Fix.Framer.Fields.{
  print-all_digits, value-print, print-nonempty, lacks-print, all_digits-zero_padded,
  value-zero_padded, length-zero_padded,
}
use beta_trader.Fix.Reports.{Field, join}

leading_digits-digits : (s : Bytes) → all_digits s ≡ true → leading_digits s ≡ s
unfolding leading_digits all_digits
leading_digits-digits [] h = refl
leading_digits-digits (c ∷ cs) h = ground (arith, h, leading_digits-digits cs)

-- Digits at the front are neither spaces nor a sign.
skip_spaces-digits : (s : Bytes) → all_digits s ≡ true → skip_spaces s ≡ s
unfolding skip_spaces all_digits
skip_spaces-digits [] h = refl
skip_spaces-digits (c ∷ cs) h = ground (arith, h)

read_sign-digits : (s : Bytes) → all_digits s ≡ true → read_sign s ≡ (false, s)
unfolding read_sign all_digits
read_sign-digits [] h = refl
read_sign-digits (c ∷ cs) h = ground (arith, h)

read_digits-print : (n : ℕ) → n < u64_mod → read_digits (print n) ≡ some n
unfolding read_digits
read_digits-print n h =
    let e = leading_digits-digits (print n) (print-all_digits n) in
    let some' : (length (print n) == 0) ≡ false = print-nonempty n in rw (e, some', value-print n h)

pub stoi-zero_padded : (n : ℕ) → n < 1000 → stoi (zero_padded 3 (print n)) ≡ some n
unfolding stoi to_int read_digits
stoi-zero_padded n h =
    let z = zero_padded 3 (print n) in
    let d : all_digits z ≡ true = all_digits-zero_padded 3 n in
    let e = leading_digits-digits z d in
    let some' : (length z == 0) ≡ false = ground (arith, length-zero_padded n h) in
    let fits : ltb n 2147483648 ≡ true = ground (arith, h) in
    rw (
      skip_spaces-digits z d,
      read_sign-digits z d,
      e,
      some',
      value-zero_padded 3 n (omega (arith, h)),
      fits,
    )

-- Printed numbers are read back.
pub stoull-print : (n : ℕ) → n < u64_mod → stoull (print n) ≡ some n
unfolding stoull
stoull-print n h =
    let fits : ltb n u64_mod ≡ true = ground (arith, h) in
    let d = print-all_digits n in
    rw (skip_spaces-digits (print n) d, read_sign-digits (print n) d, read_digits-print n h, fits)

stoi-print : (n : ℕ) → n < 2147483648 → stoi (print n) ≡ some n
unfolding stoi to_int
stoi-print n h =
    let fits : ltb n 2147483648 ≡ true = ground (arith, h) in
    let d = print-all_digits n in
    rw (
      skip_spaces-digits (print n) d,
      read_sign-digits (print n) d,
      read_digits-print n (omega (arith, h)),
      fits,
    )

find_char-not_digits : (s : Bytes) → all_digits s ≡ true → lacks 61 s ≡ true
unfolding lacks all_digits
find_char-not_digits [] h = refl
find_char-not_digits (c ∷ cs) h = ground (arith, h, find_char-not_digits cs)

take-length : (s : Bytes) (n : ℕ) → length s ≡ n → take n s ≡ s
unfolding take
take-length [] zero h = refl
take-length [] (suc n) h = absurd (omega (arith, h))
take-length (x ∷ xs) zero h = absurd (omega (arith, h))
take-length (x ∷ xs) (suc n) h = ap (λ (t : Bytes). x ∷ t) (take-length xs n (omega (arith, h)))

add_token-field :
    (tag : ℕ) (v : Bytes) (m : TagMap)
    → tag < 2147483648
    → add_token (print tag ++ 61 ∷ v) m ≡ some (insert tag v m)
unfolding add_token
add_token-field tag v m h =
    let d = print tag in
    let token = d ++ 61 ∷ v in
    let at : find_char 61 token ≡ some (length d) =
      find_char-append 61 d v (find_char-not_digits d (print-all_digits tag)) in
    let front : substr 0 (length d) token ≡ d = unfold substr drop in take-append d (61 ∷ v) in
    let l = length-append d (61 ∷ v) in
    let behind : drop (length d + 1) token ≡ v =
      unfold drop in drop-append d (61 ∷ v) 1 (length d + 1) refl in
    let back : substr (length d + 1) (length token - (length d + 1)) token ≡ v =
      unfold substr in
      ap (take (length token - (length d + 1))) behind
      ∙ take-length v (length token - (length d + 1)) (omega (arith, l)) in
    ground (arith, at, front, back, stoi-print tag h)

split_tokens-until :
    (token xs rest : Bytes) (m m' : TagMap)
    → lacks soh xs ≡ true
    → add_token (token ++ xs) m ≡ some m'
    → split_tokens soh token (xs ++ soh ∷ rest) m ≡ split_tokens soh [] rest m'
unfolding split_tokens lacks
split_tokens-until token [] rest m m' h e =
    let e' : add_token token m ≡ some m' =
      ap (λ (t : Bytes). add_token t m) (sym (append-nil token)) ∙ e in
    ground (arith, e')
split_tokens-until token (x ∷ xs) rest m m' h e =
    let other : (x == soh) ≡ false = ground (arith, h) in
    let step : split_tokens soh token (x ∷ (xs ++ soh ∷ rest)) m
        ≡ split_tokens soh (token ++ x ∷ []) (xs ++ soh ∷ rest) m =
      ground (arith, other) in
    step
    ∙ split_tokens-until (token ++ x ∷ []) xs rest m m' (ground (arith, h))
        (ap (λ (t : Bytes). add_token t m) (append_assoc token (x ∷ []) xs) ∙ e)

lacks-append :
    (c : ℕ) (xs ys : Bytes) → lacks c xs ≡ true → lacks c ys ≡ true → lacks c (xs ++ ys) ≡ true
unfolding lacks
lacks-append c [] ys hx hy = hy
lacks-append c (x ∷ xs) ys hx hy = ground (arith, hx, lacks-append c xs ys, hy)

-- A tag that is an `int`, and a value without the delimiter.
abbrev pub IsField : Field → Type 0
IsField (tag, v) = (tag < 2147483648) × (lacks soh v ≡ true)

unfoldable pub insert_all : List Field → TagMap → TagMap
insert_all [] m = m
insert_all ((tag, v) ∷ fields) m = insert_all fields (insert tag v m)

split_tokens-join :
    (fields : List Field) (m : TagMap)
    → All IsField fields
    → split_tokens soh [] (join fields) m ≡ some (insert_all fields m)
unfolding join insert_all
split_tokens-join [] m h = unfold split_tokens in refl
split_tokens-join ((tag, v) ∷ fields) m h =
    let token = print tag ++ 61 ∷ v in
    let clean : lacks soh token ≡ true =
      lacks-append soh (print tag) (61 ∷ v) (lacks-print tag)
        (unfold lacks in ground (arith, h.0.1)) in
    ap (λ s. split_tokens soh [] s m) (sym (append_assoc (print tag) (61 ∷ v) (soh ∷ join fields)))
    ∙ split_tokens-until [] token (join fields) m (insert tag v m) clean
        (add_token-field tag v m h.0.0)
    ∙ split_tokens-join fields (insert tag v m) h.1

pub split_to_map-join :
    (fields : List Field)
    → All IsField fields
    → split_to_map (join fields) soh ≡ some (insert_all fields [])
unfolding split_to_map
split_to_map-join fields h = split_tokens-join fields [] h

pub join-append : (xs ys : List Field) → join (xs ++ ys) ≡ join xs ++ join ys
unfolding join
join-append [] ys = refl
join-append ((tag, v) ∷ xs) ys =
    ap (λ (s : Bytes). print tag ++ (61 ∷ (v ++ (soh ∷ s)))) (join-append xs ys)
    ∙ ap (λ (s : Bytes). print tag ++ (61 ∷ s)) (sym (append_assoc v (soh ∷ join xs) (join ys)))
    ∙ sym (append_assoc (print tag) (61 ∷ (v ++ (soh ∷ join xs))) (join ys))
