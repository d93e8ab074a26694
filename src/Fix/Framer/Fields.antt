-- ===== src/Fix/Framer/Fields.antt =====
-- Numbers and checksums that the builder prints and the framer reads.
use beta_trader.Prelude.{
  ◌≡◌, refl, ap, ◌∙◌, ℕ, zero, suc, ◌+◌, ◌-◌, ◌*◌, ◌/◌, ◌%◌, ◌≤◌, ◌<◌, true, some, [], ◌∷◌, ◌++◌,
  arith, ltb, if◌then◌else◌, length, length-append, u64_mod, All, Bool-cases, inl, inr, ◌≢◌, ◌==◌,
  false,
}
use beta_trader.Fix.Text.{Bytes, soh, all_digits, value, digits, print, repeat, zero_padded, lacks}
use beta_trader.Fix.Builder.{positive_sum, negative_sum, print_checksum}
use beta_trader.Fix.Framer.{parse_unsigned, sum, checksum}

abbrev pow10 : ℕ → ℕ
pow10 zero = 1
pow10 (suc k) = 10 * pow10 k

value-append : (n : ℕ) (xs ys : Bytes) → value n (xs ++ ys) ≡ value (value n xs) ys
unfolding value
value-append n [] ys = refl
value-append n (x ∷ xs) ys = value-append (10 * n + (x - 48)) xs ys

all_digits-append :
    (xs ys : Bytes) → all_digits xs ≡ true → all_digits ys ≡ true → all_digits (xs ++ ys) ≡ true
unfolding all_digits
all_digits-append [] ys hx hy = hy
all_digits-append (x ∷ xs) ys hx hy = ground (arith, hx, all_digits-append xs ys, hy)

value-digits : (f n : ℕ) → n < pow10 f → value 0 (digits f n) ≡ n
unfolding value digits
value-digits zero n h = omega (arith, h)
value-digits (suc f) n h = elim (Bool-cases (ltb n 10)) [
  | inl small ↦ ground (arith, small)
  | inr large ↦ ground (
    arith,
    large,
    value-append 0 (digits f (n / 10)) ((48 + n % 10) ∷ []),
    value-digits f (n / 10) (omega (arith, h)),
  )
]

all_digits-digits : (f n : ℕ) → all_digits (digits f n) ≡ true
unfolding all_digits digits
all_digits-digits zero n = refl
all_digits-digits (suc f) n = elim (Bool-cases (ltb n 10)) [
  | inl small ↦ ground (arith, small)
  | inr large ↦ ground (
    arith,
    large,
    all_digits-append (digits f (n / 10)) ((48 + n % 10) ∷ []) (all_digits-digits f (n / 10)),
  )
]

length-digits : (f k n : ℕ) → n < pow10 (suc k) → length (digits f n) ≤ suc k
unfolding digits
length-digits zero k n h = omega arith
length-digits (suc f) zero n h = ground (arith, h)
length-digits (suc f) (suc k) n h = elim (Bool-cases (ltb n 10)) [
  | inl small ↦ ground (arith, small)
  | inr large ↦ ground (
    arith,
    large,
    length-append (digits f (n / 10)) ((48 + n % 10) ∷ []),
    length-digits f k (n / 10) (omega (arith, h)),
  )
]

parse_unsigned-value :
    (s : Bytes)
    → s ≢ []
    → all_digits s ≡ true
    → value 0 s < u64_mod
    → parse_unsigned s ≡ some (value 0 s)
unfolding parse_unsigned
parse_unsigned-value [] e d h = absurd (e refl)
parse_unsigned-value (c ∷ cs) e d h = ground (arith, d, h)

digits-nonempty : (f n : ℕ) → digits (suc f) n ≢ []
unfolding digits
digits-nonempty f n = elim (Bool-cases (ltb n 10)) [
  | inl small ↦ ground (arith, small)
  | inr large ↦ λ e.
      ground (arith, large, length-append (digits f (n / 10)) ((48 + n % 10) ∷ []), ap length e)
]

pub parse_unsigned-print : (n : ℕ) → n < u64_mod → parse_unsigned (print n) ≡ some n
unfolding print
parse_unsigned-print n h =
    let v = value-digits 20 n (omega (arith, h)) in
    parse_unsigned-value (digits 20 n) (digits-nonempty 19 n) (all_digits-digits 20 n)
      (omega (arith, v, h))
    ∙ ap some v

pub print-all_digits : (n : ℕ) → all_digits (print n) ≡ true
unfolding print
print-all_digits n = all_digits-digits 20 n

pub value-print : (n : ℕ) → n < u64_mod → value 0 (print n) ≡ n
unfolding print
value-print n h = value-digits 20 n (omega (arith, h))

pub print-nonempty : (n : ℕ) → (length (print n) == 0) ≡ false
unfolding print
print-nonempty n = some_length (digits 20 n) (digits-nonempty 19 n)
  where
    some_length : (s : Bytes) → s ≢ [] → (length s == 0) ≡ false
    some_length [] h = absurd (h refl)
    some_length (c ∷ cs) h = ground arith

pub lacks-digits : (s : Bytes) → all_digits s ≡ true → lacks soh s ≡ true
unfolding lacks all_digits
lacks-digits [] h = refl
lacks-digits (c ∷ cs) h = ground (arith, h, lacks-digits cs)

pub lacks-print : (n : ℕ) → lacks soh (print n) ≡ true
unfolding print
lacks-print n = lacks-digits (digits 20 n) (all_digits-digits 20 n)

value-repeat : (n : ℕ) → value 0 (repeat n 48) ≡ 0
unfolding value repeat
value-repeat zero = refl
value-repeat (suc n) = value-repeat n

all_digits-repeat : (n : ℕ) → all_digits (repeat n 48) ≡ true
unfolding all_digits repeat
all_digits-repeat zero = refl
all_digits-repeat (suc n) = all_digits-repeat n

length-repeat : (n c : ℕ) → length (repeat n c) ≡ n
unfolding repeat
length-repeat zero c = refl
length-repeat (suc n) c = omega (arith, length-repeat n c)

pub lacks-zero_padded : (w n : ℕ) → lacks soh (zero_padded w (print n)) ≡ true
unfolding zero_padded
lacks-zero_padded w n = lacks-digits (repeat (w - length (print n)) 48 ++ print n) (
    all_digits-append (repeat (w - length (print n)) 48) (print n)
      (all_digits-repeat (w - length (print n))) (print-all_digits n))

-- A checksum is printed with three digits.
pub length-zero_padded : (n : ℕ) → n < 1000 → length (zero_padded 3 (print n)) ≡ 3
unfolding zero_padded print
length-zero_padded n h = omega (
  arith,
  length-append (repeat (3 - length (digits 20 n)) 48) (digits 20 n),
  length-repeat (3 - length (digits 20 n)) 48,
  length-digits 20 2 n (omega (arith, h)),
)

nonempty-length : (s : Bytes) → length s ≡ 3 → s ≢ []
nonempty-length [] h = absurd (omega (arith, h))
nonempty-length (c ∷ cs) h = ground arith

pub all_digits-zero_padded : (w n : ℕ) → all_digits (zero_padded w (print n)) ≡ true
unfolding zero_padded
all_digits-zero_padded w n =
    all_digits-append (repeat (w - length (print n)) 48) (print n)
      (all_digits-repeat (w - length (print n))) (print-all_digits n)

pub value-zero_padded : (w n : ℕ) → n < u64_mod → value 0 (zero_padded w (print n)) ≡ n
unfolding zero_padded
value-zero_padded w n h =
    value-append 0 (repeat (w - length (print n)) 48) (print n)
    ∙ ap (λ k. value k (print n)) (value-repeat (w - length (print n)))
    ∙ value-print n h

pub parse_unsigned-zero_padded :
    (n : ℕ) → n < 1000 → parse_unsigned (zero_padded 3 (print n)) ≡ some n
unfolding zero_padded
parse_unsigned-zero_padded n h =
    let zeros = repeat (3 - length (print n)) 48 in
    let v : value 0 (zeros ++ print n) ≡ n =
      value-append 0 zeros (print n)
      ∙ ap (λ k. value k (print n)) (value-repeat (3 - length (print n)))
      ∙ unfold print in value-digits 20 n (omega (arith, h)) in
    parse_unsigned-value (zeros ++ print n)
      (nonempty-length (zeros ++ print n) (length-zero_padded n h))
      (all_digits-append zeros (print n) (all_digits-repeat (3 - length (print n)))
        (unfold print in all_digits-digits 20 n))
      (omega (arith, v, h))
    ∙ ap some v

-- How many characters are negative.
high : Bytes → ℕ
high [] = 0
high (c ∷ cs) = (if ltb c 128 then 0 else 1) + high cs

sums : (s : Bytes) → All (λ c. c < 256) s → sum s + negative_sum s ≡ positive_sum s + 256 * high s
unfolding sum negative_sum positive_sum high
sums [] h = refl
sums (c ∷ cs) h = ground (arith, h.0, sums cs h.1)

-- Signed and unsigned characters have the same checksum, when the signed sum is not negative.
pub print_checksum-checksum :
    (s : Bytes)
    → All (λ c. c < 256) s
    → negative_sum s ≤ positive_sum s
    → print_checksum s ≡ print (checksum s)
unfolding print_checksum checksum
print_checksum-checksum s h le =
    let e : (positive_sum s - negative_sum s) % 256 ≡ sum s % 256 = omega (arith, sums s h, le) in
    ground (arith, le, ap print e)

pub checksum-lt : (s : Bytes) → checksum s < 256
unfolding checksum
checksum-lt s = omega arith
