-- ===== src/Fix/Text.antt =====
-- What the FIX code uses of `std::string` and `std::string_view`: a text is the list of its bytes, a
-- position is an index, and `npos` is `none`.
use Prim.Native.Char.{code}
use beta_trader.Prelude.{
  ◌≡◌, refl, sym, ap, ◌∙◌, ℕ, zero, suc, ◌+◌, ◌-◌, ◌*◌, ◌/◌, ◌%◌, ◌≤◌, ◌<◌, String, Bool, true,
  false, ◌&&◌, not, Option, none, some, List, [], ◌∷◌, ◌++◌, arith, ltb, leb, ◌==◌, if◌then◌else◌,
  length,
}

abbrev pub Bytes : Type 0
Bytes = List ℕ

-- The bytes of a literal.
abbrev pub codes : String → Bytes
codes String.[] = []
codes (String.◌∷◌ c s) = code c ∷ codes s

abbrev pub soh : ℕ
soh = 1

unfoldable pub eq_bytes : Bytes → Bytes → Bool
eq_bytes [] [] = true
eq_bytes [] (y ∷ ys) = false
eq_bytes (x ∷ xs) [] = false
eq_bytes (x ∷ xs) (y ∷ ys) = x == y && eq_bytes xs ys

unfoldable pub drop : ℕ → Bytes → Bytes
drop zero xs = xs
drop (suc n) [] = []
drop (suc n) (x ∷ xs) = drop n xs

unfoldable pub take : ℕ → Bytes → Bytes
take zero xs = []
take (suc n) [] = []
take (suc n) (x ∷ xs) = x ∷ take n xs

-- `s.substr(from, count)`, for a `from` that is in range.
unfoldable pub substr : ℕ → ℕ → Bytes → Bytes
unfolding drop take
substr from count s = take count (drop from s)

unfoldable pub find_char : ℕ → Bytes → Option ℕ
find_char c [] = none
find_char c (x ∷ xs) =
    let rest = find_char c xs in
    if x == c then some 0 else elim rest [ none ↦ none | some n ↦ some (suc n) ]

-- `s.find(c, from)`
unfoldable pub find_char_from : ℕ → ℕ → Bytes → Option ℕ
unfolding find_char drop
find_char_from c from s = elim (find_char c (drop from s)) [
  | none ↦ none
  | some n ↦ some (from + n)
]

unfoldable pub starts_with : Bytes → Bytes → Bool
starts_with [] s = true
starts_with (c ∷ cs) [] = false
starts_with (c ∷ cs) (x ∷ xs) = c == x && starts_with cs xs

-- `s.find(text)`
unfoldable pub find_text : Bytes → Bytes → Option ℕ
unfolding starts_with
find_text text [] = if starts_with text [] then some 0 else none
find_text text (x ∷ xs) =
    let rest = find_text text xs in
    if starts_with text (x ∷ xs) then some 0 else elim rest [ none ↦ none | some n ↦ some (suc n) ]

-- `s.find(text, from)`
unfoldable pub find_text_from : ℕ → Bytes → Bytes → Option ℕ
unfolding find_text drop
find_text_from from text s = elim (find_text text (drop from s)) [
  | none ↦ none
  | some n ↦ some (from + n)
]

abbrev pub is_digit : ℕ → Bool
is_digit c = leb 48 c && leb c 57

unfoldable pub all_digits : Bytes → Bool
all_digits [] = true
all_digits (c ∷ cs) = is_digit c && all_digits cs

-- The number that digits stand for, behind the number read so far.
unfoldable pub value : ℕ → Bytes → ℕ
value n [] = n
value n (c ∷ cs) = value (10 * n + (c - 48)) cs

-- `out << n`, on fuel: twenty digits are enough for 64 bits.
unfoldable pub digits : ℕ → ℕ → Bytes
digits zero n = []
digits (suc fuel) n =
    let front = digits fuel (n / 10) in
    if ltb n 10 then (48 + n) ∷ [] else front ++ (48 + n % 10) ∷ []

unfoldable pub print : ℕ → Bytes
unfolding digits
print n = digits 20 n

unfoldable pub repeat : ℕ → ℕ → Bytes
repeat zero c = []
repeat (suc n) c = c ∷ repeat n c

-- `std::setfill('0') << std::setw(w)`
unfoldable pub zero_padded : ℕ → Bytes → Bytes
unfolding repeat
zero_padded w s = repeat (w - length s) 48 ++ s

pub drop-append : (xs ys : Bytes) (n m : ℕ) → length xs + n ≡ m → drop m (xs ++ ys) ≡ drop n ys
unfolding drop
drop-append [] ys n m h = let e : n ≡ m = omega (arith, h) in ap (λ k. drop k ys) (sym e)
drop-append (x ∷ xs) ys n zero h = absurd (omega (arith, h))
drop-append (x ∷ xs) ys n (suc m) h = drop-append xs ys n m (omega (arith, h))

pub take-append : (xs ys : Bytes) → take (length xs) (xs ++ ys) ≡ xs
unfolding take
take-append [] ys = refl
take-append (x ∷ xs) ys = ap (λ (s : Bytes). x ∷ s) (take-append xs ys)

-- No byte of the text is this one.
unfoldable pub lacks : ℕ → Bytes → Bool
lacks c [] = true
lacks c (x ∷ xs) = not (x == c) && lacks c xs

pub find_char-append :
    (c : ℕ) (xs ys : Bytes) → lacks c xs ≡ true → find_char c (xs ++ c ∷ ys) ≡ some (length xs)
unfolding find_char lacks
find_char-append c [] ys h = ground arith
find_char-append c (x ∷ xs) ys h = ground (arith, h, find_char-append c xs ys)

-- A text found at `n` does not end before `n`.
pub find_char-lt : (c n : ℕ) (s : Bytes) → find_char c s ≡ some n → n < length s
unfolding find_char
find_char-lt c n [] h = ground (arith, h)
find_char-lt c zero (x ∷ xs) h = omega arith
find_char-lt c (suc n) (x ∷ xs) h = ground (arith, h, find_char-lt c n xs)

-- More bytes behind the text change nothing of what is found in it.
pub find_char-more :
    (c n : ℕ) (s more : Bytes) → find_char c s ≡ some n → find_char c (s ++ more) ≡ some n
unfolding find_char
find_char-more c n [] more h = ground (arith, h)
find_char-more c zero (x ∷ xs) more h = ground (arith, h, find_char-more c 0 xs more)
find_char-more c (suc n) (x ∷ xs) more h = ground (arith, h, find_char-more c n xs more)

pub drop-more : (n : ℕ) (s more : Bytes) → n ≤ length s → drop n (s ++ more) ≡ drop n s ++ more
unfolding drop
drop-more zero s more h = refl
drop-more (suc n) [] more h = absurd (omega (arith, h))
drop-more (suc n) (x ∷ xs) more h = drop-more n xs more (omega (arith, h))

pub take-more : (n : ℕ) (s more : Bytes) → n ≤ length s → take n (s ++ more) ≡ take n s
unfolding take
take-more zero s more h = refl
take-more (suc n) [] more h = absurd (omega (arith, h))
take-more (suc n) (x ∷ xs) more h =
    ap (λ (t : Bytes). x ∷ t) (take-more n xs more (omega (arith, h)))

pub length-drop : (n : ℕ) (s : Bytes) → length (drop n s) ≡ length s - n
unfolding drop
length-drop zero s = omega arith
length-drop (suc n) [] = omega arith
length-drop (suc n) (x ∷ xs) = omega (arith, length-drop n xs)

pub substr-more :
    (from count : ℕ) (s more : Bytes)
    → from + count ≤ length s
    → substr from count (s ++ more) ≡ substr from count s
unfolding substr
substr-more from count s more h =
    ap (take count) (drop-more from s more (omega (arith, h)))
    ∙ take-more count (drop from s) more (omega (arith, h, length-drop from s))

pub find_char_from-more :
    (c from n : ℕ) (s more : Bytes)
    → from ≤ length s
    → find_char_from c from s ≡ some n
    → find_char_from c from (s ++ more) ≡ some n
unfolding find_char_from
find_char_from-more c from n s more le h =
    ground (arith, h, drop-more from s more le, find_char-more c (n - from) (drop from s) more)

pub find_char_from-lt :
    (c from n : ℕ) (s : Bytes) → find_char_from c from s ≡ some n → n < length s × (from ≤ n)
unfolding find_char_from
find_char_from-lt c from n s h =
    ground (arith, h, find_char-lt c (n - from) (drop from s), length-drop from s)
