-- ===== src/Fix/Values.antt =====
-- common/src/common_fix/FixUtils.cpp, and the conversions of `std::string` that the FIX code calls. An
-- `int` is its representation in 32 bits. A `none` is an exception.
use Prim.Native.Char.{Char, char, nul, IsScalar}
use Prim.Native.Nat.{compare, Ordering}
use beta_trader.Prelude.{
  ◌≡◌, refl, ℕ, ◌+◌, ◌-◌, ◌%◌, String, Bool, true, false, ◌&&◌, ◌||◌, Option, none, some, List, [],
  ◌∷◌, ◌++◌, ◌>>=◌, arith, ltb, leb, ◌==◌, if◌then◌else◌, length, u32_mod, u64_mod, insert, ◌*◌,
}
use beta_trader.Common.Types.{OrderSide, buy, sell, OrderType, limit, market, Timestamp}
use beta_trader.Fix.Text.{Bytes, is_digit, value, substr, find_char, find_char_from, find_text, soh}

-- The digits at the front.
unfoldable pub leading_digits : Bytes → Bytes
leading_digits [] = []
leading_digits (c ∷ cs) = let rest = leading_digits cs in if is_digit c then c ∷ rest else []

-- `std::isspace`
abbrev pub is_space : ℕ → Bool
is_space c = c == 32 || leb 9 c && leb c 13

unfoldable pub skip_spaces : Bytes → Bytes
skip_spaces [] = []
skip_spaces (c ∷ cs) = let rest = skip_spaces cs in if is_space c then rest else c ∷ cs

-- A sign, if there is one: whether it is a minus, and what follows.
unfoldable pub read_sign : Bytes → Bool × Bytes
read_sign [] = (false, [])
read_sign (c ∷ cs) =
    if c == 45 then (true, cs) else if c == 43 then (false, cs) else (false, c ∷ cs)

-- The number that digits at the front stand for, if there are any.
unfoldable pub read_digits : Bytes → Option ℕ
unfolding leading_digits value
read_digits s = if length (leading_digits s) == 0 then none else some (value 0 (leading_digits s))

-- An `int` from a sign and a magnitude, if it is in range.
unfoldable pub to_int : Bool → ℕ → Option ℕ
to_int negative n =
    if negative
    then if leb n 2147483648 then some ((u32_mod - n) % u32_mod) else none
    else if ltb n 2147483648
    then some n
    else none

-- `std::stoi`
unfoldable pub stoi : Bytes → Option ℕ
unfolding skip_spaces read_sign read_digits to_int
stoi s =
    let (negative, rest) = read_sign (skip_spaces s) in do n ← read_digits rest; to_int negative n

-- `parseTimestamp`: nanoseconds, after the epoch. `get_time` is what `std::get_time` and `std::mktime`
-- make of the first 17 bytes, in seconds. A second without a dot behind it has no milliseconds.
unfoldable pub parse_timestamp : (Bytes → Option ℕ) → Bytes → Option Timestamp
unfolding substr find_char stoi
parse_timestamp get_time s = do
  seconds ← get_time (substr 0 17 s)
  elim (find_char 46 s) [
    | none ↦ some (seconds * 1000000000)
    | some dot ↦ do
      millis ← stoi (substr (dot + 1) 3 s)
      some (
          if ltb millis 2147483648
          then seconds * 1000000000 + millis * 1000000
          else seconds * 1000000000 - (u32_mod - millis) * 1000000)
  ]

-- `std::stoul` and `std::stoull`, which negate modulo 2^64.
unfoldable pub stoull : Bytes → Option ℕ
unfolding skip_spaces read_sign read_digits
stoull s =
    let (negative, rest) = read_sign (skip_spaces s) in
    (do
      n ← read_digits rest
      if ltb n u64_mod then some (if negative then (u64_mod - n) % u64_mod else n) else none)

-- `from_chars` to an `int`: no spaces and no plus are skipped.
unfoldable pub int_from_chars : Bytes → Option ℕ
unfolding read_digits to_int
int_from_chars [] = none
int_from_chars (c ∷ cs) =
    if c == 45
    then (do n ← read_digits cs; to_int true n)
    else (do n ← read_digits (c ∷ cs); to_int false n)

-- The fields of a message by their tags; a later field takes the place of an earlier one.
abbrev pub TagMap : Type 0
TagMap = List (ℕ × Bytes)

-- A token of `splitToMap`.
unfoldable pub add_token : Bytes → TagMap → Option TagMap
unfolding find_char substr stoi
add_token token m = elim (find_char 61 token) [
  | none ↦ some m
  | some equals ↦ do
    tag ← stoi (substr 0 equals token)
    some (insert tag (substr (equals + 1) (length token - (equals + 1)) token) m)
]

-- The loop, over the bytes: `token` is what stands between `start` and here.
unfoldable pub split_tokens : ℕ → Bytes → Bytes → TagMap → Option TagMap
unfolding add_token
split_tokens delimiter token [] m = some m
split_tokens delimiter token (c ∷ cs) m = elim (c == delimiter) [
  | true ↦ elim (add_token token m) [ none ↦ none | some m' ↦ split_tokens delimiter [] cs m' ]
  | false ↦ split_tokens delimiter (token ++ c ∷ []) cs m
]

unfoldable pub split_to_map : Bytes → ℕ → Option TagMap
unfolding split_tokens
split_to_map s delimiter = split_tokens delimiter [] s []

-- `.front()`: at the end of a field the byte that is read is the delimiter.
unfoldable pub front : Bytes → ℕ
front [] = soh
front (c ∷ cs) = c

unfoldable pub char_to_order_side : ℕ → Option OrderSide
char_to_order_side c = if c == 49 then some buy else if c == 50 then some sell else none

unfoldable pub char_to_order_type : ℕ → Option OrderType
char_to_order_type c = if c == 49 then some market else if c == 50 then some limit else none

pub lt-compare : (c : ℕ) → ltb c 55296 ≡ true → compare c 55296 ≡ Ordering.lt
lt-compare c h = ground (arith, h)

pub ltb-IsScalar : (c : ℕ) → ltb c 55296 ≡ true → IsScalar c
ltb-IsScalar c h = rw (lt-compare c h) tt

abbrev pub char_if : (c : ℕ) (small : Bool) → (small ≡ true → IsScalar c) → Char
char_if c true h = char c (h refl)
char_if c false h = nul

-- The character of a byte.
unfoldable pub char_of : ℕ → Char
char_of c = char_if c (ltb c 55296) (ltb-IsScalar c)

-- A text as a key.
unfoldable pub text : Bytes → String
unfolding char_of
text [] = String.[]
text (c ∷ cs) = String.◌∷◌ (char_of c) (text cs)

-- What stands between the first `tag` and the next delimiter.
unfoldable pub field_after : Bytes → Bytes → Option Bytes
unfolding find_text find_char_from substr
field_after tag s = elim (find_text tag s) [
  | none ↦ none
  | some pos ↦ elim (find_char_from soh pos s) [
    | none ↦ none
    | some end ↦ some (substr (pos + length tag) (end - pos - length tag) s)
  ]
]
