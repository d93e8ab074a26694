-- ===== src/Fix/Reports/Times.antt =====
-- The time of a report, printed by `timestampToString` and read by `parseTimestamp`.
use beta_trader.Prelude.{
  ◌≡◌, sym, ap, ◌∙◌, subst, ℕ, ◌+◌, ◌*◌, ◌/◌, ◌%◌, ◌<◌, true, some, [], ◌∷◌, ◌++◌, arith, length,
  ltb, append-nil, Option,
}
use beta_trader.Common.Types.{Timestamp}
use beta_trader.Fix.Text.{
  Bytes, soh, print, zero_padded, lacks, substr, take, drop, find_char, find_char-append,
  drop-append, take-append,
}
use beta_trader.Fix.Values.{stoi, parse_timestamp}
use beta_trader.Fix.Framer.Fields.{lacks-zero_padded, length-zero_padded}
use beta_trader.Fix.Reports.{Printers, print_timestamp}
use beta_trader.Fix.Reports.Fields.{stoi-zero_padded}

lacks-append :
    (c : ℕ) (xs ys : Bytes) → lacks c xs ≡ true → lacks c ys ≡ true → lacks c (xs ++ ys) ≡ true
unfolding lacks
lacks-append c [] ys h k = k
lacks-append c (x ∷ xs) ys h k = ground (arith, h, k, lacks-append c xs ys)

pub lacks-print_timestamp :
    (p : Printers) (ts : Timestamp)
    → lacks soh (p.put_time (ts / 1000000000)) ≡ true
    → lacks soh (print_timestamp p ts) ≡ true
unfolding print_timestamp
lacks-print_timestamp p ts h =
    let z = zero_padded 3 (print (ts / 1000000 % 1000)) in
    let k : lacks soh (46 ∷ z) ≡ true =
      unfold lacks in ground (arith, lacks-zero_padded 3 (ts / 1000000 % 1000)) in
    lacks-append soh (p.put_time (ts / 1000000000)) (46 ∷ z) h k

take_all : (s : Bytes) → take (length s) s ≡ s
take_all s = ap (take (length s)) (sym (append-nil s)) ∙ take-append s []

-- What is read of the two parts of a text of a time.
parse_timestamp-append :
    (get_time : Bytes → Option ℕ) (front back : Bytes) (seconds millis : ℕ)
    → length front ≡ 17
    → lacks 46 front ≡ true
    → get_time front ≡ some seconds
    → length back ≡ 3
    → stoi back ≡ some millis
    → millis < 1000
    → parse_timestamp get_time (front ++ 46 ∷ back) ≡ some (seconds * 1000000000 + millis * 1000000)
unfolding parse_timestamp
parse_timestamp-append get_time front back seconds millis l17 undotted t l3 m lt =
    let s = front ++ (46 ∷ back) in
    let e0 : substr 0 17 s ≡ front =
      unfold substr drop in subst (λ k. take k s ≡ front) l17 (take-append front (46 ∷ back)) in
    let f : find_char 46 s ≡ some 17 = find_char-append 46 front back undotted ∙ ap some l17 in
    let d : drop 18 s ≡ back = drop-append front (46 ∷ back) 1 18 (omega (arith, l17)) in
    let e3 : substr 18 3 s ≡ back =
      unfold substr in ap (take 3) d ∙ subst (λ k. take k back ≡ back) l3 (take_all back) in
    let fits : ltb millis 2147483648 ≡ true = ground (arith, lt) in rw (e0, t, f, e3, m, fits)

-- The milliseconds come back, with the seconds that are read; what is below a millisecond is lost.
pub parse_timestamp-print_timestamp :
    (p : Printers) (get_time : Bytes → Option ℕ) (ts : Timestamp) (seconds : ℕ)
    → length (p.put_time (ts / 1000000000)) ≡ 17
    → lacks 46 (p.put_time (ts / 1000000000)) ≡ true
    → get_time (p.put_time (ts / 1000000000)) ≡ some seconds
    → parse_timestamp get_time (print_timestamp p ts)
      ≡ some (seconds * 1000000000 + ts / 1000000 % 1000 * 1000000)
unfolding print_timestamp
parse_timestamp-print_timestamp p get_time ts seconds l17 undotted t =
    let millis = ts / 1000000 % 1000 in
    let lt : millis < 1000 = omega arith in
    parse_timestamp-append get_time (p.put_time (ts / 1000000000)) (zero_padded 3 (print millis))
      seconds millis l17 undotted t (length-zero_padded millis lt) (stoi-zero_padded millis lt) lt
