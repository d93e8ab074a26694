-- ===== src/Fix/Builder.antt =====
-- common/src/common_fix/OutboundMessageBuilder.cpp. The text that `generateTimestamp` makes of the
-- clock is the parameter `time`.
use beta_trader.Prelude.{ℕ, ◌+◌, ◌-◌, ◌%◌, [], ◌∷◌, ◌++◌, ltb, leb, ◌==◌, if◌then◌else◌, length}
use beta_trader.Fix.Text.{Bytes, codes, soh, print, zero_padded}

-- `<< tag << "=" << value << SOH`
abbrev pub field : Bytes → Bytes → Bytes
field tag value = tag ++ (value ++ soh ∷ [])

unfoldable pub header_and_body : Bytes → Bytes → Bytes → ℕ → Bytes → Bytes → Bytes
unfolding print
header_and_body time sender target seq type body =
    field (codes "35=") type
    ++ field (codes "49=") sender
    ++ field (codes "56=") target
    ++ field (codes "34=") (print seq)
    ++ field (codes "52=") time
    ++ body

unfoldable pub before_checksum : Bytes → Bytes
unfolding print
before_checksum payload =
    codes "8=FIX.4.4" ++ (soh ∷ codes "9=" ++ (print (length payload) ++ soh ∷ payload))

-- The characters are signed: the sum of those that are not negative, and what the others take off.
unfoldable pub positive_sum : Bytes → ℕ
positive_sum [] = 0
positive_sum (c ∷ cs) = (if ltb c 128 then c else 0) + positive_sum cs

unfoldable pub negative_sum : Bytes → ℕ
negative_sum [] = 0
negative_sum (c ∷ cs) = (if ltb c 128 then 0 else 256 - c) + negative_sum cs

-- `sum % 256` as it is printed: the remainder has the sign of the sum, which is taken as exact.
unfoldable pub print_checksum : Bytes → Bytes
unfolding positive_sum negative_sum print
print_checksum s =
    if leb (negative_sum s) (positive_sum s)
    then print ((positive_sum s - negative_sum s) % 256)
    else if (negative_sum s - positive_sum s) % 256 == 0
    then codes "0"
    else codes "-" ++ print ((negative_sum s - positive_sum s) % 256)

unfoldable pub with_checksum : Bytes → Bytes
unfolding print_checksum zero_padded
with_checksum s = s ++ (codes "10=" ++ (zero_padded 3 (print_checksum s) ++ soh ∷ []))

unfoldable pub build_message : Bytes → Bytes → Bytes → ℕ → Bytes → Bytes → Bytes
unfolding header_and_body before_checksum with_checksum
build_message time sender target seq type body =
    with_checksum (before_checksum (header_and_body time sender target seq type body))

unfoldable pub build_logon : Bytes → Bytes → Bytes → ℕ → ℕ → Bytes
unfolding print
build_logon time sender target seq interval =
    build_message time sender target seq (codes "A")
      (codes "98=0" ++ soh ∷ field (codes "108=") (print interval))

-- A field that is left out when it is empty.
abbrev pub optional_field : Bytes → Bytes → Bytes
optional_field tag [] = []
optional_field tag (c ∷ cs) = field tag (c ∷ cs)

unfoldable pub build_logout : Bytes → Bytes → Bytes → ℕ → Bytes → Bytes
build_logout time sender target seq text =
    build_message time sender target seq (codes "5") (optional_field (codes "58=") text)

unfoldable pub build_heartbeat : Bytes → Bytes → Bytes → ℕ → Bytes → Bytes
build_heartbeat time sender target seq test_req_id =
    build_message time sender target seq (codes "0") (optional_field (codes "112=") test_req_id)

pub build_resend_request : Bytes → Bytes → Bytes → ℕ → ℕ → ℕ → Bytes
unfolding print
build_resend_request time sender target seq begin_seq_no end_seq_no =
    build_message time sender target seq (codes "2")
      (field (codes "7=") (print begin_seq_no) ++ field (codes "16=") (print end_seq_no))
