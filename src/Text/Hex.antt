-- ===== src/Text/Hex.antt =====
-- `strconv.FormatInt(t, 16)`, which `%x` prints too, and `strconv.ParseInt(s, 16, 64)` with its
-- error dropped, as the program calls it.
pub mod RoundTrip
use simple_twitter.Common.{
  ℕ, zero, suc, ◌+◌, ◌-◌, ◌*◌, ◌/◌, ◌%◌, ◌^◌, ◌==◌, ltb, leb, Bool, true, false, ◌&&◌, Option, none,
  some, List, [], ◌∷◌, if◌then◌else◌,
}
use simple_twitter.Common.Int.{ℤ, pos, negsuc, neg}
use simple_twitter.Common.Order.{Bytes}

unfoldable pub hex_digit : ℕ → ℕ
hex_digit d = if ltb d 10 then b'0' + d else b'a' + (d - 10)

-- The digits of `n` in front of `out`; sixteen rounds write every 64-bit number.
unfoldable pub hex_digits : ℕ → ℕ → Bytes → Bytes
unfolding hex_digit
hex_digits zero n out = out
hex_digits (suc fuel) n out =
    let more = hex_digits fuel (n / 16) (hex_digit (n % 16) ∷ out) in
    if ltb n 16 then hex_digit n ∷ out else more

unfoldable pub format_int : ℤ → Bytes
unfolding hex_digits
format_int (pos n) = hex_digits 16 n []
format_int (negsuc n) = b'-' ∷ hex_digits 16 (suc n) []

unfoldable pub digit_value : ℕ → Option ℕ
digit_value c =
    if leb b'0' c && leb c b'9'
    then some (c - b'0')
    else if leb b'a' c && leb c b'f'
    then some (c - b'a' + 10)
    else if leb b'A' c && leb c b'F'
    then some (c - b'A' + 10)
    else none

pub data Scan : Type 0 where
  value : ℕ → Scan
  syntax_error range_error : Scan

-- `ParseUint`: a number of 2 ^ 60 or more has no room for another digit.
unfoldable pub scan : Bytes → ℕ → Scan
unfolding digit_value
scan [] n = value n
scan (c ∷ s) n = elim (digit_value c) [
  | none ↦ syntax_error
  | some d ↦ let rest = scan s (n * 16 + d) in if leb (2 ^ 60) n then range_error else rest
]

unfoldable pub parse_uint : Bytes → Scan
unfolding scan
parse_uint [] = syntax_error
parse_uint (c ∷ s) = scan (c ∷ s) 0

-- A syntax error gives 0, a number out of range the nearest `int64`.
abbrev pub clamp : Bool → Scan → ℤ
clamp negative syntax_error = pos 0
clamp false range_error = pos (2 ^ 63 - 1)
clamp true range_error = negsuc (2 ^ 63 - 1)
clamp false (value n) = if leb (2 ^ 63) n then pos (2 ^ 63 - 1) else pos n
clamp true (value n) = if ltb (2 ^ 63) n then negsuc (2 ^ 63 - 1) else neg n

unfoldable pub parse_int : Bytes → ℤ
unfolding parse_uint
parse_int [] = pos 0
parse_int (c ∷ s) =
    if c == b'-'
    then clamp true (parse_uint s)
    else if c == b'+'
    then clamp false (parse_uint s)
    else clamp false (parse_uint (c ∷ s))
