-- ===== src/Text/Hex/RoundTrip.antt =====
-- Every `int64` is read back from its hexadecimal print.
use simple_twitter.Common.{
  ℕ, zero, suc, ◌+◌, ◌*◌, ◌/◌, ◌%◌, ◌^◌, ◌<◌, ◌≡◌, ◌≢◌, refl, some, [], ◌∷◌, arith, get_elem?,
  dec_lt, sym, ◌∙◌, true,
}
use simple_twitter.Common.Int.{ℤ, pos, negsuc, IsInt64}
use simple_twitter.Common.Order.{Bytes}
use simple_twitter.Text.Split.{Lacks}
use simple_twitter.Text.Hex.{
  hex_digit, hex_digits, format_int, digit_value, value, scan, parse_uint, parse_int, clamp,
}

digit_value-hex_digit : (d : ℕ) → d < 16 → digit_value (hex_digit d) ≡ some d
unfolding digit_value hex_digit
digit_value-hex_digit d h = ground arith

-- Reading the digit `d` behind `n`.
scan_digit :
    (d n : ℕ) (out : Bytes)
    → d < 16
    → n < 2 ^ 60
    → scan (hex_digit d ∷ out) n ≡ scan out (n * 16 + d)
unfolding scan
scan_digit d n out h k = ground (arith, digit_value-hex_digit d h)

abbrev pow16 : ℕ → ℕ
pow16 zero = 1
pow16 (suc k) = 16 * pow16 k

scan-hex_digits :
    (fuel n : ℕ) (out : Bytes)
    → n < pow16 (suc fuel)
    → n < 2 ^ 64
    → scan (hex_digits (suc fuel) n out) 0 ≡ scan out n
unfolding hex_digits
scan-hex_digits zero n out h k = ground (arith, scan_digit n 0 out)
scan-hex_digits (suc fuel) n out h k = ground (
  arith,
  scan_digit n 0 out,
  scan_digit (n % 16) (n / 16) out,
  scan-hex_digits fuel (n / 16) (hex_digit (n % 16) ∷ out),
)

-- The text begins with a digit.
abbrev StartsWithDigit : Bytes → Type 0
StartsWithDigit s = (d : ℕ) × (d < 16) × (get_elem? s 0 ≡ some (hex_digit d))

hex_digits-StartsWithDigit :
    (fuel n : ℕ) (out : Bytes) → StartsWithDigit out → StartsWithDigit (hex_digits fuel n out)
unfolding hex_digits
hex_digits-StartsWithDigit zero n out h = h
hex_digits-StartsWithDigit (suc fuel) n out h = elim (dec_lt n 16) [
  | yes small ↦ (n, small, ground arith)
  | no large ↦
      let (d, p, e) =
        hex_digits-StartsWithDigit fuel (n / 16) (hex_digit (n % 16) ∷ out)
          (n % 16, omega arith, refl) in
      (d, p, ground arith)
]

hex_digits-starts : (fuel n : ℕ) (out : Bytes) → StartsWithDigit (hex_digits (suc fuel) n out)
unfolding hex_digits
hex_digits-starts fuel n out = elim (dec_lt n 16) [
  | yes small ↦ (n, small, ground arith)
  | no large ↦
      let (d, p, e) =
        hex_digits-StartsWithDigit fuel (n / 16) (hex_digit (n % 16) ∷ out)
          (n % 16, omega arith, refl) in
      (d, p, ground arith)
]

parse_uint-scan : (s : Bytes) → StartsWithDigit s → parse_uint s ≡ scan s 0
unfolding parse_uint
parse_uint-scan [] (d, p, e) = cc
parse_uint-scan (c ∷ s) h = refl

parse_int-digits :
    (s : Bytes) (n : ℕ) → StartsWithDigit s → scan s 0 ≡ value n → n < 2 ^ 63 → parse_int s ≡ pos n
unfolding parse_int hex_digit
parse_int-digits [] n (d, p, e) h k = cc
parse_int-digits (c ∷ s) n (d, p, e) h k = ground (arith, parse_uint-scan (c ∷ s) (d, p, e))

scan_printed : (n : ℕ) → n < 2 ^ 64 → scan (hex_digits 16 n []) 0 ≡ value n
unfolding scan
scan_printed n h = scan-hex_digits 15 n [] (omega arith) h

parse_uint_printed : (n : ℕ) → n < 2 ^ 64 → parse_uint (hex_digits 16 n []) ≡ value n
parse_uint_printed n h = parse_uint-scan _ (hex_digits-starts 15 n []) ∙ scan_printed n h

clamp_negative : (n : ℕ) → n < 2 ^ 63 → clamp true (value (suc n)) ≡ negsuc n
clamp_negative n h = ground arith

-- `ParseInt` gives back every `int64` that `FormatInt` wrote.
pub parse_int-format_int : (t : ℤ) → IsInt64 t → parse_int (format_int t) ≡ t
unfolding format_int parse_int
parse_int-format_int (pos n) h =
    parse_int-digits (hex_digits 16 n []) n (hex_digits-starts 15 n [])
      (scan_printed n (omega arith)) h
parse_int-format_int (negsuc n) h =
    rw (parse_uint_printed (suc n) (omega arith)) (clamp_negative n h)

-- A separator is no digit and no sign.
abbrev pub IsSeparator : ℕ → Type 0
IsSeparator sep = (sep ≢ b'-') × ((d : ℕ) → d < 16 → hex_digit d ≢ sep)

Lacks-hex_digits :
    (sep fuel n : ℕ) (out : Bytes)
    → IsSeparator sep
    → Lacks sep out
    → Lacks sep (hex_digits fuel n out)
unfolding hex_digits
Lacks-hex_digits sep zero n out h k = k
Lacks-hex_digits sep (suc fuel) n out h k =
    ground
      (arith, h.1 n, h.1 (n % 16), Lacks-hex_digits sep fuel (n / 16) (hex_digit (n % 16) ∷ out) h)

pub Lacks-format_int : (sep : ℕ) (t : ℤ) → IsSeparator sep → Lacks sep (format_int t)
unfolding format_int
Lacks-format_int sep (pos n) h = Lacks-hex_digits sep 16 n [] h tt
Lacks-format_int sep (negsuc n) h = (λ e. h.0 (sym e), Lacks-hex_digits sep 16 (suc n) [] h tt)

pub tilde-IsSeparator : IsSeparator b'~'
unfolding hex_digit
tilde-IsSeparator = (omega arith, λ d h. ground arith)

pub colon-IsSeparator : IsSeparator b':'
unfolding hex_digit
colon-IsSeparator = (omega arith, λ d h. ground arith)

pub underscore-IsSeparator : IsSeparator b'_'
unfolding hex_digit
underscore-IsSeparator = (omega arith, λ d h. ground arith)
