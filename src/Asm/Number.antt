-- ===== src/Asm/Number.antt =====
-- The numbers of verif/asm.py: `int(text, 0)`, `str(number)`, the number of a register name, and the
-- digits of `to_hex`.
use Prim.Native.Char.{Char, code}
use Prim.Native.String.{String}
use rv32i_cpu.Base.{
  ◌>>=◌, ℕ, zero, suc, ◌+◌, ◌-◌, ◌*◌, ◌/◌, ◌%◌, Bool, true, false, ◌&&◌, ◌||◌, Option, none, some,
  ltb, ◌==◌, ◌!=◌, if◌then◌else◌,
}
use rv32i_cpu.Base.Int.{ℤ, pos, negsuc}
use rv32i_cpu.Asm.Text.{between, is_digit, is_blank, strip, behind}

-- The value of a digit, up to 35.
unfoldable pub digit_value : ℕ → ℕ
digit_value c =
    if is_digit c
    then c - b'0'
    else if between b'a' b'z' c
    then c - b'a' + 10
    else if between b'A' b'Z' c
    then c - b'A' + 10
    else 36

-- What was read of a number, and whether an underscore, or the end, may stand here.
pub record Digits : Type 0 where
  pub value : ℕ
  pub score : Bool
  pub end : Bool

unfoldable pub read_digit : ℕ → Digits → ℕ → Option Digits
unfolding digit_value
read_digit base r c =
    if c == b'_'
    then if r.score then some (record r { score = false; end = false }) else none
    else if ltb (digit_value c) base
    then some (record { value = r.value * base + digit_value c; score = true; end = true })
    else none

-- The digits of a number in a base, with single underscores between them.
unfoldable pub read_digits : ℕ → Digits → String → Option ℕ
unfolding read_digit
read_digits base r String.[] = if r.end then some r.value else none
read_digits base r (String.◌∷◌ c s) = read_digit base r (code c) >>= λ r'. read_digits base r' s

-- The start of a number, and that of one behind a prefix, where an underscore may stand.
abbrev pub nothing_read : Bool → Digits
nothing_read score = record { value = 0; score = score; end = false }

-- A decimal number that begins with a zero must be zero.
abbrev pub no_leading_zero : Bool → ℕ → Option ℕ
no_leading_zero zero_first value = if zero_first && value != 0 then none else some value

unfoldable pub read_decimal : String → Option ℕ
unfolding read_digits
read_decimal String.[] = none
read_decimal (String.◌∷◌ c s) =
    read_digits 10 (nothing_read false) (String.◌∷◌ c s) >>= no_leading_zero (code c == b'0')

-- "0x", "0o" and "0b", with the base that they stand for.
abbrev pub base_of : ℕ → Option ℕ
base_of c =
    if c == b'x' || c == b'X'
    then some 16
    else if c == b'o' || c == b'O'
    then some 8
    else if c == b'b' || c == b'B'
    then some 2
    else none

abbrev pub read_based : Option ℕ → String → String → Option ℕ
unfolding read_digits read_decimal
read_based none whole digits = read_decimal whole
read_based (some base) whole digits = read_digits base (nothing_read true) digits

-- A number without its sign.
unfoldable pub read_number : String → Option ℕ
unfolding read_decimal read_digits
read_number (String.◌∷◌ z (String.◌∷◌ c s)) =
    read_based (if code z == b'0' then base_of (code c) else none) (String.◌∷◌ z (String.◌∷◌ c s)) s
read_number s = read_decimal s

abbrev pub neg : ℕ → ℤ
neg zero = pos 0
neg (suc n) = negsuc n

abbrev pub signed : (ℕ → ℤ) → Option ℕ → Option ℤ
signed sign none = none
signed sign (some n) = some (sign n)

unfoldable pub read_signed : String → Option ℤ
unfolding read_number
read_signed String.[] = none
read_signed (String.◌∷◌ c s) =
    if code c == b'-'
    then signed neg (read_number s)
    else if code c == b'+'
    then signed pos (read_number s)
    else signed pos (read_number (String.◌∷◌ c s))

-- `int(text, 0)`, without CPython's limit on the number of decimal digits.
unfoldable pub int_0 : String → Option ℤ
unfolding strip read_signed
int_0 token = read_signed (strip token)

-- The digit of a value below 16.
unfoldable pub digit_char : ℕ → Char
digit_char n =
    if n == 0
    then "0"
    else if n == 1
    then "1"
    else if n == 2
    then "2"
    else if n == 3
    then "3"
    else if n == 4
    then "4"
    else if n == 5
    then "5"
    else if n == 6
    then "6"
    else if n == 7
    then "7"
    else if n == 8
    then "8"
    else if n == 9
    then "9"
    else if n == 10
    then "a"
    else if n == 11
    then "b"
    else if n == 12
    then "c"
    else if n == 13
    then "d"
    else if n == 14
    then "e"
    else "f"

-- The digits of a number in a base, in front of a text; the fuel is above the number of digits.
unfoldable pub put_digits : ℕ → ℕ → ℕ → String → String
unfolding digit_char
put_digits base zero n s = s
put_digits base (suc fuel) n s = elim (n / base == 0) [
  | true ↦ String.◌∷◌ (digit_char n) s
  | false ↦ put_digits base fuel (n / base) (String.◌∷◌ (digit_char (n % base)) s)
]

-- `str(number)`, without CPython's limit on the number of digits. A number has no more digits than
-- its value and one.
unfoldable pub to_text : ℤ → String
unfolding put_digits
to_text (pos n) = put_digits 10 (suc n) n ""
to_text (negsuc n) = String.◌∷◌ "-" (put_digits 10 (suc (suc n)) (suc n) "")

-- A text of digits only, read in base ten.
unfoldable pub all_digits : ℕ → String → Option ℕ
all_digits acc String.[] = some acc
all_digits acc (String.◌∷◌ c s) = elim (is_digit (code c)) [
  | true ↦ all_digits (acc * 10 + (code c - b'0')) s
  | false ↦ none
]

abbrev pub some_digits : Option String → Option ℕ
unfolding all_digits
some_digits none = none
some_digits (some digits) = if is_blank digits then none else all_digits 0 digits

-- The number of a token "x" and digits.
unfoldable pub x_number : String → Option ℕ
unfolding all_digits
x_number token = some_digits (behind b'x' token)
