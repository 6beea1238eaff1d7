-- ===== src/Asm/Texts.antt =====
-- Round trips of numbers through texts in verif/asm.py.
use Prim.Native.Char.{Char, code}
use Prim.Native.String.{String}
use native.Mathlib.Nat.{mod-lt}
use text.Mathlib.TextLemmas.{cons≢nil}
use rv32i_cpu.Base.{
  ℕ, zero, suc, ◌/◌, ◌%◌, ◌<◌, ◌≤◌, ◌≡◌, ◌≢◌, refl, ap, ◌∙◌, arith, Bool, true, false, some, none,
  ◌==◌, Bool-cases, inl, inr, ◌⊎◌, all_below_lem, not, ◌&&◌, ◌||◌, if◌then◌else◌,
}
use rv32i_cpu.Base.Int.{ℤ, pos, negsuc}
use rv32i_cpu.Asm.Text.{is_space, span, lstrip, rstrip, strip}
use rv32i_cpu.Asm.Number.{
  digit_char, nothing_read, read_digits, put_digits, read_decimal, read_number, read_signed, signed,
  base_of, int_0, to_text, no_leading_zero,
}
use rv32i_cpu.Asm.Digits.{below, written_last, read_digits-put_digits, read_digits_end}

-- No character is a space.
abbrev pub IsPlain : String → Type 0
IsPlain String.[] = Unit
IsPlain (String.◌∷◌ c s) = (is_space (code c) ≡ false) × IsPlain s

and_false : (b : Bool) → (b && false) ≡ false
and_false true = refl
and_false false = refl

rstrip_plain : (s : String) → IsPlain s → rstrip s ≡ s
unfolding rstrip
rstrip_plain String.[] h = refl
rstrip_plain (String.◌∷◌ c s) h = simp (rstrip_plain s h.1, h.0, and_false)

span_stop :
    (test : ℕ → Bool) (c : Char) (s : String)
    → test (code c) ≡ false
    → span test (String.◌∷◌ c s) ≡ ("", String.◌∷◌ c s)
unfolding span
span_stop test c s h = simp h

lstrip_plain : (s : String) → IsPlain s → lstrip s ≡ s
unfolding lstrip
lstrip_plain String.[] h = refl
lstrip_plain (String.◌∷◌ c s) h = ap (λ x. x.1) (span_stop is_space c s h.0)

strip_plain : (s : String) → IsPlain s → strip s ≡ s
unfolding strip
strip_plain s h = rw (lstrip_plain s h) (rstrip_plain s h)

digit_tests :
    (d : ℕ)
    → d < 16
    → (is_space (code (digit_char d)) ≡ false)
      × ((code (digit_char d) == b'-') ≡ false)
      × ((code (digit_char d) == b'+') ≡ false)
unfolding digit_char is_space
digit_tests d h =
    let holds =
      all_below_lem 16
        (λ d. not (
          is_space (code (digit_char d))
          || code (digit_char d) == b'-'
          || code (digit_char d) == b'+'))
        d refl h in
    ground (arith, holds)

digit_zero : (d : ℕ) → d < 16 → 0 < d → (code (digit_char d) == b'0') ≡ false
unfolding digit_char
digit_zero d h nonzero =
    let holds = all_below_lem 16 (λ d. not (code (digit_char d) == b'0') || d == 0) d refl h in
    ground (arith, holds)

pub put_digits-IsPlain :
    (base fuel n : ℕ) (s : String)
    → 2 ≤ base
    → base ≤ 16
    → n < fuel
    → IsPlain s
    → IsPlain (put_digits base fuel n s)
unfolding put_digits
put_digits-IsPlain base zero n s low high h plain = absurd (omega arith)
put_digits-IsPlain base (suc fuel) n s low high h plain = elim (Bool-cases (n / base == 0)) [
  | inl one ↦
      let small = written_last base low high n (ground arith) in
      rw (put_digits, one) ((digit_tests n (omega (arith, small, high))).0, plain)
  | inr more ↦
      let small : n % base < base = mod-lt n (omega (arith, low)) in
      rw (put_digits, more)
        (put_digits-IsPlain base fuel (n / base) (String.◌∷◌ (digit_char (n % base)) s) low high
          (below base low high n fuel h (λ z. ground (arith, z)))
          ((digit_tests (n % base) (omega (arith, small, high))).0, plain))
]

-- Written digits begin with one that is not zero, unless they are the single digit of zero.
abbrev Begins : ℕ → String → String → Type 0
Begins n s u =
    (d : ℕ) × (t : String) × (u ≡ String.◌∷◌ (digit_char d) t)
    × (d < 10)
    × (((n ≡ 0) × (d ≡ 0) × (t ≡ s)) ⊎ (0 < d))

put_digits-Begins : (fuel n : ℕ) (s : String) → n < fuel → Begins n s (put_digits 10 fuel n s)
unfolding put_digits
put_digits-Begins zero n s h = absurd (omega arith)
put_digits-Begins (suc fuel) n s h = elim (Bool-cases (n / 10 == 0)) [
  | inl one ↦ rw (put_digits, one) (n, s, refl, ground arith, first_digit n s)
  | inr more ↦
      let (d, t, e, lt, which) =
        put_digits-Begins fuel (n / 10) (String.◌∷◌ (digit_char (n % 10)) s) (ground arith) in
      rw (put_digits, more) (d, t, e, lt, inr (positive (λ z. ground (arith, z)) which))
]
  where
    first_digit : (n : ℕ) (s : String) → ((n ≡ 0) × (n ≡ 0) × (s ≡ s)) ⊎ (0 < n)
    first_digit zero s = inl (refl, refl, refl)
    first_digit (suc n) s = inr (omega arith)

    positive :
        {d : ℕ} {t u : String} → n / 10 ≢ 0 → ((n / 10 ≡ 0) × (d ≡ 0) × (t ≡ u)) ⊎ (0 < d) → 0 < d
    positive more (inl (z, d0, e)) = absurd (more z)
    positive more (inr h) = h

decimal_lem :
    (n d : ℕ) (t u : String)
    → u ≡ String.◌∷◌ (digit_char d) t
    → d < 10
    → (n ≡ 0) ⊎ (0 < d)
    → read_digits 10 (nothing_read false) u ≡ some n
    → read_decimal u ≡ some n
unfolding read_decimal
decimal_lem n d t u e h which h' = rw e (rw (rw e at h') (no_zero which))
  where
    no_zero : (n ≡ 0) ⊎ (0 < d) → no_leading_zero (code (digit_char d) == b'0') n ≡ some n
    no_zero (inl z) = ground (arith, z)
    no_zero (inr positive) = simp (digit_zero d (omega (arith, h)) positive)

number_lem :
    (n d : ℕ) (t : String)
    → d < 10
    → ((n ≡ 0) × (d ≡ 0) × (t ≡ "")) ⊎ (0 < d)
    → read_decimal (String.◌∷◌ (digit_char d) t) ≡ some n
    → read_number (String.◌∷◌ (digit_char d) t) ≡ some n
unfolding read_number
number_lem n d String.[] h which e = e
number_lem n d (String.◌∷◌ c t) h (inl (z, d0, empty)) e = absurd (cons≢nil empty)
number_lem n d (String.◌∷◌ c t) h (inr positive) e =
    let no_prefix : (if code (digit_char d) == b'0' then base_of (code c) else none) ≡ none =
      simp (digit_zero d (omega (arith, h)) positive) in
    rw no_prefix e

zero_or : {n d : ℕ} {t s : String} → ((n ≡ 0) × (d ≡ 0) × (t ≡ s)) ⊎ (0 < d) → (n ≡ 0) ⊎ (0 < d)
zero_or (inl (z, d0, e)) = inl z
zero_or (inr h) = inr h

read_number-put_digits : (n : ℕ) → read_number (put_digits 10 (suc n) n "") ≡ some n
read_number-put_digits n =
    let (d, t, e, h, which) = put_digits-Begins (suc n) n "" (omega arith) in
    let digits =
      read_digits-put_digits 10 (omega arith) (omega arith) (suc n) n (nothing_read false) "" refl
        (omega arith) in
    let decimal =
      decimal_lem n d t (put_digits 10 (suc n) n "") e h (zero_or which)
        (digits ∙ read_digits_end 10 n) in
    rw e (number_lem n d t h which (rw e at decimal))

unsigned :
    (d : ℕ) (t : String)
    → d < 16
    → read_signed (String.◌∷◌ (digit_char d) t)
      ≡ signed pos (read_number (String.◌∷◌ (digit_char d) t))
unfolding read_signed
unsigned d t h = let (space, minus, plus) = digit_tests d h in simp (minus, plus)

signed_digits : (n : ℕ) → read_signed (put_digits 10 (suc n) n "") ≡ some (pos n)
signed_digits n =
    let (d, t, e, h, which) = put_digits-Begins (suc n) n "" (omega arith) in
    rw e (unsigned d t (omega (arith, h)) ∙ ap (signed pos) (rw e at (read_number-put_digits n)))

to_text-IsPlain : (number : ℤ) → IsPlain (to_text number)
unfolding to_text is_space
to_text-IsPlain (pos n) =
    put_digits-IsPlain 10 (suc n) n "" (omega arith) (omega arith) (omega arith) tt
to_text-IsPlain (negsuc n) = (
  refl,
  put_digits-IsPlain 10 (suc (suc n)) (suc n) "" (omega arith) (omega arith) (omega arith) tt,
)

-- The text of a number has no spaces to strip.
pub strip-to_text : (number : ℤ) → strip (to_text number) ≡ to_text number
strip-to_text number = strip_plain (to_text number) (to_text-IsPlain number)

read_signed-to_text : (number : ℤ) → read_signed (to_text number) ≡ some number
unfolding to_text read_signed
read_signed-to_text (pos n) = signed_digits n
read_signed-to_text (negsuc n) = rw (read_number-put_digits (suc n)) refl

-- Reading the decimal text of a number, of either sign, gives the number.
pub int_0-to_text : (number : ℤ) → int_0 (to_text number) ≡ some number
unfolding int_0
int_0-to_text number = rw (strip-to_text number) (read_signed-to_text number)
