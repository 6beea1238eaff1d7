-- ===== src/Asm/Digits.antt =====
-- The digits that verif/asm.py writes are the ones that it reads.
use Prim.Native.Char.{code}
use Prim.Native.String.{String}
use native.Mathlib.Nat.{div-add-mod, mod-lt, div-lt_self, pos_of_div-pos}
use rv32i_cpu.Base.{
  ℕ, zero, suc, ◌+◌, ◌*◌, ◌/◌, ◌%◌, ◌<◌, ◌≤◌, ◌≡◌, ◌≢◌, refl, ap, ◌∙◌, arith, true, false, some,
  ◌==◌, ltb, Bool-cases, inl, inr, ==_iff, all_below_lem, and_not, not, ◌&&◌,
}
use rv32i_cpu.Asm.Number.{digit_value, digit_char, Digits, read_digit, read_digits, put_digits}

digit_char_lem :
    (d : ℕ)
    → d < 16
    → ((code (digit_char d) == b'_') ≡ false) × (digit_value (code (digit_char d)) ≡ d)
unfolding digit_value digit_char
digit_char_lem d h =
    let holds =
      all_below_lem 16
        (λ d. not (code (digit_char d) == b'_') && digit_value (code (digit_char d)) == d) d refl
        h in
    let (plain, value) =
      and_not (code (digit_char d) == b'_') (digit_value (code (digit_char d)) == d) holds in
    (plain, (==_iff (digit_value (code (digit_char d))) d).0 value)

-- What is left to read behind digits of value `n`.
abbrev pub so_far : ℕ → Digits
so_far n = record { value = n; score = true; end = true }

pub read_digits_end : (base n : ℕ) → read_digits base (so_far n) "" ≡ some n
unfolding read_digits
read_digits_end base n = refl

module _ (base : ℕ) (low : 2 ≤ base) (high : base ≤ 16) where
  digit_read :
      (r : Digits) (d : ℕ)
      → d < base
      → read_digit base r (code (digit_char d)) ≡ some (so_far (r.value * base + d))
  unfolding read_digit
  digit_read r d h =
      let (plain, value) = digit_char_lem d (omega arith) in
      let fits : ltb d base ≡ true = ground arith in simp (plain, value, fits)

  pub read_digits-digit_char :
      (r : Digits) (d : ℕ) (s : String)
      → d < base
      → read_digits base r (String.◌∷◌ (digit_char d) s)
        ≡ read_digits base (so_far (r.value * base + d)) s
  unfolding read_digits
  read_digits-digit_char r d s h = simp (digit_read r d h)

  pub below : (n fuel : ℕ) → n < suc fuel → n / base ≢ 0 → n / base < fuel
  below n fuel h more =
      let large : 0 < n / base = ground (arith, more) in
      let less : n / base < n = div-lt_self (pos_of_div-pos base large) low in omega (arith, less)

  pub written_last : (n : ℕ) → n / base ≡ 0 → n < base
  written_last n h =
      let e : base * (n / base) + n % base ≡ n = div-add-mod n base in
      let l : n % base < base = mod-lt n (omega (arith, low)) in omega (arith, rw h at e)

  -- Reading what was written gives the number, whatever follows.
  pub read_digits-put_digits :
      (fuel n : ℕ) (r : Digits) (s : String)
      → r.value ≡ 0
      → n < fuel
      → read_digits base r (put_digits base fuel n s) ≡ read_digits base (so_far n) s
  unfolding put_digits
  read_digits-put_digits zero n r s z h = absurd (omega arith)
  read_digits-put_digits (suc fuel) n r s z h = elim (Bool-cases (n / base == 0)) [
    | inl one ↦
        let e : r.value * base + n ≡ n = rw z (omega arith) in
        rw (put_digits, one)
          (read_digits-digit_char r n s (written_last n (ground arith))
            ∙ ap (λ m. read_digits base (so_far m) s) e)
    | inr more ↦
        rw (put_digits, more)
          (read_digits-put_digits fuel (n / base) r (String.◌∷◌ (digit_char (n % base)) s) z
              (below n fuel h (λ z. ground (arith, z)))
            ∙ read_digits-digit_char (so_far (n / base)) (n % base) s
                (mod-lt n (omega (arith, low)))
            ∙ ap (λ m. read_digits base (so_far m) s) (omega (arith, div-add-mod n base)))
  ]
