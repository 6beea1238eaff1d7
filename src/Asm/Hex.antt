-- ===== src/Asm/Hex.antt =====
-- What `to_hex` of verif/asm.py writes for `$readmemh`.
use Prim.Native.Char.{code}
use Prim.Native.String.{String, count, ◌++◌}
use text.Mathlib.TextLemmas.{nil-append, cons-append, append_assoc, length-cons}
use rv32i_cpu.Base.{
  ℕ, zero, suc, ◌+◌, ◌-◌, ◌*◌, ◌/◌, ◌%◌, ◌^◌, ◌<◌, ◌≤◌, ◌≡◌, refl, ap, ◌∙◌, arith, true, false,
  List, [], ◌∷◌, some, ◌==◌, Bool-cases, inl, inr, All,
}
use rv32i_cpu.Asm.Text.{is_space, ends_line, split_lines}
use rv32i_cpu.Asm.Number.{digit_char, Digits, nothing_read, read_digits, put_digits}
use rv32i_cpu.Asm.Digits.{so_far, read_digits_end, read_digits-put_digits, read_digits-digit_char}
use rv32i_cpu.Asm.Texts.{IsPlain, put_digits-IsPlain}
use rv32i_cpu.Asm.Source.{put_zeros, hex_digits, hex_line, to_hex}

no_end : (c : ℕ) → is_space c ≡ false → ends_line c ≡ false
unfolding is_space
no_end c h = ground (arith, h)

not_newline : (c : ℕ) → ends_line c ≡ false → ((c == b'\r') ≡ false) × ((c == b'\n') ≡ false)
not_newline c h = ground (arith, h)

split_plain :
    (s rest : String)
    → IsPlain s
    → split_lines false (s ++ String.◌∷◌ "\n" rest) ≡ s ∷ split_lines false rest
unfolding split_lines
split_plain String.[] rest h = rw (nil-append (String.◌∷◌ "\n" rest)) refl
split_plain (String.◌∷◌ c s) rest h =
    let e = no_end (code c) h.0 in
    rw (cons-append c s (String.◌∷◌ "\n" rest))
      (simp (split_plain s rest h.1, (not_newline (code c) e).0, e))

put_zeros-IsPlain : (k : ℕ) (s : String) → IsPlain s → IsPlain (put_zeros k s)
unfolding is_space
put_zeros-IsPlain zero s h = h
put_zeros-IsPlain (suc k) s h = (refl, put_zeros-IsPlain k s h)

read_zero :
    (r : Digits) (s : String)
    → read_digits 16 r (String.◌∷◌ "0" s) ≡ read_digits 16 (so_far (r.value * 16 + 0)) s
unfolding digit_char
read_zero r s = read_digits-digit_char 16 (omega arith) (omega arith) r 0 s (omega arith)

read_zeros :
    (k : ℕ) (r : Digits) (n : ℕ)
    → r.value ≡ 0
    → read_digits 16 r (put_zeros k (hex_digits n)) ≡ some n
unfolding hex_digits
read_zeros zero r n z =
    read_digits-put_digits 16 (omega arith) (omega arith) (suc n) n r "" z (omega arith)
    ∙ read_digits_end 16 n
read_zeros (suc k) r n z =
    let e : r.value * 16 + 0 ≡ 0 = rw z refl in
    read_zero r (put_zeros k (hex_digits n)) ∙ read_zeros k (so_far (r.value * 16 + 0)) n e

-- The digits of a word in eight places.
abbrev pub padded_hex : ℕ → String
unfolding hex_digits
padded_hex w = put_zeros (8 - count (hex_digits w)) (hex_digits w)

hex_digits-IsPlain : (w : ℕ) → IsPlain (hex_digits w)
unfolding hex_digits
hex_digits-IsPlain w =
    put_digits-IsPlain 16 (suc w) w "" (omega arith) (omega arith) (omega arith) tt

split-to_hex :
    (w : ℕ) (words : List ℕ)
    → split_lines false (to_hex (w ∷ words)) ≡ padded_hex w ∷ split_lines false (to_hex words)
unfolding to_hex hex_line
split-to_hex w words =
    let p = padded_hex w in
    let rest = to_hex words in
    let joined : (p ++ "\n") ++ rest ≡ p ++ String.◌∷◌ "\n" rest =
      append_assoc p "\n" rest
      ∙ ap (◌++◌ p) (cons-append "\n" "" rest ∙ ap (String.◌∷◌ "\n") (nil-append rest)) in
    rw joined (
      split_plain p rest
        (put_zeros-IsPlain (8 - count (hex_digits w)) (hex_digits w) (hex_digits-IsPlain w)))

-- The numbers of `k + 1` digits are those below this.
abbrev room : ℕ → ℕ
room zero = 16
room (suc k) = 16 * room k

count_digits :
    (k fuel n : ℕ) (s : String)
    → n < fuel
    → n < room k
    → count (put_digits 16 fuel n s) ≤ suc k + count s
unfolding put_digits
count_digits k zero n s h small = absurd (omega arith)
count_digits zero (suc fuel) n s h small =
    let one : (n / 16 == 0) ≡ true = ground arith in rw (put_digits, one, length-cons) (omega arith)
count_digits (suc k) (suc fuel) n s h small = elim (Bool-cases (n / 16 == 0)) [
  | inl one ↦ rw (put_digits, one, length-cons) (omega arith)
  | inr more ↦
      let rest = String.◌∷◌ (digit_char (n % 16)) s in
      rw (put_digits, more)
        (omega (
          arith,
          count_digits k fuel (n / 16) rest (ground arith) (omega (arith, small)),
          length-cons (digit_char (n % 16)) s,
        ))
]

count_zeros : (k : ℕ) (s : String) → count (put_zeros k s) ≡ k + count s
count_zeros zero s = omega arith
count_zeros (suc k) s = rw length-cons (omega (arith, count_zeros k s))

padded_hex_lem :
    (w : ℕ)
    → w < 2 ^ 32
    → (read_digits 16 (nothing_read false) (padded_hex w) ≡ some w) × (count (padded_hex w) ≡ 8)
unfolding hex_digits
padded_hex_lem w h =
    let few : count (hex_digits w) ≤ 8 =
      omega (arith, count_digits 7 (suc w) w "" (omega arith) (omega (arith, h))) in
    (
      read_zeros (8 - count (hex_digits w)) (nothing_read false) w refl,
      omega (arith, count_zeros (8 - count (hex_digits w)) (hex_digits w), few),
    )

-- The lines hold the words, in eight digits each.
abbrev pub Holds : List String → List ℕ → Type 0
Holds [] [] = Unit
Holds (line ∷ lines) (w ∷ words) =
    (read_digits 16 (nothing_read false) line ≡ some w) × (count line ≡ 8) × Holds lines words
Holds _ _ = ⊥

-- The text that is written for words of 32 bits has one line for each, of eight hexadecimal
-- digits, which read back to the word.
pub to_hex-Holds :
    (words : List ℕ) → All (λ w. w < 2 ^ 32) words → Holds (split_lines false (to_hex words)) words
unfolding to_hex split_lines
to_hex-Holds [] h = tt
to_hex-Holds (w ∷ words) h =
    let p = padded_hex_lem w h.0 in rw (split-to_hex w words) (p.0, p.1, to_hex-Holds words h.1)
