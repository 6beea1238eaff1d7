-- ===== src/Bits/Laws.antt =====
-- The functions of verif/bits.py as arithmetic, and what two's complement promises.
use native.Mathlib.Nat.{pow-suc, one-le-pow, pow-le-pow_right, mod-mod, mod-eq_of_lt}
use native.Mathlib.Decide.{dec_lt}
use rv32i_cpu.Base.{
  ℕ, zero, suc, ◌+◌, ◌-◌, ◌/◌, ◌%◌, ◌^◌, ◌≤◌, ◌<◌, ◌≡◌, bit_and, ltb, leb, ◌!=◌, arith,
  if◌then◌else◌,
}
use rv32i_cpu.Base.Int.{ℤ, pos, negsuc, and_ℤ, ◌≤ℤ◌}
use rv32i_cpu.Base.BitOps.{and_low, and_ℤ_low}
use rv32i_cpu.Bits.{bits, to_signed, sign_extend}

pub bits_lem : (v hi lo : ℕ) → bits v hi lo ≡ v / 2 ^ lo % 2 ^ (hi - lo + 1)
unfolding bits
bits_lem v hi lo = and_low (hi - lo + 1) (v / 2 ^ lo)

-- The number that `k + 1` bits stand for, without bit operations.
abbrev pub signed_value : ℕ → ℕ → ℤ
signed_value k v =
    if ltb (v % 2 ^ suc k) (2 ^ k)
    then pos (v % 2 ^ suc k)
    else negsuc (2 ^ suc k - v % 2 ^ suc k - 1)

div-eq-zero : (u p : ℕ) → u < p → u / p ≡ 0
div-eq-zero u p h = grind arith

div-pos : (u p : ℕ) → 0 < p → p ≤ u → 0 < u / p
div-pos u p hp h = grind arith

sign_test : (u p : ℕ) → 0 < p → (u / p != 0) ≡ leb p u
sign_test u p h = elim (dec_lt u p) [
  | yes below ↦ rw (div-eq-zero u p below) (ground arith)
  | no above ↦ ground (arith, div-pos u p h)
]

pub to_signed_value : (k v : ℕ) → to_signed v (suc k) ≡ signed_value k v
unfolding to_signed
to_signed_value k v =
    let low : suc k - 1 ≡ k = omega arith in
    rw (and_low (suc k) v, low, sign_test (v % 2 ^ suc k) (2 ^ k) (one-le-pow k 2 (omega arith)))
      (ground (arith, pow-suc 2 k, one-le-pow k 2))

-- `sign_extend` at `k + 1` bits, as a sum: the sign moves a value up by `2^32 - 2^(k+1)`.
abbrev pub extended : ℕ → ℕ → ℕ
extended k v =
    if ltb (v % 2 ^ suc k) (2 ^ k) then v % 2 ^ suc k else v % 2 ^ suc k + (2 ^ 32 - 2 ^ suc k)

pow-le-word : (k : ℕ) → k < 32 → 2 ^ suc k ≤ 2 ^ 32
pow-le-word k h = pow-le-pow_right (omega arith) h

pub sign_extend_sum : (k v : ℕ) → k < 32 → sign_extend v (suc k) ≡ extended k v
unfolding sign_extend
sign_extend_sum k v h =
    rw (to_signed_value k v, and_ℤ_low 32 (signed_value k v))
      (ground (arith, pow-suc 2 k, one-le-pow k 2, pow-le-word k h))

pub sign_extend-lt : (k v : ℕ) → k < 32 → sign_extend v (suc k) < 2 ^ 32
sign_extend-lt k v h =
    rw (sign_extend_sum k v h) (ground (arith, pow-suc 2 k, one-le-pow k 2, pow-le-word k h))

-- A field of `width` bits, at least 1, read as two's complement is in the range of that width and
-- has the field's bits.
pub to_signed_bounds :
    (value width : ℕ)
    → 1 ≤ width
    → (negsuc (2 ^ (width - 1) - 1) ≤ℤ to_signed value width)
      × (to_signed value width ≤ℤ pos (2 ^ (width - 1) - 1))
      × (and_ℤ (to_signed value width) (2 ^ width - 1) ≡ bit_and value (2 ^ width - 1))
to_signed_bounds value zero h = absurd (omega arith)
to_signed_bounds value (suc k) h =
    let low : suc k - 1 ≡ k = omega arith in
    rw
      (
        to_signed_value k value,
        low,
        and_ℤ_low (suc k) (signed_value k value),
        and_low (suc k) value,
      )
      (ground (
        arith,
        pow-suc 2 k,
        one-le-pow k 2,
        mod-mod value (2 ^ suc k),
        mod-eq_of_lt {n = 2 ^ suc k - value % 2 ^ suc k - 1} {m = 2 ^ suc k},
      ))

-- Extending a field of `width` bits, from 1 to 32, to a word keeps the signed number it stands
-- for.
pub to_signed-sign_extend :
    (value width : ℕ)
    → 1 ≤ width
    → width ≤ 32
    → (to_signed (sign_extend value width) 32 ≡ to_signed value width)
      × (sign_extend value width < 2 ^ 32)
to_signed-sign_extend value zero h h' = absurd (omega arith)
to_signed-sign_extend value (suc k) h h' = (
  rw
      (
        to_signed_value 31 (sign_extend value (suc k)),
        to_signed_value k value,
        sign_extend_sum k value h',
      )
      (ground (arith, pow-suc 2 k, one-le-pow k 2, pow-le-word k h')),
  sign_extend-lt k value h',
)
