-- ===== src/Iss/Memory/Lanes.antt =====
-- The lanes of a word: a store of verif/iss.py replaces `k` bits of the word at a shift `s`.
use native.Mathlib.Nat.{one-le-pow, mul-mod_left}
use rv32i_cpu.Base.{
  ℕ, zero, suc, ◌+◌, ◌-◌, ◌*◌, ◌/◌, ◌%◌, ◌^◌, ◌≤◌, ◌<◌, ◌≡◌, ap, ◌∙◌, arith, bit_and, bit_or, ◌!=◌,
  ◌&&◌, ltb, leb, if◌then◌else◌,
}
use rv32i_cpu.Base.BitOps.{and_not, and_low, and_shifted, or_shifted, or_add}
use rv32i_cpu.Bits.{mask32}
use rv32i_cpu.Iss.Memory.{write_lane}

-- `word` with the `k` bits from bit `s` on replaced by the low bits of `value`.
abbrev pub put : ℕ → ℕ → ℕ → ℕ → ℕ
put k s word value = word - word / 2 ^ s % 2 ^ k * 2 ^ s + value % 2 ^ k * 2 ^ s

div_part : (a d r : ℕ) → r < d → (a * d + r) / d ≡ a
div_part a d r h = grind arith

mod_part : (a d r : ℕ) → r < d → (a * d + r) % d ≡ r
mod_part a d r h = grind arith

-- A number up to `2^k` is not changed by the mask of `k` bits.
pub and_mask-small : (word : ℕ) → word < 2 ^ 32 → bit_and word mask32 ≡ word
and_mask-small word h = omega (arith, and_low 32 word)

-- Clearing the field leaves a multiple of `2^k` above bit `s`, and the bits below `s`.
cleared :
    (k s word : ℕ)
    → word - word / 2 ^ s % 2 ^ k * 2 ^ s ≡ word / 2 ^ s / 2 ^ k * 2 ^ k * 2 ^ s + word % 2 ^ s
cleared k s word =
    let q = word / 2 ^ s in
    let split : q ≡ q / 2 ^ k * 2 ^ k + q % 2 ^ k = omega (arith, one-le-pow k 2) in
    omega (arith, one-le-pow s 2, ap (λ (t : ℕ). t * 2 ^ s) split)

pub replace_field :
    (k s word value : ℕ)
    → word < 2 ^ 32
    → bit_or
        (bit_and (and_not word ((2 ^ k - 1) * 2 ^ s)) mask32)
        (bit_and value (2 ^ k - 1) * 2 ^ s)
      ≡ put k s word value
unfolding and_not
replace_field k s word value h =
    let high = word / 2 ^ s / 2 ^ k * 2 ^ k in
    let rest = word % 2 ^ s in
    let below : rest < 2 ^ s = ground (arith, one-le-pow s 2) in
    let small : high * 2 ^ s + rest < 2 ^ 32 = omega (arith, cleared k s word) in
    rw
      (
        and_shifted s (2 ^ k - 1) word,
        and_low k (word / 2 ^ s),
        cleared k s word,
        and_low k value,
        and_mask-small (high * 2 ^ s + rest) small,
        or_shifted s (high * 2 ^ s + rest) (value % 2 ^ k),
        div_part high (2 ^ s) rest below,
        mod_part high (2 ^ s) rest below,
        or_add k high (value % 2 ^ k) (mul-mod_left _ _) (ground (arith, one-le-pow k 2)),
      )
      (omega arith)

-- The two halfwords, by bit 1 of the address.
pub bit_one : (addr : ℕ) → bit_and addr 2 ≡ addr / 2 % 2 * 2
bit_one addr = and_shifted 1 1 addr ∙ ap (λ t. t * 2) (and_low 1 (addr / 2))

pub write_lane-byte :
    (word addr value : ℕ)
    → word < 2 ^ 32
    → write_lane word 0 addr value ≡ put 8 (8 * (addr % 4)) word value
unfolding write_lane
write_lane-byte word addr value h =
    rw (and_low 2 addr) (replace_field 8 (8 * (addr % 4)) word value h)

half_shift : (addr : ℕ) → addr % 2 ≡ 0 → (if addr / 2 % 2 * 2 != 0 then 16 else 0) ≡ 8 * (addr % 4)
half_shift addr even = ground arith

pub write_lane-half :
    (word addr value : ℕ)
    → word < 2 ^ 32
    → addr % 2 ≡ 0
    → write_lane word 1 addr value ≡ put 16 (8 * (addr % 4)) word value
unfolding write_lane
write_lane-half word addr value h even =
    rw (bit_one addr, half_shift addr even) (replace_field 16 (8 * (addr % 4)) word value h)

pub write_lane-word :
    (word funct3 addr value : ℕ) → 2 ≤ funct3 → write_lane word funct3 addr value ≡ value % 2 ^ 32
unfolding write_lane
write_lane-word word funct3 addr value h = ground (arith, and_low 32 value)

-- Byte `j` of a word, from the low end.
abbrev pub lane : ℕ → ℕ → ℕ
lane word j = word / 2 ^ (8 * j) % 2 ^ 8

-- The lanes after `n` bytes at lane `o` have been replaced.
abbrev pub lanes_after : ℕ → ℕ → ℕ → ℕ → ℕ → ℕ
lanes_after n o word value j = if leb o j && ltb j (o + n) then lane value (j - o) else lane word j

pub lane-put_byte :
    (o j word value : ℕ)
    → o < 4
    → j < 4
    → word < 2 ^ 32
    → lane (put 8 (8 * o) word value) j ≡ lanes_after 1 o word value j
lane-put_byte (suc (suc (suc (suc o)))) j word value h h' hw = absurd (omega arith)
lane-put_byte zero (suc (suc (suc (suc j)))) word value h h' hw = absurd (omega arith)
lane-put_byte (suc zero) (suc (suc (suc (suc j)))) word value h h' hw = absurd (omega arith)
lane-put_byte (suc (suc zero)) (suc (suc (suc (suc j)))) word value h h' hw = absurd (omega arith)
lane-put_byte (suc (suc (suc zero))) (suc (suc (suc (suc j)))) word value h h' hw =
    absurd (omega arith)
lane-put_byte _ _ word value h h' hw = omega arith

pub lane-put_half :
    (o j word value : ℕ)
    → o < 4
    → o % 2 ≡ 0
    → j < 4
    → word < 2 ^ 32
    → lane (put 16 (8 * o) word value) j ≡ lanes_after 2 o word value j
lane-put_half (suc (suc (suc o))) j word value h even h' hw = absurd (omega arith)
lane-put_half (suc zero) j word value h even h' hw = absurd (omega arith)
lane-put_half zero (suc (suc (suc (suc j)))) word value h even h' hw = absurd (omega arith)
lane-put_half (suc (suc zero)) (suc (suc (suc (suc j)))) word value h even h' hw =
    absurd (omega arith)
lane-put_half _ _ word value h even h' hw = omega arith

pub lane-put_word :
    (j word value : ℕ) → j < 4 → lane (value % 2 ^ 32) j ≡ lanes_after 4 0 word value j
lane-put_word (suc (suc (suc (suc j)))) word value h = absurd (omega arith)
lane-put_word _ word value h = omega arith
