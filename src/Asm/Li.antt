-- ===== src/Asm/Li.antt =====
-- The pseudo-instruction `li` of verif/asm.py: the immediates of the instructions that it becomes.
pub mod Words
pub mod Runs
use rv32i_cpu.Base.{
  ℕ, ◌+◌, ◌*◌, ◌/◌, ◌%◌, ◌^◌, ◌≤◌, ◌<◌, ◌≡◌, refl, ◌∙◌, arith, ◌&&◌, bit_and, ltb, leb, ◌==◌,
  if◌then◌else◌, ◌>>>◌, ◌<<<◌, List, [], ◌∷◌, Bool-cases, inl, inr,
}
use rv32i_cpu.Base.Int.{ℤ, pos, negsuc, ◌-ℤ◌, ◌+ℤ◌, ◌≤ℤ◌, and_ℤ, mod_ℤ}
use rv32i_cpu.Base.BitOps.{and_low, and_ℤ_low}
use rv32i_cpu.Bits.{mask32}
use rv32i_cpu.Isa.{i_type, u_type, op_imm, op_lui}

-- One `addi` from x0, or `lui` and `addi`.
pub data Loaded : Type 0 where
  one : ℤ → Loaded
  two : ℕ → ℤ → Loaded

-- The upper immediate, bumped by one when the low half is negative.
abbrev pub upper_part : ℕ → ℕ
upper_part value = bit_and ((value + 0x800) >>> 12) 0xfffff

unfoldable pub lower_part : ℕ → ℤ
unfolding ◌-ℤ◌ ◌+ℤ◌ and_ℤ
lower_part value =
    let lower = pos value -ℤ pos (upper_part value <<< 12) in
    pos (and_ℤ (lower +ℤ pos 0x800) 0xfff) -ℤ pos 0x800

unfoldable pub li_word : ℕ → Loaded
unfolding ◌-ℤ◌ lower_part
li_word value =
    let low = bit_and value 0xfff in
    if ltb low 0x800 && (value >>> 12) == 0
    then one (pos value)
    else if leb 0x800 low && (value >>> 12) == 0xfffff
    then one (pos low -ℤ pos 0x1000)
    else two (upper_part value) (lower_part value)

unfoldable pub li : ℤ → Loaded
unfolding and_ℤ li_word
li number = li_word (and_ℤ number 0xffff_ffff)

-- What the instructions leave in the register: the sum of their immediates, as a word.
abbrev pub loaded_value : Loaded → ℕ
loaded_value (one low) = and_ℤ low mask32
loaded_value (two upper low) = bit_and (upper * 2 ^ 12 + and_ℤ low mask32) mask32

abbrev pub IsEncodable : Loaded → Type 0
IsEncodable (one low) = (negsuc 2047 ≤ℤ low) × (low ≤ℤ pos 2047)
IsEncodable (two upper low) = (upper < 2 ^ 20) × (negsuc 2047 ≤ℤ low) × (low ≤ℤ pos 2047)

abbrev Loads : ℕ → Loaded → Type 0
Loads value r = (loaded_value r ≡ value) × IsEncodable r

lower-mod :
    (v u : ℕ)
    → v < 2 ^ 32
    → u ≡ (v + 2048) / 2 ^ 12 % 2 ^ 20
    → mod_ℤ (pos v -ℤ pos (u * 2 ^ 12) +ℤ pos 2048) (2 ^ 12) ≡ (v + 2048) % 2 ^ 12
unfolding ◌-ℤ◌ ◌+ℤ◌
lower-mod v u h e = ground arith

lower_part_lem : (v : ℕ) → v < 2 ^ 32 → lower_part v ≡ pos ((v + 2048) % 2 ^ 12) -ℤ pos 2048
unfolding lower_part
lower_part_lem v h =
    let u = upper_part v in
    let e : u ≡ (v + 2048) / 2 ^ 12 % 2 ^ 20 = and_low 20 ((v + 2048) / 2 ^ 12) in
    rw (and_ℤ_low 12 (pos v -ℤ pos (u * 2 ^ 12) +ℤ pos 2048), lower-mod v u h e) refl

two-Loads : (v : ℕ) → v < 2 ^ 32 → Loads v (two (upper_part v) (lower_part v))
unfolding ◌-ℤ◌
two-Loads v h =
    let r = (v + 2048) % 2 ^ 12 in
    let u = upper_part v in
    let e : u ≡ (v + 2048) / 2 ^ 12 % 2 ^ 20 = and_low 20 ((v + 2048) / 2 ^ 12) in
    rw
      (
        lower_part_lem v h,
        and_ℤ_low 32 (pos r -ℤ pos 2048),
        and_low 32 (u * 2 ^ 12 + mod_ℤ (pos r -ℤ pos 2048) (2 ^ 32)),
        e,
      )
      (ground arith)

one_low :
    (v : ℕ)
    → v / 2 ^ 12 ≡ 0xfffff
    → 0x800 ≤ bit_and v 0xfff
    → Loads v (one (pos (bit_and v 0xfff) -ℤ pos 0x1000))
unfolding ◌-ℤ◌
one_low v top low =
    rw (and_ℤ_low 32 (pos (bit_and v 0xfff) -ℤ pos 0x1000)) (ground (arith, and_low 12 v))

li_word-Loads : (v : ℕ) → v < 2 ^ 32 → Loads v (li_word v)
unfolding li_word
li_word-Loads v h = elim (Bool-cases (ltb (bit_and v 0xfff) 0x800 && (v >>> 12) == 0)) [
  | inl small ↦ rw small (ground (arith, and_low 12 v, and_low 32 v))
  | inr big ↦ rw big (elim (Bool-cases (leb 0x800 (bit_and v 0xfff) && (v >>> 12) == 0xfffff)) [
    | inl negative ↦ rw negative (one_low v (ground arith) (ground arith))
    | inr wide ↦ rw wide (two-Loads v h)
  ])
]

pub li-Loads :
    (number : ℤ) → (loaded_value (li number) ≡ and_ℤ number mask32) × IsEncodable (li number)
unfolding li
li-Loads number = li_word-Loads (and_ℤ number mask32) (ground (arith, and_ℤ_low 32 number))

-- The words of the instructions that load register `rd`.
abbrev pub loading_words : ℕ → Loaded → List ℕ
loading_words rd (one low) = i_type low 0 0 rd op_imm ∷ []
loading_words rd (two upper low) = u_type (pos upper) rd op_lui ∷ i_type low rd 0 rd op_imm ∷ []
