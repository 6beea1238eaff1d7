-- ===== src/Core/Agree.antt =====
-- What the blocks of the core compute, in terms of the golden model.
use rv32i_cpu.Base.{
  ℕ, zero, suc, ◌+◌, ◌*◌, ◌/◌, ◌^◌, ◌<◌, ◌≡◌, refl, ◌⊎◌, arith, List, false, ◌||◌, inl, inr, sym,
  ◌==◌, ◌!=◌, if◌then◌else◌, bit_and, bit_or, get_or,
}
use rv32i_cpu.Base.Int.{ℤ, pos, ◌-ℤ◌, and_ℤ, shr_ℤ}
use rv32i_cpu.Base.BitOps.{and_low, and_ℤ_low, and-lt, or-lt, xor-lt, or_add}
use rv32i_cpu.Bits.{mask32, to_signed}
use rv32i_cpu.Iss.Alu.{alu, branch_taken}
use rv32i_cpu.Bits.Laws.{sign_extend-lt}
use rv32i_cpu.Iss
use rv32i_cpu.Iss.State.{Iss}
use rv32i_cpu.Iss.Decode.{imm_i, imm_s, imm_b, imm_u, imm_j}
use rv32i_cpu.Iss.Memory.Bytes.{IsMemory, word_at-lt}
use rv32i_cpu.Reference.Alu
use rv32i_cpu.Reference.Branch
use rv32i_cpu.Reference.Imm.{ref_imm}
use rv32i_cpu.Reference.Memory
use rv32i_cpu.Core.Blocks.{alu_block, branch_block, imm_block, read_port}

and_ℤ-lt : (z : ℤ) → and_ℤ z mask32 < 2 ^ 32
and_ℤ-lt z = ground (arith, and_ℤ_low 32 z)

-- A result of the golden ALU is a word.
pub alu-lt : (funct3 bit5 a b : ℕ) → a < 2 ^ 32 → b < 2 ^ 32 → alu funct3 bit5 a b < 2 ^ 32
unfolding alu
alu-lt funct3 bit5 a b ha hb = ground (
  arith,
  and-lt 32 a b ha,
  or-lt 32 a b ha hb,
  xor-lt 32 a b ha hb,
  and_ℤ-lt (pos a -ℤ pos b),
  and_ℤ-lt (shr_ℤ (to_signed a 32) (bit_and b 0x1f)),
  and_low 32 (a + b),
  and_low 32 (a * 2 ^ bit_and b 0x1f),
)

plain_codes : (funct3 a b : ℕ) → funct3 < 8 → alu_block (0 * 8 + funct3) a b ≡ alu funct3 0 a b
unfolding alu_block alu Alu.reference
plain_codes (suc (suc (suc (suc (suc (suc (suc (suc n)))))))) a b h = absurd (omega arith)
plain_codes _ a b h = refl

other_codes :
    (funct3 a b : ℕ)
    → (funct3 ≡ 0) ⊎ (funct3 ≡ 5)
    → alu_block (1 * 8 + funct3) a b ≡ alu funct3 1 a b
unfolding alu_block alu Alu.reference
other_codes funct3 a b (inl e) = rw e
other_codes funct3 a b (inr e) = rw e

-- The code that the decoder makes of bit 5 of funct7 and funct3 selects the operation that the
-- golden ALU performs.
pub alu_block-alu :
    (funct3 bit5 a b : ℕ)
    → funct3 < 8
    → bit5 < 2
    → (bit5 ≡ 0) ⊎ ((funct3 ≡ 0) ⊎ (funct3 ≡ 5))
    → alu_block (bit_or (bit5 * 8) funct3) a b ≡ alu funct3 bit5 a b
alu_block-alu funct3 zero a b h h5 legal =
    rw (or_add 3 (0 * 8) funct3 (omega arith) h) (plain_codes funct3 a b h)
alu_block-alu funct3 (suc zero) a b h h5 (inl e) = cc
alu_block-alu funct3 (suc zero) a b h h5 (inr e) =
    rw (or_add 3 (1 * 8) funct3 (omega arith) h) (other_codes funct3 a b e)
alu_block-alu funct3 (suc (suc n)) a b h h5 legal = absurd (omega arith)

-- The code of an operation that reads no bit of funct7 is its funct3.
pub alu_block-plain : (funct3 a b : ℕ) → funct3 < 8 → alu_block funct3 a b ≡ alu funct3 0 a b
alu_block-plain funct3 a b h =
    let e : 0 * 8 + funct3 ≡ funct3 = omega arith in rw e at (plain_codes funct3 a b h)

pub alu_block-add : (a b : ℕ) → alu_block 0 a b ≡ bit_and (a + b) mask32
unfolding alu_block Alu.reference
alu_block-add a b = refl

pub branch_block-taken :
    (funct3 a b : ℕ)
    → funct3 < 8
    → (funct3 == 2 || funct3 == 3) ≡ false
    → branch_block funct3 a b ≡ branch_taken funct3 a b
unfolding branch_block branch_taken Branch.reference
branch_block-taken (suc (suc zero)) a b h legal = cc
branch_block-taken (suc (suc (suc zero))) a b h legal = cc
branch_block-taken (suc (suc (suc (suc (suc (suc (suc (suc n)))))))) a b h legal =
    absurd (omega arith)
branch_block-taken _ a b h legal = refl

-- The formats of the immediate generator are the immediates of the golden model.
pub imm_block-imm :
    (inst : ℕ)
    → (imm_block 0 inst ≡ imm_i inst)
      × (imm_block 1 inst ≡ imm_s inst)
      × (imm_block 2 inst ≡ imm_b inst)
      × (imm_block 3 inst ≡ imm_u inst)
      × (imm_block 4 inst ≡ imm_j inst)
unfolding imm_block ref_imm imm_i imm_s imm_b imm_u imm_j
imm_block-imm inst = (refl, refl, refl, refl, refl)

-- A read port gives the register, since the register file keeps x0 zero.
pub read_port-get_or :
    (regs : List ℕ) (addr : ℕ) → get_or regs 0 0 ≡ 0 → read_port regs addr ≡ get_or regs addr 0
unfolding read_port
read_port-get_or regs zero h = sym h
read_port-get_or regs (suc n) h = ground arith

-- The memory model of the testbench is that of the golden model.
module _ (s : Iss) (op addr value : ℕ) where
  pub memory_misaligned : Memory.misaligned op addr ≡ Iss.Memory.misaligned op addr
  unfolding Memory.misaligned Iss.Memory.misaligned
  memory_misaligned = refl

  pub memory_load : Memory.load s.words s.mem op addr ≡ Iss.Memory.load s op addr
  unfolding Memory.load Iss.Memory.load
  memory_load = refl

  pub memory_store :
      Iss.Memory.misaligned op addr ≡ false
      → Memory.store s.words s.mem op addr value ≡ (Iss.Memory.store s op addr value).mem
  unfolding Memory.store Iss.Memory.store Iss.Memory.misaligned
  memory_store aligned = simp aligned

-- A loaded value is a word.
pub load-lt : (s : Iss) (op addr : ℕ) → IsMemory s → Iss.Memory.load s op addr < 2 ^ 32
unfolding Iss.Memory.load
load-lt s op addr m =
    let word = get_or s.mem (Iss.Memory.index s addr) 0 in
    let lane_b = bit_and (word / 2 ^ (8 * bit_and addr 3)) 0xff in
    let lane_h =
      if bit_and addr 2 != 0 then bit_and (word / 2 ^ 16) 0xffff else bit_and word 0xffff in
    ground (
      arith,
      sign_extend-lt 7 lane_b,
      sign_extend-lt 15 lane_h,
      and_low 8 (word / 2 ^ (8 * bit_and addr 3)),
      and_low 16 (word / 2 ^ 16),
      and_low 16 word,
      word_at-lt s (Iss.Memory.index s addr) m,
    )
