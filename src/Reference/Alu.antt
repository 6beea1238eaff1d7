-- ===== src/Reference/Alu.antt =====
-- The reference of verif/unit/tb_alu.py, and the operation codes of verif/isa.py.
use rv32i_cpu.Base.{
  ℕ, ◌+◌, bit_and, bit_or, bit_xor, ltb, to_int, ◌<<<◌, ◌>>>◌, ◌≡◌, refl, ◌/◌, ◌%◌,
}
use rv32i_cpu.Base.Int.{pos, ◌-ℤ◌, and_ℤ, shr_ℤ, ltb_ℤ}
use rv32i_cpu.Bits.{mask32, to_signed}
use rv32i_cpu.Iss.Alu.{alu}

pub data AluOp : Type 0 where
  add sll slt sltu xor srl or and sub sra : AluOp

-- {funct7[5], funct3}
abbrev pub alu_ops : AluOp → ℕ
alu_ops add = 0b0000
alu_ops sll = 0b0001
alu_ops slt = 0b0010
alu_ops sltu = 0b0011
alu_ops xor = 0b0100
alu_ops srl = 0b0101
alu_ops or = 0b0110
alu_ops and = 0b0111
alu_ops sub = 0b1000
alu_ops sra = 0b1101

unfoldable pub reference : AluOp → ℕ → ℕ → ℕ
unfolding ◌-ℤ◌ and_ℤ shr_ℤ
reference add a b = bit_and (a + b) mask32
reference sub a b = and_ℤ (pos a -ℤ pos b) mask32
reference sll a b = bit_and (a <<< bit_and b 0x1f) mask32
reference slt a b = to_int (ltb_ℤ (to_signed a 32) (to_signed b 32))
reference sltu a b = to_int (ltb a b)
reference xor a b = bit_xor a b
reference srl a b = a >>> bit_and b 0x1f
reference sra a b = and_ℤ (shr_ℤ (to_signed a 32) (bit_and b 0x1f)) mask32
reference or a b = bit_or a b
reference and a b = bit_and a b

-- The golden model computes every ALU operation as the block's reference does, when it is given
-- the low three bits of the operation's code as funct3 and the top bit as bit 5 of funct7.
pub alu-reference :
    (op : AluOp) (a b : ℕ) → alu (alu_ops op % 8) (alu_ops op / 8) a b ≡ reference op a b
unfolding alu reference
alu-reference add a b = refl
alu-reference _ a b = refl
