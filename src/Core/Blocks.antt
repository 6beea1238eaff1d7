-- ===== src/Core/Blocks.antt =====
-- The blocks of the core that compute without a state: rtl/alu.sv, rtl/branch_cmp.sv,
-- rtl/imm_gen.sv, and a read port of rtl/regfile.sv. Each has the default of its `case`.
use rv32i_cpu.Base.{
  ℕ, ◌+◌, List, Bool, false, to_int, bit_and, bit_or, bit_xor, ltb, leb, ◌==◌, ◌!=◌, ◌<<<◌, ◌>>>◌,
  if◌then◌else◌, get_or,
}
use rv32i_cpu.Base.Int.{pos, ◌-ℤ◌, and_ℤ, shr_ℤ, ltb_ℤ, leb_ℤ}
use rv32i_cpu.Bits.{mask32, bits, to_signed, sign_extend}
use rv32i_cpu.Reference.Alu.{AluOp, alu_ops}
use rv32i_cpu.Reference.Branch.{Branch, branches}
use rv32i_cpu.Reference.Imm.{Format, imm_sel}

unfoldable pub alu_block : ℕ → ℕ → ℕ → ℕ
unfolding ◌-ℤ◌ and_ℤ shr_ℤ
alu_block op a b =
    let shamt = bit_and b 0x1f in
    if op == alu_ops AluOp.add
    then bit_and (a + b) mask32
    else if op == alu_ops AluOp.sub
    then and_ℤ (pos a -ℤ pos b) mask32
    else if op == alu_ops AluOp.sll
    then bit_and (a <<< shamt) mask32
    else if op == alu_ops AluOp.slt
    then to_int (ltb_ℤ (to_signed a 32) (to_signed b 32))
    else if op == alu_ops AluOp.sltu
    then to_int (ltb a b)
    else if op == alu_ops AluOp.xor
    then bit_xor a b
    else if op == alu_ops AluOp.srl
    then a >>> shamt
    else if op == alu_ops AluOp.sra
    then and_ℤ (shr_ℤ (to_signed a 32) shamt) mask32
    else if op == alu_ops AluOp.or
    then bit_or a b
    else if op == alu_ops AluOp.and
    then bit_and a b
    else 0

unfoldable pub branch_block : ℕ → ℕ → ℕ → Bool
branch_block funct3 a b =
    if funct3 == branches Branch.beq
    then a == b
    else if funct3 == branches Branch.bne
    then a != b
    else if funct3 == branches Branch.blt
    then ltb_ℤ (to_signed a 32) (to_signed b 32)
    else if funct3 == branches Branch.bge
    then leb_ℤ (to_signed b 32) (to_signed a 32)
    else if funct3 == branches Branch.bltu
    then ltb a b
    else if funct3 == branches Branch.bgeu
    then leb b a
    else false

-- A replicated sign bit is a sign extension, and a concatenation a sum of shifted fields.
unfoldable pub imm_block : ℕ → ℕ → ℕ
imm_block sel inst =
    if sel == imm_sel Format.i
    then sign_extend (bits inst 31 20) 12
    else if sel == imm_sel Format.s
    then sign_extend (bit_or (bits inst 31 25 <<< 5) (bits inst 11 7)) 12
    else if sel == imm_sel Format.b
    then sign_extend
        (bit_or
          (bit_or (bit_or (bits inst 31 31 <<< 12) (bits inst 7 7 <<< 11)) (bits inst 30 25 <<< 5))
          (bits inst 11 8 <<< 1))
        13
    else if sel == imm_sel Format.u
    then bits inst 31 12 <<< 12
    else if sel == imm_sel Format.j
    then sign_extend
        (bit_or
          (bit_or (bit_or (bits inst 31 31 <<< 20) (bits inst 19 12 <<< 12))
            (bits inst 20 20 <<< 11))
          (bits inst 30 21 <<< 1))
        21
    else 0

unfoldable pub read_port : List ℕ → ℕ → ℕ
read_port regs addr = if addr == 0 then 0 else get_or regs addr 0
