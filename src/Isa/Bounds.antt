-- ===== src/Isa/Bounds.antt =====
-- The builders of verif/isa.py give words of 32 bits, for fields in their ranges.
use rv32i_cpu.Base.{ℕ, ◌^◌, ◌<◌, arith}
use rv32i_cpu.Base.Int.{ℤ}
use rv32i_cpu.Isa.{i_type, s_type, b_type, u_type, j_type}
use rv32i_cpu.Isa.RoundTrip.{mod-lt}
use rv32i_cpu.Isa.Layout.{InRange, i_type_sum, s_type_sum, b_type_sum, u_type_sum, j_type_sum}

pub i_type_small :
    (imm : ℤ) (rs1 funct3 rd opcode : ℕ)
    → InRange 0 rs1 funct3 rd opcode
    → i_type imm rs1 funct3 rd opcode < 2 ^ 32
i_type_small imm rs1 funct3 rd opcode h =
    omega (arith, mod-lt imm, i_type_sum imm rs1 funct3 rd opcode h)

pub s_type_small :
    (imm : ℤ) (rs2 rs1 funct3 opcode : ℕ)
    → InRange rs2 rs1 funct3 0 opcode
    → s_type imm rs2 rs1 funct3 opcode < 2 ^ 32
s_type_small imm rs2 rs1 funct3 opcode h =
    omega (arith, mod-lt imm, s_type_sum imm rs2 rs1 funct3 opcode h)

pub b_type_small :
    (imm : ℤ) (rs2 rs1 funct3 opcode : ℕ)
    → InRange rs2 rs1 funct3 0 opcode
    → b_type imm rs2 rs1 funct3 opcode < 2 ^ 32
b_type_small imm rs2 rs1 funct3 opcode h = omega (arith, b_type_sum imm rs2 rs1 funct3 opcode h)

pub u_type_small :
    (imm : ℤ) (rd opcode : ℕ) → InRange 0 0 0 rd opcode → u_type imm rd opcode < 2 ^ 32
u_type_small imm rd opcode h = omega (arith, mod-lt imm, u_type_sum imm rd opcode h)

pub j_type_small :
    (imm : ℤ) (rd opcode : ℕ) → InRange 0 0 0 rd opcode → j_type imm rd opcode < 2 ^ 32
j_type_small imm rd opcode h = omega (arith, j_type_sum imm rd opcode h)
