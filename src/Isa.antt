-- ===== src/Isa.antt =====
-- verif/isa.py: the encodings of RV32I and the builders of instruction words. An immediate is an
-- integer, since callers pass negative offsets; the other fields are numbers.
pub mod Layout
pub mod RoundTrip
pub mod Bounds
use rv32i_cpu.Base.{ℕ, bit_and, bit_or, ◌<<<◌, ◌>>>◌}
use rv32i_cpu.Base.Int.{ℤ, and_ℤ}

abbrev pub op_lui : ℕ
op_lui = 0b0110111

abbrev pub op_auipc : ℕ
op_auipc = 0b0010111

abbrev pub op_jal : ℕ
op_jal = 0b1101111

abbrev pub op_jalr : ℕ
op_jalr = 0b1100111

abbrev pub op_branch : ℕ
op_branch = 0b1100011

abbrev pub op_load : ℕ
op_load = 0b0000011

abbrev pub op_store : ℕ
op_store = 0b0100011

abbrev pub op_imm : ℕ
op_imm = 0b0010011

abbrev pub op_reg : ℕ
op_reg = 0b0110011

abbrev pub op_misc_mem : ℕ
op_misc_mem = 0b0001111

abbrev pub op_system : ℕ
op_system = 0b1110011

unfoldable pub r_type : ℕ → ℕ → ℕ → ℕ → ℕ → ℕ → ℕ
r_type funct7 rs2 rs1 funct3 rd opcode =
    bit_or
      (bit_or (bit_or (bit_or (bit_or (funct7 <<< 25) (rs2 <<< 20)) (rs1 <<< 15)) (funct3 <<< 12))
        (rd <<< 7))
      opcode

unfoldable pub i_type : ℤ → ℕ → ℕ → ℕ → ℕ → ℕ
unfolding and_ℤ
i_type imm rs1 funct3 rd opcode =
    bit_or
      (bit_or (bit_or (bit_or (and_ℤ imm 0xfff <<< 20) (rs1 <<< 15)) (funct3 <<< 12)) (rd <<< 7))
      opcode

unfoldable pub s_type : ℤ → ℕ → ℕ → ℕ → ℕ → ℕ
unfolding and_ℤ
s_type imm rs2 rs1 funct3 opcode =
    let low = and_ℤ imm 0xfff in
    bit_or
      (bit_or
        (bit_or (bit_or (bit_or ((low >>> 5) <<< 25) (rs2 <<< 20)) (rs1 <<< 15)) (funct3 <<< 12))
        (bit_and low 0x1f <<< 7))
      opcode

unfoldable pub b_type : ℤ → ℕ → ℕ → ℕ → ℕ → ℕ
unfolding and_ℤ
b_type imm rs2 rs1 funct3 opcode =
    let low = and_ℤ imm 0x1fff in
    let upper = bit_or (bit_and (low >>> 12) 1 <<< 31) (bit_and (low >>> 5) 0x3f <<< 25) in
    let fields = bit_or (bit_or (bit_or upper (rs2 <<< 20)) (rs1 <<< 15)) (funct3 <<< 12) in
    bit_or (bit_or (bit_or fields (bit_and (low >>> 1) 0xf <<< 8)) (bit_and (low >>> 11) 1 <<< 7))
      opcode

unfoldable pub u_type : ℤ → ℕ → ℕ → ℕ
unfolding and_ℤ
u_type imm rd opcode = bit_or (bit_or (and_ℤ imm 0xfffff <<< 12) (rd <<< 7)) opcode

unfoldable pub j_type : ℤ → ℕ → ℕ → ℕ
unfolding and_ℤ
j_type imm rd opcode =
    let low = and_ℤ imm 0x1fffff in
    let upper = bit_or (bit_and (low >>> 20) 1 <<< 31) (bit_and (low >>> 1) 0x3ff <<< 21) in
    bit_or
      (bit_or
        (bit_or (bit_or upper (bit_and (low >>> 11) 1 <<< 20)) (bit_and (low >>> 12) 0xff <<< 12))
        (rd <<< 7))
      opcode
