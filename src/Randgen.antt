-- ===== src/Randgen.antt =====
-- verif/randgen.py: the random programs. What the functions of `random` return is a parameter: a
-- draw holds what one round of the loop draws, and the number of draws is `body_len`.
pub mod Targets
pub mod Legal
pub mod Pointer
pub mod Bounds
pub mod Access
pub mod Decoder
use rv32i_cpu.Base.{ℕ, zero, suc, ◌+◌, ◌*◌, List, [], ◌∷◌, ◌++◌, bit_or, ◌<<<◌, ◌>>>◌}
use rv32i_cpu.Base.Int.{ℤ, pos, ◌-ℤ◌}
use rv32i_cpu.Isa.{
  r_type, i_type, s_type, b_type, u_type, j_type, op_lui, op_auipc, op_jal, op_branch, op_load,
  op_store, op_imm, op_reg,
}

abbrev pub data_base : ℕ
data_base = 0x400

abbrev pub data_size : ℕ
data_size = 0x100

-- SAFE_REGS is `list(range(1, 31))`: these bounds.
abbrev pub safe_regs : ℕ × ℕ
safe_regs = (1, 31)

abbrev pub alu_imm_f3 : List ℕ
alu_imm_f3 = 0b000 ∷ 0b010 ∷ 0b011 ∷ 0b100 ∷ 0b110 ∷ 0b111 ∷ []

-- The codes of loads and stores, with the alignment of each.
abbrev pub load_f3 : List (ℕ × ℕ)
load_f3 = (0b000, 1) ∷ (0b001, 2) ∷ (0b010, 4) ∷ (0b100, 1) ∷ (0b101, 2) ∷ []

abbrev pub store_f3 : List (ℕ × ℕ)
store_f3 = (0b000, 1) ∷ (0b001, 2) ∷ (0b010, 4) ∷ []

abbrev pub branch_f3 : List ℕ
branch_f3 = 0b000 ∷ 0b001 ∷ 0b100 ∷ 0b101 ∷ 0b110 ∷ 0b111 ∷ []

-- The kind of an instruction, with the values that its branch draws.
pub data Choice : Type 0 where
  alu_imm : ℕ → ℕ → Choice
  alu_reg : ℕ → ℕ → Choice
  shift : ℕ → ℕ → ℕ → Choice
  load : ℕ → ℕ → Choice
  store : ℕ → ℕ → Choice
  branch : ℕ → ℕ → Choice
  lui : ℕ → Choice
  auipc : ℕ → Choice
  jal : ℕ → Choice

pub record Draw : Type 0 where
  pub rd : ℕ
  pub rs1 : ℕ
  pub rs2 : ℕ
  pub choice : Choice

-- The word of one round, at address `pc`.
unfoldable pub instruction : ℕ → ℕ → ℕ → ℕ → Choice → ℕ
unfolding r_type i_type s_type b_type u_type j_type ◌-ℤ◌
instruction pc rd rs1 rs2 (alu_imm number funct3) = i_type (pos number) rs1 funct3 rd op_imm
instruction pc rd rs1 rs2 (alu_reg funct3 funct7) = r_type funct7 rs2 rs1 funct3 rd op_reg
instruction pc rd rs1 rs2 (shift funct3 funct7 shamt) =
    i_type (pos (bit_or (funct7 <<< 5) shamt)) rs1 funct3 rd op_imm
instruction pc rd rs1 rs2 (load funct3 offset) = i_type (pos offset) 31 funct3 rd op_load
instruction pc rd rs1 rs2 (store funct3 offset) = s_type (pos offset) rs2 31 funct3 op_store
instruction pc rd rs1 rs2 (branch target funct3) =
    b_type (pos target -ℤ pos pc) rs2 rs1 funct3 op_branch
instruction pc rd rs1 rs2 (lui number) = u_type (pos number) rd op_lui
instruction pc rd rs1 rs2 (auipc number) = u_type (pos number) rd op_auipc
instruction pc rd rs1 rs2 (jal target) = j_type (pos target -ℤ pos pc) rd op_jal

-- x31 = DATA_BASE.
unfoldable pub prologue : List ℕ
unfolding u_type i_type ◌-ℤ◌
prologue =
    let upper = (data_base + 0x800) >>> 12 in
    u_type (pos upper) 31 op_lui
    ∷ i_type (pos data_base -ℤ pos (upper <<< 12)) 31 0b000 31 op_imm
    ∷ []

-- The loop, from `index` on: one word for each draw.
unfoldable pub body : ℕ → List Draw → List ℕ
unfolding instruction
body index [] = []
body index (d ∷ draws) =
    instruction ((2 + index) * 4) d.rd d.rs1 d.rs2 d.choice ∷ body (suc index) draws

unfoldable pub random_program : List Draw → List ℕ
unfolding prologue body
random_program draws = prologue ++ body 0 draws ++ 0x0000_0073 ∷ []
