-- ===== src/Randgen/Bounds.antt =====
-- The words of verif/randgen.py have 32 bits, for draws in the ranges of `random`.
use rv32i_cpu.Base.{ℕ, suc, ◌+◌, ◌*◌, ◌^◌, ◌<◌, ◌≤◌, arith, List, [], ◌∷◌, ◌++◌, All, ◌<<<◌, bit_or}
use rv32i_cpu.Base.Int.{pos, ◌-ℤ◌, and_ℤ}
use rv32i_cpu.Isa.{
  i_type, u_type, op_lui, op_auipc, op_jal, op_branch, op_load, op_store, op_imm, op_reg,
}
use rv32i_cpu.Isa.Bounds.{i_type_small, s_type_small, b_type_small, u_type_small, j_type_small}
use rv32i_cpu.Isa.Layout.{r_type_sum}
use rv32i_cpu.Randgen.{
  Choice, alu_imm, alu_reg, shift, load, store, branch, lui, auipc, jal, Draw, instruction,
  prologue, body, random_program,
}
use rv32i_cpu.Randgen.Legal.{DrawnChoice, Drawn}
use rv32i_cpu.Randgen.Pointer.{All-append}

instruction_small :
    (pc rd rs1 rs2 : ℕ) (c : Choice)
    → rd < 31
    → rs1 < 31
    → rs2 < 31
    → DrawnChoice c
    → instruction pc rd rs1 rs2 c < 2 ^ 32
unfolding instruction
instruction_small pc rd rs1 rs2 (alu_imm number funct3) hd h1 h2 h =
    i_type_small (pos number) rs1 funct3 rd op_imm (ground arith)
instruction_small pc rd rs1 rs2 (alu_reg funct3 funct7) hd h1 h2 h =
    let sum = r_type_sum funct7 rs2 rs1 funct3 rd op_reg (ground arith) in
    let narrow : funct7 ≤ 0x20 = ground (arith, h.1) in
    let low : funct3 < 8 = h.0 in omega (arith, sum, narrow, low)
instruction_small pc rd rs1 rs2 (shift funct3 funct7 shamt) hd h1 h2 h =
    i_type_small (pos (bit_or (funct7 <<< 5) shamt)) rs1 funct3 rd op_imm (ground arith)
instruction_small pc rd rs1 rs2 (load funct3 offset) hd h1 h2 h =
    i_type_small (pos offset) 31 funct3 rd op_load (ground arith)
instruction_small pc rd rs1 rs2 (store funct3 offset) hd h1 h2 h =
    s_type_small (pos offset) rs2 31 funct3 op_store (ground arith)
instruction_small pc rd rs1 rs2 (branch target funct3) hd h1 h2 h =
    b_type_small (pos target -ℤ pos pc) rs2 rs1 funct3 op_branch (ground arith)
instruction_small pc rd rs1 rs2 (lui number) hd h1 h2 h =
    u_type_small (pos number) rd op_lui (omega arith)
instruction_small pc rd rs1 rs2 (auipc number) hd h1 h2 h =
    u_type_small (pos number) rd op_auipc (omega arith)
instruction_small pc rd rs1 rs2 (jal target) hd h1 h2 h =
    j_type_small (pos target -ℤ pos pc) rd op_jal (omega arith)

body_small :
    (index : ℕ) (draws : List Draw) → All Drawn draws → All (λ w. w < 2 ^ 32) (body index draws)
unfolding body
body_small index [] h = tt
body_small index (d ∷ draws) ((lo, hd, h1, h2, h), rest) = (
  instruction_small ((2 + index) * 4) d.rd d.rs1 d.rs2 d.choice hd h1 h2 h,
  body_small (suc index) draws rest,
)

prologue_small : All (λ w. w < 2 ^ 32) prologue
unfolding prologue u_type i_type ◌-ℤ◌ and_ℤ
prologue_small = (omega arith, (omega arith, tt))

-- Every word of a random program is one of 32 bits.
pub random_program_small :
    (draws : List Draw) → All Drawn draws → All (λ w. w < 2 ^ 32) (random_program draws)
unfolding random_program
random_program_small draws h =
    All-append (λ w. w < 2 ^ 32) prologue (body 0 draws ++ 0x73 ∷ []) prologue_small
      (All-append (λ w. w < 2 ^ 32) (body 0 draws) (0x73 ∷ []) (body_small 0 draws h)
        (omega arith, tt))
