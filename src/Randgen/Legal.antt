-- ===== src/Randgen/Legal.antt =====
-- The words of verif/randgen.py are legal and leave x31 alone, for draws in the ranges that Python
-- documents for `random`.
use rv32i_cpu.Base.{
  ℕ, ◌*◌, ◌/◌, ◌^◌, ◌<◌, ◌≤◌, ◌≡◌, refl, arith, ◌⊎◌, inl, inr, [], ◌∷◌, ◌<<<◌, bit_or, map,
}
use rv32i_cpu.Base.Int.{pos, mod_ℤ, ◌-ℤ◌}
use rv32i_cpu.Base.BitOps.{or_add}
use rv32i_cpu.Isa.{op_lui, op_auipc, op_load, op_imm}
use rv32i_cpu.Reference.Decoder.{decode_opcode}
use rv32i_cpu.Core.Words.{
  IsLegal, OneOf, u_type-IsLegal, j_type-IsLegal, b_type-IsLegal, s_type-IsLegal, r_type-IsLegal,
  i_type-IsLegal,
}
use rv32i_cpu.Randgen.{
  data_size, safe_regs, alu_imm_f3, load_f3, store_f3, branch_f3, Choice, alu_imm, alu_reg, shift,
  load, store, branch, lui, auipc, jal, Draw, instruction,
}

-- What `getrandbits`, `randrange` and `choice` may return.
abbrev pub DrawnChoice : Choice → Type 0
DrawnChoice (alu_imm number funct3) = (number < 4096) × OneOf funct3 alu_imm_f3
DrawnChoice (alu_reg funct3 funct7) =
    (funct3 < 8) × ((funct7 ≡ 0) ⊎ ((funct7 ≡ 0x20) × OneOf funct3 (0 ∷ 5 ∷ [])))
DrawnChoice (shift funct3 funct7 shamt) =
    (shamt < 32) × (((funct3 ≡ 1) × (funct7 ≡ 0)) ⊎ ((funct3 ≡ 5) × OneOf funct7 (0 ∷ 0x20 ∷ [])))
DrawnChoice (load funct3 offset) =
    OneOf funct3 (map (λ (e : ℕ × ℕ). e.0) load_f3) × (offset < data_size)
DrawnChoice (store funct3 offset) =
    OneOf funct3 (map (λ (e : ℕ × ℕ). e.0) store_f3) × (offset < data_size)
DrawnChoice (branch target funct3) = OneOf funct3 branch_f3
DrawnChoice (lui number) = number < 2 ^ 20
DrawnChoice (auipc number) = number < 2 ^ 20
DrawnChoice (jal target) = Unit

-- The registers are those of SAFE_REGS, and x0 where it is only read.
abbrev pub Drawn : Draw → Type 0
Drawn d =
    (safe_regs.0 ≤ d.rd)
    × (d.rd < safe_regs.1)
    × (d.rs1 < safe_regs.1)
    × (d.rs2 < safe_regs.1)
    × DrawnChoice d.choice

shift_immediate :
    (funct7 shamt : ℕ)
    → shamt < 32
    → OneOf funct7 (0 ∷ 0x20 ∷ [])
    → mod_ℤ (pos (bit_or (funct7 <<< 5) shamt)) (2 ^ 12) / 2 ^ 5 ≡ funct7
shift_immediate funct7 shamt h which =
    rw (or_add 5 (funct7 * 2 ^ 5) shamt (omega arith) h) (ground (arith, which))

pub instruction-IsLegal :
    (pc rd rs1 rs2 : ℕ) (c : Choice)
    → rd < 31
    → rs1 < 31
    → rs2 < 31
    → DrawnChoice c
    → IsLegal (instruction pc rd rs1 rs2 c)
unfolding instruction decode_opcode
instruction-IsLegal pc rd rs1 rs2 (alu_imm number funct3) hd h1 h2 h =
    i_type-IsLegal (pos number) rs1 funct3 rd op_imm (omega arith) (omega arith) (ground arith)
      (omega arith) (λ inst. ground arith)
instruction-IsLegal pc rd rs1 rs2 (alu_reg funct3 funct7) hd h1 h2 h =
    r_type-IsLegal funct7 rs2 rs1 funct3 rd (omega arith) (omega arith) (omega arith) h.0 h.1
instruction-IsLegal pc rd rs1 rs2 (shift funct3 funct7 shamt) hd h1 h2 h =
    i_type-IsLegal (pos (bit_or (funct7 <<< 5) shamt)) rs1 funct3 rd op_imm (omega arith)
      (omega arith) (ground arith) (omega arith)
      (λ inst. rw (shift_immediate funct7 shamt h.0 (ground arith)) (ground arith))
instruction-IsLegal pc rd rs1 rs2 (load funct3 offset) hd h1 h2 h =
    i_type-IsLegal (pos offset) 31 funct3 rd op_load (omega arith) (omega arith) (ground arith)
      (omega arith) (λ inst. ground arith)
instruction-IsLegal pc rd rs1 rs2 (store funct3 offset) hd h1 h2 h =
    s_type-IsLegal (pos offset) rs2 31 funct3 (omega arith) (omega arith) h.0
instruction-IsLegal pc rd rs1 rs2 (branch target funct3) hd h1 h2 h =
    b_type-IsLegal (pos target -ℤ pos pc) rs2 rs1 funct3 (omega arith) (omega arith) h
instruction-IsLegal pc rd rs1 rs2 (lui number) hd h1 h2 h =
    u_type-IsLegal (pos number) rd op_lui (omega arith) (inl refl)
instruction-IsLegal pc rd rs1 rs2 (auipc number) hd h1 h2 h =
    u_type-IsLegal (pos number) rd op_auipc (omega arith) (inr (inl refl))
instruction-IsLegal pc rd rs1 rs2 (jal target) hd h1 h2 h =
    j_type-IsLegal (pos target -ℤ pos pc) rd (omega arith)
