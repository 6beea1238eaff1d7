-- ===== src/Randgen/Decoder.antt =====
-- verif/unit/tb_decoder.py: `random_legal`, and the check of the decoder on such a word. What the
-- functions of `random` return is a parameter.
use rv32i_cpu.Base.{
  ℕ, ◌/◌, ◌^◌, ◌<◌, refl, arith, ◌||◌, inl, inr, [], ◌∷◌, ◌==◌, if◌then◌else◌, bit_or, Bool-cases,
}
use rv32i_cpu.Base.Int.{pos, mod_ℤ}
use rv32i_cpu.Base.BitOps.{and_not, or_add}
use rv32i_cpu.Isa.{
  r_type, i_type, s_type, b_type, u_type, j_type, op_lui, op_auipc, op_jal, op_jalr, op_branch,
  op_load, op_store, op_imm, op_reg,
}
use rv32i_cpu.Reference.Decoder.{decode_opcode}
use rv32i_cpu.Core.Words.{
  IsLegal, OneOf, u_type-IsLegal, j_type-IsLegal, b_type-IsLegal, s_type-IsLegal, r_type-IsLegal,
  i_type-IsLegal,
}

-- `kind`, with the values that its branch draws: for `imm` also the shift amount and the bit 0x400,
-- and for `reg` the choice of funct7, which count for some funct3 only.
pub data Kind : Type 0 where
  lui auipc jal : ℕ → Kind
  jalr : Kind
  branch : ℕ → ℕ → Kind
  load store : ℕ → Kind
  imm : ℕ → ℕ → ℕ → Kind
  reg : ℕ → ℕ → Kind

-- The word, from `rd`, `rs1`, `rs2` and `imm`.
unfoldable pub random_legal : ℕ → ℕ → ℕ → ℕ → Kind → ℕ
unfolding r_type i_type s_type b_type u_type j_type and_not
random_legal rd rs1 rs2 number (lui upper) = u_type (pos upper) rd op_lui
random_legal rd rs1 rs2 number (auipc upper) = u_type (pos upper) rd op_auipc
random_legal rd rs1 rs2 number (jal offset) = j_type (pos (and_not offset 1)) rd op_jal
random_legal rd rs1 rs2 number jalr = i_type (pos number) rs1 0 rd op_jalr
random_legal rd rs1 rs2 number (branch offset funct3) =
    b_type (pos (and_not offset 1)) rs2 rs1 funct3 op_branch
random_legal rd rs1 rs2 number (load funct3) = i_type (pos number) rs1 funct3 rd op_load
random_legal rd rs1 rs2 number (store funct3) = s_type (pos number) rs2 rs1 funct3 op_store
random_legal rd rs1 rs2 number (imm funct3 shamt high) =
    if funct3 == 0b001
    then i_type (pos shamt) rs1 funct3 rd op_imm
    else if funct3 == 0b101
    then i_type (pos (bit_or high shamt)) rs1 funct3 rd op_imm
    else i_type (pos number) rs1 funct3 rd op_imm
random_legal rd rs1 rs2 number (reg funct3 choice) =
    r_type (if funct3 == 0b000 || funct3 == 0b101 then choice else 0) rs2 rs1 funct3 rd op_reg

-- The values that `random` may return there.
abbrev pub DrawnKind : Kind → Type 0
DrawnKind (lui upper) = upper < 2 ^ 20
DrawnKind (auipc upper) = upper < 2 ^ 20
DrawnKind (jal offset) = offset < 2 ^ 21
DrawnKind jalr = Unit
DrawnKind (branch offset funct3) = (offset < 2 ^ 13) × OneOf funct3 (0 ∷ 1 ∷ 4 ∷ 5 ∷ 6 ∷ 7 ∷ [])
DrawnKind (load funct3) = OneOf funct3 (0 ∷ 1 ∷ 2 ∷ 4 ∷ 5 ∷ [])
DrawnKind (store funct3) = OneOf funct3 (0 ∷ 1 ∷ 2 ∷ [])
DrawnKind (imm funct3 shamt high) = (funct3 < 8) × (shamt < 32) × OneOf high (0 ∷ 0x400 ∷ [])
DrawnKind (reg funct3 choice) = (funct3 < 8) × OneOf choice (0 ∷ 0x20 ∷ [])

shift_upper :
    (high shamt : ℕ)
    → shamt < 32
    → OneOf high (0 ∷ 0x400 ∷ [])
    → OneOf (mod_ℤ (pos (bit_or high shamt)) (2 ^ 12) / 2 ^ 5) (0 ∷ 0x20 ∷ [])
shift_upper high shamt h which =
    rw (or_add 5 high shamt (ground (arith, which)) h) (ground (arith, which))

-- The decoder flags no word that `random_legal` makes, for draws in the ranges of `random`.
pub random_legal-IsLegal :
    (rd rs1 rs2 number : ℕ) (kind : Kind)
    → rd < 32
    → rs1 < 32
    → rs2 < 32
    → number < 2 ^ 12
    → DrawnKind kind
    → IsLegal (random_legal rd rs1 rs2 number kind)
unfolding random_legal decode_opcode
random_legal-IsLegal rd rs1 rs2 number (lui upper) hd h1 h2 hn h =
    u_type-IsLegal (pos upper) rd op_lui hd (inl refl)
random_legal-IsLegal rd rs1 rs2 number (auipc upper) hd h1 h2 hn h =
    u_type-IsLegal (pos upper) rd op_auipc hd (inr (inl refl))
random_legal-IsLegal rd rs1 rs2 number (jal offset) hd h1 h2 hn h =
    j_type-IsLegal (pos (and_not offset 1)) rd hd
random_legal-IsLegal rd rs1 rs2 number jalr hd h1 h2 hn h =
    i_type-IsLegal (pos number) rs1 0 rd op_jalr h1 hd (omega arith) (omega arith) (λ inst. refl)
random_legal-IsLegal rd rs1 rs2 number (branch offset funct3) hd h1 h2 hn h =
    b_type-IsLegal (pos (and_not offset 1)) rs2 rs1 funct3 h2 h1 h.1
random_legal-IsLegal rd rs1 rs2 number (load funct3) hd h1 h2 hn h =
    i_type-IsLegal (pos number) rs1 funct3 rd op_load h1 hd (ground arith) (omega arith)
      (λ inst. ground arith)
random_legal-IsLegal rd rs1 rs2 number (store funct3) hd h1 h2 hn h =
    s_type-IsLegal (pos number) rs2 rs1 funct3 h2 h1 h
random_legal-IsLegal rd rs1 rs2 number (imm funct3 shamt high) hd h1 h2 hn h =
    elim (Bool-cases (funct3 == 0b001)) [
      | inl left ↦ simp left (
          i_type-IsLegal (pos shamt) rs1 funct3 rd op_imm h1 hd h.0 (omega arith)
            (λ inst. ground (arith, left)))
      | inr other ↦ elim (Bool-cases (funct3 == 0b101)) [
        | inl right ↦
            simp (other, right)
              (i_type-IsLegal (pos (bit_or high shamt)) rs1 funct3 rd op_imm h1 hd h.0 (omega arith)
                (λ inst. ground (arith, right, shift_upper high shamt h.1 h.2)))
        | inr neither ↦
            simp (other, neither)
              (i_type-IsLegal (pos number) rs1 funct3 rd op_imm h1 hd h.0 (omega arith)
                (λ inst. ground (arith, other, neither)))
      ]
    ]
random_legal-IsLegal rd rs1 rs2 number (reg funct3 choice) hd h1 h2 hn h =
    r_type-IsLegal (if funct3 == 0b000 || funct3 == 0b101 then choice else 0) rs2 rs1 funct3 rd h2
      h1 hd h.0 (ground arith)
