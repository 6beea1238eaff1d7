-- ===== src/Core/Words.antt =====
-- When a word that the builders of verif/isa.py make is legal.
use rv32i_cpu.Base.{ℕ, ◌/◌, ◌^◌, ◌<◌, ◌≡◌, refl, ◌∙◌, arith, false, ◌⊎◌, List, [], ◌∷◌}
use rv32i_cpu.Base.Int.{ℤ, mod_ℤ}
use rv32i_cpu.Isa.{
  r_type, i_type, s_type, b_type, u_type, j_type, op_lui, op_auipc, op_jal, op_branch, op_store,
  op_reg,
}
use rv32i_cpu.Isa.Layout.{r_type_sum, i_type_sum, s_type_sum, b_type_sum, u_type_sum, j_type_sum}
use rv32i_cpu.Iss.Decode.{fields}
use rv32i_cpu.Iss.Decode.Sums.{fields_sum}
use rv32i_cpu.Reference.Decoder.{decode_opcode, ref_decode}
use rv32i_cpu.Core.Legal.{ref_decode_illegal}

-- The decoder does not flag the word.
abbrev pub IsLegal : ℕ → Type 0
IsLegal inst = (ref_decode inst).illegal ≡ false

-- The number is one of a list.
abbrev pub OneOf : ℕ → List ℕ → Type 0
OneOf n [] = ⊥
OneOf n (x ∷ xs) = (n ≡ x) ⊎ OneOf n xs

module _ (inst funct3 funct7 : ℕ) where
  -- A word with these fields.
  abbrev Has : ℕ → Type 0
  Has opcode =
      ((fields inst).opcode ≡ opcode)
      × ((fields inst).funct3 ≡ funct3)
      × ((fields inst).funct7 ≡ funct7)

  fields-IsLegal :
      (opcode : ℕ)
      → Has opcode
      → (decode_opcode inst funct3 funct7 opcode).illegal ≡ false
      → IsLegal inst
  fields-IsLegal opcode h legal = ref_decode_illegal inst ∙ rw (h.0, h.1, h.2) legal

pub u_type-IsLegal :
    (imm : ℤ) (rd opcode : ℕ)
    → rd < 32
    → OneOf opcode (op_lui ∷ op_auipc ∷ [])
    → IsLegal (u_type imm rd opcode)
unfolding decode_opcode
u_type-IsLegal imm rd opcode h which =
    let inst = u_type imm rd opcode in
    let fits : opcode < 128 = ground (arith, which) in
    let op : (fields inst).opcode ≡ opcode = ground (
      arith,
      fields_sum inst,
      u_type_sum imm rd opcode (omega arith, omega arith, omega arith, h, fits),
    ) in
    fields-IsLegal inst (fields inst).funct3 (fields inst).funct7 opcode (op, refl, refl)
      (ground (arith, which))

pub j_type-IsLegal : (imm : ℤ) (rd : ℕ) → rd < 32 → IsLegal (j_type imm rd op_jal)
unfolding decode_opcode
j_type-IsLegal imm rd h =
    let inst = j_type imm rd op_jal in
    let op : (fields inst).opcode ≡ op_jal = ground (
      arith,
      fields_sum inst,
      j_type_sum imm rd op_jal (omega arith, omega arith, omega arith, h, omega arith),
    ) in
    fields-IsLegal inst (fields inst).funct3 (fields inst).funct7 op_jal (op, refl, refl) refl

pub b_type-IsLegal :
    (imm : ℤ) (rs2 rs1 funct3 : ℕ)
    → rs2 < 32
    → rs1 < 32
    → OneOf funct3 (0 ∷ 1 ∷ 4 ∷ 5 ∷ 6 ∷ 7 ∷ [])
    → IsLegal (b_type imm rs2 rs1 funct3 op_branch)
unfolding decode_opcode
b_type-IsLegal imm rs2 rs1 funct3 h2 h1 which =
    let inst = b_type imm rs2 rs1 funct3 op_branch in
    let fits : funct3 < 8 = ground (arith, which) in
    let sum = b_type_sum imm rs2 rs1 funct3 op_branch (h2, h1, fits, omega arith, omega arith) in
    let op : ((fields inst).opcode ≡ op_branch) × ((fields inst).funct3 ≡ funct3) =
      ground (arith, fields_sum inst, sum) in
    fields-IsLegal inst funct3 (fields inst).funct7 op_branch (op.0, op.1, refl)
      (ground (arith, which))

pub s_type-IsLegal :
    (imm : ℤ) (rs2 rs1 funct3 : ℕ)
    → rs2 < 32
    → rs1 < 32
    → OneOf funct3 (0 ∷ 1 ∷ 2 ∷ [])
    → IsLegal (s_type imm rs2 rs1 funct3 op_store)
unfolding decode_opcode
s_type-IsLegal imm rs2 rs1 funct3 h2 h1 which =
    let inst = s_type imm rs2 rs1 funct3 op_store in
    let fits : funct3 < 8 = ground (arith, which) in
    let sum = s_type_sum imm rs2 rs1 funct3 op_store (h2, h1, fits, omega arith, omega arith) in
    let op : ((fields inst).opcode ≡ op_store) × ((fields inst).funct3 ≡ funct3) =
      ground (arith, fields_sum inst, sum) in
    fields-IsLegal inst funct3 (fields inst).funct7 op_store (op.0, op.1, refl)
      (ground (arith, which))

pub r_type-IsLegal :
    (funct7 rs2 rs1 funct3 rd : ℕ)
    → rs2 < 32
    → rs1 < 32
    → rd < 32
    → funct3 < 8
    → (funct7 ≡ 0) ⊎ ((funct7 ≡ 0x20) × OneOf funct3 (0 ∷ 5 ∷ []))
    → IsLegal (r_type funct7 rs2 rs1 funct3 rd op_reg)
unfolding decode_opcode
r_type-IsLegal funct7 rs2 rs1 funct3 rd h2 h1 hd h3 which =
    let inst = r_type funct7 rs2 rs1 funct3 rd op_reg in
    let fits : funct7 < 128 = ground (arith, which) in
    let sum = r_type_sum funct7 rs2 rs1 funct3 rd op_reg (h2, h1, h3, hd, omega arith) in
    let op : Has inst funct3 funct7 op_reg = ground (arith, fields_sum inst, sum) in
    fields-IsLegal inst funct3 funct7 op_reg op (ground (arith, which))

-- An I-type word of an opcode whose legality is that of its funct3 and of the upper part of its
-- immediate.
pub i_type-IsLegal :
    (imm : ℤ) (rs1 funct3 rd opcode : ℕ)
    → rs1 < 32
    → rd < 32
    → funct3 < 8
    → opcode < 128
    → ((inst : ℕ) → (decode_opcode inst funct3 (mod_ℤ imm (2 ^ 12) / 2 ^ 5) opcode).illegal ≡ false)
    → IsLegal (i_type imm rs1 funct3 rd opcode)
i_type-IsLegal imm rs1 funct3 rd opcode h1 hd h3 ho legal =
    let inst = i_type imm rs1 funct3 rd opcode in
    let sum = i_type_sum imm rs1 funct3 rd opcode (omega arith, h1, h3, hd, ho) in
    let op : Has inst funct3 (mod_ℤ imm (2 ^ 12) / 2 ^ 5) opcode =
      ground (arith, fields_sum inst, sum) in
    fields-IsLegal inst funct3 (mod_ℤ imm (2 ^ 12) / 2 ^ 5) opcode op (legal inst)
