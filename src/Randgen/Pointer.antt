-- ===== src/Randgen/Pointer.antt =====
-- The words of verif/randgen.py leave the data pointer x31 alone, and the whole program is legal.
use rv32i_cpu.Base.{
  ℕ, suc, ◌+◌, ◌*◌, ◌<◌, ◌≡◌, refl, ◌∙◌, arith, Bool, false, ◌&&◌, List, [], ◌∷◌, ◌++◌, All, ◌==◌,
  ◌<<<◌, bit_or,
}
use rv32i_cpu.Base.Int.{ℤ, pos, ◌-ℤ◌, and_ℤ}
use rv32i_cpu.Bits.{bits}
use rv32i_cpu.Isa.{
  r_type, i_type, s_type, b_type, u_type, j_type, op_lui, op_auipc, op_jal, op_branch, op_load,
  op_store, op_imm, op_reg,
}
use rv32i_cpu.Isa.Layout.{
  InRange, r_type_sum, i_type_sum, s_type_sum, b_type_sum, u_type_sum, j_type_sum,
}
use rv32i_cpu.Iss.Decode.{fields}
use rv32i_cpu.Iss.Decode.Sums.{fields_sum}
use rv32i_cpu.Reference.Decoder.{Control, decode_opcode, mute, ref_decode}
use rv32i_cpu.Core.Words.{IsLegal}
use rv32i_cpu.Randgen.{
  Choice, alu_imm, alu_reg, shift, load, store, branch, lui, auipc, jal, Draw, instruction,
  prologue, body, random_program,
}
use rv32i_cpu.Randgen.Legal.{DrawnChoice, Drawn, instruction-IsLegal}

-- The decoder lets the word write x31.
abbrev pub writes_pointer : ℕ → Bool
writes_pointer inst = (ref_decode inst).reg_write && (fields inst).rd == 31

other_rd : (inst rd : ℕ) → (fields inst).rd ≡ rd → rd < 31 → writes_pointer inst ≡ false
other_rd inst rd e h = ground (arith, e)

mute_quiet : (c : Control) → c.reg_write ≡ false → (mute c).reg_write ≡ false
unfolding mute
mute_quiet c h = ground (arith, h)

decoded :
    (inst : ℕ)
    → (ref_decode inst).reg_write
      ≡ (mute (
          decode_opcode inst
            (fields inst).funct3
            (fields inst).funct7
            (fields inst).opcode)).reg_write
unfolding ref_decode fields
decoded inst = refl

no_write :
    (inst opcode : ℕ)
    → (fields inst).opcode ≡ opcode
    → (decode_opcode inst (fields inst).funct3 (fields inst).funct7 opcode).reg_write ≡ false
    → writes_pointer inst ≡ false
no_write inst opcode e h =
    let quiet : (ref_decode inst).reg_write ≡ false =
      decoded inst
      ∙ rw e (mute_quiet (decode_opcode inst (fields inst).funct3 (fields inst).funct7 opcode) h) in
    simp quiet

pointer_i :
    (imm : ℤ) (rs1 funct3 rd opcode : ℕ)
    → rd < 31
    → InRange 0 rs1 funct3 rd opcode
    → writes_pointer (i_type imm rs1 funct3 rd opcode) ≡ false
pointer_i imm rs1 funct3 rd opcode hd h =
    let inst = i_type imm rs1 funct3 rd opcode in
    other_rd inst rd (ground (arith, fields_sum inst, i_type_sum imm rs1 funct3 rd opcode h)) hd

pointer_u :
    (imm : ℤ) (rd opcode : ℕ)
    → rd < 31
    → opcode < 128
    → writes_pointer (u_type imm rd opcode) ≡ false
pointer_u imm rd opcode hd ho =
    let inst = u_type imm rd opcode in
    let sum = u_type_sum imm rd opcode (omega arith, omega arith, omega arith, omega arith, ho) in
    other_rd inst rd (ground (arith, fields_sum inst, sum)) hd

pointer_instruction :
    (pc rd rs1 rs2 : ℕ) (c : Choice)
    → rd < 31
    → rs1 < 31
    → rs2 < 31
    → DrawnChoice c
    → writes_pointer (instruction pc rd rs1 rs2 c) ≡ false
unfolding instruction decode_opcode
pointer_instruction pc rd rs1 rs2 (alu_imm number funct3) hd h1 h2 h =
    pointer_i (pos number) rs1 funct3 rd op_imm hd (ground arith)
pointer_instruction pc rd rs1 rs2 (alu_reg funct3 funct7) hd h1 h2 h =
    let inst = r_type funct7 rs2 rs1 funct3 rd op_reg in
    let sum =
      r_type_sum funct7 rs2 rs1 funct3 rd op_reg
        (omega arith, omega arith, h.0, omega arith, omega arith) in
    other_rd inst rd (ground (arith, fields_sum inst, sum)) hd
pointer_instruction pc rd rs1 rs2 (shift funct3 funct7 shamt) hd h1 h2 h =
    pointer_i (pos (bit_or (funct7 <<< 5) shamt)) rs1 funct3 rd op_imm hd (ground arith)
pointer_instruction pc rd rs1 rs2 (load funct3 offset) hd h1 h2 h =
    pointer_i (pos offset) 31 funct3 rd op_load hd (ground arith)
pointer_instruction pc rd rs1 rs2 (store funct3 offset) hd h1 h2 h =
    let inst = s_type (pos offset) rs2 31 funct3 op_store in
    let sum =
      s_type_sum (pos offset) rs2 31 funct3 op_store
        (omega arith, omega arith, ground arith, omega arith, omega arith) in
    no_write inst op_store (ground (arith, fields_sum inst, sum)) (ground arith)
pointer_instruction pc rd rs1 rs2 (branch target funct3) hd h1 h2 h =
    let imm = pos target -ℤ pos pc in
    let inst = b_type imm rs2 rs1 funct3 op_branch in
    let sum =
      b_type_sum imm rs2 rs1 funct3 op_branch
        (omega arith, omega arith, ground arith, omega arith, omega arith) in
    no_write inst op_branch (ground (arith, fields_sum inst, sum)) (ground arith)
pointer_instruction pc rd rs1 rs2 (lui number) hd h1 h2 h =
    pointer_u (pos number) rd op_lui hd (omega arith)
pointer_instruction pc rd rs1 rs2 (auipc number) hd h1 h2 h =
    pointer_u (pos number) rd op_auipc hd (omega arith)
pointer_instruction pc rd rs1 rs2 (jal target) hd h1 h2 h =
    let imm = pos target -ℤ pos pc in
    let inst = j_type imm rd op_jal in
    let sum =
      j_type_sum imm rd op_jal (omega arith, omega arith, omega arith, omega arith, omega arith) in
    other_rd inst rd (ground (arith, fields_sum inst, sum)) hd

body-IsLegal :
    (index : ℕ) (draws : List Draw)
    → All Drawn draws
    → All (λ w. IsLegal w × (writes_pointer w ≡ false)) (body index draws)
unfolding body
body-IsLegal index [] h = tt
body-IsLegal index (d ∷ draws) ((lo, hd, h1, h2, h), rest) = (
  (
    instruction-IsLegal ((2 + index) * 4) d.rd d.rs1 d.rs2 d.choice hd h1 h2 h,
    pointer_instruction ((2 + index) * 4) d.rd d.rs1 d.rs2 d.choice hd h1 h2 h,
  ),
  body-IsLegal (suc index) draws rest,
)

pub All-append {ℓ κ} :
    {A : Type ℓ} (P : A → Type κ) (xs ys : List A) → All P xs → All P ys → All P (xs ++ ys)
All-append P [] ys h k = k
All-append P (x ∷ xs) ys h k = (h.0, All-append P xs ys h.1 k)

All-first :
    (words : List ℕ)
    → All (λ w. IsLegal w × (writes_pointer w ≡ false)) words
    → All IsLegal words × All (λ w. writes_pointer w ≡ false) words
All-first [] h = (tt, tt)
All-first (w ∷ words) h = let rest = All-first words h.1 in ((h.0.0, rest.0), (h.0.1, rest.1))

prologue-IsLegal : All IsLegal prologue
unfolding prologue u_type i_type ref_decode bits ◌-ℤ◌ and_ℤ
prologue-IsLegal = (refl, (refl, tt))

ecall-IsLegal : IsLegal 0x73
unfolding ref_decode bits
ecall-IsLegal = refl

-- Every word of a random program is legal, and between the two words that set it and the last no
-- word writes the data pointer x31, for draws in the ranges of `random`.
pub random_program-IsLegal :
    (draws : List Draw)
    → All Drawn draws
    → All IsLegal (random_program draws) × All (λ w. writes_pointer w ≡ false) (body 0 draws)
unfolding random_program
random_program-IsLegal draws h =
    let (legal, free) = All-first (body 0 draws) (body-IsLegal 0 draws h) in
    (
      All-append IsLegal prologue (body 0 draws ++ 0x73 ∷ []) prologue-IsLegal
          (All-append IsLegal (body 0 draws) (0x73 ∷ []) legal (ecall-IsLegal, tt)),
      free,
    )
