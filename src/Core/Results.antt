-- ===== src/Core/Results.antt =====
-- The signals of a cycle of the core against the outcome of the golden model: the operations of the
-- ALU.
use mathlib.Core.Path.{subst}
use rv32i_cpu.Base.{
  ℕ, ◌/◌, ◌%◌, ◌^◌, ◌<◌, ◌≡◌, refl, ◌∙◌, ◌⊎◌, ◌*◌, bit_or, arith, true, false, not, ◌&&◌, ◌||◌,
  some, ◌==◌, ◌!=◌, if◌then◌else◌, bit_and, get_or, Bool-cases, inl, inr,
}
use rv32i_cpu.Base.BitOps.{and_low}
use rv32i_cpu.Bits.{bits}
use rv32i_cpu.Iss.Decode.{fields, imm_i}
use rv32i_cpu.Iss.Execute.{goes_on, pc_plus4, execute_imm, execute_reg}
use rv32i_cpu.Iss.Step.Invariant.{IsWellFormed}
use rv32i_cpu.Iss.Alu.{alu}
use rv32i_cpu.Iss.Decode.Sums.{imm_i_sum}
use rv32i_cpu.Bits.Laws.{bits_lem, sign_extend-lt}
use rv32i_cpu.Core.Blocks.{alu_block}
use rv32i_cpu.Reference.Decoder.{Control, defaults, mute, decode_imm, decode_reg}
use rv32i_cpu.Reference.Pc.{ref_next_pc}
use rv32i_cpu.Core.{Core, as_iss, wires, operand_a, write_back, cause_of}
use rv32i_cpu.Core.Edge.{Agrees}
use rv32i_cpu.Core.Agree.{imm_block-imm, alu_block-alu, alu_block-plain, alu-lt}
use rv32i_cpu.Core.Signals.{
  checked, Reaches, Reaches-Agrees, no_access, rs1_eq, rs2_eq, illegal_Agrees, funct3-lt, rs1-lt,
  rs2-lt,
}

-- The low five bits of the I-type immediate are the shift amount that the model takes.
shamt_eq : (inst : ℕ) → bit_and (imm_i inst) 0x1f ≡ bit_and (bits inst 24 20) 0x1f
shamt_eq inst =
    let low = inst / 2 ^ 20 % 2 ^ 12 in
    let e : imm_i inst % 2 ^ 5 ≡ inst / 2 ^ 20 % 2 ^ 5 = rw (imm_i_sum inst) (ground arith) in
    omega (arith, e, and_low 5 (imm_i inst), and_low 5 (bits inst 24 20), bits_lem inst 24 20)

shift_by :
    (funct3 bit5 a b b' : ℕ)
    → (funct3 == 1 || funct3 == 5) ≡ true
    → bit_and b 0x1f ≡ bit_and b' 0x1f
    → alu funct3 bit5 a b ≡ alu funct3 bit5 a b'
unfolding alu
shift_by funct3 bit5 a b b' shifts e = elim (Bool-cases (funct3 == 1)) [
  | inl one ↦ let f : funct3 ≡ 1 = ground arith in rw (f, e) refl
  | inr other ↦ let f : funct3 ≡ 5 = ground arith in rw (f, e) refl
]

-- The operand of an immediate operation: the model gives a shift its amount, the core the whole
-- immediate.
imm_operand :
    (inst funct3 bit5 a : ℕ)
    → alu funct3 bit5 a (imm_i inst)
      ≡ alu funct3 bit5 a (if funct3 == 1 || funct3 == 5 then bits inst 24 20 else imm_i inst)
imm_operand inst funct3 bit5 a = elim (Bool-cases (funct3 == 1 || funct3 == 5)) [
  | inl shifts ↦
      rw shifts (shift_by funct3 bit5 a (imm_i inst) (bits inst 24 20) shifts (shamt_eq inst))
  | inr other ↦ rw other refl
]

-- The bit of `funct7` that tells SUB from ADD and SRA from SRL.
abbrev bit5 : ℕ → ℕ
bit5 funct7 = bit_and (funct7 / 2 ^ 5) 1

bit5-lt : (funct7 : ℕ) → bit5 funct7 < 2
bit5-lt funct7 = omega (arith, and_low 1 (funct7 / 2 ^ 5))

abbrev imm_code : ℕ → ℕ → ℕ
imm_code funct3 funct7 = if funct3 == 5 then bit_or (bit5 funct7 * 2 ^ 3) funct3 else funct3

imm_code-alu :
    (funct3 funct7 a b : ℕ)
    → funct3 < 8
    → alu_block (imm_code funct3 funct7) a b
      ≡ alu funct3 (if funct3 == 5 then bit5 funct7 else 0) a b
imm_code-alu funct3 funct7 a b h = elim (Bool-cases (funct3 == 5)) [
  | inl five ↦
      rw five (alu_block-alu funct3 (bit5 funct7) a b h (bit5-lt funct7) (inr (inr (ground arith))))
  | inr other ↦ rw other (alu_block-plain funct3 a b h)
]

legal_code :
    (funct3 funct7 : ℕ)
    → (funct7 != 0 && not (funct7 == 0x20 && (funct3 == 0 || funct3 == 5))) ≡ false
    → (bit5 funct7 ≡ 0) ⊎ ((funct3 ≡ 0) ⊎ (funct3 ≡ 5))
legal_code funct3 funct7 legal = elim (Bool-cases (funct7 == 0)) [
  | inl zero_code ↦ let e : funct7 ≡ 0 = ground arith in inl (rw e refl)
  | inr other ↦ inr (ground arith)
]

module _ (k : Core) (inst : ℕ) (w : IsWellFormed (as_iss k)) (run : k.halted ≡ false) where
  abbrev f3 : ℕ
  f3 = (fields inst).funct3

  abbrev f7 : ℕ
  f7 = (fields inst).funct7

  abbrev a : ℕ
  a = get_or k.regs (fields inst).rs1 0

  abbrev b : ℕ
  b = get_or k.regs (fields inst).rs2 0

  abbrev imm_signals : Control
  imm_signals = mute (record (defaults f3) { reg_write = true; alu_op = imm_code f3 f7 })

  abbrev reg_signals : Control
  reg_signals = mute (record (defaults f3) {
    alu_b_sel = 0;
    reg_write = true;
    alu_op = bit_or (bit5 f7 * 2 ^ 3) f3;
  })

  imm_i-lt : imm_i inst < 2 ^ 32
  unfolding imm_i
  imm_i-lt = sign_extend-lt 11 (bits inst 31 20) (omega arith)

  imm_wires :
      (wires true k inst imm_signals).wb_data
      ≡ alu f3 (if f3 == 5 then bit5 f7 else 0) a (imm_i inst)
  unfolding mute wires operand_a write_back
  imm_wires =
      rw ((imm_block-imm inst).0, rs1_eq k inst w run)
        (imm_code-alu f3 f7 a (imm_i inst) (funct3-lt k inst w run))

  reg_wires :
      (bit5 f7 ≡ 0) ⊎ ((f3 ≡ 0) ⊎ (f3 ≡ 5))
      → (wires true k inst reg_signals).wb_data ≡ alu f3 (bit5 f7) a b
  unfolding mute wires operand_a write_back
  reg_wires legal =
      rw (rs1_eq k inst w run, rs2_eq k inst w run)
        (alu_block-alu f3 (bit5 f7) a b (funct3-lt k inst w run) (bit5-lt f7) legal)

  imm_Reaches : Reaches f3 imm_signals (wires true k inst imm_signals) (
      goes_on
        (some (
          alu f3
            (if f3 == 5 then bit5 f7 else 0)
            a
            (if f3 == 1 || f3 == 5 then bits inst 24 20 else imm_i inst)))
        (pc_plus4 (as_iss k) k.pc inst))
  unfolding mute wires ref_next_pc cause_of
  imm_Reaches =
      let value = alu f3 (if f3 == 5 then bit5 f7 else 0) a (imm_i inst) in
      let operand = imm_operand inst f3 (if f3 == 5 then bit5 f7 else 0) a in
      let small : value < 2 ^ 32 =
        alu-lt f3 (if f3 == 5 then bit5 f7 else 0) a (imm_i inst) (rs1-lt k inst w run) imm_i-lt in
      record {
        cause = refl;
        next = refl;
        store_aligned = λ h. absurd (ground (arith, h));
        value = (refl, imm_wires ∙ operand, subst (λ v. v < 2 ^ 32) operand small);
        access = no_access k inst w run _ _ _ _ refl refl;
      }

  reg_Reaches :
      (bit5 f7 ≡ 0) ⊎ ((f3 ≡ 0) ⊎ (f3 ≡ 5))
      → Reaches f3 reg_signals
          (wires true k inst reg_signals)
          (goes_on (some (alu f3 (bit5 f7) a b)) (pc_plus4 (as_iss k) k.pc inst))
  unfolding mute wires ref_next_pc cause_of
  reg_Reaches legal = record {
    cause = refl;
    next = refl;
    store_aligned = λ h. absurd (ground (arith, h));
    value = (
      refl,
      reg_wires legal,
      alu-lt f3 (bit5 f7) a b (rs1-lt k inst w run) (rs2-lt k inst w run),
    );
    access = no_access k inst w run _ _ _ _ refl refl;
  }

  pub imm_Agrees :
      let c = mute (decode_imm inst f3 f7) in
      Agrees f3 c (wires true k inst c) (checked (execute_imm (as_iss k) k.pc inst))
  unfolding execute_imm
  imm_Agrees = elim (Bool-cases (f3 == 1 && f7 != 0)) [
    | inl bad ↦ rw bad (elim (Bool-cases (f3 == 5 && not (f7 == 0 || f7 == 0x20))) [
      | inl worse ↦ rw worse (illegal_Agrees k inst w run _ refl)
      | inr fine ↦ rw fine (illegal_Agrees k inst w run _ refl)
    ])
    | inr good ↦ rw good (elim (Bool-cases (f3 == 5 && not (f7 == 0 || f7 == 0x20))) [
      | inl bad ↦ rw bad (illegal_Agrees k inst w run _ refl)
      | inr fine ↦
          rw fine (Reaches-Agrees f3 imm_signals (wires true k inst imm_signals) _ imm_Reaches)
    ])
  ]

  pub reg_Agrees :
      let c = mute (decode_reg inst f3 f7) in
      Agrees f3 c (wires true k inst c) (checked (execute_reg (as_iss k) k.pc inst))
  unfolding execute_reg
  reg_Agrees = elim (Bool-cases (f7 != 0 && not (f7 == 0x20 && (f3 == 0 || f3 == 5)))) [
    | inl bad ↦ rw bad (illegal_Agrees k inst w run _ refl)
    | inr good ↦ rw good (
        Reaches-Agrees f3 reg_signals (wires true k inst reg_signals) _
          (reg_Reaches (legal_code f3 f7 good)))
  ]
