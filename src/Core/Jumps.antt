-- ===== src/Core/Jumps.antt =====
-- The signals of a cycle of the core against the outcome of the golden model: the opcodes that
-- take no part of memory and no ALU operation but a sum.
use rv32i_cpu.Base.{
  ℕ, ◌+◌, ◌≡◌, refl, arith, true, false, ◌||◌, none, some, ◌==◌, ◌!=◌, if◌then◌else◌, bit_and,
  get_or, Bool-cases, inl, inr,
}
use rv32i_cpu.Base.BitOps.{and_not}
use rv32i_cpu.Bits.{mask32}
use rv32i_cpu.Iss.Decode.{fields, imm_i, imm_b, imm_u, imm_j}
use rv32i_cpu.Iss.Execute.{ok, goes_on, pc_plus4, execute_jalr, execute_branch}
use rv32i_cpu.Iss.Step.Invariant.{IsWellFormed}
use rv32i_cpu.Iss.Memory.Lanes.{and_mask-small}
use rv32i_cpu.Iss.Execute.Outcome.{mask-lt}
use rv32i_cpu.Iss.Alu.{branch_taken}
use rv32i_cpu.Reference.Alu
use rv32i_cpu.Reference.Decoder.{
  Control, defaults, mute, decode_lui, decode_auipc, decode_jal, decode_jalr, decode_branch,
}
use rv32i_cpu.Reference.Pc.{ref_next_pc}
use rv32i_cpu.Core.{Core, as_iss, wires, operand_a, write_back, cause_of}
use rv32i_cpu.Core.Edge.{Agrees}
use rv32i_cpu.Core.Agree.{imm_block-imm, branch_block-taken}
use rv32i_cpu.Core.Signals.{
  checked, Reaches, Reaches-Agrees, no_access, rs1_eq, rs2_eq, imm_u-lt, illegal_Agrees,
  masked_even, funct3-lt,
}

module _ (k : Core) (inst : ℕ) (w : IsWellFormed (as_iss k)) (run : k.halted ≡ false) where
  abbrev f3 : ℕ
  f3 = (fields inst).funct3

  abbrev f7 : ℕ
  f7 = (fields inst).funct7

  abbrev lui_signals : Control
  lui_signals = mute (decode_lui inst f3 f7)

  lui_Reaches :
      Reaches f3 lui_signals
        (wires true k inst lui_signals)
        (goes_on (some (imm_u inst)) (pc_plus4 (as_iss k) k.pc inst))
  unfolding mute wires ref_next_pc cause_of operand_a write_back Alu.reference
  lui_Reaches =
      let z : 0 + imm_u inst ≡ imm_u inst = omega arith in
      record {
        cause = refl;
        next = refl;
        store_aligned = λ h. absurd (ground (arith, h));
        value = (
          refl,
          rw ((imm_block-imm inst).3, z) (and_mask-small (imm_u inst) (imm_u-lt k inst w run)),
          imm_u-lt k inst w run,
        );
        access = no_access k inst w run _ _ _ _ refl refl;
      }

  abbrev auipc_signals : Control
  auipc_signals = mute (decode_auipc inst f3 f7)

  auipc_Reaches :
      Reaches f3 auipc_signals
        (wires true k inst auipc_signals)
        (goes_on (some (bit_and (k.pc + imm_u inst) mask32)) (pc_plus4 (as_iss k) k.pc inst))
  unfolding mute wires ref_next_pc cause_of operand_a write_back Alu.reference
  auipc_Reaches = record {
    cause = refl;
    next = refl;
    store_aligned = λ h. absurd (ground (arith, h));
    value = (refl, rw (imm_block-imm inst).3 refl, mask-lt (as_iss k) k.pc inst _);
    access = no_access k inst w run _ _ _ _ refl refl;
  }

  abbrev jal_signals : Control
  jal_signals = mute (decode_jal inst f3 f7)

  jal_Reaches :
      Reaches f3 jal_signals
        (wires true k inst jal_signals)
        (goes_on (some (pc_plus4 (as_iss k) k.pc inst)) (bit_and (k.pc + imm_j inst) mask32))
  unfolding mute wires ref_next_pc cause_of operand_a write_back
  jal_Reaches = record {
    cause = refl;
    next = rw (imm_block-imm inst).4 refl;
    store_aligned = λ h. absurd (ground (arith, h));
    value = (refl, refl, mask-lt (as_iss k) k.pc inst _);
    access = no_access k inst w run _ _ _ _ refl refl;
  }

  pub lui_Agrees :
      Agrees f3 lui_signals
        (wires true k inst lui_signals)
        (checked (ok (goes_on (some (imm_u inst)) (pc_plus4 (as_iss k) k.pc inst))))
  lui_Agrees = Reaches-Agrees f3 lui_signals (wires true k inst lui_signals) _ lui_Reaches

  abbrev jalr_signals : Control
  jalr_signals =
      mute
        (record (decode_lui inst f3 f7) { alu_a_sel = 0; imm_format = 0; wb_sel = 2; jalr = true })

  jalr_Reaches : Reaches f3 jalr_signals (wires true k inst jalr_signals) (
      goes_on
        (some (pc_plus4 (as_iss k) k.pc inst))
        (bit_and (and_not (get_or k.regs (fields inst).rs1 0 + imm_i inst) 1) mask32))
  unfolding mute wires ref_next_pc cause_of operand_a write_back Alu.reference
  jalr_Reaches = record {
    cause = refl;
    next =
        rw ((imm_block-imm inst).0, rs1_eq k inst w run)
          (masked_even k inst w run (get_or k.regs (fields inst).rs1 0 + imm_i inst));
    store_aligned = λ h. absurd (ground (arith, h));
    value = (refl, refl, mask-lt (as_iss k) k.pc inst _);
    access = no_access k inst w run _ _ _ _ refl refl;
  }

  pub jalr_Agrees :
      let c = mute (decode_jalr inst f3 f7) in
      Agrees f3 c (wires true k inst c) (checked (execute_jalr (as_iss k) k.pc inst))
  unfolding execute_jalr
  jalr_Agrees = elim (Bool-cases (f3 != 0)) [
    | inl bad ↦ rw bad (illegal_Agrees k inst w run _ refl)
    | inr good ↦
        rw good (Reaches-Agrees f3 jalr_signals (wires true k inst jalr_signals) _ jalr_Reaches)
  ]

  pub auipc_Agrees : Agrees f3 auipc_signals (wires true k inst auipc_signals) (
      checked
        (ok (goes_on (some (bit_and (k.pc + imm_u inst) mask32)) (pc_plus4 (as_iss k) k.pc inst))))
  auipc_Agrees = Reaches-Agrees f3 auipc_signals (wires true k inst auipc_signals) _ auipc_Reaches

  pub jal_Agrees : Agrees f3 jal_signals (wires true k inst jal_signals) (
      checked
        (ok (goes_on (some (pc_plus4 (as_iss k) k.pc inst)) (bit_and (k.pc + imm_j inst) mask32))))
  jal_Agrees = Reaches-Agrees f3 jal_signals (wires true k inst jal_signals) _ jal_Reaches

  abbrev branch_signals : Control
  branch_signals = mute (record (defaults f3) { imm_format = 2; branch = true })

  branch_Reaches :
      (f3 == 2 || f3 == 3) ≡ false
      → Reaches f3 branch_signals (wires true k inst branch_signals) (
          goes_on none (
            if branch_taken f3
              (get_or k.regs (fields inst).rs1 0)
              (get_or k.regs (fields inst).rs2 0)
            then bit_and (k.pc + imm_b inst) mask32
            else pc_plus4 (as_iss k) k.pc inst))
  unfolding mute wires ref_next_pc cause_of operand_a write_back fields
  branch_Reaches legal =
      let a = get_or k.regs (fields inst).rs1 0 in
      let b = get_or k.regs (fields inst).rs2 0 in
      record {
        cause = refl;
        next =
            rw
              (
                (imm_block-imm inst).2,
                rs1_eq k inst w run,
                rs2_eq k inst w run,
                branch_block-taken f3 a b (funct3-lt k inst w run) legal,
              )
              refl;
        store_aligned = λ h. absurd (ground (arith, h));
        value = refl;
        access = no_access k inst w run _ _ _ _ refl refl;
      }

  pub branch_Agrees :
      let c = mute (decode_branch inst f3 f7) in
      Agrees f3 c (wires true k inst c) (checked (execute_branch (as_iss k) k.pc inst))
  unfolding execute_branch
  branch_Agrees = elim (Bool-cases (f3 == 2 || f3 == 3)) [
    | inl bad ↦ rw bad (illegal_Agrees k inst w run _ refl)
    | inr good ↦ rw good (
        Reaches-Agrees f3 branch_signals (wires true k inst branch_signals) _ (branch_Reaches good))
  ]
