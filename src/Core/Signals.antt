-- ===== src/Core/Signals.antt =====
-- When the signals of a cycle of the core agree with the outcome of an opcode in the golden model.
use rv32i_cpu.Base.{
  ℕ, ◌+◌, ◌-◌, ◌/◌, ◌^◌, ◌<◌, ◌≡◌, arith, true, false, Option, ◌!=◌, if◌then◌else◌, bit_and, get_or,
  Bool-cases, inl, inr, All-get_or,
}
use rv32i_cpu.Base.BitOps.{and_low, and_not}
use rv32i_cpu.Bits.{mask32, bits}
use rv32i_cpu.Iss.State.{Iss, halt_fetch_misalign}
use rv32i_cpu.Iss.Decode.Sums.{fields_sum}
use rv32i_cpu.Iss.Decode.{fields, imm_u}
use rv32i_cpu.Iss.Execute.{Effect, Result, ok, trap, goes_on, raise_if, ◌>>=◌, ◌>>◌, pc_plus4}
use rv32i_cpu.Iss.Step.Invariant.{IsWellFormed}
use rv32i_cpu.Reference.Decoder.{Control, mute}
use rv32i_cpu.Core.{Core, as_iss, Wires, wires, cause_of}
use rv32i_cpu.Core.Edge.{SameValue, SameAccess, Agrees}
use rv32i_cpu.Core.Blocks.{read_port}
use rv32i_cpu.Core.Agree.{read_port-get_or}

-- The end of the `try` block, on the outcome of an opcode.
abbrev pub checked : Result Effect → Result Effect
checked r = r >>= λ e. raise_if (bit_and e.next_pc 3 != 0) halt_fetch_misalign >> ok e

-- The signals of an opcode that the model takes to the end of its branch, with an effect.
pub record Reaches (funct3 : ℕ) (c : Control) (w : Wires) (e : Effect) : Type 0 where
  pub cause : w.trap_cause ≡ (if bit_and w.pc_next 3 != 0 then 5 else 0)
  pub next : w.pc_next ≡ e.next_pc
  pub store_aligned : c.mem_write ≡ true → bit_and w.pc_next 3 ≡ 0
  pub value : SameValue c w e.rd_value
  pub access : SameAccess funct3 c w e

pub Reaches-Agrees :
    (funct3 : ℕ) (c : Control) (w : Wires) (e : Effect)
    → Reaches funct3 c w e
    → Agrees funct3 c w (checked (ok e))
Reaches-Agrees funct3 c w e r = elim (Bool-cases (bit_and e.next_pc 3 != 0)) [
  | inl odd ↦ rw odd (
    ground (arith, r.cause, r.next),
    ground arith,
    elim (Bool-cases c.mem_write) [
      | inl writes ↦ absurd (ground (arith, r.store_aligned writes, r.next))
      | inr reads ↦ ground (arith, reads)
    ],
  )
  | inr even ↦ rw even (ground (arith, r.cause, r.next), r.next, r.value, r.access)
]

module _ (k : Core) (inst : ℕ) (w : IsWellFormed (as_iss k)) (run : k.halted ≡ false) where
  -- No access: the signals neither read nor write memory.
  pub no_access :
      (c : Control) (x : Wires) (value : Option ℕ) (next : ℕ)
      → c.mem_write ≡ false
      → c.mem_op ≡ (fields inst).funct3
      → SameAccess (fields inst).funct3 c x (goes_on value next)
  no_access c x value next none_written op = record {
    writes = ground (arith, none_written);
    op = op;
    aligned = λ h. absurd (ground (arith, h, none_written));
    addr = λ h. absurd (ground (arith, h, none_written));
    wdata = λ h. absurd (ground (arith, h, none_written));
  }

  abbrev pub funct3 : ℕ
  funct3 = (fields inst).funct3

  abbrev pub s : Iss
  s = as_iss k

  pub rs1_eq : read_port k.regs (bits inst 19 15) ≡ get_or k.regs (fields inst).rs1 0
  unfolding fields
  rs1_eq = read_port-get_or k.regs (bits inst 19 15) w.zero_register

  pub rs2_eq : read_port k.regs (bits inst 24 20) ≡ get_or k.regs (fields inst).rs2 0
  unfolding fields
  rs2_eq = read_port-get_or k.regs (bits inst 24 20) w.zero_register

  pub imm_u-lt : imm_u inst < 2 ^ 32
  unfolding imm_u bits
  imm_u-lt = omega (arith, and_low 20 (inst / 2 ^ 12))

  -- An illegal word traps, whatever the signals were.
  pub illegal_Agrees :
      (c : Control)
      → c.illegal ≡ true
      → Agrees funct3 (mute c) (wires true k inst (mute c)) (trap 3)
  unfolding mute wires cause_of
  illegal_Agrees c h = ground (arith, h)

  -- The address of a load or jump, as the model and as the core compute it.
  pub masked_even :
      (x : ℕ) → bit_and (and_not (bit_and x mask32) 1) mask32 ≡ bit_and (and_not x 1) mask32
  unfolding and_not
  masked_even x = omega (
    arith,
    and_low 32 x,
    and_low 1 x,
    and_low 1 (bit_and x mask32),
    and_low 32 (x - bit_and x 1),
    and_low 32 (bit_and x mask32 - bit_and (bit_and x mask32) 1),
  )

  -- The program counter is a multiple of 4, so that of the next instruction is one too.
  pub next_aligned : bit_and (pc_plus4 s k.pc inst) 3 ≡ 0
  next_aligned =
      omega (arith, w.pc_aligned, and_low 32 (k.pc + 4), and_low 2 (bit_and (k.pc + 4) mask32))

  pub funct3-lt : (fields inst).funct3 < 8
  funct3-lt = ground (arith, fields_sum inst)

  pub rs1-lt : get_or k.regs (fields inst).rs1 0 < 2 ^ 32
  rs1-lt = All-get_or (λ r. r < 2 ^ 32) k.regs (fields inst).rs1 0 w.registers_small (omega arith)

  pub rs2-lt : get_or k.regs (fields inst).rs2 0 < 2 ^ 32
  rs2-lt = All-get_or (λ r. r < 2 ^ 32) k.regs (fields inst).rs2 0 w.registers_small (omega arith)
