-- ===== src/Core/Values.antt =====
-- The signals of a cycle of the core against the outcome of the golden model: the opcodes of the
-- ALU, and those that do nothing or stop.
use rv32i_cpu.Base.{ℕ, ◌≡◌, refl, arith, true, false, ◌&&◌, none, ◌==◌, ◌!=◌, Bool-cases, inl, inr}
use rv32i_cpu.Bits.{bits}
use rv32i_cpu.Iss.Decode.{fields}
use rv32i_cpu.Iss.Execute.{trap, goes_on, pc_plus4, execute_misc_mem, execute_system}
use rv32i_cpu.Iss.Step.Invariant.{IsWellFormed}
use rv32i_cpu.Reference.Decoder.{Control, defaults, mute, decode_misc_mem, decode_system}
use rv32i_cpu.Reference.Pc.{ref_next_pc}
use rv32i_cpu.Core.{Core, as_iss, wires, operand_a, write_back, cause_of}
use rv32i_cpu.Core.Edge.{Agrees}
use rv32i_cpu.Core.Signals.{checked, Reaches, Reaches-Agrees, no_access, illegal_Agrees}

module _ (k : Core) (inst : ℕ) (w : IsWellFormed (as_iss k)) (run : k.halted ≡ false) where
  abbrev f3 : ℕ
  f3 = (fields inst).funct3

  abbrev f7 : ℕ
  f7 = (fields inst).funct7

  abbrev fence_signals : Control
  fence_signals = mute (defaults f3)

  fence_Reaches :
      Reaches f3 fence_signals
        (wires true k inst fence_signals)
        (goes_on none (pc_plus4 (as_iss k) k.pc inst))
  unfolding mute wires ref_next_pc cause_of operand_a write_back
  fence_Reaches = record {
    cause = refl;
    next = refl;
    store_aligned = λ h. absurd (ground (arith, h));
    value = refl;
    access = no_access k inst w run _ _ _ _ refl refl;
  }

  pub misc_mem_Agrees :
      let c = mute (decode_misc_mem inst f3 f7) in
      Agrees f3 c (wires true k inst c) (checked (execute_misc_mem (as_iss k) k.pc inst))
  unfolding execute_misc_mem
  misc_mem_Agrees = elim (Bool-cases (f3 != 0)) [
    | inl bad ↦ rw bad (illegal_Agrees k inst w run _ refl)
    | inr good ↦
        rw good (Reaches-Agrees f3 fence_signals (wires true k inst fence_signals) _ fence_Reaches)
  ]

  stops :
      (Agrees f3
        (mute (record (defaults f3) { ecall = true }))
        (wires true k inst (mute (record (defaults f3) { ecall = true })))
        (trap 1))
      × Agrees f3
          (mute (record (defaults f3) { ebreak = true }))
          (wires true k inst (mute (record (defaults f3) { ebreak = true })))
          (trap 2)
  unfolding mute wires cause_of
  stops = ((refl, ground arith, refl), (refl, ground arith, refl))

  pub system_Agrees :
      let c = mute (decode_system inst f3 f7) in
      Agrees f3 c (wires true k inst c) (checked (execute_system (as_iss k) k.pc inst))
  unfolding execute_system
  system_Agrees = elim (Bool-cases (bits inst 31 7 == 0)) [
    | inl ecall ↦ rw ecall stops.0
    | inr other ↦ rw other (elim (Bool-cases (bits inst 31 20 == 0x001 && bits inst 19 7 == 0)) [
      | inl ebreak ↦ rw ebreak stops.1
      | inr neither ↦ rw neither (illegal_Agrees k inst w run _ refl)
    ])
  ]
