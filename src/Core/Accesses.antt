-- ===== src/Core/Accesses.antt =====
-- The signals of a cycle of the core against the outcome of the golden model: loads and stores.
use rv32i_cpu.Base.{
  ℕ, ◌+◌, ◌≡◌, refl, arith, true, false, ◌||◌, none, some, ◌==◌, ◌!=◌, if◌then◌else◌, bit_and,
  get_or, ltb, Bool-cases, inl, inr,
}
use rv32i_cpu.Bits.{mask32}
use rv32i_cpu.Iss.Decode.{fields, imm_i, imm_s}
use rv32i_cpu.Iss.Execute.{trap, pc_plus4, execute_load, execute_store}
use rv32i_cpu.Iss.Step.Invariant.{IsWellFormed}
use rv32i_cpu.Iss
use rv32i_cpu.Reference.Memory
use rv32i_cpu.Reference.Alu
use rv32i_cpu.Reference.Decoder.{Control, defaults, mute, decode_load, decode_store}
use rv32i_cpu.Reference.Pc.{ref_next_pc}
use rv32i_cpu.Core.{Core, as_iss, wires, operand_a, write_back, cause_of}
use rv32i_cpu.Core.Edge.{Agrees}
use rv32i_cpu.Core.Agree.{imm_block-imm, load-lt}
use rv32i_cpu.Core.Signals.{
  checked, Reaches, Reaches-Agrees, rs1_eq, rs2_eq, illegal_Agrees, next_aligned,
}

module _ (k : Core) (inst : ℕ) (w : IsWellFormed (as_iss k)) (run : k.halted ≡ false) where
  abbrev f3 : ℕ
  f3 = (fields inst).funct3

  abbrev f7 : ℕ
  f7 = (fields inst).funct7

  abbrev load_addr : ℕ
  load_addr = bit_and (get_or k.regs (fields inst).rs1 0 + imm_i inst) mask32

  abbrev store_addr : ℕ
  store_addr = bit_and (get_or k.regs (fields inst).rs1 0 + imm_s inst) mask32

  abbrev load_signals : Control
  load_signals = mute (record (defaults f3) { reg_write = true; wb_sel = 1; mem_read = true })

  abbrev store_signals : Control
  store_signals = mute (record (defaults f3) { imm_format = 1; mem_write = true })

  load-wires :
      ((wires true k inst load_signals).alu_y ≡ load_addr)
      × ((wires true k inst load_signals).d_misaligned ≡ Iss.Memory.misaligned f3 load_addr)
      × ((wires true k inst load_signals).wb_data ≡ Iss.Memory.load (as_iss k) f3 load_addr)
  unfolding mute wires ref_next_pc operand_a write_back Alu.reference Memory.misaligned
      Iss.Memory.misaligned Memory.load Iss.Memory.load
  load-wires = (
    rw ((imm_block-imm inst).0, rs1_eq k inst w run) refl,
    rw ((imm_block-imm inst).0, rs1_eq k inst w run, run) refl,
    rw ((imm_block-imm inst).0, rs1_eq k inst w run) refl,
  )

  store-wires :
      ((wires true k inst store_signals).alu_y ≡ store_addr)
      × ((wires true k inst store_signals).d_misaligned ≡ Iss.Memory.misaligned f3 store_addr)
      × ((wires true k inst store_signals).rs2_data ≡ get_or k.regs (fields inst).rs2 0)
  unfolding mute wires ref_next_pc operand_a write_back Alu.reference Memory.misaligned
      Iss.Memory.misaligned
  store-wires = (
    rw ((imm_block-imm inst).1, rs1_eq k inst w run) refl,
    rw ((imm_block-imm inst).1, rs1_eq k inst w run, run) refl,
    rs2_eq k inst w run,
  )

  -- What stops a load or store: the misaligned address, and then the next program counter.
  causes :
      ((wires true k inst load_signals).trap_cause ≡ (
        if (wires true k inst load_signals).d_misaligned
        then 4
        else if bit_and (wires true k inst load_signals).pc_next 3 != 0
        then 5
        else 0))
      × ((wires true k inst store_signals).trap_cause ≡ (
          if (wires true k inst store_signals).d_misaligned
          then 4
          else if bit_and (wires true k inst store_signals).pc_next 3 != 0
          then 5
          else 0))
  unfolding mute wires cause_of
  causes = (refl, refl)

  goes_to_next :
      ((wires true k inst load_signals).pc_next ≡ pc_plus4 (as_iss k) k.pc inst)
      × ((wires true k inst store_signals).pc_next ≡ pc_plus4 (as_iss k) k.pc inst)
  unfolding mute wires ref_next_pc
  goes_to_next = (refl, refl)

  load_trap :
      Iss.Memory.misaligned f3 load_addr ≡ true
      → Agrees f3 load_signals (wires true k inst load_signals) (trap 4)
  unfolding mute
  load_trap mis = (rw (causes.0, load-wires.1, mis) refl, ground arith, refl)

  store_trap :
      Iss.Memory.misaligned f3 store_addr ≡ true
      → Agrees f3 store_signals (wires true k inst store_signals) (trap 4)
  unfolding mute
  store_trap mis =
      (rw (causes.1, store-wires.1, mis) refl, ground arith, rw (store-wires.1, mis) refl)

  load-Reaches :
      Iss.Memory.misaligned f3 load_addr ≡ false
      → Reaches f3 load_signals (wires true k inst load_signals) (record {
        rd_value = some (Iss.Memory.load (as_iss k) f3 load_addr);
        next_pc = pc_plus4 (as_iss k) k.pc inst;
        mem_write = 0;
        mem_addr = load_addr;
        mem_wdata = 0;
      })
  unfolding mute
  load-Reaches al = record {
    cause = rw (causes.0, load-wires.1, al) refl;
    next = goes_to_next.0;
    store_aligned = λ h. absurd (ground (arith, h));
    value = (refl, load-wires.2, load-lt (as_iss k) f3 load_addr w.memory);
    access = record {
      writes = refl;
      op = refl;
      aligned = λ h. absurd (ground (arith, h));
      addr = λ h. absurd (ground (arith, h));
      wdata = λ h. absurd (ground (arith, h));
    };
  }

  store_Reaches :
      Iss.Memory.misaligned f3 store_addr ≡ false
      → Reaches f3 store_signals (wires true k inst store_signals) (record {
        rd_value = none;
        next_pc = pc_plus4 (as_iss k) k.pc inst;
        mem_write = 1;
        mem_addr = store_addr;
        mem_wdata = get_or k.regs (fields inst).rs2 0;
      })
  unfolding mute
  store_Reaches al = record {
    cause = rw (causes.1, store-wires.1, al) refl;
    next = goes_to_next.1;
    store_aligned = λ h. rw goes_to_next.1 (next_aligned k inst w run);
    value = refl;
    access = record {
      writes = refl;
      op = refl;
      aligned = λ h. (rw (store-wires.1, al) refl, rw (store-wires.0, al) refl);
      addr = λ h. store-wires.0;
      wdata = λ h. store-wires.2;
    };
  }

  pub load_Agrees :
      let c = mute (decode_load inst f3 f7) in
      Agrees f3 c (wires true k inst c) (checked (execute_load (as_iss k) k.pc inst))
  unfolding execute_load
  load_Agrees = elim (Bool-cases (f3 == 3 || f3 == 6 || f3 == 7)) [
    | inl bad ↦ rw bad (illegal_Agrees k inst w run _ refl)
    | inr good ↦ rw good (elim (Bool-cases (Iss.Memory.misaligned f3 load_addr)) [
      | inl mis ↦ rw mis (load_trap mis)
      | inr al ↦
          rw al
            (Reaches-Agrees f3 load_signals (wires true k inst load_signals) _ (load-Reaches al))
    ])
  ]

  pub store_Agrees :
      let c = mute (decode_store inst f3 f7) in
      Agrees f3 c (wires true k inst c) (checked (execute_store (as_iss k) k.pc inst))
  unfolding execute_store
  store_Agrees = elim (Bool-cases (ltb 2 f3)) [
    | inl bad ↦ rw bad (illegal_Agrees k inst w run _ refl)
    | inr good ↦ rw good (elim (Bool-cases (Iss.Memory.misaligned f3 store_addr)) [
      | inl mis ↦ rw mis (store_trap mis)
      | inr al ↦
          rw al
            (Reaches-Agrees f3 store_signals (wires true k inst store_signals) _ (store_Reaches al))
    ])
  ]
