-- ===== src/Examples/Demo.antt =====
-- A small program, in the golden model and in the core.
use rv32i_cpu.Base.{ℕ, ◌≡◌, refl, arith, List, [], ◌∷◌}
use rv32i_cpu.Iss.State.{Iss, new}
use rv32i_cpu.Bits.{bits, sign_extend}
use rv32i_cpu.Iss.Decode.{fields, imm_i, imm_s}
use rv32i_cpu.Iss.Memory.{misaligned}
use rv32i_cpu.Iss.Execute.{
  execute, dispatch, execute_imm, execute_store, execute_load, execute_system,
}
use rv32i_cpu.Iss.Step.{step, run}
use rv32i_cpu.Iss.Step.Invariant.{IsWellFormed, new-IsWellFormed}
use rv32i_cpu.Core.{Core}

-- addi x1, x0, 5; sw x1, 16(x0); lw x2, 16(x0); ecall
abbrev pub program : List ℕ
program = 0x0050_0093 ∷ 0x0010_2823 ∷ 0x0100_2103 ∷ 0x0000_0073 ∷ []

abbrev pub start : Iss
start = new program 8 0

-- A core with the program in its memory.
abbrev pub loaded_core : Core
loaded_core = record {
  count = 8;
  mem = start.mem;
  regs = start.regs;
  pc = start.pc;
  halt_cause = start.halt_cause;
  halted = start.halted;
}

pub start-IsWellFormed : IsWellFormed start
start-IsWellFormed = new-IsWellFormed program 8 0 (omega arith) refl

-- The model stops at the ECALL.
run_halts : (run 10 start).0.halt_cause ≡ 1
unfolding run new step execute dispatch fields bits execute_imm execute_store misaligned imm_s
    sign_extend execute_load imm_i execute_system
run_halts = refl
