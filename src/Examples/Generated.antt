-- ===== src/Examples/Generated.antt =====
-- The tests of random programs, at concrete draws.
use rv32i_cpu.Base.{◌≡◌, refl, arith, List, [], ◌∷◌, true, inl, inr, replicate}
use rv32i_cpu.Base.Int.{◌-ℤ◌, and_ℤ}
use rv32i_cpu.Bits.{bits, sign_extend, to_signed}
use rv32i_cpu.Isa.{u_type, i_type, r_type, s_type}
use rv32i_cpu.Iss.State.{new}
use rv32i_cpu.Iss.Decode.{fields, imm_i, imm_s, imm_u}
use rv32i_cpu.Iss.Alu.{alu}
use rv32i_cpu.Iss.Memory.{misaligned}
use rv32i_cpu.Iss.Execute.{
  execute, dispatch, execute_imm, execute_reg, execute_store, execute_load, execute_system,
}
use rv32i_cpu.Iss.Step.{step, run}
use rv32i_cpu.Coverage.Counts.{Counter}
use rv32i_cpu.Core.{Core}
use rv32i_cpu.Randgen
use rv32i_cpu.Randgen.{Draw, random_program, body, prologue, instruction}
use rv32i_cpu.Testbench.Run.{passed, core_dut, ◌>>=◌}
use rv32i_cpu.Testbench.Random.{core_random_programs, core_random_long}
use rv32i_cpu.Testbench.Random.Passing.{HaltsWithin, core_random_long-HaltsWithin}

abbrev halted_core : Core
halted_core = record {
  count = 512;
  mem = replicate 512 0;
  regs = replicate 32 0;
  pc = 0;
  halt_cause = 1;
  halted = true;
}

abbrev shifting : List Draw
shifting =
    record { rd = 5; rs1 = 6; rs2 = 7; choice = Randgen.shift 5 0x20 31 }
    ∷ record { rd = 8; rs1 = 0; rs2 = 9; choice = Randgen.store 1 6 }
    ∷ []

abbrev adding : List Draw
adding = record { rd = 5; rs1 = 0; rs2 = 7; choice = Randgen.alu_imm 0xfff 0 } ∷ []

shifting_halts : HaltsWithin 300 512 shifting
unfolding random_program body prologue instruction u_type i_type r_type s_type ◌-ℤ◌ and_ℤ run new
    step execute dispatch fields bits execute_imm execute_reg execute_store misaligned imm_s imm_u
    sign_extend to_signed execute_load imm_i execute_system alu
shifting_halts = (
  (
    (omega arith, omega arith, omega arith, omega arith, (omega arith, inr (refl, inr (inl refl)))),
    ((omega arith, omega arith, omega arith, omega arith, (inr (inl refl), omega arith)), tt),
  ),
  omega arith,
  refl,
)

adding_halts : HaltsWithin 800 512 adding
unfolding random_program body prologue instruction u_type i_type r_type s_type ◌-ℤ◌ and_ℤ run new
    step execute dispatch fields bits execute_imm execute_reg execute_store misaligned imm_s imm_u
    sign_extend to_signed execute_load imm_i execute_system alu
adding_halts = (
  ((omega arith, omega arith, omega arith, omega arith, (omega arith, inl refl)), tt),
  omega arith,
  refl,
)

core_random_long-HaltsWithin_example :
    (r : Core × Counter) × (core_random_programs core_dut 512 halted_core [] (shifting ∷ [])
        >>= (λ (s : Core × Counter). core_random_long core_dut 512 s.0 s.1 (adding ∷ []))
      ≡ passed r)
    × (r.0.halted ≡ true)
core_random_long-HaltsWithin_example =
    core_random_long-HaltsWithin (shifting ∷ []) (adding ∷ []) halted_core [] (omega arith) refl
      (shifting_halts, tt) (adding_halts, tt)
