-- ===== src/Examples/Bench.antt =====
-- The testbench of the core, at the demo program and at the directed programs.
use rv32i_cpu.Base.{◌≤◌, ◌≡◌, refl, arith, [], true, some, none, replicate, length}
use rv32i_cpu.Bits.{bits, sign_extend}
use rv32i_cpu.Iss.State.{new}
use rv32i_cpu.Iss.Decode.{fields, imm_i}
use rv32i_cpu.Iss.Execute.{execute, dispatch, execute_imm}
use rv32i_cpu.Iss.Alu.{alu}
use rv32i_cpu.Iss.Step.{step, run, commit_of}
use rv32i_cpu.Reference
use rv32i_cpu.Reference.Decoder.{ref_decode}
use rv32i_cpu.Core.{Core, cycle}
use rv32i_cpu.Testbench.{padded, advance}
use rv32i_cpu.Testbench.Run.{passed, Dut, core_dut, run_program}
use rv32i_cpu.Testbench.Passing.{Follows, loaded, run_program-run}
use rv32i_cpu.Testbench.Sound.{Verified, run_program-Verified}
use rv32i_cpu.Testbench.StepEnable.{freeze_and_resume, freeze_and_resume-advance}
use rv32i_cpu.Examples.Demo.{program, loaded_core, start-IsWellFormed}

run_program-run_example :
    Follows
      (loaded loaded_core program [])
      (run 10 (new program 8 0))
      (run_program core_dut 8 loaded_core program 10 none [])
unfolding new cycle ref_decode bits Reference.Memory.index padded
run_program-run_example =
    run_program-run loaded_core program 10 none [] (omega arith) (omega arith)
      (omega arith, (omega arith, (omega arith, (omega arith, tt)))) refl refl

-- The same run, for the witness that starts from a device that passes.
demo_run :
    Follows
      (loaded loaded_core program [])
      (run 10 (new program 8 0))
      (run_program core_dut 8 loaded_core program 10 none [])
unfolding new cycle ref_decode bits Reference.Memory.index padded
demo_run =
    run_program-run loaded_core program 10 none [] (omega arith) (omega arith)
      (omega arith, (omega arith, (omega arith, (omega arith, tt)))) refl refl

run_program-Verified_example :
    (length program ≤ 8)
    × Verified core_dut
        (Dut.load core_dut loaded_core program)
        (run 10 (new program 8 0))
        demo_run.last.device
run_program-Verified_example =
    run_program-Verified core_dut 8 loaded_core program 10 none [] demo_run.last demo_run.passes

freeze_and_resume-advance_example : freeze_and_resume loaded_core ≡ passed (advance loaded_core)
unfolding step execute dispatch fields bits execute_imm new imm_i sign_extend commit_of alu
freeze_and_resume-advance_example =
    freeze_and_resume-advance loaded_core (step (new program 8 0)).0
      (commit_of (new program 8 0) 0x0050_0093
        (record { next_pc = 4; rd_value = some 5; mem_write = 0; mem_addr = 0; mem_wdata = 0 }))
      start-IsWellFormed refl refl

-- A halted core with the memory of the test.
abbrev halted_core : Core
halted_core = record {
  count = 1024;
  mem = replicate 1024 0;
  regs = replicate 32 0;
  pc = 0;
  halt_cause = 1;
  halted = true;
}
