-- ===== src/Examples/Directed.antt =====
-- The directed programs of verif/tb_core.py, assembled from their texts, in the golden model and in
-- the core.
use rv32i_cpu.Base.{ℕ, ◌≡◌, refl, arith, List, [], true, replicate, All, Option, none, some}
use rv32i_cpu.Bits.{bits, sign_extend, to_signed}
use rv32i_cpu.Iss.State.{new}
use rv32i_cpu.Iss.Step.{step, run}
use rv32i_cpu.Iss.Decode.{fields, imm_i, imm_s, imm_b, imm_u, imm_j}
use rv32i_cpu.Iss.Memory.{load, misaligned}
use rv32i_cpu.Iss.Alu.{alu, branch_taken}
use rv32i_cpu.Iss.Execute.{
  execute, dispatch, execute_imm, execute_reg, execute_branch, execute_store, execute_load,
  execute_jalr, execute_system,
}
use rv32i_cpu.Asm.Tables.{find}
use rv32i_cpu.Asm.Encode.{imm, reg, split_offset}
use rv32i_cpu.Reference.Decoder.{ref_decode}
use rv32i_cpu.Coverage.Counts.{Counter}
use rv32i_cpu.Core.{Core}
use rv32i_cpu.Asm.Source.{assemble_text}
use rv32i_cpu.Testbench.Run.{passed, core_dut}
use rv32i_cpu.Testbench.Directed.{Program, programs, core_directed_programs}
use rv32i_cpu.Testbench.Directed.Passing.{AllFit, core_directed_programs-AllFit}

-- A halted core with the memory of the test.
abbrev halted_core : Core
halted_core = record {
  count = 1024;
  mem = replicate 1024 0;
  regs = replicate 32 0;
  pc = 0;
  halt_cause = 1;
  halted = true;
}

-- Every one of them assembles, fits, opens without a store and halts the model.
programs_fit : AllFit 1024 programs
unfolding assemble_text run new ref_decode find imm reg split_offset bits step execute dispatch
    fields execute_imm execute_reg execute_branch execute_store execute_load execute_jalr
    execute_system misaligned alu branch_taken imm_i imm_s imm_b imm_u imm_j sign_extend to_signed
    load
programs_fit = (
  (refl, refl, refl),
  (
    (refl, refl, refl),
    (
      (refl, refl, refl),
      (
        (refl, refl, refl),
        (
          (refl, refl, refl),
          (
            (refl, refl, refl),
            (
              (refl, refl, refl),
              (
                (refl, refl, refl),
                (
                  (refl, refl, refl),
                  (
                    (refl, refl, refl),
                    ((refl, refl, refl), ((refl, refl, refl), ((refl, refl, refl), tt))),
                  ),
                ),
              ),
            ),
          ),
        ),
      ),
    ),
  ),
)

-- The cause that the golden model halts with, if the text assembles.
abbrev cause : Option (List ℕ) → ℕ
cause none = 0
cause (some words) = (run 2000 (new words 1024 0)).0.halt_cause

-- The cause is the one that the table declares.
declared_causes : All (λ (p : Program). cause (assemble_text p.source 0) ≡ p.expect_halt) programs
unfolding assemble_text run new ref_decode find imm reg split_offset bits step execute dispatch
    fields execute_imm execute_reg execute_branch execute_store execute_load execute_jalr
    execute_system misaligned alu branch_taken imm_i imm_s imm_b imm_u imm_j sign_extend to_signed
    load
declared_causes = (
  refl,
  (
    refl,
    (refl, (refl, (refl, (refl, (refl, (refl, (refl, (refl, (refl, (refl, (refl, tt))))))))))),
  ),
)

core_directed_programs-AllFit_example :
    (r : Core × Counter) × (core_directed_programs core_dut 1024 halted_core [] programs ≡ passed r)
    × (r.0.halted ≡ true)
core_directed_programs-AllFit_example =
    core_directed_programs-AllFit programs halted_core [] (omega arith) refl programs_fit
