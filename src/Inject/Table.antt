-- ===== src/Inject/Table.antt =====
-- tools/inject_bugs.py: the table MUTANTS.
mod Blocks
mod State
use rv32i_cpu.Base.{List, [], ◌∷◌, ◌++◌}
use rv32i_cpu.Inject.Mutant.{Mutant}
use Blocks.{alu_mutants, regfile_mutants, imm_gen_mutants, decoder_mutants, branch_cmp_mutants}
use State.{memory_mutants, pc_unit_mutants, soc_mutants_before}
pub use State.{stale_mutant, soc_mutants_after}

-- The entries before `stale_mutant`, and those behind it.
abbrev pub mutants_before : List Mutant
mutants_before =
    alu_mutants
    ++ (regfile_mutants
        ++ (imm_gen_mutants
            ++ (decoder_mutants
                ++ (branch_cmp_mutants
                    ++ (memory_mutants ++ (pc_unit_mutants ++ soc_mutants_before))))))

abbrev pub mutants : List Mutant
mutants = mutants_before ++ stale_mutant ∷ soc_mutants_after
