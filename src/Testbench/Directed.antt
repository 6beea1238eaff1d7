-- ===== src/Testbench/Directed.antt =====
-- verif/tb_core.py: the table PROGRAMS, and the test that runs all of them.
pub mod Compute
pub mod Control
pub mod Traps
pub mod Passing
use Prim.Native.String.{String}
use rv32i_cpu.Base.{ℕ, List, [], ◌∷◌, Option, none, some}
use rv32i_cpu.Iss.State.{
  halt_ebreak, halt_ecall, halt_fetch_misalign, halt_illegal, halt_mem_misalign,
}
use rv32i_cpu.Coverage.Counts.{Counter}
use rv32i_cpu.Asm.Source.{assemble_text}
use rv32i_cpu.Testbench.Run.{Checked, passed, Dut, assembled, run_program, ◌>>=◌}
use Compute.{arithmetic, shifts, branches, memory}
use Control.{jumps_and_upper, x0_and_immediate_edges, fibonacci, bubble_sort}
use Traps.{
  trap_ebreak, trap_illegal, trap_misaligned_load, trap_misaligned_store, trap_misaligned_jump,
}

-- A program and the halt cause that the table declares for it.
pub record Program : Type 0 where
  pub name : String
  pub source : String
  pub expect_halt : ℕ

abbrev pub programs : List Program
programs =
    record { name = "arithmetic"; source = arithmetic; expect_halt = halt_ecall }
    ∷ record { name = "shifts"; source = shifts; expect_halt = halt_ecall }
    ∷ record { name = "branches"; source = branches; expect_halt = halt_ecall }
    ∷ record { name = "memory"; source = memory; expect_halt = halt_ecall }
    ∷ record { name = "jumps_and_upper"; source = jumps_and_upper; expect_halt = halt_ecall }
    ∷ record {
      name = "x0_and_immediate_edges";
      source = x0_and_immediate_edges;
      expect_halt = halt_ecall;
    }
    ∷ record { name = "fibonacci"; source = fibonacci; expect_halt = halt_ecall }
    ∷ record { name = "bubble_sort"; source = bubble_sort; expect_halt = halt_ecall }
    ∷ record { name = "trap_ebreak"; source = trap_ebreak; expect_halt = halt_ebreak }
    ∷ record { name = "trap_illegal"; source = trap_illegal; expect_halt = halt_illegal }
    ∷ record {
      name = "trap_misaligned_load";
      source = trap_misaligned_load;
      expect_halt = halt_mem_misalign;
    }
    ∷ record {
      name = "trap_misaligned_store";
      source = trap_misaligned_store;
      expect_halt = halt_mem_misalign;
    }
    ∷ record {
      name = "trap_misaligned_jump";
      source = trap_misaligned_jump;
      expect_halt = halt_fetch_misalign;
    }
    ∷ []

-- `core_directed_programs`: each program in turn, on the device and the counts that the one before
-- left.
unfoldable pub core_directed_programs :
    {D : Type 0} → Dut D → ℕ → D → Counter → List Program → Checked (D × Counter)
unfolding assemble_text run_program
core_directed_programs dut words d counts [] = passed (d, counts)
core_directed_programs dut words d counts (p ∷ ps) = do
  program ← assembled (assemble_text p.source 0)
  q ← run_program dut words d program 2000 (some p.expect_halt) counts
  core_directed_programs dut words q.device q.counts ps
