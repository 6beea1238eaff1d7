-- ===== src/Testbench/Random.antt =====
-- verif/tb_core.py: the tests that run random programs, and the test that holds the counts of all of
-- them against the required bins. The draws of verif/randgen.py are a parameter.
pub mod Passing
pub mod Gate
use rv32i_cpu.Base.{ℕ, List, [], ◌∷◌, none}
use rv32i_cpu.Coverage.{missing}
use rv32i_cpu.Coverage.Counts.{Counter}
use rv32i_cpu.Randgen.{Draw, random_program}
use rv32i_cpu.Testbench.Run.{
  Checked, passed, coverage_holes, Dut, check, is_empty, run_program, ◌>>=◌,
}

module _ {D : Type 0} (dut : Dut D) (words : ℕ) where
  -- Each program in turn, on the device and the counts that the one before left.
  unfoldable pub run_random : ℕ → D → Counter → List (List Draw) → Checked (D × Counter)
  unfolding run_program random_program
  run_random max_steps d counts [] = passed (d, counts)
  run_random max_steps d counts (draws ∷ rest) = do
    p ← run_program dut words d (random_program draws) max_steps none counts
    run_random max_steps p.device p.counts rest

  unfoldable pub core_random_programs : D → Counter → List (List Draw) → Checked (D × Counter)
  unfolding run_random
  core_random_programs d counts programs = run_random 300 d counts programs

  unfoldable pub core_random_long : D → Counter → List (List Draw) → Checked (D × Counter)
  unfolding run_random
  core_random_long d counts programs = run_random 800 d counts programs

unfoldable pub core_functional_coverage : Counter → Checked (Unit {0})
unfolding missing
core_functional_coverage counts = check (is_empty (missing counts)) coverage_holes
