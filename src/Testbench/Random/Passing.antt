-- ===== src/Testbench/Random/Passing.antt =====
-- The random programs of verif/tb_core.py on the core.
use rv32i_cpu.Base.{ℕ, ◌<◌, ◌≤◌, ◌≡◌, refl, ◌∙◌, arith, List, [], ◌∷◌, true, none, length, All}
use rv32i_cpu.Base.Int.{and_ℤ}
use rv32i_cpu.Bits.{bits}
use rv32i_cpu.Isa.{u_type}
use rv32i_cpu.Iss.State.{new}
use rv32i_cpu.Iss.Step.{run}
use rv32i_cpu.Reference.Decoder.{ref_decode}
use rv32i_cpu.Coverage.Counts.{Counter}
use rv32i_cpu.Core.{Core}
use rv32i_cpu.Randgen.{Draw, prologue, random_program}
use rv32i_cpu.Randgen.Legal.{Drawn}
use rv32i_cpu.Randgen.Bounds.{random_program_small}
use rv32i_cpu.Testbench.Run.{passed, core_dut, ◌>>=◌}
use rv32i_cpu.Testbench.Directed.Passing.{OpensQuietly, one_passes}
use rv32i_cpu.Testbench.Random.{run_random, core_random_programs, core_random_long}

random_program_quiet : (draws : List Draw) → OpensQuietly (random_program draws)
unfolding random_program prologue u_type and_ℤ ref_decode bits
random_program_quiet draws = refl

-- Draws in the ranges of `random`, of a program that fits and halts the golden model in time.
abbrev pub HaltsWithin : ℕ → ℕ → List Draw → Type 0
HaltsWithin max_steps count draws =
    All Drawn draws
    × (length (random_program draws) ≤ count)
    × ((run max_steps (new (random_program draws) count 0)).0.halted ≡ true)

run_random-HaltsWithin :
    (max_steps : ℕ) (programs : List (List Draw)) (k : Core) (counts : Counter)
    → 0 < k.count
    → k.halted ≡ true
    → All (HaltsWithin max_steps k.count) programs
    → (r : Core × Counter) × (run_random core_dut k.count max_steps k counts programs ≡ passed r)
      × (r.0.halted ≡ true)
      × (r.0.count ≡ k.count)
unfolding run_random
run_random-HaltsWithin n [] k counts room h fit = ((k, counts), refl, h, refl)
run_random-HaltsWithin n (draws ∷ rest) k counts room h ((drawn, fits, halts), fit) =
    let (q, passes, halted, count) =
      one_passes n k (random_program draws) none counts room h (random_program_small draws drawn)
        (ground arith, random_program_quiet draws, halts) in
    let (r, more, last, size) =
      run_random-HaltsWithin n rest q.device q.counts (rw count room) halted (rw count fit) in
    (r, simp passes (simp count at more), last, size ∙ count)

-- Random programs that fit and halt the golden model within the steps of their test pass one after
-- the other on a core that is halted at the start, for draws in the ranges of `random`, first those
-- of the short test and then those of the long one, and leave the core halted.
pub core_random_long-HaltsWithin :
    (short long : List (List Draw)) (k : Core) (counts : Counter)
    → 0 < k.count
    → k.halted ≡ true
    → All (HaltsWithin 300 k.count) short
    → All (HaltsWithin 800 k.count) long
    → (r : Core × Counter) × (core_random_programs core_dut k.count k counts short
          >>= (λ (s : Core × Counter). core_random_long core_dut k.count s.0 s.1 long)
        ≡ passed r)
      × (r.0.halted ≡ true)
unfolding core_random_programs core_random_long
core_random_long-HaltsWithin short long k counts room h first second =
    let (s, passes, halted, count) = run_random-HaltsWithin 300 short k counts room h first in
    let (r, more, last, size) =
      run_random-HaltsWithin 800 long s.0 s.1 (rw count room) halted (rw count second) in
    (r, simp passes (simp count at more), last)
