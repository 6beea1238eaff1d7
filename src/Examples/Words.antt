-- ===== src/Examples/Words.antt =====
-- The theorems on words, encodings, operations and counts, at concrete inputs.
use rv32i_cpu.Base.{◌+◌, ◌^◌, ◌-◌, ◌≤◌, ◌≡◌, ◌↔◌, refl, arith, List, [], ◌∷◌, map, All, bit_and}
use rv32i_cpu.Coverage.Report.{sorted, bin_line}
use rv32i_cpu.Base.Int.{pos, negsuc, ◌≤ℤ◌, and_ℤ}
use rv32i_cpu.Bits.{to_signed}
use rv32i_cpu.Bits.Laws.{to_signed_bounds}
use rv32i_cpu.Iss.Step.{run}
use rv32i_cpu.Coverage.{required, sample_trace}
use rv32i_cpu.Coverage.Counts.{Counter, hits}
use rv32i_cpu.Coverage.Occasions.{occasions, occurrences}
use rv32i_cpu.Coverage.Occasions.Hits.{hits-sample_trace}
use rv32i_cpu.Testbench.Run.{passed}
use rv32i_cpu.Testbench.Random.{core_functional_coverage}
use rv32i_cpu.Testbench.Random.Gate.{core_functional_coverage-required}
use rv32i_cpu.Examples.Demo.{start}
use Prim.Native.String.{String}

to_signed_bounds_example :
    (negsuc (2 ^ (12 - 1) - 1) ≤ℤ to_signed 0xabc 12)
    × (to_signed 0xabc 12 ≤ℤ pos (2 ^ (12 - 1) - 1))
    × (and_ℤ (to_signed 0xabc 12) (2 ^ 12 - 1) ≡ bit_and 0xabc (2 ^ 12 - 1))
to_signed_bounds_example = to_signed_bounds 0xabc 12 (omega arith)

-- A count of one for every required bin.
abbrev full_counts : List String → Counter
full_counts [] = []
full_counts (b ∷ bins) = (b, 1) ∷ full_counts bins

core_functional_coverage-required_example :
    (core_functional_coverage (full_counts required) ≡ passed tt)
    ↔ All (λ b. 1 ≤ hits b (full_counts required)) required
core_functional_coverage-required_example = core_functional_coverage-required (full_counts required)

hits-sample_trace_example :
    (map (λ entry. entry.0) occasions ≡ required)
    × All
        (λ entry.
          hits entry.0 (sample_trace (full_counts required) (run 10 start).1)
          ≡ hits entry.0 (full_counts required) + occurrences entry.1 (run 10 start).1)
        occasions
hits-sample_trace_example = hits-sample_trace (full_counts required) (run 10 start).1

-- The report of two bins, without the line on the holes.
reported_bins :
    map (bin_line (("op:lui", 3) ∷ ("halt:1", 12) ∷ [])) (sorted ("op:lui" ∷ "halt:1" ∷ []))
    ≡ "halt:1                             12" ∷ "op:lui                              3" ∷ []
unfolding bin_line sorted
reported_bins = refl
