-- ===== src/Examples/Machine.antt =====
-- The theorems on the golden model and the core, at the demo program.
use rv32i_cpu.Base.{
  ℕ, ◌+◌, ◌-◌, ◌%◌, ◌<◌, ◌≡◌, refl, arith, inr, List, [], ◌∷◌, Bool, true, false, if◌then◌else◌,
}
use rv32i_cpu.Iss.State.{new}
use rv32i_cpu.Iss.Memory.{index, misaligned, store, load}
use rv32i_cpu.Iss.Memory.Lanes.{lane}
use rv32i_cpu.Iss.Memory.Bytes.{
  IsMemory, byte_at, covers, load_value, byte_at-store, load-load_value,
}
use rv32i_cpu.Iss.Memory.RoundTrip.{load-store, load-store_apart, truncated}
use rv32i_cpu.Iss.Step.{step, run}
use rv32i_cpu.Iss.Step.Effects.{Ends, step-Ends}
use rv32i_cpu.Iss.Step.Invariant.{IsWellFormed, run-IsWellFormed}
use rv32i_cpu.Iss.Step.Trace.{Explains, Stops, then_run, run-Explains, run-Stops, run-add}
use rv32i_cpu.Reference
use rv32i_cpu.Reference.Decoder.{ref_decode}
use rv32i_cpu.Bits.{bits}
use rv32i_cpu.Core.{as_iss, cycle}
use rv32i_cpu.Core.Edge.{Same}
use rv32i_cpu.Core.Refines.{cycle-step}
use rv32i_cpu.Core.Lockstep.{cycles, enabled, SameRun, cycles-run, cycles-run-new}
use rv32i_cpu.Examples.Demo.{program, start, loaded_core, start-IsWellFormed}

abbrev levels : List Bool
levels = true ∷ false ∷ true ∷ true ∷ true ∷ []

cycles-run-new_example :
    SameRun (cycles levels (cycle true true loaded_core).0) (run (enabled levels) (new program 8 0))
unfolding new cycle ref_decode bits Reference.Memory.index
cycles-run-new_example = cycles-run-new program true loaded_core levels (omega arith) refl refl

cycles-run_example : SameRun (cycles levels loaded_core) (run (enabled levels) (as_iss loaded_core))
unfolding new
cycles-run_example = cycles-run levels loaded_core start-IsWellFormed

cycle-step_example : Same (cycle false true loaded_core) (step (as_iss loaded_core))
unfolding new
cycle-step_example = cycle-step loaded_core start-IsWellFormed

run-IsWellFormed_example : IsWellFormed (run 10 start).0
run-IsWellFormed_example = run-IsWellFormed 10 start start-IsWellFormed

step-Ends_example : Ends start (step start)
unfolding new
step-Ends_example = step-Ends start refl

run-Explains_example : Explains start (run 10 start)
run-Explains_example = run-Explains 10 start

run-Stops_example : Stops 10 (run 10 start)
run-Stops_example = run-Stops 10 start

run-add_example : run (2 + 3) start ≡ then_run (run 2 start) 3
run-add_example = run-add 2 3 start

start-IsMemory : IsMemory start
start-IsMemory = start-IsWellFormed.memory

byte_at-store_example :
    byte_at (store start 1 18 0xabcd) 19
    ≡ (if covers start 1 18 19 then lane 0xabcd (19 % 4 - 18 % 4) else byte_at start 19)
unfolding misaligned
byte_at-store_example = byte_at-store start 1 18 0xabcd 19 start-IsMemory (omega arith) refl

load-load_value_example : load start 5 2 ≡ load_value start 5 2
unfolding misaligned
load-load_value_example = load-load_value start 5 2 start-IsMemory refl (omega arith) (omega arith)

load-store_example : load (store start 1 18 0xabcd) 5 18 ≡ truncated 5 0xabcd
unfolding misaligned
load-store_example =
    load-store start 1 5 18 0xabcd start-IsMemory (omega arith) (inr (refl, omega arith)) refl

-- The byte store at 18 does not cover the byte at 19.
apart_19 : (i : ℕ) → i < 1 → covers start 0 18 (19 + i) ≡ false
unfolding index new
apart_19 i h = let e : i ≡ 0 = omega arith in rw e refl

load-store_apart_example : load (store start 0 18 0xab) 4 19 ≡ load start 4 19
unfolding misaligned
load-store_apart_example =
    load-store_apart start 0 18 0xab 4 19 start-IsMemory (omega arith) refl (omega arith)
      (omega arith) refl apart_19
