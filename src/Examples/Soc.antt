-- ===== src/Examples/Soc.antt =====
-- The core built of its blocks, at the demo program, and the decoder at a word.
use rv32i_cpu.Base.{◌≡◌, refl, arith, List, [], ◌∷◌, Bool, true, false}
use rv32i_cpu.Iss.State.{new}
use rv32i_cpu.Iss.Step.{run}
use rv32i_cpu.Reference.Decoder.{ref_decode}
use rv32i_cpu.Core.{as_iss, cycle}
use rv32i_cpu.Core.Lockstep.{enabled, SameRun}
use rv32i_cpu.Unit.Decoder.{decoder_block}
use rv32i_cpu.Unit.Decoder.Same.{decoder_block-ref_decode}
use rv32i_cpu.Unit.Soc.{soc_cycle, soc_cycles}
use rv32i_cpu.Unit.Soc.Same.{soc_cycle-cycle}
use rv32i_cpu.Unit.Soc.Lockstep.{soc_cycles-run}
use rv32i_cpu.Examples.Demo.{loaded_core, start-IsWellFormed}

abbrev levels : List Bool
levels = true ∷ false ∷ true ∷ true ∷ []

soc_cycles-run_example :
    SameRun (soc_cycles 3 levels loaded_core) (run (enabled levels) (as_iss loaded_core))
unfolding new
soc_cycles-run_example = soc_cycles-run 3 (omega arith) levels loaded_core refl start-IsWellFormed

soc_cycle-cycle_example : soc_cycle 3 false true loaded_core ≡ cycle false true loaded_core
unfolding new
soc_cycle-cycle_example = soc_cycle-cycle 3 loaded_core (omega arith) refl false true (omega arith)

decoder_block-ref_decode_example : decoder_block 0xfe51_2c23 ≡ ref_decode 0xfe51_2c23
decoder_block-ref_decode_example = decoder_block-ref_decode 0xfe51_2c23
