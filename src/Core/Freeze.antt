-- ===== src/Core/Freeze.antt =====
-- The inputs of the core that hold it: `step_en` low, and `rst`.
use rv32i_cpu.Base.{ℕ, ◌≡◌, refl, arith, List, Bool, true, false, not, ◌&&◌, none, replicate}
use rv32i_cpu.Iss.State.{new}
use rv32i_cpu.Reference.Decoder.{ref_decode}
use rv32i_cpu.Core.{Core, as_iss, clock, fetched, cycle}

-- With `step_en` low a clock edge changes nothing, and retires nothing.
pub cycle_frozen : (k : Core) → cycle false false k ≡ (k, none)
unfolding cycle clock
cycle_frozen k = ground arith

-- The store that the decoder sees in the fetched word, and that an edge would carry out.
abbrev pub stores : Bool → Core → Bool
stores step_en k = (ref_decode (fetched k)).mem_write && not k.halted && step_en

pub clear_lem :
    (step_en : Bool) (k : Core)
    → stores step_en k ≡ false
    → cycle true step_en k
      ≡ (record k { regs = replicate 32 0; pc = 0; halt_cause = 0; halted = false }, none)
unfolding cycle clock
clear_lem step_en k h = ground (arith, h)

-- A clock edge in reset brings the core, with a program in its memory and nothing to store, to the
-- state of a new golden model of that program, and retires nothing.
pub cycle-new :
    (program : List ℕ) (step_en : Bool) (k : Core)
    → k.mem ≡ (new program k.count 0).mem
    → stores step_en k ≡ false
    → (as_iss (cycle true step_en k).0 ≡ new program k.count 0) × ((cycle true step_en k).1 ≡ none)
unfolding new
cycle-new program step_en k loaded quiet = rw (clear_lem step_en k quiet) (cc (loaded), refl)
