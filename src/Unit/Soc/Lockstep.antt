-- ===== src/Unit/Soc/Lockstep.antt =====
-- Many clock edges of the core built of its blocks as they are written, against a run of the golden
-- model.
use rv32i_cpu.Base.{
  ℕ, ◌^◌, ◌≤◌, ◌≡◌, refl, ◌∙◌, List, [], ◌∷◌, Bool, true, false, Option, none, some,
}
use rv32i_cpu.Iss.State.{Iss, Commit}
use rv32i_cpu.Iss.Step.{step, run}
use rv32i_cpu.Iss.Step.Invariant.{IsWellFormed, step-IsWellFormed}
use rv32i_cpu.Core.{Core, as_iss, clock, cycle}
use rv32i_cpu.Core.Edge.{Same}
use rv32i_cpu.Core.Freeze.{cycle_frozen}
use rv32i_cpu.Core.Refines.{cycle-step}
use rv32i_cpu.Core.Lockstep.{cycles, continue_cycles, enabled, SameRun, cycles-run}
use rv32i_cpu.Unit.Soc.{soc_cycles}
use rv32i_cpu.Unit.Soc.Same.{soc_cycle-cycle}

cycle_ends : (r : Core × Option Commit) (e : Iss × Option Commit) → Same r e → as_iss r.0 ≡ e.0
cycle_ends (k, none) (s, none) h = h
cycle_ends (k, some c) (s, some c') h = h.0
cycle_ends (k, none) (s, some c') h = absurd h
cycle_ends (k, some c) (s, none) h = absurd h

-- A clock edge out of reset keeps a core well formed, and its number of words.
cycle-IsWellFormed :
    (step_en : Bool) (k : Core)
    → IsWellFormed (as_iss k)
    → IsWellFormed (as_iss (cycle false step_en k).0)
cycle-IsWellFormed false k w = rw (cycle_frozen k) w
cycle-IsWellFormed true k w =
    rw (cycle_ends (cycle false true k) (step (as_iss k)) (cycle-step k w))
      (step-IsWellFormed (as_iss k) w)

cycle_count : (rst step_en : Bool) (k : Core) → (cycle rst step_en k).0.count ≡ k.count
unfolding cycle clock
cycle_count rst step_en k = refl

module _ (idx : ℕ) (h : 1 ≤ idx) where
  continue_same :
      (levels : List Bool) (r : Core × Option Commit)
      → soc_cycles idx levels r.0 ≡ cycles levels r.0
      → continue_cycles r (soc_cycles idx levels) ≡ continue_cycles r (cycles levels)
  continue_same levels (k, c) e = rw e refl

  soc_cycles-cycles :
      (levels : List Bool) (k : Core)
      → k.count ≡ 2 ^ idx
      → IsWellFormed (as_iss k)
      → soc_cycles idx levels k ≡ cycles levels k
  unfolding soc_cycles cycles
  soc_cycles-cycles [] k e w = refl
  soc_cycles-cycles (step_en ∷ levels) k e w =
      rw (soc_cycle-cycle idx k h e false step_en w.memory.small) (
        continue_same levels (cycle false step_en k) (
          soc_cycles-cycles levels (cycle false step_en k).0 (cycle_count false step_en k ∙ e)
            (cycle-IsWellFormed step_en k w)))

  -- From any well-formed state with an array of a power of two of words, at least two, the core built
  -- of its blocks as they are written makes the run of the golden model, whatever the levels of
  -- `step_en`: the two end in the same state, and the scoreboard accepts the commits one for one.
  pub soc_cycles-run :
      (levels : List Bool) (k : Core)
      → k.count ≡ 2 ^ idx
      → IsWellFormed (as_iss k)
      → SameRun (soc_cycles idx levels k) (run (enabled levels) (as_iss k))
  soc_cycles-run levels k e w = rw (soc_cycles-cycles levels k e w) (cycles-run levels k w)
