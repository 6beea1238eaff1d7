-- ===== src/Core/Lockstep.antt =====
-- Many clock edges of the core against a run of the golden model.
use rv32i_cpu.Base.{
  ℕ, ◌<◌, ℕ, suc, ◌≡◌, refl, ap, ◌∙◌, List, [], ◌∷◌, Bool, true, false, Option, none, some,
  Bool-cases, inl, inr,
}
use rv32i_cpu.Iss.State.{Iss, Commit, new}
use rv32i_cpu.Iss.Step.{step, run, continue_run}
use rv32i_cpu.Iss.Step.Effects.{Ends, step-Ends, step_halted}
use rv32i_cpu.Iss.Step.Invariant.{IsWellFormed, new-IsWellFormed, step-IsWellFormed}
use rv32i_cpu.Scoreboard.{compare_commit}
use rv32i_cpu.Core.{Core, as_iss, cycle}
use rv32i_cpu.Core.Edge.{Same}
use rv32i_cpu.Core.Refines.{cycle-step, cycle_halted}
use rv32i_cpu.Core.Freeze.{cycle_frozen, stores, cycle-new}

-- The commits of a sequence of clock edges, one for each level of `step_en`.
abbrev pub record_commit : Option Commit → List Commit → List Commit
record_commit none trace = trace
record_commit (some c) trace = c ∷ trace

abbrev pub continue_cycles : Core × Option Commit → (Core → Core × List Commit) → Core × List Commit
continue_cycles (k, c) rest = let (k', trace) = rest k in (k', record_commit c trace)

unfoldable pub cycles : List Bool → Core → Core × List Commit
cycles [] k = (k, [])
cycles (step_en ∷ levels) k = continue_cycles (cycle false step_en k) (cycles levels)

-- The edges with `step_en` high.
abbrev pub enabled : List Bool → ℕ
enabled [] = 0
enabled (true ∷ levels) = suc (enabled levels)
enabled (false ∷ levels) = enabled levels

-- The scoreboard accepts the commits, one for one.
abbrev pub Accepted : List Commit → List Commit → Type 0
Accepted [] [] = Unit
Accepted (c ∷ cs) (e ∷ es) = (compare_commit c e ≡ []) × Accepted cs es
Accepted _ _ = ⊥

abbrev pub SameRun : Core × List Commit → Iss × List Commit → Type 0
SameRun (k, trace) (s, expected) = (as_iss k ≡ s) × Accepted trace expected

cycles_halted : (levels : List Bool) (k : Core) → k.halted ≡ true → cycles levels k ≡ (k, [])
unfolding cycles
cycles_halted [] k h = refl
cycles_halted (step_en ∷ levels) k h = rw (cycle_halted step_en k h, cycles_halted levels k h) refl

continue_Same :
    (levels : List Bool) (s : Iss) (r : Core × Option Commit) (e : Iss × Option Commit)
    → ((k : Core)
        → IsWellFormed (as_iss k)
        → SameRun (cycles levels k) (run (enabled levels) (as_iss k)))
    → IsWellFormed e.0
    → Ends s e
    → Same r e
    → SameRun (continue_cycles r (cycles levels)) (continue_run e (run (enabled levels)))
unfolding continue_run
continue_Same levels s (k, none) (t, none) h w ends same =
    let stuck : k.halted ≡ true = ap (λ (x : Iss). x.halted) same ∙ ends.halts in
    rw (cycles_halted levels k stuck) (same, tt)
continue_Same levels s (k, none) (t, some e) h w ends same = absurd same
continue_Same levels s (k, some c) (t, none) h w ends same = absurd same
continue_Same levels s (k, some c) (t, some e) h w ends same =
    let rest : SameRun (cycles levels k) (run (enabled levels) t) =
      rw same.0 at (h k (rw same.0 w)) in
    (rest.0, (same.1, rest.1))

-- From any well-formed state and for any levels of `step_en`, the core makes the run of the golden
-- model with as many steps as there are edges with `step_en` high: the two end in the same state,
-- and the scoreboard accepts the commits of the core, one for one, against the trace of the model.
pub cycles-run :
    (levels : List Bool) (k : Core)
    → IsWellFormed (as_iss k)
    → SameRun (cycles levels k) (run (enabled levels) (as_iss k))
unfolding cycles run
cycles-run [] k w = (refl, tt)
cycles-run (false ∷ levels) k w = rw (cycle_frozen k) (cycles-run levels k w)
cycles-run (true ∷ levels) k w = elim (Bool-cases k.halted) [
  | inl halted ↦
      rw (cycle_halted true k halted, cycles_halted levels k halted, step_halted (as_iss k) halted)
        (unfold continue_run in (refl, tt))
  | inr running ↦
      continue_Same levels (as_iss k) (cycle false true k) (step (as_iss k)) (cycles-run levels)
        (step-IsWellFormed (as_iss k) w) (step-Ends (as_iss k) running) (cycle-step k w)
]

-- A core whose memory holds a program, after a clock edge in reset that has nothing to store, makes
-- the run of a new golden model of that program, whatever the levels of `step_en` after reset: the
-- two end in the same state, and the scoreboard accepts the commits one for one.
pub cycles-run-new :
    (program : List ℕ) (step_en : Bool) (k : Core) (levels : List Bool)
    → 0 < k.count
    → k.mem ≡ (new program k.count 0).mem
    → stores step_en k ≡ false
    → SameRun
        (cycles levels (cycle true step_en k).0)
        (run (enabled levels) (new program k.count 0))
cycles-run-new program step_en k levels room loaded quiet =
    let start = (cycle-new program step_en k loaded quiet).0 in
    rw start at (
      cycles-run levels (cycle true step_en k).0
        (rw start (new-IsWellFormed program k.count 0 room refl)))
