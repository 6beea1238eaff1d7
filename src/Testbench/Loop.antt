-- ===== src/Testbench/Loop.antt =====
-- The loop of `run_program` on the core: it accepts every commit of the model, within its budget.
use rv32i_cpu.Base.{
  ℕ, zero, suc, ◌+◌, ◌≤◌, ◌≡◌, refl, ap, ◌∙◌, arith, List, [], ◌∷◌, Bool, true, false, Option, none,
  some, Bool-cases, inl, inr, length, ◌!=◌,
}
use rv32i_cpu.Iss.State.{Iss, Commit}
use rv32i_cpu.Iss.Step.{step, run, continue_run}
use rv32i_cpu.Iss.Step.Effects.{Ends, step-Ends, step_halted}
use rv32i_cpu.Iss.Step.Invariant.{IsWellFormed, step-IsWellFormed}
use rv32i_cpu.Coverage.{sample, sample_trace}
use rv32i_cpu.Scoreboard.{compare_commit}
use rv32i_cpu.Core.{Core, as_iss, cycle}
use rv32i_cpu.Core.Edge.{Same}
use rv32i_cpu.Core.Refines.{cycle-step}
use rv32i_cpu.Testbench.{advance}
use rv32i_cpu.Testbench.Run.{Checked, passed, Progress, core_dut, progress, retire_all}

-- `s` is where the device stands when the loop ends: one edge before the end `t` of the run if the
-- model halted, and at it otherwise.
abbrev pub Stands : Bool → Iss → Iss → Type 0
Stands true s t = (step s).0 ≡ t
Stands false s t = s ≡ t

stays : (b : Bool) (s : Iss) → s.halted ≡ b → Stands b s s
stays true s h = rw (step_halted s h) refl
stays false s h = refl

-- The loop passes on what the model expects, and where it leaves the device.
pub record Passes (p q : Progress Core) (r : Iss × List Commit) (c : Checked (Progress Core))
    : Type 0 where
  pub passes : c ≡ passed q
  pub well_formed : IsWellFormed (as_iss q.device)
  pub stands : Stands r.0.halted (as_iss q.device) r.0
  pub counted : q.counts ≡ sample_trace p.counts r.1
  pub all_retired : q.retired ≡ p.retired + length r.1

abbrev pub LoopPasses : ℕ → Progress Core → Iss × List Commit → Type 0
LoopPasses budget p r = (q : Progress Core) × Passes p q r (retire_all core_dut budget p r.1)

nothing_expected :
    (budget : ℕ) (p : Progress Core) (t : Iss)
    → IsWellFormed (as_iss p.device)
    → Stands t.halted (as_iss p.device) t
    → LoopPasses budget p (t, [])
unfolding retire_all sample_trace
nothing_expected budget p t w h = (
  p,
  record { passes = refl; well_formed = w; stands = h; counted = refl; all_retired = omega arith },
)

-- Where the loop goes on after a commit that is accepted.
abbrev after : Progress Core → Core → Commit → Progress Core
after p k e = record { device = k; counts = sample p.counts e.inst e; retired = p.retired + 1 }

one_more :
    (budget : ℕ) (p : Progress Core) (k : Core) (c e : Commit) (es : List Commit)
    → 1 ≤ budget
    → p.device.halted ≡ false
    → (cycle false true p.device).0 ≡ k
    → (cycle false true p.device).1 ≡ some c
    → compare_commit c e ≡ []
    → retire_all core_dut (suc budget) p (e ∷ es) ≡ retire_all core_dut budget (after p k e) es
unfolding retire_all progress core_dut advance
one_more budget p k c e es some_left running moved retires same =
    let left : (budget != 0) ≡ true = ground arith in
    simp (left, running)
      (rw retires (simp same (ap (λ d. retire_all core_dut budget (after p d e) es) moved)))

continue_LoopPasses :
    (n budget : ℕ) (p : Progress Core) (r : Core × Option Commit) (m : Iss × Option Commit)
    → ((b : ℕ) (q : Progress Core)
        → IsWellFormed (as_iss q.device)
        → suc (length (run n (as_iss q.device)).1) ≤ b
        → LoopPasses b q (run n (as_iss q.device)))
    → p.device.halted ≡ false
    → IsWellFormed (as_iss p.device)
    → IsWellFormed m.0
    → step (as_iss p.device) ≡ m
    → cycle false true p.device ≡ r
    → Same r m
    → Ends (as_iss p.device) m
    → suc (length (continue_run m (run n)).1) ≤ budget
    → LoopPasses budget p (continue_run m (run n))
unfolding continue_run sample_trace
continue_LoopPasses n budget p (k, none) (t, none) rest running w w' stepped edge same ends enough =
    nothing_expected budget p t w (simp ends.halts (rw stepped refl))
continue_LoopPasses n budget p (k, none) (t, some e) rest running w w' stepped edge same ends
      enough =
    absurd same
continue_LoopPasses n budget p (k, some c) (t, none) rest running w w' stepped edge same ends
      enough =
    absurd same
continue_LoopPasses n zero p (k, some c) (t, some e) rest running w w' stepped edge same ends
      enough =
    absurd (omega arith)
continue_LoopPasses n (suc b) p (k, some c) (t, some e) rest running w w' stepped edge same ends
      enough =
    let q = after p k e in
    let on : LoopPasses b q (run n (as_iss k)) =
      rest b q (rw same.0 w') (rw same.0 (omega (arith, enough))) in
    let (last, h) : LoopPasses b q (run n t) = rw same.0 at on in
    (
      last,
      record {
        passes =
            one_more b p k c e (run n t).1 (omega (arith, enough)) running (ap (λ x. x.0) edge)
              (ap (λ x. x.1) edge) same.1
            ∙ h.passes;
        well_formed = h.well_formed;
        stands = h.stands;
        counted = h.counted;
        all_retired = omega (arith, h.all_retired);
      },
    )

-- With a budget above the number of commits that the model makes, the loop passes.
pub retire_all-run :
    (n budget : ℕ) (p : Progress Core)
    → IsWellFormed (as_iss p.device)
    → suc (length (run n (as_iss p.device)).1) ≤ budget
    → LoopPasses budget p (run n (as_iss p.device))
unfolding run
retire_all-run zero budget p w enough =
    nothing_expected budget p (as_iss p.device) w (stays p.device.halted (as_iss p.device) refl)
retire_all-run (suc n) budget p w enough = elim (Bool-cases p.device.halted) [
  | inl halted ↦ simp (step_halted (as_iss p.device) halted) (
      unfold continue_run in
      nothing_expected budget p (as_iss p.device) w (stays p.device.halted (as_iss p.device) refl))
  | inr running ↦
      continue_LoopPasses n budget p (cycle false true p.device) (step (as_iss p.device))
        (retire_all-run n) running w (step-IsWellFormed (as_iss p.device) w) refl refl
        (cycle-step p.device w) (step-Ends (as_iss p.device) running) enough
]
