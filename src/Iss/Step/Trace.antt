-- ===== src/Iss/Step/Trace.antt =====
-- The trace that `Iss.run` collects.
use mathlib.Core.Path.{subst}
use rv32i_cpu.Base.{
  ℕ, zero, suc, ◌+◌, ◌≡◌, refl, ◌∙◌, ap, arith, List, [], ◌∷◌, ◌++◌, true, Option, none, some,
  Bool-cases, inl, inr, length, ◌<◌, ◌⊎◌,
}
use rv32i_cpu.Iss.State.{Iss, Commit}
use rv32i_cpu.Iss.Step.{step, run, continue_run}
use rv32i_cpu.Iss.Step.Effects.{replay_regs, Ends, step-Ends, step_halted}

-- The registers after a trace, and the program counters that link its commits.
abbrev pub replay : List ℕ → List Commit → List ℕ
replay regs [] = regs
replay regs (c ∷ cs) = replay (replay_regs regs c) cs

abbrev pub Linked : ℕ → List Commit → ℕ → Type 0
Linked pc [] pc' = pc' ≡ pc
Linked pc (c ∷ cs) pc' = (c.pc ≡ pc) × Linked c.next_pc cs pc'

abbrev pub Explains : Iss → Iss × List Commit → Type 0
Explains s (t, trace) = (t.regs ≡ replay s.regs trace) × Linked s.pc trace t.pc

continue_run-Explains :
    (s : Iss) (r : Iss × Option Commit) (rest : Iss → Iss × List Commit)
    → ((t : Iss) → Explains t (rest t))
    → Ends s r
    → Explains s (continue_run r rest)
unfolding continue_run
continue_run-Explains s (t, none) rest h e = (e.regs_kept, e.pc_kept)
continue_run-Explains s (t, some c) rest h e = (
  (h t).0 ∙ ap (λ regs. replay regs (rest t).1) e.regs_after,
  (e.pc_before, subst (λ p. Linked p (rest t).1 (rest t).0.pc) e.pc_after (h t).1),
)

-- The trace of a run accounts for the final registers, and its commits are linked: each starts at
-- the program counter where the one before ended, the first at that of the start, and the last
-- ends where the run stops.
pub run-Explains : (max_steps : ℕ) (s : Iss) → Explains s (run max_steps s)
unfolding run
run-Explains zero s = (refl, refl)
run-Explains (suc n) s = elim (Bool-cases s.halted) [
  | inl halted ↦ rw (step_halted s halted) (unfold continue_run in (refl, refl))
  | inr run_on ↦ continue_run-Explains s (step s) (run n) (run-Explains n) (step-Ends s run_on)
]

-- How a run ends after `max_steps`: it retired that many instructions, or it stopped earlier, with
-- the halt flag set.
abbrev pub Stops : ℕ → Iss × List Commit → Type 0
Stops n (t, trace) = (length trace ≡ n) ⊎ ((length trace < n) × (t.halted ≡ true))

continue_run-Stops :
    (s : Iss) (n : ℕ) (r : Iss × Option Commit) (rest : Iss → Iss × List Commit)
    → ((t : Iss) → Stops n (rest t))
    → Ends s r
    → Stops (suc n) (continue_run r rest)
unfolding continue_run
continue_run-Stops s n (t, none) rest h e = inr (omega arith, e.halts)
continue_run-Stops s n (t, some c) rest h e = ground (arith, h t)

-- A run of `max_steps` either retires exactly that many instructions or ends halted with fewer.
pub run-Stops : (max_steps : ℕ) (s : Iss) → Stops max_steps (run max_steps s)
unfolding run
run-Stops zero s = inl refl
run-Stops (suc n) s = elim (Bool-cases s.halted) [
  | inl halted ↦ rw (step_halted s halted) (unfold continue_run in inr (omega arith, halted))
  | inr run_on ↦ continue_run-Stops s n (step s) (run n) (run-Stops n) (step-Ends s run_on)
]

continue_run_words :
    (s : Iss) (r : Iss × Option Commit) (rest : Iss → Iss × List Commit)
    → ((t : Iss) → (rest t).0.words ≡ t.words)
    → Ends s r
    → (continue_run r rest).0.words ≡ s.words
unfolding continue_run
continue_run_words s (t, none) rest h e = e.words_kept
continue_run_words s (t, some c) rest h e = h t ∙ e.words_kept

-- A run keeps the size of the memory.
pub run_words : (n : ℕ) (s : Iss) → (run n s).0.words ≡ s.words
unfolding run
run_words zero s = refl
run_words (suc n) s = elim (Bool-cases s.halted) [
  | inl halted ↦ rw (step_halted s halted) (unfold continue_run in refl)
  | inr run_on ↦ continue_run_words s (step s) (run n) (run_words n) (step-Ends s run_on)
]

-- Running on from where a run stopped.
abbrev pub then_run : Iss × List Commit → ℕ → Iss × List Commit
then_run (t, trace) n = let (t', trace') = run n t in (t', trace ++ trace')

pub run_halted : (n : ℕ) (s : Iss) → s.halted ≡ true → run n s ≡ (s, [])
unfolding run continue_run
run_halted zero s h = refl
run_halted (suc n) s h = rw (step_halted s h)

continue_run-then_run :
    (s : Iss) (m n : ℕ) (r : Iss × Option Commit)
    → ((t : Iss) → run (m + n) t ≡ then_run (run m t) n)
    → Ends s r
    → continue_run r (run (m + n)) ≡ then_run (continue_run r (run m)) n
unfolding continue_run
continue_run-then_run s m n (t, none) h e = rw (run_halted n t e.halts)
continue_run-then_run s m n (t, some c) h e = rw (h t)

-- A run can be interrupted and taken up again: running `m` steps and then `n` more gives the state
-- and the trace of one run of `m + n`.
pub run-add : (m n : ℕ) (s : Iss) → run (m + n) s ≡ then_run (run m s) n
unfolding run
run-add zero n s = let e : 0 + n ≡ n = omega arith in rw e
run-add (suc m) n s =
    let e : suc m + n ≡ suc (m + n) = omega arith in
    rw e (elim (Bool-cases s.halted) [
      | inl halted ↦ rw (step_halted s halted) (unfold continue_run in rw (run_halted n s halted))
      | inr run_on ↦ continue_run-then_run s m n (step s) (run-add m n) (step-Ends s run_on)
    ])
