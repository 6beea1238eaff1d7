-- ===== src/Testbench/StepEnable.antt =====
-- verif/tb_core.py: `core_step_enable_freezes`, the test that lowers `step_en` in the middle of a
-- program and raises it again.
use Prim.Native.String.{String, ◌++◌}
use rv32i_cpu.Asm.Source.{assemble_text}
use rv32i_cpu.Base.{
  is_some, ==_refl, ℕ, zero, suc, ◌+◌, ◌≡◌, refl, ap, ◌∙◌, Bool, true, false, not, Option, none,
  some, get_or, ◌==◌,
}
use rv32i_cpu.Iss.State.{Iss, Commit}
use rv32i_cpu.Iss.Step.{step}
use rv32i_cpu.Iss.Step.Invariant.{IsWellFormed}
use rv32i_cpu.Core.{Core, as_iss, cycle}
use rv32i_cpu.Core.Edge.{Same}
use rv32i_cpu.Core.Refines.{cycle-step}
use rv32i_cpu.Core.Freeze.{cycle_frozen}
use rv32i_cpu.Testbench.{advance, load_and_reset}
use rv32i_cpu.Testbench.Run.{
  Checked, passed, assembled, check, ◌>>=◌, ◌>>◌, pc_moved, register_moved, shown_frozen, not_shown,
  not_resumed,
}

-- One clock edge with `step_en` low.
unfoldable pub idle : Core → Core
idle k = (cycle false false k).0

unfoldable pub valid : Bool → Core → Bool
valid step_en k = is_some (cycle false step_en k).1

-- `for _ in range(n)`, with `step_en` low: the program counter and x5 keep these values.
unfoldable pub holds : ℕ → ℕ → ℕ → Core → Checked Core
unfolding idle
holds zero pc reg k = passed k
holds (suc n) pc reg k = do
  check ((idle k).pc == pc) pc_moved
  check (get_or (idle k).regs 5 0 == reg) register_moved
  holds n pc reg (idle k)

-- The test from the point where `step_en` goes low to its end, where it is high again.
unfoldable pub freeze_and_resume : Core → Checked Core
unfolding holds valid advance
freeze_and_resume k = do
  check (not (valid false k)) shown_frozen
  k' ← holds 5 k.pc (get_or k.regs 5 0) k
  check (valid true k') not_shown
  check ((advance k').pc == k.pc + 4) not_resumed
  passed (advance k')

abbrev pub step_enable_program : String
step_enable_program =
    "\n" ++ "        li   t0, 1\n" ++ "        addi t0, t0, 1\n" ++ "        addi t0, t0, 1\n"
    ++ "        addi t0, t0, 1\n" ++ "        ecall\n" ++ "    "

unfoldable pub core_step_enable_freezes : Core → Checked Core
unfolding assemble_text load_and_reset advance freeze_and_resume
core_step_enable_freezes k = do
  program ← assembled (assemble_text step_enable_program 0)
  freeze_and_resume (advance (advance (load_and_reset k program)))

idle_lem : (k : Core) → idle k ≡ k
unfolding idle
idle_lem k = ap (λ x. x.0) (cycle_frozen k)

not_valid : (k : Core) → valid false k ≡ false
unfolding valid
not_valid k = ap (λ x. is_some x.1) (cycle_frozen k)

holds_frozen : (n : ℕ) (k : Core) → holds n k.pc (get_or k.regs 5 0) k ≡ passed k
unfolding holds
holds_frozen zero k = refl
holds_frozen (suc n) k =
    simp (idle_lem k, ==_refl k.pc, ==_refl (get_or k.regs 5 0)) (holds_frozen n k)

retires :
    (r : Core × Option Commit) (t : Iss) (e : Commit)
    → Same r (t, some e)
    → (is_some r.1 ≡ true) × (as_iss r.0 ≡ t)
retires (k, none) t e h = absurd h
retires (k, some c) t e h = (refl, h.0)

-- From a core in a well-formed state whose next instruction the golden model retires and follows
-- with the next word, the test passes: nothing moves while `step_en` is low, and the core goes on
-- where it was, with that instruction.
pub freeze_and_resume-advance :
    (k : Core) (t : Iss) (e : Commit)
    → IsWellFormed (as_iss k)
    → step (as_iss k) ≡ (t, some e)
    → t.pc ≡ k.pc + 4
    → freeze_and_resume k ≡ passed (advance k)
unfolding freeze_and_resume
freeze_and_resume-advance k t e w stepped next =
    let r = retires (cycle false true k) t e (rw stepped at (cycle-step k w)) in
    let shown : valid true k ≡ true = unfold valid in r.0 in
    let moved : (advance k).pc ≡ k.pc + 4 = (unfold advance in ap (λ (x : Iss). x.pc) r.1) ∙ next in
    let same : ((advance k).pc == k.pc + 4) ≡ true = rw moved (==_refl (k.pc + 4)) in
    simp (not_valid k, holds_frozen 5 k, shown, same)
