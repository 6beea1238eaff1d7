-- ===== src/Inject/Main/Exit.antt =====
-- The exit code of tools/inject_bugs.py.
use Prim.Native.String.{String}
use rv32i_cpu.Base.{
  ℕ, zero, suc, ◌<◌, ◌≡◌, ◌↔◌, refl, arith, false, List, [], ◌∷◌, Option, All, length,
}
use rv32i_cpu.Inject.Mutant.{Mutant, Block}
use rv32i_cpu.Inject.Run.{Outcome, ended, raised, Work, run_mutant}
use rv32i_cpu.Inject.Main.{Args, Printed, select, judge, report, run_all, run_selected, main}

abbrev pub NotEmpty {ℓ} : {A : Type ℓ} → List A → Type 0
NotEmpty [] = ⊥
NotEmpty (x ∷ xs) = Unit

-- A failed test noticed the mutant.
abbrev pub Noticed : Outcome (ℕ × ℕ) → Type 0
Noticed (raised why) = ⊥
Noticed (ended (tests, failures)) = 0 < failures

judge-Noticed :
    (m : Mutant) (r : Outcome (ℕ × ℕ)) (rest : Printed (List Mutant))
    → ((judge m r rest).1 ≡ ended []) ↔ (Noticed r × (rest.1 ≡ ended []))
judge-Noticed m (raised why) (lines, survivors) = (λ h. cc, λ h. absurd h.0)
judge-Noticed m (ended (tests, zero)) (lines, raised why) = (λ h. cc, λ h. absurd (omega arith))
judge-Noticed m (ended (tests, zero)) (lines, ended survivors) =
    (λ h. cc, λ h. absurd (omega arith))
judge-Noticed m (ended (tests, suc n)) (lines, raised why) = (λ h. cc, λ h. cc)
judge-Noticed m (ended (tests, suc n)) (lines, ended survivors) = (λ h. (omega arith, h), λ h. h.1)

report_zero :
    (total : ℕ) (p : Printed (List Mutant)) → ((report total p).1 ≡ ended 0) ↔ (p.1 ≡ ended [])
report_zero total (lines, raised why) = (λ h. cc, λ h. cc)
report_zero total (lines, ended []) = (λ h. refl, λ h. refl)
report_zero total (lines, ended (m ∷ survivors)) = (λ h. absurd (ground (arith, h)), λ h. cc)

module _ (rtl : String → Option String) (simulate : Block → String → Work → Option (ℕ × ℕ)) where
  run_all-Noticed :
      (ms : List Mutant)
      → ((run_all rtl simulate ms).1 ≡ ended []) ↔ All (λ m. Noticed (run_mutant rtl simulate m)) ms
  unfolding run_all
  run_all-Noticed [] = (λ h. tt, λ h. refl)
  run_all-Noticed (m ∷ ms) =
      let here = judge-Noticed m (run_mutant rtl simulate m) (run_all rtl simulate ms) in
      let later = run_all-Noticed ms in
      (λ h. ((here.0 h).0, later.0 (here.0 h).1), λ h. here.1 (h.0, later.1 h.1))

  run_selected-Noticed :
      (ms : List Mutant)
      → ((run_selected rtl simulate ms).1 ≡ ended 0)
        ↔ (NotEmpty ms × All (λ m. Noticed (run_mutant rtl simulate m)) ms)
  run_selected-Noticed [] = (λ h. absurd (ground (arith, h)), λ h. absurd h.0)
  run_selected-Noticed (m ∷ ms) =
      let zeros = report_zero (length (m ∷ ms)) (run_all rtl simulate (m ∷ ms)) in
      let all = run_all-Noticed (m ∷ ms) in (λ h. (tt, all.0 (zeros.0 h)), λ h. zeros.1 (all.1 h.1))

  -- Without `--list`, the script exits with 0 exactly when some mutant is selected, every selected one
  -- is planted, built and run, and a test fails on each of them.
  pub main-Noticed :
      (args : Args) (mutants : List Mutant)
      → args.list ≡ false
      → ((main rtl simulate args mutants).1 ≡ ended 0) ↔ (
          NotEmpty (select args.only mutants)
          × All (λ m. Noticed (run_mutant rtl simulate m)) (select args.only mutants))
  unfolding main
  main-Noticed args mutants h = rw h (run_selected-Noticed (select args.only mutants))
