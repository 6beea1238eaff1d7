-- ===== src/Inject/Main/Stale.antt =====
-- An entry of MUTANTS whose pattern no longer stands in rtl/core.sv.
use Prim.Native.String.{String}
use rv32i_cpu.Base.{
  ℕ, ◌≡◌, refl, ap, arith, false, List, [], ◌∷◌, ◌++◌, Option, none, some, length, ◌⊎◌, inl, inr,
}
use rv32i_cpu.Inject.Text.{count, count_from, after_prefix}
use rv32i_cpu.Inject.Mutant.{Mutant, Block}
use rv32i_cpu.Inject.Table.{mutants, mutants_before, stale_mutant, soc_mutants_after}
use rv32i_cpu.Inject.Rtl.{core_text}
use rv32i_cpu.Inject.Run.{Outcome, ended, raised, Work, run_mutant}
use rv32i_cpu.Inject.Main.{Printed, select, wanted, judge, report, run_all, run_selected, main}
use rv32i_cpu.Inject.Main.Planted.{run_mutant-Planted}

-- An exception ends the script.
abbrev pub IsRaised {ℓ} : {A : Type ℓ} → Outcome A → Type 0
IsRaised (ended a) = ⊥
IsRaised (raised why) = Unit

Outcome-cases {ℓ} : {A : Type ℓ} (o : Outcome A) → ((a : A) × (o ≡ ended a)) ⊎ IsRaised o
Outcome-cases (ended a) = inl (a, refl)
Outcome-cases (raised why) = inr tt

-- The pattern of the entry does not stand in rtl/core.sv.
count-stale_mutant : count core_text stale_mutant.old ≡ 0
unfolding count count_from after_prefix
count-stale_mutant = refl

judge_here :
    (m : Mutant) (r : Outcome (ℕ × ℕ)) (rest : Printed (List Mutant))
    → IsRaised r
    → IsRaised (judge m r rest).1
judge_here m (ended a) rest h = absurd h
judge_here m (raised why) rest h = tt

judge_later :
    (m : Mutant) (r : Outcome (ℕ × ℕ)) (rest : Printed (List Mutant))
    → IsRaised rest.1
    → IsRaised (judge m r rest).1
judge_later m (raised why) rest h = tt
judge_later m (ended (tests, failures)) (lines, ended survivors) h = absurd h
judge_later m (ended (tests, failures)) (lines, raised why) h = tt

report-IsRaised :
    (total : ℕ) (p : Printed (List Mutant)) → IsRaised p.1 → IsRaised (report total p).1
report-IsRaised total (lines, ended survivors) h = absurd h
report-IsRaised total (lines, raised why) h = tt

select-none : (ms : List Mutant) → select none ms ≡ ms
unfolding select wanted
select-none [] = refl
select-none (m ∷ ms) = ap (λ l. m ∷ l) (select-none ms)

module _ (rtl : String → Option String) (simulate : Block → String → Work → Option (ℕ × ℕ)) where
  run_all-IsRaised :
      (before : List Mutant) (m : Mutant) (behind : List Mutant)
      → IsRaised (run_mutant rtl simulate m)
      → IsRaised (run_all rtl simulate (before ++ m ∷ behind)).1
  unfolding run_all
  run_all-IsRaised [] m behind h =
      judge_here m (run_mutant rtl simulate m) (run_all rtl simulate behind) h
  run_all-IsRaised (first ∷ before) m behind h =
      judge_later first (run_mutant rtl simulate first)
        (run_all rtl simulate (before ++ m ∷ behind)) (run_all-IsRaised before m behind h)

  run_selected-IsRaised :
      (ms : List Mutant)
      → IsRaised (run_all rtl simulate ms).1
      → IsRaised (run_selected rtl simulate ms).1
  unfolding run_all
  run_selected-IsRaised [] h = absurd h
  run_selected-IsRaised (m ∷ ms) h =
      report-IsRaised (length (m ∷ ms)) (run_all rtl simulate (m ∷ ms)) h

  main_all :
      (ms : List Mutant)
      → main rtl simulate (record { only = none; list = false }) ms ≡ run_selected rtl simulate ms
  unfolding main
  main_all ms = ap (run_selected rtl simulate) (select-none ms)

  module _ (repository : rtl "core.sv" ≡ some core_text) where
    not_planted : (r : ℕ × ℕ) → run_mutant rtl simulate stale_mutant ≡ ended r → ⊥
    not_planted r h =
        let planted = run_mutant-Planted rtl simulate stale_mutant r h in
        let same : core_text ≡ planted.original = cc (planted.opened, repository) in
        let none_there : count planted.original stale_mutant.old ≡ 0 =
          rw (← same) count-stale_mutant in
        absurd (omega (arith, none_there, planted.edits.0))

    run_mutant-IsRaised : IsRaised (run_mutant rtl simulate stale_mutant)
    run_mutant-IsRaised = elim (Outcome-cases (run_mutant rtl simulate stale_mutant)) [
      | inl (r, e) ↦ absurd (not_planted r e)
      | inr stopped ↦ stopped
    ]

    -- With the repository's rtl/core.sv, the script without `--only` and `--list` does not come to an
    -- exit code: an exception ends it, whatever the other files and the simulator are.
    pub main-IsRaised :
        IsRaised (main rtl simulate (record { only = none; list = false }) mutants).1
    main-IsRaised = rw (main_all mutants) (
        run_selected-IsRaised mutants
          (run_all-IsRaised mutants_before stale_mutant soc_mutants_after run_mutant-IsRaised))
