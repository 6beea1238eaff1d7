-- ===== src/Testbench/Random/Gate.antt =====
-- The gate on coverage of verif/tb_core.py.
use rv32i_cpu.Base.{◌≤◌, ◌≡◌, ◌↔◌, refl, List, [], ◌∷◌, All}
use rv32i_cpu.Coverage.{required, missing}
use rv32i_cpu.Coverage.Counts.{Counter, hits}
use rv32i_cpu.Coverage.Laws.{missing-empty}
use rv32i_cpu.Testbench.Run.{Failure, coverage_holes, passed, check, is_empty}
use rv32i_cpu.Testbench.Random.{core_functional_coverage}

check-is_empty {ℓ} :
    {A : Type ℓ} (xs : List A) (why : Failure) → (check (is_empty xs) why ≡ passed tt) ↔ (xs ≡ [])
check-is_empty [] why = (λ h. refl, λ h. refl)
check-is_empty (x ∷ xs) why = (λ h. cc, λ h. cc)

-- The gate of the regression passes exactly when each of the required bins was hit at least once.
pub core_functional_coverage-required :
    (counts : Counter)
    → (core_functional_coverage counts ≡ passed tt) ↔ All (λ b. 1 ≤ hits b counts) required
unfolding core_functional_coverage
core_functional_coverage-required counts =
    let gate = check-is_empty (missing counts) coverage_holes in
    let bins = missing-empty counts in (λ h. bins.0 (gate.0 h), λ h. gate.1 (bins.1 h))
