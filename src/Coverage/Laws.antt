-- ===== src/Coverage/Laws.antt =====
-- When verif/coverage.py finds no required bin missing.
use Prim.Native.String.{String}
use rv32i_cpu.Base.{◌≤◌, ◌≡◌, ◌↔◌, arith, List, [], ◌∷◌, All}
use rv32i_cpu.Coverage.{required, uncounted, missing}
use rv32i_cpu.Coverage.Counts.{Counter, hits}

uncounted-empty :
    (bins : List String) (counts : Counter)
    → (uncounted bins counts ≡ []) ↔ All (λ b. 1 ≤ hits b counts) bins
unfolding uncounted
uncounted-empty [] counts = ground arith
uncounted-empty (b ∷ bins) counts = ground (arith, uncounted-empty bins counts)

-- The gate of the regression is open, no bin missing, exactly when each of the required bins was
-- hit at least once.
pub missing-empty :
    (counts : Counter) → (missing counts ≡ []) ↔ All (λ b. 1 ≤ hits b counts) required
unfolding missing
missing-empty counts = uncounted-empty required counts
