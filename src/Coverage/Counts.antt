-- ===== src/Coverage/Counts.antt =====
-- `collections.Counter` as verif/coverage.py uses it, an association list, and the laws of its
-- counts.
use text.Mathlib.Text.{◌==◌}
use text.Mathlib.TextEquality.{eq_iff}
use Prim.Native.String.{String, ◌++◌}
use rv32i_cpu.Base.{ℕ, ◌+◌, ◌≡◌, arith, List, [], ◌∷◌, Bool, true, false, if◌then◌else◌}

abbrev pub append : String → String → String
append s t = s ++ t

abbrev pub Counter : Type 0
Counter = List (String × ℕ)

-- `counts[b]`, which is 0 for a bin that was never counted.
unfoldable pub hits : String → Counter → ℕ
hits b [] = 0
hits b ((k, n) ∷ counts) = if k == b then n else hits b counts

-- `counts[b] += 1`.
unfoldable pub increment : String → Counter → Counter
increment b [] = (b, 1) ∷ []
increment b ((k, n) ∷ counts) = if k == b then (k, n + 1) ∷ counts else (k, n) ∷ increment b counts

-- `if cond: counts[b] += 1`.
unfoldable pub increment_if : Bool → String → Counter → Counter
unfolding increment
increment_if true b counts = increment b counts
increment_if false b counts = counts

-- Counting a bin adds one to it and leaves the others.
pub hits-increment :
    (b c : String) (counts : Counter)
    → hits c (increment b counts) ≡ (if b == c then hits c counts + 1 else hits c counts)
unfolding hits increment
hits-increment b c [] = ground (arith, eq_iff b c)
hits-increment b c ((k, n) ∷ counts) =
    ground (arith, eq_iff k b, eq_iff k c, eq_iff b c, hits-increment b c counts)
