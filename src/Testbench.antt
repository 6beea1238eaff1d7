-- ===== src/Testbench.antt =====
-- verif/tb_core.py: how a program is loaded and the core reset, and the comparison of the states at
-- the end of a run.
pub mod Run
pub mod Loop
pub mod Passing
pub mod Sound
pub mod StepEnable
pub mod Directed
pub mod Random
use native.Mathlib.Nat.{mod-eq_of_lt}
use rv32i_cpu.Base.{
  ℕ, zero, suc, ◌+◌, ◌%◌, ◌^◌, ◌≤◌, ◌<◌, ◌≡◌, refl, sym, ap, ◌∙◌, arith, List, [], ◌∷◌, ◌++◌, true,
  false, length, length-append, get_or, set, replicate, All, ◌!=◌, if◌then◌else◌,
}
use rv32i_cpu.Iss.State.{Iss, load_program, new}
use rv32i_cpu.Iss.Memory.Lanes.{and_mask-small}
use rv32i_cpu.Core.{Core, as_iss, cycle}
use rv32i_cpu.Core.Freeze.{stores, cycle-new}

-- `program[i] if i < len(program) else 0`, for each index below the number of words.
unfoldable pub padded : ℕ → List ℕ → List ℕ
padded zero program = []
padded (suc n) [] = 0 ∷ padded n []
padded (suc n) (word ∷ program) = word ∷ padded n program

-- One clock edge with `step_en` high.
unfoldable pub advance : Core → Core
advance k = (cycle false true k).0

-- The core with the program in its memory, after two edges in reset. The edge in reset that comes
-- before the program is loaded, as the clock starts, belongs to the making of the core `k`.
unfoldable pub load_and_reset : Core → List ℕ → Core
unfolding padded
load_and_reset k program =
    (cycle true true (cycle true true (record k { mem = padded k.count program })).0).0

-- The indices where two lists differ, the assertions of a loop.
unfoldable pub differences : List ℕ → List ℕ → ℕ → List ℕ
differences got exp zero = []
differences got exp (suc n) =
    let rest = differences got exp n in if get_or got n 0 != get_or exp n 0 then n ∷ rest else rest

-- The assertions of `compare_state` hold exactly when both lists are empty.
unfoldable pub compare_state : Core → Iss → List ℕ × List ℕ
unfolding differences
compare_state k s = (differences k.regs s.regs 32, differences k.mem s.mem k.count)

padded_zero : (n : ℕ) → padded n [] ≡ replicate n 0
unfolding padded
padded_zero zero = refl
padded_zero (suc n) = ap (◌∷◌ 0) (padded_zero n)

set_at : (pre : List ℕ) (x v : ℕ) (xs : List ℕ) → set (pre ++ x ∷ xs) (length pre) v ≡ pre ++ v ∷ xs
set_at [] x v xs = refl
set_at (p ∷ pre) x v xs = ap (◌∷◌ p) (set_at pre x v xs)

append_assoc : (xs ys zs : List ℕ) → (xs ++ ys) ++ zs ≡ xs ++ (ys ++ zs)
append_assoc [] ys zs = refl
append_assoc (x ∷ xs) ys zs = ap (◌∷◌ x) (append_assoc xs ys zs)

length-snoc : (xs : List ℕ) (y : ℕ) → length (xs ++ y ∷ []) ≡ length xs + 1
length-snoc xs y = omega (arith, length-append xs (y ∷ []))

load_program-padded :
    (words : ℕ) (pre program : List ℕ) (n : ℕ)
    → length program ≤ n
    → words ≡ length pre + n
    → All (λ w. w < 2 ^ 32) program
    → load_program words (length pre) program (pre ++ replicate n 0) ≡ pre ++ padded n program
unfolding load_program padded
load_program-padded words pre [] n fits total small = ap (◌++◌ pre) (sym (padded_zero n))
load_program-padded words pre (w ∷ rest) zero fits total small = absurd (omega arith)
load_program-padded words pre (w ∷ rest) (suc n) fits total small =
    let here : length pre % words ≡ length pre = mod-eq_of_lt (omega (arith, total)) in
    let after = pre ++ w ∷ [] in
    let rest_loaded =
      load_program-padded words after rest n (omega arith) (omega (arith, total, length-snoc pre w))
        small.1 in
    rw (here, and_mask-small w small.0, set_at pre 0 w (replicate n 0))
      (rw
        (
          length-snoc pre w,
          append_assoc pre (w ∷ []) (replicate n 0),
          append_assoc pre (w ∷ []) (padded n rest),
        )
        at rest_loaded)

-- The testbench puts into the memory of the core what the golden model puts into its own, for a
-- program of words that fits.
pub padded-new :
    (program : List ℕ) (count : ℕ)
    → length program ≤ count
    → All (λ w. w < 2 ^ 32) program
    → padded count program ≡ (new program count 0).mem
unfolding new
padded-new program count fits small =
    sym (load_program-padded count [] program count fits (omega arith) small)

pub new_words : (program : List ℕ) (count : ℕ) → (new program count 0).words ≡ count
unfolding new
new_words program count = refl

-- After the testbench loads a program of words that fits and holds reset for two edges, the core is
-- in the state of a new golden model of that program, if neither edge has a store to carry out.
pub load_and_reset-new :
    (k : Core) (program : List ℕ)
    → length program ≤ k.count
    → All (λ w. w < 2 ^ 32) program
    → stores true (record k { mem = padded k.count program }) ≡ false
    → stores true (cycle true true (record k { mem = padded k.count program })).0 ≡ false
    → as_iss (load_and_reset k program) ≡ new program k.count 0
unfolding load_and_reset
load_and_reset-new k program fits small quiet quiet' =
    let loaded : Core = record k { mem = padded k.count program } in
    let first = (cycle-new program true loaded (padded-new program k.count fits small) quiet).0 in
    let kept : (cycle true true loaded).0.count ≡ k.count =
      ap (λ (s : Iss). s.words) first ∙ new_words program k.count in
    let held : (cycle true true loaded).0.mem
        ≡ (new program (cycle true true loaded).0.count 0).mem =
      ap (λ (s : Iss). s.mem) first ∙ ap (λ c. (new program c 0).mem) (sym kept) in
    (cycle-new program true (cycle true true loaded).0 held quiet').0
    ∙ ap (λ c. new program c 0) kept
