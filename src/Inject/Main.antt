-- ===== src/Inject/Main.antt =====
-- `main` of tools/inject_bugs.py: which mutants are run, what is printed, and the exit code. The lines
-- that were printed come with an exception too.
pub mod Exit
pub mod Planted
pub mod Stale
use Prim.Native.String.{String, ◌++◌ as ◌<>◌}
use rv32i_cpu.Base.{
  ℕ, zero, suc, ◌-◌, Bool, true, false, ◌||◌, List, [], ◌∷◌, ◌++◌, map, Option, none, some, length,
  ◌==◌, if◌then◌else◌,
}
use rv32i_cpu.Asm.Text.{is_blank, lower}
use rv32i_cpu.Inject.Text.{contains}
use rv32i_cpu.Inject.Mutant.{Mutant, Block}
use rv32i_cpu.Inject.Run.{Fault, Outcome, ended, raised, Work, run_mutant}

-- `--only` and `--list`.
pub record Args : Type 0 where
  pub only : Option String
  pub list : Bool

pub data PrintedLine : Type 0 where
  listed : Mutant → PrintedLine
  no_match : PrintedLine
  verdict : Mutant → ℕ → ℕ → PrintedLine
  caught : ℕ → ℕ → PrintedLine
  surviving : Mutant → PrintedLine

abbrev pub Printed {ℓ} : Type ℓ → Type ℓ
Printed A = List PrintedLine × Outcome A

unfoldable pub wanted : Option String → Mutant → Bool
unfolding contains lower
wanted none m = true
wanted (some only) m =
    is_blank only || contains (lower only) (lower (m.target <> (" " <> m.description)))

unfoldable pub select : Option String → List Mutant → List Mutant
unfolding wanted
select only [] = []
select only (m ∷ ms) = let rest = select only ms in if wanted only m then m ∷ rest else rest

-- A mutant that no test noticed.
abbrev pub add_survivor : ℕ → Mutant → Outcome (List Mutant) → Outcome (List Mutant)
add_survivor failures m (raised why) = raised why
add_survivor zero m (ended survivors) = ended (m ∷ survivors)
add_survivor (suc n) m (ended survivors) = ended survivors

-- A turn of the loop, with what the turns after it do.
abbrev pub judge : Mutant → Outcome (ℕ × ℕ) → Printed (List Mutant) → Printed (List Mutant)
judge m (raised why) rest = ([], raised why)
judge m (ended (tests, failures)) (lines, survivors) =
    (verdict m tests failures ∷ lines, add_survivor failures m survivors)

abbrev pub report : ℕ → Printed (List Mutant) → Printed ℕ
report total (lines, raised why) = (lines, raised why)
report total (lines, ended []) = (lines ++ caught total total ∷ [], ended 0)
report total (lines, ended (m ∷ survivors)) = (
  lines ++ caught (total - length (m ∷ survivors)) total ∷ map surviving (m ∷ survivors),
  ended 1,
)

module _ (rtl : String → Option String) (simulate : Block → String → Work → Option (ℕ × ℕ)) where
  unfoldable pub run_all : List Mutant → Printed (List Mutant)
  unfolding run_mutant
  run_all [] = ([], ended [])
  run_all (m ∷ ms) = judge m (run_mutant rtl simulate m) (run_all ms)

  -- The tests are run: the end of `main`.
  abbrev pub run_selected : List Mutant → Printed ℕ
  run_selected [] = (no_match ∷ [], ended 1)
  run_selected (m ∷ ms) = report (length (m ∷ ms)) (run_all (m ∷ ms))

  unfoldable pub main : Args → List Mutant → Printed ℕ
  unfolding select run_all
  main args mutants =
      let selected = select args.only mutants in
      if args.list then (map listed selected, ended 0) else run_selected selected
