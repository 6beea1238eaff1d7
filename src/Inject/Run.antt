-- ===== src/Inject/Run.antt =====
-- `run_mutant` of tools/inject_bugs.py. The directory rtl/ is a function that gives the text of a file,
-- and the compiler and the simulator are a function of what they are given: the entry of BLOCKS, the
-- top module, and the files with their texts. It gives none when the build fails.
use Prim.Native.String.{String}
use text.Mathlib.Text.{◌==◌ as text_eq}
use rv32i_cpu.Base.{ℕ, List, [], ◌∷◌, Option, none, some, ◌!=◌, if◌then◌else◌}
use rv32i_cpu.Asm.Tables.{find}
use rv32i_cpu.Inject.Text.{count, replace}
use rv32i_cpu.Inject.Mutant.{Mutant, Block, blocks}

-- What ends the script: the SystemExit of a pattern, or the exception of another failure.
pub data Fault : Type 0 where
  not_once : String → String → Fault
  no_file no_block : String → Fault
  not_built : Fault

pub data Outcome {ℓ} (A : Type ℓ) : Type ℓ where
  ended : A → Outcome A
  raised : Fault → Outcome A

infixl 5 ◌>>=◌
abbrev pub ◌>>=◌ {ℓ κ} : {A : Type ℓ} {B : Type κ} → Outcome A → (A → Outcome B) → Outcome B
ended a >>= f = f a
raised why >>= f = raised why

abbrev pub found {ℓ} : {A : Type ℓ} → Fault → Option A → Outcome A
found why none = raised why
found why (some a) = ended a

-- Files with their texts.
abbrev pub Work : Type 0
Work = List (String × String)

-- The loop over the edits of a file.
unfoldable pub apply_edits : String → List (String × String) → String → Outcome String
unfolding count replace
apply_edits file [] text = ended text
apply_edits file ((old, new) ∷ edits) text =
    let rest = apply_edits file edits (replace text old new) in
    if count text old != 1 then raised (not_once file old) else rest

unfoldable pub overwrite : String → String → Work → Work
overwrite name text [] = []
overwrite name text ((n, t) ∷ work) =
    (n, if text_eq n name then text else t) ∷ overwrite name text work

module _ (rtl : String → Option String) where
  -- The copies into the scratch directory.
  unfoldable pub copy_all : List String → Outcome Work
  copy_all [] = ended []
  copy_all (name ∷ names) = do
    text ← found (no_file name) (rtl name)
    work ← copy_all names
    ended ((name, text) ∷ work)

  module _ (simulate : Block → String → Work → Option (ℕ × ℕ)) where
    -- The numbers of tests and of failures.
    unfoldable pub run_mutant : Mutant → Outcome (ℕ × ℕ)
    unfolding find apply_edits overwrite copy_all
    run_mutant m = do
      block ← found (no_block m.target) (find m.target blocks)
      work ← copy_all ("rv32i_pkg.sv" ∷ block.sources)
      text ← found (no_file m.file) (find m.file work)
      edited ← apply_edits m.file ((m.old, m.new) ∷ m.extra) text
      found not_built (simulate block m.target (overwrite m.file edited work))
