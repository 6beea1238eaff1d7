-- ===== src/Build.antt =====
-- tools/build_program.py: `main`, from the text of the source to the text of the .hex file and what is
-- printed, as values.
pub mod Board
use Prim.Native.String.{String, ◌++◌ as ◌<>◌}
use rv32i_cpu.Base.{
  ℕ, zero, suc, ◌+◌, ◌*◌, Bool, ◌&&◌, List, [], ◌∷◌, Option, none, some, length, get_or, ltb, leb,
  ◌==◌, ◌!=◌, if◌then◌else◌,
}
use rv32i_cpu.Base.Int.{pos}
use rv32i_cpu.Iss.State.{Iss, Commit, new}
use rv32i_cpu.Iss.Step.{run}
use rv32i_cpu.Coverage.{name_of}
use rv32i_cpu.Asm.Number.{to_text}
use rv32i_cpu.Asm.Source.{assemble_text, to_hex}

abbrev pub halt_names : List (ℕ × String)
halt_names =
    (0, "still running")
    ∷ (1, "ECALL")
    ∷ (2, "EBREAK")
    ∷ (3, "illegal instruction")
    ∷ (4, "misaligned load/store")
    ∷ (5, "misaligned instruction fetch")
    ∷ []

abbrev pub abi : List (ℕ × String)
abi = (10, "a0") ∷ (11, "a1") ∷ (12, "a2") ∷ (5, "t0") ∷ (6, "t1") ∷ (7, "t2") ∷ []

-- `--words` and `--run`.
pub record Options : Type 0 where
  pub words : ℕ
  pub run : Bool

-- A line on a register.
pub record Shown : Type 0 where
  pub index : ℕ
  pub name : String
  pub value : ℕ

-- What `--run` prints. A word of the memory is printed at four times its index.
pub record Report : Type 0 where
  pub retired : ℕ
  pub halted_on : String
  pub registers : List Shown
  pub touched : List (ℕ × ℕ)

-- The AsmError, the SystemExit of a program that is too long, or the .hex file with the listing of
-- addresses and words, before the report. A model without words divides by zero at its first fetch.
pub data Built : Type 0 where
  not_assembled : Built
  too_long : ℕ → ℕ → Built
  divided_by_zero : String → List (ℕ × ℕ) → Built
  built : String → List (ℕ × ℕ) → Option Report → Built

-- `d.get(key, default)`
abbrev pub or_default : Option String → String → String
or_default none default = default
or_default (some name) default = name

unfoldable pub halt_name : ℕ → String
unfolding to_text
halt_name cause = or_default (name_of cause halt_names) (to_text (pos cause))

unfoldable pub register_name : ℕ → String
unfolding to_text
register_name r = or_default (name_of r abi) ("x" <> to_text (pos r))

-- The loop over the words, from index `i`.
unfoldable pub listing : ℕ → List ℕ → List (ℕ × ℕ)
listing i [] = []
listing i (word ∷ words) = (i * 4, word) ∷ listing (suc i) words

-- The loop over `n` registers, from `r`.
unfoldable pub registers_from : ℕ → ℕ → List ℕ → List Shown
unfolding register_name
registers_from zero r regs = []
registers_from (suc n) r regs =
    let rest = registers_from n (suc r) regs in
    if get_or regs r 0 != 0
    then record { index = r; name = register_name r; value = get_or regs r 0 } ∷ rest
    else rest

-- The words from `first` on that are not zero, the memory being given from index `i`.
unfoldable pub touched_from : ℕ → ℕ → List ℕ → List (ℕ × ℕ)
touched_from first i [] = []
touched_from first i (v ∷ mem) =
    let rest = touched_from first (suc i) mem in
    if v != 0 && leb first i then (i, v) ∷ rest else rest

unfoldable pub report_of : List ℕ → Iss × List Commit → Report
unfolding halt_name registers_from touched_from
report_of program (s, trace) = record {
  retired = length trace;
  halted_on = halt_name s.halt_cause;
  registers = registers_from 32 0 s.regs;
  touched = touched_from (length program) 0 s.mem;
}

-- The model with the program, for the 10000 steps that `run` takes by default.
unfoldable pub model_report : ℕ → List ℕ → Report
unfolding report_of run
model_report words program = report_of program (run 10000 (new program words 0))

abbrev pub build_assembled : Options → Option (List ℕ) → Built
build_assembled options none = not_assembled
build_assembled options (some program) =
    let hex = to_hex program in
    let lines = listing 0 program in
    if ltb options.words (length program)
    then too_long (length program) options.words
    else if options.run
    then if options.words == 0
      then divided_by_zero hex lines
      else built hex lines (some (model_report options.words program))
    else built hex lines none

unfoldable pub build_program : Options → String → Built
unfolding assemble_text
build_program options source = build_assembled options (assemble_text source 0)
