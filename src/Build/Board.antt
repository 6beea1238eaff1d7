-- ===== src/Build/Board.antt =====
-- What tools/build_program.py says of a program, and what the core shows when it has run it.
use Prim.Native.String.{String}
use native.Mathlib.Nat.{one-le-pow}
use rv32i_cpu.Base.{
  ℕ, zero, suc, ◌+◌, ◌-◌, ◌^◌, ◌≤◌, ◌<◌, ◌≡◌, refl, sym, ap, ◌∙◌, arith, Bool, true, false, List,
  [], ◌∷◌, some, length, get_or, ◌&&◌, ◌==◌, ◌!=◌, ltb, if◌then◌else◌, Bool-cases, inl, inr,
}
use rv32i_cpu.Iss.State.{Iss, Commit, new}
use rv32i_cpu.Iss.Step.{run}
use rv32i_cpu.Iss.Step.Invariant.{IsWellFormed, new-IsWellFormed}
use rv32i_cpu.Iss.Step.Trace.{run_halted, run-add}
use rv32i_cpu.Asm.Source.{assemble_text, to_hex}
use rv32i_cpu.Core.{Core, as_iss}
use rv32i_cpu.Core.Freeze.{stores, cycle-new}
use rv32i_cpu.Core.Lockstep.{enabled}
use rv32i_cpu.Unit.Soc.{soc_cycle, soc_cycles}
use rv32i_cpu.Unit.Soc.Same.{soc_cycle-cycle}
use rv32i_cpu.Unit.Soc.Lockstep.{soc_cycles-run}
use rv32i_cpu.Build.{
  Options, Shown, Report, built, halt_name, register_name, listing, registers_from, touched_from,
  report_of, model_report, build_assembled, build_program,
}

-- The value that a report gives for a register: zero, if it has no line.
abbrev pub shown_register : ℕ → List Shown → ℕ
shown_register q [] = 0
shown_register q (s ∷ rest) =
    let later = shown_register q rest in if s.index == q then s.value else later

-- The same for the word of an index.
abbrev pub shown_word : ℕ → List (ℕ × ℕ) → ℕ
shown_word q [] = 0
shown_word q ((i, v) ∷ rest) = let later = shown_word q rest in if i == q then v else later

-- A line is printed for a register that is not zero.
shown_register-line :
    (r q v : ℕ) (name : String) (rest : List Shown)
    → shown_register q
        (if v != 0 then record { index = r; name = name; value = v } ∷ rest else rest)
      ≡ (if v != 0 && r == q then v else shown_register q rest)
shown_register-line r q v name rest = elim (Bool-cases (v != 0)) [
  | inl shown ↦ rw shown refl
  | inr zero_value ↦ rw zero_value refl
]

registers_from-before :
    (n r q : ℕ) (regs : List ℕ) → q < r → shown_register q (registers_from n r regs) ≡ 0
unfolding registers_from
registers_from-before zero r q regs h = refl
registers_from-before (suc n) r q regs h =
    let other : (r == q) ≡ false = ground arith in
    let later = registers_from-before n (suc r) q regs (omega arith) in
    let v = get_or regs r 0 in
    let rest = registers_from n (suc r) regs in
    shown_register-line r q v (register_name r) rest ∙ ground (arith, other, later)

shown_register-registers_from :
    (n r q : ℕ) (regs : List ℕ)
    → r ≤ q
    → q < r + n
    → shown_register q (registers_from n r regs) ≡ get_or regs q 0
unfolding registers_from
shown_register-registers_from zero r q regs h h' = absurd (omega arith)
shown_register-registers_from (suc n) r q regs h h' =
    let v = get_or regs r 0 in
    let rest = registers_from n (suc r) regs in
    shown_register-line r q v (register_name r) rest ∙ (elim (Bool-cases (r == q)) [
      | inl here ↦
          let same : r ≡ q = ground (arith, here) in
          let at_q : get_or regs r 0 ≡ get_or regs q 0 = ap (λ i. get_or regs i 0) same in
          let last : shown_register q rest ≡ 0 =
            registers_from-before n (suc r) q regs (omega (arith, same)) in
          ground (arith, here, at_q, last)
      | inr other ↦
          let later : shown_register q rest ≡ get_or regs q 0 =
            shown_register-registers_from n (suc r) q regs (ground (arith, other)) (omega arith) in
          ground (arith, other, later)
    ])

touched_from-before :
    (first i q : ℕ) (mem : List ℕ) → q < i → shown_word q (touched_from first i mem) ≡ 0
unfolding touched_from
touched_from-before first i q [] h = refl
touched_from-before first i q (v ∷ mem) h =
    ground (arith, touched_from-before first (suc i) q mem (omega arith))

-- The word at index `i + k`, in a memory that is given from index `i`.
shown_word-touched_from :
    (first i k : ℕ) (mem : List ℕ)
    → first ≤ i + k
    → shown_word (i + k) (touched_from first i mem) ≡ get_or mem k 0
unfolding touched_from
shown_word-touched_from first i k [] h = refl
shown_word-touched_from first i zero (v ∷ mem) h =
    ground (arith, touched_from-before first (suc i) (i + 0) mem (omega arith))
shown_word-touched_from first i (suc k) (v ∷ mem) h =
    let e : suc i + k ≡ i + suc k = omega arith in
    let later = rw e at (shown_word-touched_from first (suc i) k mem (omega arith)) in
    ground (arith, later)

whole_memory :
    (first q : ℕ) (mem : List ℕ)
    → first ≤ q
    → shown_word q (touched_from first 0 mem) ≡ get_or mem q 0
whole_memory first q mem h =
    let e : 0 + q ≡ q = omega arith in rw e at (shown_word-touched_from first 0 q mem (omega arith))

-- A run that has halted goes no further.
run_longer : (m n : ℕ) (s : Iss) → m ≤ n → (run m s).0.halted ≡ true → (run n s).0 ≡ (run m s).0
run_longer m n s h halted =
    let e : m + (n - m) ≡ n = omega arith in
    rw (← e)
      (ap (λ r. r.0) (run-add m (n - m) s) ∙ ap (λ r. r.0) (run_halted (n - m) (run m s).0 halted))

report_of-halted_on :
    (program : List ℕ) (r : Iss × List Commit)
    → (report_of program r).halted_on ≡ halt_name r.0.halt_cause
unfolding report_of
report_of-halted_on program r = refl

report_of-registers :
    (program : List ℕ) (r : Iss × List Commit) (q : ℕ)
    → q < 32
    → shown_register q (report_of program r).registers ≡ get_or r.0.regs q 0
unfolding report_of
report_of-registers program r q h =
    shown_register-registers_from 32 0 q r.0.regs (omega arith) (omega arith)

report_of-touched :
    (program : List ℕ) (r : Iss × List Commit) (i : ℕ)
    → length program ≤ i
    → shown_word i (report_of program r).touched ≡ get_or r.0.mem i 0
unfolding report_of
report_of-touched program r i h = whole_memory (length program) i r.0.mem h

model_report_lem :
    (words : ℕ) (program : List ℕ)
    → model_report words program ≡ report_of program (run 10000 (new program words 0))
unfolding model_report
model_report_lem words program = refl

build_program_lem :
    (options : Options) (source : String) (program : List ℕ)
    → assemble_text source 0 ≡ some program
    → build_program options source ≡ build_assembled options (some program)
unfolding build_program
build_program_lem options source program assembled = ap (build_assembled options) assembled

module _ (options : Options) (source : String) (program : List ℕ) (idx : ℕ) (k : Core)
    (levels : List Bool) where
  -- The core when it has run: a clock edge in reset, and the edges behind it.
  abbrev pub board : Core
  board = (soc_cycles idx levels (soc_cycle idx true true k).0).0

  -- With `--run`, a program that fits a memory of at least one word is built and reported.
  reported :
      (count : ℕ)
      → length program ≤ count
      → 0 < count
      → options.words ≡ count
      → options.run ≡ true
      → build_assembled options (some program)
        ≡ built (to_hex program) (listing 0 program) (some (model_report options.words program))
  reported count fits room words on =
      let short : ltb options.words (length program) ≡ false = ground (arith, words) in
      let some_words : (options.words == 0) ≡ false = ground (arith, words) in
      simp (short, on, some_words)

  module _ (room : 1 ≤ idx) (size : k.count ≡ 2 ^ idx)
      (loaded : k.mem ≡ (new program k.count 0).mem) (quiet : stores true k ≡ false)
      (positive : 0 < k.count) where
    started : as_iss (soc_cycle idx true true k).0 ≡ new program k.count 0
    started =
        let small = (new-IsWellFormed program k.count 0 positive refl).memory.small in
        rw (soc_cycle-cycle idx k room size true true (rw loaded small))
          (cycle-new program true k loaded quiet).0

    -- The core ends in the state of the model.
    arrived :
        (n : ℕ)
        → (run n (new program k.count 0)).0.halted ≡ true
        → n ≤ enabled levels
        → as_iss board ≡ (run n (new program k.count 0)).0
    unfolding new
    arrived n halts long =
        let first = (soc_cycle idx true true k).0 in
        let count : first.count ≡ 2 ^ idx = ap (λ (s : Iss). s.words) started ∙ size in
        let formed : IsWellFormed (as_iss first) =
          rw started (new-IsWellFormed program k.count 0 positive refl) in
        (soc_cycles-run idx room levels first count formed).0
        ∙ ap (λ s. (run (enabled levels) s).0) started
        ∙ run_longer n (enabled levels) (new program k.count 0) long halts

  -- With `--run`, for a program that assembles, fits and halts the golden model within its 10000
  -- steps, the tool writes the words and reports what the core, built of its blocks as they are
  -- written, shows when it has run the program: the halt cause, each of the 32 registers, where a
  -- register without a line is zero, and each word behind the program, where a word without a line is
  -- zero. The core has a memory of a power of two of words, at least two, as many as the tool is told,
  -- with the program in it, and one clock edge in reset, that has nothing to store, before at least as
  -- many edges with `step_en` high.
  pub build_program-board :
      (r i : ℕ)
      → 1 ≤ idx
      → k.count ≡ 2 ^ idx
      → options.words ≡ k.count
      → options.run ≡ true
      → assemble_text source 0 ≡ some program
      → length program ≤ k.count
      → k.mem ≡ (new program k.count 0).mem
      → stores true k ≡ false
      → (run 10000 (new program k.count 0)).0.halted ≡ true
      → 10000 ≤ enabled levels
      → r < 32
      → length program ≤ i
      → (report : Report) × (build_program options source
          ≡ built (to_hex program) (listing 0 program) (some report))
        × (report.halted_on ≡ halt_name board.halt_cause)
        × (shown_register r report.registers ≡ get_or board.regs r 0)
        × (shown_word i report.touched ≡ get_or board.mem i 0)
  build_program-board r i room size words on assembled fits loaded quiet halts long small behind =
      let positive : 0 < k.count = rw size (one-le-pow idx 2 (omega arith)) in
      let end = run 10000 (new program k.count 0) in
      let there : end.0 ≡ as_iss board =
        sym (arrived room size loaded quiet positive 10000 halts long) in
      let report = model_report options.words program in
      let same : report ≡ report_of program end =
        ap (λ w. model_report w program) words ∙ model_report_lem k.count program in
      (
        report,
        build_program_lem options source program assembled
            ∙ reported k.count fits positive words on,
        ap (λ (t : Report). t.halted_on) same
            ∙ report_of-halted_on program end
            ∙ ap (λ (t : Iss). halt_name t.halt_cause) there,
        ap (λ (t : Report). shown_register r t.registers) same
            ∙ report_of-registers program end r small
            ∙ ap (λ (t : Iss). get_or t.regs r 0) there,
        ap (λ (t : Report). shown_word i t.touched) same
            ∙ report_of-touched program end i behind
            ∙ ap (λ (t : Iss). get_or t.mem i 0) there,
      )
