-- ===== src/Testbench/Directed/Passing.antt =====
-- The directed programs of verif/tb_core.py on the core: every one of them passes.
use native.Mathlib.Nat.{zero-mod}
use rv32i_cpu.Base.{
  ℕ, zero, suc, ◌^◌, ◌%◌, ◌<◌, ◌≡◌, refl, ap, ◌∙◌, arith, List, [], ◌∷◌, true, false, Option, none,
  some, length, All, get_or, leb, replicate,
}
use rv32i_cpu.Iss.State.{Iss, new}
use rv32i_cpu.Iss.Step.{run}
use rv32i_cpu.Coverage.Counts.{Counter}
use rv32i_cpu.Reference.Decoder.{ref_decode}
use rv32i_cpu.Reference
use rv32i_cpu.Core.{Core, cycle, fetched}
use rv32i_cpu.Core.Freeze.{stores, clear_lem}
use rv32i_cpu.Asm.Source.{match_offset, read_lines, assemble_text}
use rv32i_cpu.Asm.Words.{Every, assemble-words}
use rv32i_cpu.Asm.Text.{strip, normalise}
use rv32i_cpu.Asm.Number.{int_0, to_text, x_number}
use Prim.Native.String.{String}
use rv32i_cpu.Testbench.{padded, new_words}
use rv32i_cpu.Iss.Step.Trace.{run_words}
use rv32i_cpu.Testbench.Run.{
  Checked, passed, failed, assembled, core_dut, run_program, Progress, ◌>>=◌,
}
use rv32i_cpu.Testbench.Passing.{run_program-run}
use rv32i_cpu.Testbench.Directed.{Program, core_directed_programs}

-- The core that reset finds, with a program in its memory.
abbrev with_program : Core → List ℕ → Core
with_program k program = record k { mem = padded k.count program }

halted_quiet :
    (k : Core) (program : List ℕ) → k.halted ≡ true → stores true (with_program k program) ≡ false
halted_quiet k program h = ground (arith, h)

-- The first word of a program does not write to memory.
abbrev pub OpensQuietly : List ℕ → Type 0
OpensQuietly [] = ⊥
OpensQuietly (w ∷ words) = (ref_decode w).mem_write ≡ false

first_padded : (n w : ℕ) (words : List ℕ) → 0 < n → get_or (padded n (w ∷ words)) (0 % n) 0 ≡ w
unfolding padded
first_padded zero w words room = absurd (omega arith)
first_padded (suc n) w words room = rw (zero-mod (suc n)) refl

first_fetched :
    (k : Core) (w : ℕ) (words : List ℕ)
    → k.mem ≡ padded k.count (w ∷ words)
    → k.pc ≡ 0
    → 0 < k.count
    → fetched k ≡ w
unfolding fetched Reference.Memory.index
first_fetched k w words loaded start room = rw (loaded, start) (first_padded k.count w words room)

reset_quiet :
    (k : Core) (program : List ℕ)
    → 0 < k.count
    → k.halted ≡ true
    → OpensQuietly program
    → stores true (cycle true true (with_program k program)).0 ≡ false
reset_quiet k [] room h quiet = absurd quiet
reset_quiet k (w ∷ words) room h quiet =
    rw (clear_lem true (with_program k (w ∷ words)) (halted_quiet k (w ∷ words) h)) (
      rw
        (first_fetched
          (record k {
            mem = padded k.count (w ∷ words);
            regs = replicate 32 0;
            pc = 0;
            halt_cause = 0;
            halted = false;
          })
          w words refl refl room)
        (rw quiet refl))

-- The words fit, open without a store, and halt the golden model within a number of steps.
abbrev pub FitWithin : ℕ → ℕ → List ℕ → Type 0
FitWithin max_steps count words =
    (leb (length words) count ≡ true)
    × OpensQuietly words
    × ((run max_steps (new words count 0)).0.halted ≡ true)

-- The words of a program, if it assembles, fit, open without a store, and halt the golden model.
abbrev pub Fit : ℕ → Option (List ℕ) → Type 0
Fit count none = ⊥
Fit count (some words) = FitWithin 2000 count words

-- Such a program passes, and leaves the core halted with a memory of the same size.
pub one_passes :
    (max_steps : ℕ) (k : Core) (words : List ℕ) (expect_halt : Option ℕ) (counts : Counter)
    → 0 < k.count
    → k.halted ≡ true
    → All (λ w. w < 2 ^ 32) words
    → FitWithin max_steps k.count words
    → (q : Progress Core) × (run_program core_dut k.count k words max_steps expect_halt counts
        ≡ passed q)
      × (q.device.halted ≡ true)
      × (q.device.count ≡ k.count)
one_passes max_steps k words expect_halt counts room h small fit =
    let done =
      run_program-run k words max_steps expect_halt counts room (ground (arith, fit.0)) small
        (halted_quiet k words h) (reset_quiet k words room h fit.1) in
    (
      done.last,
      done.passes,
      ap (λ (s : Iss). s.halted) done.agrees ∙ fit.2,
      ap (λ (s : Iss). s.words) done.agrees
          ∙ run_words max_steps (new words k.count 0)
          ∙ new_words words k.count,
    )

assembled_words : (source : String) → Every (All (λ w. w < 2 ^ 32)) (assemble_text source 0)
unfolding assemble_text
assembled_words source =
    assemble-words strip normalise int_0 to_text x_number match_offset (read_lines source) 0

one_more :
    (p : Program) (m : Option (List ℕ)) (k : Core) (counts : Counter)
    → 0 < k.count
    → k.halted ≡ true
    → Every (All (λ w. w < 2 ^ 32)) m
    → Fit k.count m
    → (q : Progress Core) × ((assembled m >>= λ program.
          run_program core_dut k.count k program 2000 (some p.expect_halt) counts)
        ≡ passed q)
      × (q.device.halted ≡ true)
      × (q.device.count ≡ k.count)
one_more p none k counts room h small fit = absurd fit
one_more p (some words) k counts room h small fit =
    one_passes 2000 k words (some p.expect_halt) counts room h small fit

pub bind_assoc {ℓ} :
    {A B C : Type ℓ} (m : Checked A) (f : A → Checked B) (g : B → Checked C) {b : B}
    → m >>= f ≡ passed b
    → (m >>= λ a. f a >>= g) ≡ g b
bind_assoc (passed a) f g h = ap (λ c. c >>= g) h
bind_assoc (failed why) f g h = cc

abbrev pub AllFit : ℕ → List Program → Type 0
AllFit count ps = All (λ (p : Program). Fit count (assemble_text p.source 0)) ps

-- Programs that assemble, fit, open without a store and halt the golden model pass one after the
-- other on a core that is halted at the start, and leave it halted.
pub core_directed_programs-AllFit :
    (ps : List Program) (k : Core) (counts : Counter)
    → 0 < k.count
    → k.halted ≡ true
    → AllFit k.count ps
    → (r : Core × Counter) × (core_directed_programs core_dut k.count k counts ps ≡ passed r)
      × (r.0.halted ≡ true)
unfolding core_directed_programs
core_directed_programs-AllFit [] k counts room h fit = ((k, counts), refl, h)
core_directed_programs-AllFit (p ∷ ps) k counts room h fit =
    let (q, passes, halted, count) =
      one_more p (assemble_text p.source 0) k counts room h (assembled_words p.source) fit.0 in
    let (r, rest, last) =
      core_directed_programs-AllFit ps q.device q.counts (rw count room) halted (rw count fit.1) in
    (r, bind_assoc (assembled (assemble_text p.source 0)) _ _ passes ∙ simp count at rest, last)
