-- ===== src/Testbench/Passing.antt =====
-- `run_program` on the core: no assertion fails.
use rv32i_cpu.Base.{
  ==_refl, ℕ, zero, suc, ◌+◌, ◌*◌, ◌^◌, ◌<◌, ◌≤◌, ◌≡◌, refl, ap, ◌∙◌, arith, List, [], Bool, true,
  not, false, Option, none, some, length, All, ◌==◌, ◌!=◌, get_or, leb, if◌then◌else◌,
}
use rv32i_cpu.Iss.State.{Iss, Commit, new}
use rv32i_cpu.Iss.Step.{step, run}
use rv32i_cpu.Iss.Step.Invariant.{IsWellFormed, new-IsWellFormed}
use rv32i_cpu.Coverage.{digit, sample_trace}
use rv32i_cpu.Coverage.Counts.{append, Counter, increment}
use rv32i_cpu.Core.{Core, as_iss, cycle}
use rv32i_cpu.Core.Edge.{Same}
use rv32i_cpu.Core.Refines.{cycle-step, cycle_halted}
use rv32i_cpu.Core.Freeze.{stores}
use rv32i_cpu.Testbench.{padded, advance, differences, load_and_reset, load_and_reset-new}
use rv32i_cpu.Testbench.Run.{
  Checked, passed, check, halted_late, ◌>>=◌, Progress, core_dut, frozen, check_halt, check_end,
  check_state, follow, run_program,
}
use rv32i_cpu.Testbench.Loop.{Stands, LoopPasses, retire_all-run}

differences_same : (xs : List ℕ) (n : ℕ) → differences xs xs n ≡ []
unfolding differences
differences_same xs zero = refl
differences_same xs (suc n) =
    let same : (get_or xs n 0 != get_or xs n 0) ≡ false = ground arith in
    simp (same, differences_same xs n)

advance_halted : (k : Core) → k.halted ≡ true → advance k ≡ k
unfolding advance
advance_halted k h = ap (λ x. x.0) (cycle_halted true k h)

frozen_halted : (n : ℕ) (k : Core) → k.halted ≡ true → frozen core_dut n k.pc k ≡ passed k
unfolding frozen core_dut
frozen_halted zero k h = refl
frozen_halted (suc n) k h = simp (advance_halted k h, ==_refl k.pc) (frozen_halted n k h)

Same-as_iss : (r : Core × Option Commit) (m : Iss × Option Commit) → Same r m → as_iss r.0 ≡ m.0
Same-as_iss (k, none) (s, none) h = h
Same-as_iss (k, none) (s, some e) h = absurd h
Same-as_iss (k, some c) (s, none) h = absurd h
Same-as_iss (k, some c) (s, some e) h = h.0

advance-step : (k : Core) → IsWellFormed (as_iss k) → as_iss (advance k) ≡ (step (as_iss k)).0
unfolding advance
advance-step k w = Same-as_iss (cycle false true k) (step (as_iss k)) (cycle-step k w)

-- The bin of the cause is counted if the model halted.
abbrev pub count_halt : Iss → Counter → Counter
count_halt s counts =
    if s.halted then increment (append "halt:" (digit s.halt_cause)) counts else counts

-- The end of a run of `run_program` on the core.
pub record Ends (p : Progress Core) (counts : Counter) (s : Iss) (c : Checked (Progress Core))
    : Type 0 where
  pub last : Progress Core
  pub passes : c ≡ passed last
  pub agrees : as_iss last.device ≡ s
  pub counted : last.counts ≡ count_halt s counts
  pub retired : last.retired ≡ p.retired

module _ (s : Iss) (p : Progress Core) (w : IsWellFormed (as_iss p.device)) where
  stopped :
      s.halted ≡ true → as_iss (advance p.device) ≡ s → Ends p p.counts s (check_halt core_dut s p)
  unfolding check_halt core_dut
  stopped h there =
      let d = advance p.device in
      let halted : d.halted ≡ true = ap (λ (x : Iss). x.halted) there ∙ h in
      let cause : (d.halt_cause == s.halt_cause) ≡ true =
        rw (← ap (λ (x : Iss). x.halt_cause) there) (==_refl d.halt_cause) in
      let at : (d.pc == s.pc) ≡ true = rw (← ap (λ (x : Iss). x.pc) there) (==_refl d.pc) in
      record {
        last = record p {
          device = d;
          counts = increment (append "halt:" (digit s.halt_cause)) p.counts;
        };
        passes = simp (halted, cause, at, frozen_halted 3 d halted);
        agrees = there;
        counted = simp h;
        retired = refl;
      }

  still_running :
      s.halted ≡ false
      → as_iss p.device ≡ s
      → Ends p p.counts s (check (not p.device.halted) halted_late >>= λ _. passed p)
  still_running h there =
      let running : p.device.halted ≡ false = ap (λ (x : Iss). x.halted) there ∙ h in
      record { last = p; passes = simp running; agrees = there; counted = simp h; retired = refl }

  ended_by :
      (b : Bool)
      → s.halted ≡ b
      → Stands b (as_iss p.device) s
      → Ends p p.counts s (check_end core_dut s p)
  unfolding check_end core_dut
  ended_by true h there = simp h (stopped h (advance-step p.device w ∙ there))
  ended_by false h there = simp h (still_running h there)

checked_state :
    (s : Iss) (p : Progress Core) → as_iss p.device ≡ s → check_state core_dut s p ≡ passed p
unfolding check_state core_dut
checked_state s p there =
    let regs : p.device.regs ≡ s.regs = ap (λ (x : Iss). x.regs) there in
    let mem : p.device.mem ≡ s.mem = ap (λ (x : Iss). x.mem) there in
    simp (regs, mem, differences_same s.regs 32, differences_same s.mem s.words)

-- What `follow` reports of a run of the model.
pub record Follows (start : Progress Core) (r : Iss × List Commit) (c : Checked (Progress Core))
    : Type 0 where
  pub last : Progress Core
  pub passes : c ≡ passed last
  pub agrees : as_iss last.device ≡ r.0
  pub counted : last.counts ≡ count_halt r.0 (sample_trace start.counts r.1)
  pub retired : last.retired ≡ start.retired + length r.1

follow_loop :
    (start : Progress Core) (r : Iss × List Commit)
    → LoopPasses (length r.1 * 4 + 200) start r
    → Follows start r (follow core_dut start r)
unfolding follow
follow_loop start (s, trace) (p, h) =
    let e = ended_by s p h.well_formed s.halted refl h.stands in
    record {
      last = e.last;
      passes = simp (h.passes, e.passes) (checked_state s e.last e.agrees);
      agrees = e.agrees;
      counted = e.counted ∙ ap (count_halt s) h.counted;
      retired = e.retired ∙ h.all_retired;
    }

core_follows :
    (start : Progress Core) (max_steps : ℕ) (s : Iss)
    → as_iss start.device ≡ s
    → IsWellFormed s
    → Follows start (run max_steps s) (follow core_dut start (run max_steps s))
core_follows start n s there w =
    let trace = (run n (as_iss start.device)).1 in
    rw there at (
      follow_loop start (run n (as_iss start.device))
        (retire_all-run n (length trace * 4 + 200) start (rw there w) (omega arith)))

-- Where `run_program` starts its loop.
abbrev pub loaded : Core → List ℕ → Counter → Progress Core
loaded k program counts = record { device = load_and_reset k program; counts = counts; retired = 0 }

-- On the core, `run_program` comes to its end with no assertion failed, for any program of words
-- that fits a memory of at least one word, any bound on the steps, and any counts, if neither edge
-- in reset has a store to carry out: the core ends in the state of the golden model, all commits
-- of the model have retired, and the counts are those of sampling its trace and its halt cause.
pub run_program-run :
    (k : Core) (program : List ℕ) (max_steps : ℕ) (expect_halt : Option ℕ) (counts : Counter)
    → 0 < k.count
    → length program ≤ k.count
    → All (λ w. w < 2 ^ 32) program
    → stores true (record k { mem = padded k.count program }) ≡ false
    → stores true (cycle true true (record k { mem = padded k.count program })).0 ≡ false
    → Follows
        (loaded k program counts)
        (run max_steps (new program k.count 0))
        (run_program core_dut k.count k program max_steps expect_halt counts)
unfolding run_program core_dut
run_program-run k program n expect_halt counts room fits small quiet quiet' =
    let checked : leb (length program) k.count ≡ true = ground arith in
    simp checked (
      core_follows (loaded k program counts) n (new program k.count 0)
        (load_and_reset-new k program fits small quiet quiet')
        (new-IsWellFormed program k.count 0 room refl))
