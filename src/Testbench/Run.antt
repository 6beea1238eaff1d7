-- ===== src/Testbench/Run.antt =====
-- verif/tb_core.py: `run_program`, which drives a device under test beside the golden model. A failed
-- assertion is a value, and the device is any `Dut`; that of the repository is `core_dut`.
use rv32i_cpu.Base.{
  ℕ, zero, suc, ◌+◌, ◌*◌, List, [], ◌∷◌, Bool, true, false, not, Option, none, some, length, leb,
  ◌==◌, ◌!=◌, if◌then◌else◌,
}
use rv32i_cpu.Iss.State.{Iss, Commit, new}
use rv32i_cpu.Iss.Step.{run}
use rv32i_cpu.Scoreboard.{Field, compare_commit}
use rv32i_cpu.Coverage.{digit, sample}
use rv32i_cpu.Coverage.Counts.{append, Counter, increment}
use rv32i_cpu.Core.{Core, cycle}
use rv32i_cpu.Testbench.{advance, differences, load_and_reset}

-- The assertions, with what their messages tell.
pub data Failure : Type 0 where
  too_long not_assembled coverage_holes : Failure
  stopped_retiring halted_early : ℕ → Failure
  mismatch : ℕ → List Field → Failure
  not_halted pc_moved halted_late register_moved shown_frozen not_shown not_resumed : Failure
  wrong_cause wrong_pc : ℕ → Failure
  register_differs memory_differs : List ℕ → Failure

pub data Checked {ℓ} (A : Type ℓ) : Type ℓ where
  passed : A → Checked A
  failed : Failure → Checked A

infixl 5 ◌>>=◌ ◌>>◌
abbrev pub ◌>>=◌ {ℓ κ} : {A : Type ℓ} {B : Type κ} → Checked A → (A → Checked B) → Checked B
passed a >>= f = f a
failed why >>= f = failed why

abbrev pub ◌>>◌ {ℓ} : {B : Type ℓ} → Checked (Unit {0}) → Checked B → Checked B
m >> rest = m >>= λ _. rest

-- `assert`.
abbrev pub check : Bool → Failure → Checked (Unit {0})
check true why = passed tt
check false why = failed why

abbrev pub is_empty {ℓ} : {A : Type ℓ} → List A → Bool
is_empty [] = true
is_empty (x ∷ xs) = false

-- `assemble`, whose AsmError ends the test.
abbrev pub assembled : Option (List ℕ) → Checked (List ℕ)
assembled none = failed not_assembled
assembled (some words) = passed words

-- What the testbench uses of the device: loading and reset, a clock edge with `step_en` high, the
-- retirement trace when `commit_valid` is high, and the signals and arrays that it reads.
pub record Dut (D : Type 0) : Type 0 where
  pub load : D → List ℕ → D
  pub edge : D → D
  pub retiring : D → Option Commit
  pub is_halted : D → Bool
  pub cause : D → ℕ
  pub commit_pc : D → ℕ
  pub regs : D → List ℕ
  pub mem : D → List ℕ

unfoldable pub core_dut : Dut Core
unfolding load_and_reset advance
core_dut = record {
  load = load_and_reset;
  edge = advance;
  retiring = λ k. (cycle false true k).1;
  is_halted = λ k. k.halted;
  cause = λ k. k.halt_cause;
  commit_pc = λ k. k.pc;
  regs = λ k. k.regs;
  mem = λ k. k.mem;
}

-- Where the loop is: the device, the coverage counts, and `retired`.
pub record Progress (D : Type 0) : Type 0 where
  pub device : D
  pub counts : Counter
  pub retired : ℕ

module _ {D : Type 0} (dut : Dut D) where
  -- The `if` on `commit_valid`, the `advance` behind it, and the rest of the loop.
  unfoldable pub progress :
      Option Commit
      → Progress D
      → Commit
      → List Commit
      → (Progress D → List Commit → Checked (Progress D))
      → Checked (Progress D)
  progress none p e es rest = rest (record p { device = dut.edge p.device }) (e ∷ es)
  progress (some c) p e es rest = do
    let bad = compare_commit c e
    check (is_empty bad) (mismatch p.retired bad)
    rest
        (record {
          device = dut.edge p.device;
          counts = sample p.counts e.inst e;
          retired = p.retired + 1;
        })
        es

  -- `while retired < len(expected)`, on the commits that are still expected.
  unfoldable pub retire_all : ℕ → Progress D → List Commit → Checked (Progress D)
  unfolding progress
  retire_all budget p [] = passed p
  retire_all zero p (e ∷ es) = failed (stopped_retiring p.retired)
  retire_all (suc budget) p (e ∷ es) = do
    check (budget != 0) (stopped_retiring p.retired)
    check (not (dut.is_halted p.device)) (halted_early p.retired)
    progress (dut.retiring p.device) p e es (retire_all budget)

  -- `for _ in range(n)`: the halted device does not move.
  unfoldable pub frozen : ℕ → ℕ → D → Checked D
  frozen zero pc d = passed d
  frozen (suc n) pc d = do
    check (dut.commit_pc (dut.edge d) == pc) pc_moved
    frozen n pc (dut.edge d)

  -- The checks behind the loop, if the model halted.
  unfoldable pub check_halt : Iss → Progress D → Checked (Progress D)
  unfolding frozen
  check_halt s p = do
    let d = dut.edge p.device
    check (dut.is_halted d) not_halted
    check (dut.cause d == s.halt_cause) (wrong_cause (dut.cause d))
    check (dut.commit_pc d == s.pc) (wrong_pc (dut.commit_pc d))
    last ← frozen 3 (dut.commit_pc d) d
    passed (record p {
      device = last;
      counts = increment (append "halt:" (digit s.halt_cause)) p.counts;
    })

  unfoldable pub check_end : Iss → Progress D → Checked (Progress D)
  unfolding check_halt
  check_end s p =
      if s.halted
      then check_halt s p
      else check (not (dut.is_halted p.device)) halted_late >>= λ _. passed p

  -- `compare_state`, of a memory of `words`.
  unfoldable pub check_state : Iss → Progress D → Checked (Progress D)
  check_state s p = do
    let bad_regs = differences (dut.regs p.device) s.regs 32
    check (is_empty bad_regs) (register_differs bad_regs)
    let bad_mem = differences (dut.mem p.device) s.mem s.words
    check (is_empty bad_mem) (memory_differs bad_mem)
    passed p

  unfoldable pub follow : Progress D → Iss × List Commit → Checked (Progress D)
  unfolding retire_all check_end check_state
  follow start (s, expected) = do
    p ← retire_all (length expected * 4 + 200) start expected
    q ← check_end s p
    check_state s q

  -- `run_program`, on a memory of `words`. The source takes `expect_halt` and does not use it.
  unfoldable pub run_program : ℕ → D → List ℕ → ℕ → Option ℕ → Counter → Checked (Progress D)
  unfolding follow
  run_program words d program max_steps expect_halt counts = do
    check (leb (length program) words) too_long
    let start : Progress D = record { device = dut.load d program; counts = counts; retired = 0 }
    follow start (run max_steps (new program words 0))
