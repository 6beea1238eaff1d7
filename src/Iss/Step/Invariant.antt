-- ===== src/Iss/Step/Invariant.antt =====
-- The well-formedness of the simulator of verif/iss.py, which the constructor gives and every step
-- keeps.
use rv32i_cpu.Base.{
  ℕ, zero, suc, ◌+◌, ◌%◌, ◌^◌, ◌≤◌, ◌<◌, ◌≡◌, refl, ◌∙◌, arith, List, [], ◌∷◌, Bool, true, false,
  Option, none, some, ◌!=◌, length, get_or, replicate, All, All-set, All-replicate, length-set,
  length-replicate, get_or-set_ne, if_elim, Bool-cases, inl, inr,
}
use rv32i_cpu.Base.BitOps.{and_low}
use rv32i_cpu.Iss.State.{Iss, Commit, load_program, new}
use rv32i_cpu.Iss.Decode.{fields}
use rv32i_cpu.Iss.Memory.{store}
use rv32i_cpu.Iss.Memory.Bytes.{IsMemory}
use rv32i_cpu.Iss.Memory.RoundTrip.{store-IsMemory}
use rv32i_cpu.Iss.Step.{step, run, continue_run}
use rv32i_cpu.Iss.Step.Effects.{Retired, Trapped, Ends, step-Ends, step_halted}

-- The cause of a running simulator is HALT_NONE, that of a halted one is one of the five others.
abbrev pub LatchFits : Bool → ℕ → Type 0
LatchFits false cause = cause ≡ 0
LatchFits true cause = (1 ≤ cause) × (cause ≤ 5)

-- 32 registers of 32 bits, the first of them zero, a memory of words, an aligned program counter,
-- and a halt cause that fits the halt flag.
pub record IsWellFormed (s : Iss) : Type 0 where
  pub memory : IsMemory s
  pub register_count : length s.regs ≡ 32
  pub registers_small : All (λ r. r < 2 ^ 32) s.regs
  pub zero_register : get_or s.regs 0 0 ≡ 0
  pub pc_aligned : s.pc % 4 ≡ 0
  pub pc_small : s.pc < 2 ^ 32
  pub latch : LatchFits s.halted s.halt_cause

load_program-shape :
    (words i : ℕ) (program mem : List ℕ)
    → length mem ≡ words
    → All (λ w. w < 2 ^ 32) mem
    → (length (load_program words i program mem) ≡ words)
      × All (λ w. w < 2 ^ 32) (load_program words i program mem)
unfolding load_program
load_program-shape words i [] mem h small = (h, small)
load_program-shape words i (word ∷ rest) mem h small =
    load_program-shape words (i + 1) rest _ (length-set mem _ _ ∙ h)
      (All-set (λ w. w < 2 ^ 32) mem _ _ small (omega (arith, and_low 32 word)))

-- A new simulator with a memory of some words and an aligned reset address is well formed.
pub new-IsWellFormed :
    (program : List ℕ) (words reset_pc : ℕ)
    → 0 < words
    → reset_pc % 4 ≡ 0
    → IsWellFormed (new program words reset_pc)
unfolding new
new-IsWellFormed program words reset_pc pos al =
    let m =
      load_program-shape words 0 program (replicate words 0) (length-replicate words 0)
        (All-replicate (λ w. w < 2 ^ 32) words 0 (omega arith)) in
    record {
      memory = record { not_empty = pos; full = m.0; small = m.1 };
      register_count = refl;
      registers_small = All-replicate (λ r. r < 2 ^ 32) 32 0 (omega arith);
      zero_register = refl;
      pc_aligned = omega (arith, and_low 32 reset_pc);
      pc_small = omega (arith, and_low 32 reset_pc);
      latch = refl;
    }

module _ (s t : Iss) (c : Commit) (w : IsWellFormed s) (r : Retired s c t) where
  abbrev stored : Iss
  stored = store s (fields c.inst).funct3 c.mem_addr c.mem_wdata

  stored-IsMemory : IsMemory stored
  stored-IsMemory = store-IsMemory s (fields c.inst).funct3 c.mem_addr c.mem_wdata w.memory

  stored_words : stored.words ≡ s.words
  unfolding store
  stored_words = refl

  Retired-IsMemory : IsMemory t
  Retired-IsMemory = record {
    not_empty = rw r.words_kept w.memory.not_empty;
    full =
        rw (r.mem_after, r.words_kept)
          (if_elim (λ m. length m ≡ s.words) (c.mem_write != 0) stored.mem s.mem
            (stored-IsMemory.full ∙ stored_words) w.memory.full);
    small = rw r.mem_after (
        if_elim (All (λ v. v < 2 ^ 32)) (c.mem_write != 0) stored.mem s.mem stored-IsMemory.small
          w.memory.small);
  }

  Retired-IsWellFormed : s.halted ≡ false → IsWellFormed t
  Retired-IsWellFormed run = record {
    memory = Retired-IsMemory;
    register_count = rw r.regs_after (
        if_elim (λ m. length m ≡ 32) (c.rd != 0) _ _ (length-set s.regs _ _ ∙ w.register_count)
          w.register_count);
    registers_small = rw r.regs_after (
        if_elim (All (λ v. v < 2 ^ 32)) (c.rd != 0) _ _
          (All-set (λ v. v < 2 ^ 32) s.regs c.rd c.rd_wdata w.registers_small r.data_word)
          w.registers_small);
    zero_register =
        ground (arith, r.regs_after, w.zero_register, get_or-set_ne s.regs c.rd 0 c.rd_wdata 0);
    pc_aligned = rw r.pc_after r.aligned;
    pc_small = rw r.pc_after r.word;
    latch = rw r.running (r.cause_kept ∙ rw run at w.latch);
  }

Trapped-IsWellFormed : (s t : Iss) → IsWellFormed s → Trapped s t → IsWellFormed t
Trapped-IsWellFormed s t w r = record {
  memory = record {
    not_empty = rw r.words_kept w.memory.not_empty;
    full = rw (r.mem_kept, r.words_kept) w.memory.full;
    small = rw r.mem_kept w.memory.small;
  };
  register_count = rw r.regs_kept w.register_count;
  registers_small = rw r.regs_kept w.registers_small;
  zero_register = rw r.regs_kept w.zero_register;
  pc_aligned = rw r.pc_kept w.pc_aligned;
  pc_small = rw r.pc_kept w.pc_small;
  latch = rw r.halts (r.cause_low, r.cause_high);
}

Ends-IsWellFormed :
    (s : Iss) (r : Iss × Option Commit)
    → s.halted ≡ false
    → IsWellFormed s
    → Ends s r
    → IsWellFormed r.0
Ends-IsWellFormed s (t, none) run w e = Trapped-IsWellFormed s t w e
Ends-IsWellFormed s (t, some c) run w e = Retired-IsWellFormed s t c w e run

-- One step keeps the simulator well formed, whether it retires, traps, or is halted already.
pub step-IsWellFormed : (s : Iss) → IsWellFormed s → IsWellFormed (step s).0
step-IsWellFormed s w = elim (Bool-cases s.halted) [
  | inl halted ↦ rw (step_halted s halted) w
  | inr run ↦ Ends-IsWellFormed s (step s) run w (step-Ends s run)
]

continue_run-IsWellFormed :
    (r : Iss × Option Commit) (rest : Iss → Iss × List Commit)
    → ((t : Iss) → IsWellFormed t → IsWellFormed (rest t).0)
    → IsWellFormed r.0
    → IsWellFormed (continue_run r rest).0
unfolding continue_run
continue_run-IsWellFormed (t, none) rest keep w = w
continue_run-IsWellFormed (t, some c) rest keep w = keep t w

-- Any number of steps keeps the simulator well formed; in particular x0 still reads zero.
pub run-IsWellFormed : (max_steps : ℕ) (s : Iss) → IsWellFormed s → IsWellFormed (run max_steps s).0
unfolding run
run-IsWellFormed zero s w = w
run-IsWellFormed (suc n) s w =
    continue_run-IsWellFormed (step s) (run n) (run-IsWellFormed n) (step-IsWellFormed s w)
