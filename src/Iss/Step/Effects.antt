-- ===== src/Iss/Step/Effects.antt =====
-- What a call of `Iss.step` does, in terms of what it returns.
use rv32i_cpu.Base.{
  ℕ, ◌%◌, ◌^◌, ◌≤◌, ◌<◌, ◌≡◌, refl, ◌∙◌, arith, List, true, false, Option, none, some, ◌!=◌,
  if◌then◌else◌, set,
}
use rv32i_cpu.Base.BitOps.{and_low}
use rv32i_cpu.Iss.State.{Iss, Commit}
use rv32i_cpu.Iss.Decode.{fields}
use rv32i_cpu.Iss.Memory.{store}
use rv32i_cpu.Iss.Execute.{Effect, Result, ok, trap, execute}
use rv32i_cpu.Iss.Execute.Outcome.{IsAligned, execute-IsAligned}
use rv32i_cpu.Iss.Step.{write_memory, write_register, commit_rd, commit_wdata, finish, fetch, step}

-- The registers and the memory that a commit announces, from those before it.
abbrev pub replay_regs : List ℕ → Commit → List ℕ
replay_regs regs c = if c.rd != 0 then set regs c.rd c.rd_wdata else regs

abbrev pub replay_mem : Iss → Commit → List ℕ
replay_mem s c =
    if c.mem_write != 0 then (store s (fields c.inst).funct3 c.mem_addr c.mem_wdata).mem else s.mem

-- `t` is `s` after an instruction that retired with commit `c`.
pub record Retired (s : Iss) (c : Commit) (t : Iss) : Type 0 where
  pub pc_before : c.pc ≡ s.pc
  pub inst_fetched : c.inst ≡ fetch s
  pub pc_after : t.pc ≡ c.next_pc
  pub regs_after : t.regs ≡ replay_regs s.regs c
  pub mem_after : t.mem ≡ replay_mem s c
  pub words_kept : t.words ≡ s.words
  pub running : t.halted ≡ false
  pub cause_kept : t.halt_cause ≡ s.halt_cause
  pub aligned : c.next_pc % 4 ≡ 0
  pub word : c.next_pc < 2 ^ 32
  pub data_word : c.rd_wdata < 2 ^ 32

-- `t` is `s` after a trap: only the halt latch differs.
pub record Trapped (s t : Iss) : Type 0 where
  pub halts : t.halted ≡ true
  pub cause_low : 1 ≤ t.halt_cause
  pub cause_high : t.halt_cause ≤ 5
  pub pc_kept : t.pc ≡ s.pc
  pub regs_kept : t.regs ≡ s.regs
  pub mem_kept : t.mem ≡ s.mem
  pub words_kept : t.words ≡ s.words

-- The two ends of a step that starts running.
abbrev pub Ends : Iss → Iss × Option Commit → Type 0
Ends s (t, none) = Trapped s t
Ends s (t, some c) = Retired s c t

-- The two writes, field by field.
module _ (s : Iss) (funct3 : ℕ) (e : Effect) where
  memory_write :
      ((write_memory s funct3 e).regs ≡ s.regs)
      × ((write_memory s funct3 e).words ≡ s.words)
      × ((write_memory s funct3 e).halted ≡ s.halted)
      × ((write_memory s funct3 e).halt_cause ≡ s.halt_cause)
      × ((write_memory s funct3 e).mem
          ≡ (if e.mem_write != 0 then (store s funct3 e.mem_addr e.mem_wdata).mem else s.mem))
  unfolding write_memory
  memory_write = ground arith

register_write :
    (s : Iss) (rd : ℕ) (v : Option ℕ)
    → ((write_register s rd v).regs
        ≡ (if commit_rd rd v != 0 then set s.regs (commit_rd rd v) (commit_wdata rd v) else s.regs))
      × ((write_register s rd v).words ≡ s.words)
      × ((write_register s rd v).halted ≡ s.halted)
      × ((write_register s rd v).halt_cause ≡ s.halt_cause)
      × ((write_register s rd v).mem ≡ s.mem)
unfolding write_register commit_rd commit_wdata
register_write s rd none = ground arith
register_write s rd (some v) = ground arith

wdata-lt : (rd : ℕ) (v : Option ℕ) → commit_wdata rd v < 2 ^ 32
unfolding commit_wdata
wdata-lt rd none = omega arith
wdata-lt rd (some v) = ground (arith, and_low 32 v)

finish-Ends :
    (s : Iss) (r : Result Effect) → s.halted ≡ false → IsAligned r → Ends s (finish s (fetch s) r)
unfolding finish
finish-Ends s (trap cause) run h = record {
  halts = refl;
  cause_low = h.0;
  cause_high = h.1;
  pc_kept = refl;
  regs_kept = refl;
  mem_kept = refl;
  words_kept = refl;
}
finish-Ends s (ok e) run h =
    let f = fields (fetch s) in
    let m = memory_write s f.funct3 e in
    let r = register_write (write_memory s f.funct3 e) f.rd e.rd_value in
    record {
      pc_before = refl;
      inst_fetched = refl;
      pc_after = refl;
      regs_after = r.0 ∙ rw m.0;
      mem_after = r.4 ∙ m.4;
      words_kept = r.1 ∙ m.1;
      running = r.2 ∙ m.2 ∙ run;
      cause_kept = r.3 ∙ m.3;
      aligned = h.1;
      word = h.0;
      data_word = wdata-lt f.rd e.rd_value;
    }

pub step_running :
    (s : Iss) → s.halted ≡ false → step s ≡ finish s (fetch s) (execute s s.pc (fetch s))
unfolding step
step_running s run = simp run

pub step_halted : (s : Iss) → s.halted ≡ true → step s ≡ (s, none)
unfolding step
step_halted s halted = simp halted

-- A step of a running simulator either retires an instruction, and then its commit tells the whole
-- change of registers, memory and program counter, or traps, and then only the halt latch changes,
-- to a cause from 1 to 5.
pub step-Ends : (s : Iss) → s.halted ≡ false → Ends s (step s)
step-Ends s run =
    simp (step_running s run)
      (finish-Ends s (execute s s.pc (fetch s)) run (execute-IsAligned s s.pc (fetch s)))
