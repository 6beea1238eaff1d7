-- ===== src/Iss/Step.antt =====
-- `Iss.step` and `Iss.run`.
pub mod Effects
pub mod Invariant
pub mod Trace
use rv32i_cpu.Base.{
  ℕ, zero, suc, List, [], ◌∷◌, true, Option, none, some, bit_and, ◌!=◌, if◌then◌else◌, get_or, set,
}
use rv32i_cpu.Bits.{mask32}
use rv32i_cpu.Iss.State.{Iss, Commit}
use rv32i_cpu.Iss.Decode.{fields}
use rv32i_cpu.Iss.Memory.{index, store}
use rv32i_cpu.Iss.Execute.{Effect, Result, ok, trap, execute}

unfoldable pub write_memory : Iss → ℕ → Effect → Iss
unfolding store
write_memory s funct3 e = if e.mem_write != 0 then store s funct3 e.mem_addr e.mem_wdata else s

unfoldable pub write_register : Iss → ℕ → Option ℕ → Iss
write_register s rd none = s
write_register s rd (some v) =
    if rd != 0 then record s { regs = set s.regs rd (bit_and v mask32) } else s

unfoldable pub commit_rd : ℕ → Option ℕ → ℕ
commit_rd rd none = 0
commit_rd rd (some v) = rd

unfoldable pub commit_wdata : ℕ → Option ℕ → ℕ
commit_wdata rd none = 0
commit_wdata rd (some v) = if rd != 0 then bit_and v mask32 else 0

unfoldable pub commit_state : Iss → ℕ → Effect → Iss
unfolding write_memory write_register
commit_state s inst e =
    let stored = write_memory s (fields inst).funct3 e in
    let written = write_register stored (fields inst).rd e.rd_value in
    record written { pc = e.next_pc }

unfoldable pub commit_of : Iss → ℕ → Effect → Commit
unfolding commit_rd commit_wdata
commit_of s inst e = record {
  pc = s.pc;
  inst = inst;
  next_pc = e.next_pc;
  rd = commit_rd (fields inst).rd e.rd_value;
  rd_wdata = commit_wdata (fields inst).rd e.rd_value;
  mem_write = e.mem_write;
  mem_addr = e.mem_addr;
  mem_wdata = e.mem_wdata;
}

-- The handler of `Trap`, and the commit.
unfoldable pub finish : Iss → ℕ → Result Effect → Iss × Option Commit
unfolding commit_state commit_of
finish s inst (trap cause) = (record s { halted = true; halt_cause = cause }, none)
finish s inst (ok e) = (commit_state s inst e, some (commit_of s inst e))

unfoldable pub fetch : Iss → ℕ
unfolding index
fetch s = get_or s.mem (index s s.pc) 0

unfoldable pub step : Iss → Iss × Option Commit
unfolding finish fetch
step s = if s.halted then (s, none) else finish s (fetch s) (execute s s.pc (fetch s))

-- What `run` does with the result of a step: stop at None, or put the commit before the rest.
unfoldable pub continue_run : Iss × Option Commit → (Iss → Iss × List Commit) → Iss × List Commit
continue_run (s, none) rest = (s, [])
continue_run (s, some c) rest = let (s', trace) = rest s in (s', c ∷ trace)

unfoldable pub run : ℕ → Iss → Iss × List Commit
unfolding continue_run
run zero s = (s, [])
run (suc max_steps) s = continue_run (step s) (run max_steps)
