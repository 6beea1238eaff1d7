-- ===== src/Core/Edge.antt =====
-- The clock edge of the core against the end of a step of the golden model: when the signals of a
-- cycle match an outcome of the model, the edge does what the model does with that outcome.
use rv32i_cpu.Base.{
  ℕ, ◌^◌, ◌<◌, ◌≡◌, ◌≢◌, refl, arith, [], true, false, not, ◌&&◌, Option, none, some, ◌!=◌,
  if◌then◌else◌, set, to_int, Bool-cases, inl, inr,
}
use rv32i_cpu.Bits.{bits}
use rv32i_cpu.Iss
use rv32i_cpu.Iss.State.{Iss, Commit}
use rv32i_cpu.Iss.Decode.{fields}
use rv32i_cpu.Iss.Execute.{Effect, Result, ok, trap}
use rv32i_cpu.Iss.Memory.Lanes.{and_mask-small}
use rv32i_cpu.Iss.Step.{
  write_memory, write_register, commit_rd, commit_wdata, commit_state, commit_of, finish,
}
use rv32i_cpu.Reference.Decoder.{Control}
use rv32i_cpu.Reference.Memory
use rv32i_cpu.Scoreboard.{compare_commit}
use rv32i_cpu.Core.{Core, as_iss, Wires, clock}
use rv32i_cpu.Core.Agree.{memory_store}

-- The core and the model end in the same state, and both retire, with commits that the scoreboard
-- accepts, or neither does.
abbrev pub Same : Core × Option Commit → Iss × Option Commit → Type 0
Same (k, none) (s, none) = as_iss k ≡ s
Same (k, some c) (s, some c') = (as_iss k ≡ s) × (compare_commit c c' ≡ [])
Same _ _ = ⊥

-- The signals agree on the register to write, if any.
abbrev pub SameValue : Control → Wires → Option ℕ → Type 0
SameValue c w none = c.reg_write ≡ false
SameValue c w (some v) = (c.reg_write ≡ true) × (w.wb_data ≡ v) × (v < 2 ^ 32)

-- The signals agree on the memory access.
pub record SameAccess (funct3 : ℕ) (c : Control) (w : Wires) (e : Effect) : Type 0 where
  pub writes : e.mem_write ≡ to_int c.mem_write
  pub op : c.mem_op ≡ funct3
  pub aligned :
      c.mem_write ≡ true → (w.d_misaligned ≡ false) × (Iss.Memory.misaligned funct3 w.alu_y ≡ false)
  pub addr : c.mem_write ≡ true → w.alu_y ≡ e.mem_addr
  pub wdata : c.mem_write ≡ true → w.rs2_data ≡ e.mem_wdata

abbrev pub Agrees : ℕ → Control → Wires → Result Effect → Type 0
Agrees funct3 c w (trap cause) =
    (w.trap_cause ≡ cause) × (cause ≢ 0) × ((c.mem_write && not w.d_misaligned) ≡ false)
Agrees funct3 c w (ok e) =
    (w.trap_cause ≡ 0)
    × (w.pc_next ≡ e.next_pc)
    × SameValue c w e.rd_value
    × SameAccess funct3 c w e

-- What a write of a register, or of memory, leaves alone.
register_frame :
    (s : Iss) (rd : ℕ) (v : Option ℕ)
    → ((write_register s rd v).words ≡ s.words)
      × ((write_register s rd v).mem ≡ s.mem)
      × ((write_register s rd v).halt_cause ≡ s.halt_cause)
      × ((write_register s rd v).halted ≡ s.halted)
unfolding write_register
register_frame s rd none = (refl, refl, refl, refl)
register_frame s rd (some v) = ground arith

memory_frame :
    (s : Iss) (funct3 : ℕ) (e : Effect)
    → ((write_memory s funct3 e).words ≡ s.words)
      × ((write_memory s funct3 e).regs ≡ s.regs)
      × ((write_memory s funct3 e).halt_cause ≡ s.halt_cause)
      × ((write_memory s funct3 e).halted ≡ s.halted)
unfolding write_memory Iss.Memory.store
memory_frame s funct3 e = ground arith

module _ (k : Core) (inst : ℕ) (c : Control) (w : Wires) (run : k.halted ≡ false) where
  -- The edge of a cycle that traps.
  clock_trap :
      w.trap_cause ≢ 0
      → (c.mem_write && not w.d_misaligned) ≡ false
      → clock false true k inst c w ≡ (record k { halt_cause = w.trap_cause; halted = true }, none)
  unfolding clock
  clock_trap h no_write = ground arith

  abbrev retired_core : Core
  retired_core = record k {
    mem =
        if c.mem_write && not w.d_misaligned
        then Memory.store k.count k.mem c.mem_op w.alu_y w.rs2_data
        else k.mem;
    regs =
        if c.reg_write && bits inst 11 7 != 0
        then set k.regs (bits inst 11 7) w.wb_data
        else k.regs;
    pc = w.pc_next;
  }

  abbrev retired_commit : Commit
  retired_commit = record {
    pc = k.pc;
    inst = inst;
    next_pc = w.pc_next;
    rd = if c.reg_write then bits inst 11 7 else 0;
    rd_wdata = if c.reg_write && bits inst 11 7 != 0 then w.wb_data else 0;
    mem_write = to_int (c.mem_write && not w.d_misaligned);
    mem_addr = w.alu_y;
    mem_wdata = w.rs2_data;
  }

  -- The edge of a cycle that retires.
  clock_retire :
      w.trap_cause ≡ 0 → clock false true k inst c w ≡ (retired_core, some retired_commit)
  unfolding clock
  clock_retire h = ground arith

  pub trap_Same :
      (cause : ℕ)
      → Agrees (fields inst).funct3 c w (trap cause)
      → Same (clock false true k inst c w) (finish (as_iss k) inst (trap cause))
  unfolding finish
  trap_Same cause h = rw (clock_trap (λ e. h.1 (ground arith)) h.2) (ground arith)

  retire_mem :
      (e : Effect)
      → SameAccess (fields inst).funct3 c w e
      → retired_core.mem ≡ (write_memory (as_iss k) (fields inst).funct3 e).mem
  unfolding write_memory
  retire_mem e h = elim (Bool-cases c.mem_write) [
    | inl writes ↦ ground (
      arith,
      writes,
      h.writes,
      h.op,
      h.aligned writes,
      h.addr writes,
      h.wdata writes,
      memory_store (as_iss k) (fields inst).funct3 w.alu_y w.rs2_data (h.aligned writes).1,
    )
    | inr reads ↦ ground (arith, reads, h.writes)
  ]

  retire_regs :
      (s : Iss) (v : Option ℕ)
      → s.regs ≡ k.regs
      → SameValue c w v
      → retired_core.regs ≡ (write_register s (fields inst).rd v).regs
  unfolding write_register fields
  retire_regs s none e h = ground (arith, h, e)
  retire_regs s (some v) e h = ground (arith, h, e, and_mask-small v h.2)

  retire_state :
      (e : Effect)
      → Agrees (fields inst).funct3 c w (ok e)
      → as_iss retired_core ≡ commit_state (as_iss k) inst e
  unfolding commit_state
  retire_state e h =
      let stored = write_memory (as_iss k) (fields inst).funct3 e in
      let kept = memory_frame (as_iss k) (fields inst).funct3 e in
      let written = register_frame stored (fields inst).rd e.rd_value in
      cc (
        h.1,
        retire_mem e h.3,
        retire_regs stored e.rd_value kept.1 h.2,
        kept.0,
        kept.2,
        kept.3,
        written.0,
        written.1,
        written.2,
        written.3,
      )

  retire_rd :
      (v : Option ℕ)
      → SameValue c w v
      → (retired_commit.rd ≡ commit_rd (fields inst).rd v)
        × (retired_commit.rd_wdata ≡ commit_wdata (fields inst).rd v)
  unfolding commit_rd commit_wdata fields
  retire_rd none h = ground (arith, h)
  retire_rd (some v) h = ground (arith, h, and_mask-small v h.2)

  retire_commit :
      (e : Effect)
      → Agrees (fields inst).funct3 c w (ok e)
      → compare_commit retired_commit (commit_of (as_iss k) inst e) ≡ []
  unfolding commit_of compare_commit
  retire_commit e h =
      let rd = retire_rd e.rd_value h.2 in
      elim (Bool-cases c.mem_write) [
        | inl writes ↦ ground (
          arith,
          writes,
          h.1,
          rd,
          h.3.writes,
          h.3.aligned writes,
          h.3.addr writes,
          h.3.wdata writes,
        )
        | inr reads ↦ ground (arith, reads, h.1, rd, h.3.writes)
      ]

  pub retire_Same :
      (e : Effect)
      → Agrees (fields inst).funct3 c w (ok e)
      → Same (clock false true k inst c w) (finish (as_iss k) inst (ok e))
  unfolding finish
  retire_Same e h = rw (clock_retire h.0) (retire_state e h, retire_commit e h)
