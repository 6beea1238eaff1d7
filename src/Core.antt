-- ===== src/Core.antt =====
-- rtl/core.sv: the single-cycle core, as the wiring of its blocks. One call of `cycle` is one rising
-- clock edge, at the given levels of `rst` and `step_en`. The decoder and the memory are the
-- reference models of their testbenches, verif/unit/tb_decoder.py and verif/unit/tb_memory.py; the
-- program counter is that of verif/unit/tb_pc_unit.py.
pub mod Blocks
pub mod Agree
pub mod Edge
pub mod Signals
pub mod Jumps
pub mod Values
pub mod Results
pub mod Accesses
pub mod Refines
pub mod Freeze
pub mod Lockstep
pub mod Legal
pub mod Words
use rv32i_cpu.Base.{
  ℕ, ◌+◌, List, Bool, true, false, not, ◌&&◌, ◌||◌, Option, none, some, ◌==◌, ◌!=◌, if◌then◌else◌,
  to_int, bit_and, get_or, set, replicate,
}
use rv32i_cpu.Bits.{mask32, bits}
use rv32i_cpu.Iss.State.{
  Iss, Commit, halt_none, halt_ecall, halt_ebreak, halt_illegal, halt_mem_misalign,
  halt_fetch_misalign,
}
use rv32i_cpu.Reference.Decoder.{
  Control, alu_a_pc, alu_a_zero, alu_b_imm, wb_mem, wb_pc4, ref_decode,
}
use rv32i_cpu.Reference.Pc.{ref_next_pc}
use rv32i_cpu.Reference.Memory
use Blocks.{alu_block, branch_block, imm_block, read_port}

-- The registers and arrays of the core and its memory; `count` is the parameter WORDS.
pub record Core : Type 0 where
  pub count : ℕ
  pub mem : List ℕ
  pub regs : List ℕ
  pub pc : ℕ
  pub halt_cause : ℕ
  pub halted : Bool

-- The same state, as the golden model holds it.
abbrev pub as_iss : Core → Iss
as_iss k = record {
  words = k.count;
  mem = k.mem;
  regs = k.regs;
  pc = k.pc;
  halt_cause = k.halt_cause;
  halted = k.halted;
}

-- The parameter RESET_PC of rtl/pc_unit.sv.
abbrev pub reset_pc : ℕ
reset_pc = 0

-- The combinational signals of a cycle.
pub record Wires : Type 0 where
  pub rs2_data : ℕ
  pub alu_y : ℕ
  pub d_misaligned : Bool
  pub wb_data : ℕ
  pub pc_next : ℕ
  pub trap_cause : ℕ

unfoldable pub operand_a : Control → ℕ → ℕ → ℕ
operand_a c pc rs1_data =
    if c.alu_a_sel == alu_a_pc then pc else if c.alu_a_sel == alu_a_zero then 0 else rs1_data

unfoldable pub write_back : Control → ℕ → ℕ → ℕ → ℕ
write_back c alu_y d_rdata pc_plus4 =
    if c.wb_sel == wb_mem then d_rdata else if c.wb_sel == wb_pc4 then pc_plus4 else alu_y

unfoldable pub cause_of : Control → Bool → Bool → ℕ
cause_of c d_misaligned misaligned_target =
    if c.illegal
    then halt_illegal
    else if c.ecall
    then halt_ecall
    else if c.ebreak
    then halt_ebreak
    else if (c.mem_read || c.mem_write) && d_misaligned
    then halt_mem_misalign
    else if misaligned_target
    then halt_fetch_misalign
    else halt_none

-- Memory is told to read unless the core is halted, and to write unless it is halted or frozen; a
-- trap does not gate it, since the trap depends on what the memory answers.
unfoldable pub wires : Bool → Core → ℕ → Control → Wires
unfolding operand_a write_back cause_of alu_block branch_block imm_block read_port
wires step_en k inst c =
    let imm = imm_block c.imm_format inst in
    let rs1_data = read_port k.regs (bits inst 19 15) in
    let rs2_data = read_port k.regs (bits inst 24 20) in
    let alu_b = if c.alu_b_sel == alu_b_imm then imm else rs2_data in
    let alu_y = alu_block c.alu_op (operand_a c k.pc rs1_data) alu_b in
    let taken = branch_block (bits inst 14 12) rs1_data rs2_data in
    let accesses = (c.mem_read && not k.halted) || (c.mem_write && not k.halted && step_en) in
    let d_misaligned = accesses && Memory.misaligned c.mem_op alu_y in
    let d_rdata = Memory.load k.count k.mem c.mem_op alu_y in
    let pc_next = ref_next_pc k.pc c.branch taken c.jump c.jalr imm alu_y in
    record {
      rs2_data = rs2_data;
      alu_y = alu_y;
      d_misaligned = d_misaligned;
      wb_data = write_back c alu_y d_rdata (bit_and (k.pc + 4) mask32);
      pc_next = pc_next;
      trap_cause = cause_of c d_misaligned (bit_and pc_next 3 != 0);
    }

-- What the clock edge stores, and the retirement trace of the cycle before it. `rst` resets the
-- registers, the program counter and the halt latch; it does not gate the write to memory.
unfoldable pub clock : Bool → Bool → Core → ℕ → Control → Wires → Core × Option Commit
clock rst step_en k inst c w =
    let rd = bits inst 11 7 in
    let trap = w.trap_cause != halt_none && not k.halted in
    let d_write = c.mem_write && not k.halted && step_en in
    let stored = d_write && not w.d_misaligned in
    let we = c.reg_write && not k.halted && not trap && step_en in
    let stall = k.halted || trap || not step_en in
    let next : Core = record {
      count = k.count;
      mem = if stored then Memory.store k.count k.mem c.mem_op w.alu_y w.rs2_data else k.mem;
      regs =
          if rst then replicate 32 0 else if we && rd != 0 then set k.regs rd w.wb_data else k.regs;
      pc = if rst then reset_pc else if stall then k.pc else w.pc_next;
      halt_cause =
          if rst then halt_none else if trap && step_en then w.trap_cause else k.halt_cause;
      halted = if rst then false else if trap && step_en then true else k.halted;
    } in
    let commit : Commit = record {
      pc = k.pc;
      inst = inst;
      next_pc = w.pc_next;
      rd = if c.reg_write then rd else 0;
      rd_wdata = if c.reg_write && rd != 0 then w.wb_data else 0;
      mem_write = to_int stored;
      mem_addr = w.alu_y;
      mem_wdata = w.rs2_data;
    } in
    (next, if not k.halted && not trap && not rst && step_en then some commit else none)

unfoldable pub fetched : Core → ℕ
fetched k = get_or k.mem (Memory.index k.count k.pc) 0

unfoldable pub cycle_with : Bool → Bool → Core → ℕ → Control → Core × Option Commit
unfolding wires clock
cycle_with rst step_en k inst c = clock rst step_en k inst c (wires step_en k inst c)

unfoldable pub cycle : Bool → Bool → Core → Core × Option Commit
unfolding cycle_with fetched
cycle rst step_en k = cycle_with rst step_en k (fetched k) (ref_decode (fetched k))
