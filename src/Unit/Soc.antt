-- ===== src/Unit/Soc.antt =====
-- rtl/soc.sv: rtl/core.sv wired to rtl/memory.sv, with every block as it is written: the decoder, the
-- register file, the program counter and the memory are those of the modules beside this one. The
-- state is the record `Core`, whose array has `2 ^ idx_bits` words.
pub mod Same
pub mod Lockstep
use rv32i_cpu.Base.{
  ℕ, Bool, not, ◌&&◌, ◌||◌, Option, none, some, List, [], ◌∷◌, ◌==◌, ◌!=◌, if◌then◌else◌, to_int,
  true, false,
}
use rv32i_cpu.Bits.{bits}
use rv32i_cpu.Iss.State.{Commit, halt_none}
use rv32i_cpu.Reference.Decoder.{Control, alu_b_imm}
use rv32i_cpu.Core.{Core, Wires, operand_a, write_back, cause_of}
use rv32i_cpu.Core.Lockstep.{continue_cycles}
use rv32i_cpu.Core.Blocks.{alu_block, branch_block, imm_block, read_port}
use rv32i_cpu.Unit.Memory.{MemoryPins, i_rdata, d_rdata, d_misaligned, memory_edge}
use rv32i_cpu.Unit.Regfile.{regfile_edge}
use rv32i_cpu.Unit.Pc.{Steering, pc_plus4, pc_next, misaligned_target, pc_edge}
use rv32i_cpu.Unit.Decoder.{decoder_block}

module _ (idx_bits : ℕ) where
  -- The pins of the memory: the instruction port at the program counter, and the data port.
  unfoldable pub memory_pins : Bool → Core → Control → ℕ → ℕ → MemoryPins
  memory_pins step_en k c alu_y rs2_data = record {
    i_addr = k.pc;
    d_addr = alu_y;
    d_op = c.mem_op;
    d_read = c.mem_read && not k.halted;
    d_write = c.mem_write && not k.halted && step_en;
    d_wdata = rs2_data;
  }

  -- What the core tells the program counter.
  unfoldable pub steering : Core → ℕ → Control → ℕ → ℕ → Steering
  steering k inst c alu_y rs2_data = record {
    branch = c.branch;
    taken = branch_block (bits inst 14 12) (read_port k.regs (bits inst 19 15)) rs2_data;
    jump = c.jump;
    jalr = c.jalr;
    imm = imm_block c.imm_format inst;
    alu_result = alu_y;
  }

  unfoldable pub alu_result_of : Core → ℕ → Control → ℕ
  alu_result_of k inst c =
      let rs1_data = read_port k.regs (bits inst 19 15) in
      let rs2_data = read_port k.regs (bits inst 24 20) in
      let alu_b = if c.alu_b_sel == alu_b_imm then imm_block c.imm_format inst else rs2_data in
      alu_block c.alu_op (operand_a c k.pc rs1_data) alu_b

  unfoldable pub soc_wires : Bool → Core → ℕ → Control → Wires
  soc_wires step_en k inst c =
      let rs2_data = read_port k.regs (bits inst 24 20) in
      let alu_y = alu_result_of k inst c in
      let pins = memory_pins step_en k c alu_y rs2_data in
      let steer = steering k inst c alu_y rs2_data in
      record {
        rs2_data = rs2_data;
        alu_y = alu_y;
        d_misaligned = d_misaligned pins;
        wb_data = write_back c alu_y (d_rdata idx_bits pins k.mem) (pc_plus4 k.pc);
        pc_next = pc_next steer k.pc;
        trap_cause = cause_of c (d_misaligned pins) (misaligned_target steer k.pc);
      }

  -- The clock edge of every block, and the retirement trace of the cycle before it.
  unfoldable pub soc_clock : Bool → Bool → Core → ℕ → Control → Wires → Core × Option Commit
  soc_clock rst step_en k inst c w =
      let pins = memory_pins step_en k c w.alu_y w.rs2_data in
      let trap = w.trap_cause != halt_none && not k.halted in
      let next : Core = record {
        count = k.count;
        mem = memory_edge idx_bits pins k.mem;
        regs =
            regfile_edge
              (record {
                rst = rst;
                we = c.reg_write && not k.halted && not trap && step_en;
                rd_addr = bits inst 11 7;
                rd_data = w.wb_data;
                rs1_addr = bits inst 19 15;
                rs2_addr = bits inst 24 20;
              })
              k.regs;
        pc =
            pc_edge
              (record {
                rst = rst;
                stall = k.halted || trap || not step_en;
                control = steering k inst c w.alu_y w.rs2_data;
              })
              k.pc;
        halt_cause =
            if rst then halt_none else if trap && step_en then w.trap_cause else k.halt_cause;
        halted = if rst then false else if trap && step_en then true else k.halted;
      } in
      let commit : Commit = record {
        pc = k.pc;
        inst = inst;
        next_pc = w.pc_next;
        rd = if c.reg_write then bits inst 11 7 else 0;
        rd_wdata = if c.reg_write && bits inst 11 7 != 0 then w.wb_data else 0;
        mem_write = to_int (pins.d_write && not w.d_misaligned);
        mem_addr = pins.d_addr;
        mem_wdata = pins.d_wdata;
      } in
      (next, if not k.halted && not trap && not rst && step_en then some commit else none)

  -- The word at the instruction port.
  unfoldable pub soc_inst : Core → ℕ
  unfolding i_rdata
  soc_inst k =
      i_rdata idx_bits
        (record {
          i_addr = k.pc;
          d_addr = 0;
          d_op = 0;
          d_read = false;
          d_write = false;
          d_wdata = 0;
        })
        k.mem

  unfoldable pub soc_cycle : Bool → Bool → Core → Core × Option Commit
  soc_cycle rst step_en k =
      let inst = soc_inst k in
      let c = decoder_block inst in soc_clock rst step_en k inst c (soc_wires step_en k inst c)

  -- Clock edges out of reset, one for each level of `step_en`, with the commits.
  unfoldable pub soc_cycles : List Bool → Core → Core × List Commit
  soc_cycles [] k = (k, [])
  soc_cycles (step_en ∷ levels) k = continue_cycles (soc_cycle false step_en k) (soc_cycles levels)
