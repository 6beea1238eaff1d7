-- ===== src/Inject/Table/State.antt =====
-- tools/inject_bugs.py: the entries of MUTANTS for memory, pc_unit and soc.
use rv32i_cpu.Base.{List, [], ◌∷◌}
use rv32i_cpu.Inject.Mutant.{Mutant}

abbrev pub memory_mutants : List Mutant
memory_mutants =
    record {
      target = "memory";
      file = "memory.sv";
      description = "LB does not sign-extend";
      old = "3'b000:  d_rdata = {{24{lane_b[7]}}, lane_b};";
      new = "3'b000:  d_rdata = {24'b0, lane_b};";
      extra = [];
    }
    ∷ record {
      target = "memory";
      file = "memory.sv";
      description = "LH does not sign-extend";
      old = "3'b001:  d_rdata = {{16{lane_h[15]}}, lane_h};";
      new = "3'b001:  d_rdata = {16'b0, lane_h};";
      extra = [];
    }
    ∷ record {
      target = "memory";
      file = "memory.sv";
      description = "halfword lane picked by the wrong address bit";
      old = "lane_h = off[1] ? word[31:16] : word[15:0];";
      new = "lane_h = off[0] ? word[31:16] : word[15:0];";
      extra = [];
    }
    ∷ record {
      target = "memory";
      file = "memory.sv";
      description = "SB always writes byte lane 0";
      old = "3'b000:  byte_en = 4'b0001 << off;";
      new = "3'b000:  byte_en = 4'b0001;";
      extra = [];
    }
    ∷ record {
      target = "memory";
      file = "memory.sv";
      description = "SH does not replicate data to the high lane";
      old = "3'b001:  wdata_lanes = {2{d_wdata[15:0]}};";
      new = "3'b001:  wdata_lanes = d_wdata;";
      extra = [];
    }
    ∷ record {
      target = "memory";
      file = "memory.sv";
      description = "word accesses only check address bit 0";
      old = "3'b010:         unaligned = |d_addr[1:0];";
      new = "3'b010:         unaligned = d_addr[0];";
      extra = [];
    }
    ∷ record {
      target = "memory";
      file = "memory.sv";
      description = "misaligned stores are not blocked";
      old = "if (d_write && !d_misaligned) mem[d_index] <= merged;";
      new = "if (d_write) mem[d_index] <= merged;";
      extra = [];
    }
    ∷ record {
      target = "memory";
      file = "memory.sv";
      description = "instruction port indexes by halfword";
      old = "assign i_index = i_addr[IDX_BITS+1:2];";
      new = "assign i_index = i_addr[IDX_BITS:1];";
      extra = [];
    }
    ∷ []

abbrev pub pc_unit_mutants : List Mutant
pc_unit_mutants =
    record {
      target = "pc_unit";
      file = "pc_unit.sv";
      description = "PC advances by 8";
      old = "assign pc_plus4 = pc + 32'd4;";
      new = "assign pc_plus4 = pc + 32'd8;";
      extra = [];
    }
    ∷ record {
      target = "pc_unit";
      file = "pc_unit.sv";
      description = "JALR does not clear bit 0";
      old = "if (jalr)                        pc_next = {alu_result[31:1], 1'b0};";
      new = "if (jalr)                        pc_next = alu_result;";
      extra = [];
    }
    ∷ record {
      target = "pc_unit";
      file = "pc_unit.sv";
      description = "branches ignore the comparator";
      old = "else if (jump || (branch && taken)) pc_next = pc + imm;";
      new = "else if (jump || branch) pc_next = pc + imm;";
      extra = [];
    }
    ∷ record {
      target = "pc_unit";
      file = "pc_unit.sv";
      description = "stall ignored";
      old = "else if (!stall) pc <= pc_next;";
      new = "else             pc <= pc_next;";
      extra = [];
    }
    ∷ record {
      target = "pc_unit";
      file = "pc_unit.sv";
      description = "misaligned target only checks bit 0";
      old = "assign misaligned_target = |pc_next[1:0];";
      new = "assign misaligned_target = pc_next[0];";
      extra = [];
    }
    ∷ []

abbrev pub soc_mutants_before : List Mutant
soc_mutants_before =
    record {
      target = "soc";
      file = "core.sv";
      description = "core: write-back takes the ALU result instead of memory";
      old = "      WB_MEM:  wb_data = d_rdata;";
      new = "      WB_MEM:  wb_data = alu_y;";
      extra = [];
    }
    ∷ record {
      target = "soc";
      file = "core.sv";
      description = "core: stores send rs1 instead of rs2";
      old = "  assign d_wdata = rs2_data;";
      new = "  assign d_wdata = rs1_data;";
      extra = [];
    }
    ∷ record {
      target = "soc";
      file = "core.sv";
      description = "core: ALU operand B mux inverted";
      old = "  assign alu_b = (alu_b_sel == ALU_B_IMM) ? imm : rs2_data;";
      new = "  assign alu_b = (alu_b_sel == ALU_B_IMM) ? rs2_data : imm;";
      extra = [];
    }
    ∷ record {
      target = "soc";
      file = "core.sv";
      description = "core: branch comparator operands swapped";
      old = "    .a      (rs1_data),\n    .b      (rs2_data),";
      new = "    .a      (rs2_data),\n    .b      (rs1_data),";
      extra = [];
    }
    ∷ record {
      target = "soc";
      file = "core.sv";
      description = "core: rs2 read from the rs1 field";
      old = "    .rs2_addr (inst[24:20]),";
      new = "    .rs2_addr (inst[19:15]),";
      extra = [];
    }
    ∷ []

abbrev pub stale_mutant : Mutant
stale_mutant = record {
  target = "soc";
  file = "core.sv";
  description = "core: a trapping instruction still writes its register";
  old = "    .we       (reg_write && !halted && !trap),";
  new = "    .we       (reg_write && !halted),";
  extra = [];
}

abbrev pub soc_mutants_after : List Mutant
soc_mutants_after =
    record {
      target = "soc";
      file = "core.sv";
      description = "core: PC is not held on a trap";
      old = "    .stall             (halted || trap),";
      new = "    .stall             (halted),";
      extra = [];
    }
    ∷ record {
      target = "soc";
      file = "core.sv";
      description = "core: AUIPC uses rs1 instead of the PC";
      old = "      ALU_A_PC:   alu_a = pc;";
      new = "      ALU_A_PC:   alu_a = rs1_data;";
      extra = [];
    }
    ∷ record {
      target = "soc";
      file = "core.sv";
      description = "core: JAL links to the PC instead of PC+4";
      old = "      WB_PC4:  wb_data = pc_plus4;";
      new = "      WB_PC4:  wb_data = pc;";
      extra = [];
    }
    ∷ record {
      target = "soc";
      file = "core.sv";
      description = "core: step_en ignored by the PC, so it cannot be held";
      old = "    .stall             (halted || trap || !step_en),";
      new = "    .stall             (halted || trap),";
      extra = [];
    }
    ∷ record {
      target = "soc";
      file = "core.sv";
      description = "core: step_en ignored by register writes";
      old = "    .we       (reg_write && !halted && !trap && step_en),";
      new = "    .we       (reg_write && !halted && !trap),";
      extra = [];
    }
    ∷ []
