-- ===== src/Inject/Rtl/Ports.antt =====
-- The text of rtl/core.sv, lines 1 to 107.
use Prim.Native.String.{String, ◌++◌}

abbrev pub core_top : String
core_top =
    "// core.sv  --  single-cycle RV32I core\n" ++ "//\n"
    ++ "// One instruction per clock: fetch, decode, read registers, compute, access\n"
    ++ "// data memory, write back, select the next PC. All in one cycle, so both memory\n"
    ++ "// reads are combinational.\n" ++ "//\n"
    ++ "// There is no trap handler. Anything that would raise an exception (illegal\n"
    ++ "// instruction, ECALL, EBREAK, a misaligned access or branch target) latches\n"
    ++ "// `halted` with a cause and freezes the machine, which is what a test needs.\n" ++ "//\n"
    ++ "// The commit_* port is a retirement trace in the spirit of RVFI: it reports\n"
    ++ "// what the instruction in this cycle did, so a scoreboard can compare the core\n"
    ++ "// against a golden model instruction by instruction without looking inside.\n" ++ "\n"
    ++ "module core\n" ++ "  import rv32i_pkg::*;\n" ++ "(\n" ++ "  input  logic        clk,\n"
    ++ "  input  logic        rst,\n"
    ++ "  // Hold the core still without gating its clock: a clean clock enable, which\n"
    ++ "  // is what lets the FPGA build single-step the CPU from a push-button.\n"
    ++ "  input  logic        step_en,\n" ++ "\n" ++ "  // Instruction fetch (combinational read)\n"
    ++ "  output logic [31:0] i_addr,\n" ++ "  input  logic [31:0] i_rdata,\n" ++ "\n"
    ++ "  // Data memory\n" ++ "  output logic [31:0] d_addr,\n" ++ "  output logic [2:0]  d_op,\n"
    ++ "  output logic        d_read,\n" ++ "  output logic        d_write,\n"
    ++ "  output logic [31:0] d_wdata,\n" ++ "  input  logic [31:0] d_rdata,\n"
    ++ "  input  logic        d_misaligned,\n" ++ "\n" ++ "  // Retirement trace\n"
    ++ "  output logic        commit_valid,\n" ++ "  output logic [31:0] commit_pc,\n"
    ++ "  output logic [31:0] commit_inst,\n" ++ "  output logic [31:0] commit_next_pc,\n"
    ++ "  output logic [4:0]  commit_rd,\n" ++ "  output logic [31:0] commit_rd_wdata,\n"
    ++ "  output logic        commit_mem_write,\n" ++ "  output logic [31:0] commit_mem_addr,\n"
    ++ "  output logic [31:0] commit_mem_wdata,\n" ++ "\n" ++ "  output logic        halted,\n"
    ++ "  output logic [2:0]  halt_cause\n" ++ ");\n" ++ "\n" ++ "  logic [31:0] inst;\n"
    ++ "  logic [31:0] pc, pc_plus4, pc_next;\n"
    ++ "  logic [31:0] imm, rs1_data, rs2_data, alu_a, alu_b, alu_y, wb_data;\n" ++ "\n"
    ++ "  logic [3:0]  alu_op;\n" ++ "  logic [1:0]  alu_a_sel, wb_sel;\n"
    ++ "  logic        alu_b_sel;\n" ++ "  logic [2:0]  imm_sel, mem_op;\n"
    ++ "  logic        reg_write, mem_read, mem_write;\n"
    ++ "  logic        branch, jump, jalr, ecall, ebreak, illegal;\n"
    ++ "  logic        taken, misaligned_target;\n" ++ "  logic        trap;\n"
    ++ "  logic [2:0]  trap_cause;\n" ++ "\n" ++ "  assign i_addr = pc;\n"
    ++ "  assign inst   = i_rdata;\n" ++ "\n"
    ++ "  // ---------------------------------------------------------------------------\n"
    ++ "  // Decode\n"
    ++ "  // ---------------------------------------------------------------------------\n"
    ++ "  decoder u_decoder (\n" ++ "    .inst      (inst),\n" ++ "    .alu_op    (alu_op),\n"
    ++ "    .alu_a_sel (alu_a_sel),\n" ++ "    .alu_b_sel (alu_b_sel),\n"
    ++ "    .imm_sel   (imm_sel),\n" ++ "    .reg_write (reg_write),\n"
    ++ "    .wb_sel    (wb_sel),\n" ++ "    .mem_read  (mem_read),\n"
    ++ "    .mem_write (mem_write),\n" ++ "    .mem_op    (mem_op),\n"
    ++ "    .branch    (branch),\n" ++ "    .jump      (jump),\n" ++ "    .jalr      (jalr),\n"
    ++ "    .ecall     (ecall),\n" ++ "    .ebreak    (ebreak),\n" ++ "    .illegal   (illegal)\n"
    ++ "  );\n" ++ "\n" ++ "  imm_gen u_imm_gen (\n" ++ "    .inst    (inst),\n"
    ++ "    .imm_sel (imm_sel),\n" ++ "    .imm     (imm)\n" ++ "  );\n" ++ "\n"
    ++ "  // ---------------------------------------------------------------------------\n"
    ++ "  // Registers. Writes stop once halted, and a trapping instruction writes\n"
    ++ "  // nothing, so a faulting instruction leaves no trace.\n"
    ++ "  // ---------------------------------------------------------------------------\n"
    ++ "  regfile u_regfile (\n" ++ "    .clk      (clk),\n" ++ "    .rst      (rst),\n"
    ++ "    .rs1_addr (inst[19:15]),\n" ++ "    .rs2_addr (inst[24:20]),\n"
    ++ "    .rs1_data (rs1_data),\n" ++ "    .rs2_data (rs2_data),\n"
