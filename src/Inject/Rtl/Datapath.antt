-- ===== src/Inject/Rtl/Datapath.antt =====
-- The text of rtl/core.sv, lines 108 to 215.
use Prim.Native.String.{String, ◌++◌}

abbrev pub core_bottom : String
core_bottom =
    "    .we       (reg_write && !halted && !trap && step_en),\n" ++ "    .rd_addr  (inst[11:7]),\n"
    ++ "    .rd_data  (wb_data)\n" ++ "  );\n" ++ "\n"
    ++ "  // ---------------------------------------------------------------------------\n"
    ++ "  // Execute\n"
    ++ "  // ---------------------------------------------------------------------------\n"
    ++ "  always_comb begin\n" ++ "    case (alu_a_sel)\n" ++ "      ALU_A_PC:   alu_a = pc;\n"
    ++ "      ALU_A_ZERO: alu_a = 32'b0;\n" ++ "      default:    alu_a = rs1_data;\n"
    ++ "    endcase\n" ++ "  end\n" ++ "\n"
    ++ "  assign alu_b = (alu_b_sel == ALU_B_IMM) ? imm : rs2_data;\n" ++ "\n" ++ "  alu u_alu (\n"
    ++ "    .a  (alu_a),\n" ++ "    .b  (alu_b),\n" ++ "    .op (alu_op),\n" ++ "    .y  (alu_y)\n"
    ++ "  );\n" ++ "\n" ++ "  branch_cmp u_branch_cmp (\n" ++ "    .a      (rs1_data),\n"
    ++ "    .b      (rs2_data),\n" ++ "    .funct3 (inst[14:12]),\n" ++ "    .taken  (taken)\n"
    ++ "  );\n" ++ "\n"
    ++ "  // ---------------------------------------------------------------------------\n"
    ++ "  // Data memory. d_read/d_write are gated by `halted` only, never by `trap`:\n"
    ++ "  // trap depends on d_misaligned, which depends on these, so gating on it would\n"
    ++ "  // close a combinational loop. The memory refuses misaligned stores itself.\n"
    ++ "  // ---------------------------------------------------------------------------\n"
    ++ "  assign d_addr  = alu_y;\n" ++ "  assign d_op    = mem_op;\n"
    ++ "  assign d_read  = mem_read  && !halted;\n"
    ++ "  assign d_write = mem_write && !halted && step_en;\n" ++ "  assign d_wdata = rs2_data;\n"
    ++ "\n" ++ "  always_comb begin\n" ++ "    case (wb_sel)\n"
    ++ "      WB_MEM:  wb_data = d_rdata;\n" ++ "      WB_PC4:  wb_data = pc_plus4;\n"
    ++ "      default: wb_data = alu_y;\n" ++ "    endcase\n" ++ "  end\n" ++ "\n"
    ++ "  // ---------------------------------------------------------------------------\n"
    ++ "  // Traps\n"
    ++ "  // ---------------------------------------------------------------------------\n"
    ++ "  always_comb begin\n"
    ++ "    if      (illegal)                                 trap_cause = HALT_ILLEGAL;\n"
    ++ "    else if (ecall)                                   trap_cause = HALT_ECALL;\n"
    ++ "    else if (ebreak)                                  trap_cause = HALT_EBREAK;\n"
    ++ "    else if ((mem_read || mem_write) && d_misaligned) trap_cause = HALT_MEM_MISALIGN;\n"
    ++ "    else if (misaligned_target)                       trap_cause = HALT_FETCH_MISALIGN;\n"
    ++ "    else                                              trap_cause = HALT_NONE;\n"
    ++ "  end\n" ++ "\n" ++ "  assign trap = (trap_cause != HALT_NONE) && !halted;\n" ++ "\n"
    ++ "  always_ff @(posedge clk) begin\n" ++ "    if (rst) begin\n"
    ++ "      halted     <= 1'b0;\n" ++ "      halt_cause <= HALT_NONE;\n"
    ++ "    end else if (trap && step_en) begin\n" ++ "      halted     <= 1'b1;\n"
    ++ "      halt_cause <= trap_cause;\n" ++ "    end\n" ++ "  end\n" ++ "\n"
    ++ "  // ---------------------------------------------------------------------------\n"
    ++ "  // Next PC\n"
    ++ "  // ---------------------------------------------------------------------------\n"
    ++ "  pc_unit u_pc_unit (\n" ++ "    .clk               (clk),\n"
    ++ "    .rst               (rst),\n" ++ "    .stall             (halted || trap || !step_en),\n"
    ++ "    .branch            (branch),\n" ++ "    .taken             (taken),\n"
    ++ "    .jump              (jump),\n" ++ "    .jalr              (jalr),\n"
    ++ "    .imm               (imm),\n" ++ "    .alu_result        (alu_y),\n"
    ++ "    .pc                (pc),\n" ++ "    .pc_plus4          (pc_plus4),\n"
    ++ "    .pc_next           (pc_next),\n" ++ "    .misaligned_target (misaligned_target)\n"
    ++ "  );\n" ++ "\n"
    ++ "  // ---------------------------------------------------------------------------\n"
    ++ "  // Retirement trace\n"
    ++ "  // ---------------------------------------------------------------------------\n"
    ++ "  assign commit_valid     = !halted && !trap && !rst && step_en;\n"
    ++ "  assign commit_pc        = pc;\n" ++ "  assign commit_inst      = inst;\n"
    ++ "  assign commit_next_pc   = pc_next;\n"
    ++ "  assign commit_rd        = reg_write ? inst[11:7] : 5'd0;\n"
    ++ "  assign commit_rd_wdata  = (reg_write && inst[11:7] != 5'd0) ? wb_data : 32'b0;\n"
    ++ "  assign commit_mem_write = d_write && !d_misaligned;\n"
    ++ "  assign commit_mem_addr  = d_addr;\n" ++ "  assign commit_mem_wdata = d_wdata;\n" ++ "\n"
    ++ "endmodule\n"
