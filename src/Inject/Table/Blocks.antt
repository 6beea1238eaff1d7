-- ===== src/Inject/Table/Blocks.antt =====
-- tools/inject_bugs.py: the entries of MUTANTS for alu, regfile, imm_gen, decoder and branch_cmp.
use rv32i_cpu.Base.{List, [], ◌∷◌}
use rv32i_cpu.Inject.Mutant.{Mutant}

abbrev pub alu_mutants : List Mutant
alu_mutants =
    record {
      target = "alu";
      file = "alu.sv";
      description = "SRA does a logical shift";
      old = "ALU_SRA:  y = $signed(a) >>> shamt;";
      new = "ALU_SRA:  y = a >> shamt;";
      extra = [];
    }
    ∷ record {
      target = "alu";
      file = "alu.sv";
      description = "SLT compares unsigned";
      old = "ALU_SLT:  y = {31'b0, $signed(a) < $signed(b)};";
      new = "ALU_SLT:  y = {31'b0, a < b};";
      extra = [];
    }
    ∷ record {
      target = "alu";
      file = "alu.sv";
      description = "shift amount uses 6 bits";
      old = "logic [4:0] shamt;\n  assign shamt = b[4:0];";
      new = "logic [5:0] shamt;\n  assign shamt = b[5:0];";
      extra = [];
    }
    ∷ []

abbrev pub regfile_mutants : List Mutant
regfile_mutants =
    record {
      target = "regfile";
      file = "regfile.sv";
      description = "rs2 port reads the rs1 address";
      old = "regs[rs2_addr];";
      new = "regs[rs1_addr];";
      extra = [];
    }
    ∷ record {
      target = "regfile";
      file = "regfile.sv";
      description = "reset does not clear the registers";
      old = "for (int i = 0; i < 32; i++) regs[i] <= 32'b0;";
      new = ";";
      extra = [];
    }
    ∷ record {
      target = "regfile";
      file = "regfile.sv";
      description = "both x0 guards removed";
      old = "if (we && rd_addr != 5'd0) begin";
      new = "if (we) begin";
      extra =
          (
            "assign rs1_data = (rs1_addr == 5'd0) ? 32'b0 : regs[rs1_addr];",
            "assign rs1_data = regs[rs1_addr];",
          )
          ∷ [];
    }
    ∷ []

abbrev pub imm_gen_mutants : List Mutant
imm_gen_mutants =
    record {
      target = "imm_gen";
      file = "imm_gen.sv";
      description = "B-type reads inst[12:9] instead of inst[11:8]";
      old = "inst[30:25], inst[11:8], 1'b0}";
      new = "inst[30:25], inst[12:9], 1'b0}";
      extra = [];
    }
    ∷ record {
      target = "imm_gen";
      file = "imm_gen.sv";
      description = "J-type bit 11 taken from inst[21]";
      old = "inst[19:12], inst[20], inst[30:21]";
      new = "inst[19:12], inst[21], inst[30:21]";
      extra = [];
    }
    ∷ record {
      target = "imm_gen";
      file = "imm_gen.sv";
      description = "S-type not sign-extended";
      old = "IMM_S:   imm = {{20{inst[31]}}";
      new = "IMM_S:   imm = {{20{1'b0}}";
      extra = [];
    }
    ∷ []

abbrev pub decoder_mutants : List Mutant
decoder_mutants =
    record {
      target = "decoder";
      file = "decoder.sv";
      description = "JALR writes the ALU result, not the link address";
      old = "          wb_sel    = WB_PC4;\n          jalr      = 1'b1;";
      new = "          wb_sel    = WB_ALU;\n          jalr      = 1'b1;";
      extra = [];
    }
    ∷ record {
      target = "decoder";
      file = "decoder.sv";
      description = "LUI adds rs1 instead of zero";
      old = "        alu_a_sel = ALU_A_ZERO;";
      new = "        alu_a_sel = ALU_A_RS1;";
      extra = [];
    }
    ∷ record {
      target = "decoder";
      file = "decoder.sv";
      description = "store width check removed";
      old = "if (funct3[2] || funct3[1:0] == 2'b11) illegal   = 1'b1;";
      new = "if (1'b0)                              illegal   = 1'b1;";
      extra = [];
    }
    ∷ record {
      target = "decoder";
      file = "decoder.sv";
      description = "R-type funct7 never validated";
      old =
          "        if (funct7 != 7'b0000000 &&\n            !(funct7 == 7'b0100000 && (funct3 == 3'b000 || funct3 == 3'b101))) illegal = 1'b1;";
      new = "        if (1'b0) illegal = 1'b1;";
      extra = [];
    }
    ∷ record {
      target = "decoder";
      file = "decoder.sv";
      description = "illegal instructions keep their side effects";
      old = "    if (illegal) begin\n      reg_write = 1'b0;";
      new = "    if (1'b0) begin\n      reg_write = 1'b0;";
      extra = [];
    }
    ∷ record {
      target = "decoder";
      file = "decoder.sv";
      description = "SRAI decoded as SRLI";
      old = "        alu_op = (funct3 == 3'b101) ? {funct7[5], funct3} : {1'b0, funct3};";
      new = "        alu_op = {1'b0, funct3};";
      extra = [];
    }
    ∷ record {
      target = "decoder";
      file = "decoder.sv";
      description = "EBREAK matched on the wrong funct12";
      old = "inst[31:20] == 12'h001";
      new = "inst[31:20] == 12'h002";
      extra = [];
    }
    ∷ []

abbrev pub branch_cmp_mutants : List Mutant
branch_cmp_mutants =
    record {
      target = "branch_cmp";
      file = "branch_cmp.sv";
      description = "BGE compares unsigned";
      old = "3'b101:  taken = ($signed(a) >= $signed(b));";
      new = "3'b101:  taken = (a >= b);";
      extra = [];
    }
    ∷ record {
      target = "branch_cmp";
      file = "branch_cmp.sv";
      description = "BLTU compares signed";
      old = "3'b110:  taken = (a < b);";
      new = "3'b110:  taken = ($signed(a) < $signed(b));";
      extra = [];
    }
    ∷ record {
      target = "branch_cmp";
      file = "branch_cmp.sv";
      description = "unused funct3 branches instead of never taking";
      old = "default: taken = 1'b0;";
      new = "default: taken = 1'b1;";
      extra = [];
    }
    ∷ []
