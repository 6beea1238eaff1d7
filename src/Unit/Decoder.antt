-- ===== src/Unit/Decoder.antt =====
-- rtl/decoder.sv. The outputs are the record `Control`, whose encodings rtl/rv32i_pkg.sv shares with
-- verif/isa.py. A concatenation of bits is a sum of shifted fields.
pub mod Same
pub mod Bench
pub mod Passing
use rv32i_cpu.Base.{ℕ, ◌+◌, Bool, true, false, not, ◌&&◌, ◌||◌, ◌==◌, ◌!=◌, if◌then◌else◌, ◌<<<◌}
use rv32i_cpu.Bits.{bits}
use rv32i_cpu.Isa.{
  op_lui, op_auipc, op_jal, op_jalr, op_branch, op_load, op_store, op_imm, op_reg, op_misc_mem,
  op_system,
}
use rv32i_cpu.Reference.Alu.{AluOp, alu_ops}
use rv32i_cpu.Reference.Imm.{Format, imm_sel}
use rv32i_cpu.Reference.Decoder.{
  Control, alu_a_rs1, alu_a_pc, alu_a_zero, alu_b_rs2, alu_b_imm, wb_alu, wb_mem, wb_pc4,
}

-- The outputs before the `case`.
unfoldable pub idle_outputs : ℕ → Control
idle_outputs funct3 = record {
  alu_op = alu_ops AluOp.add;
  alu_a_sel = alu_a_rs1;
  alu_b_sel = alu_b_imm;
  imm_format = imm_sel Format.i;
  reg_write = false;
  wb_sel = wb_alu;
  mem_read = false;
  mem_write = false;
  mem_op = funct3;
  branch = false;
  jump = false;
  jalr = false;
  ecall = false;
  ebreak = false;
  illegal = false;
}

-- The branches of the `case` that test funct3, funct7 or the word.
unfoldable pub jalr_outputs : ℕ → Control
unfolding idle_outputs
jalr_outputs funct3 =
    if funct3 != 0b000
    then record (idle_outputs funct3) { illegal = true }
    else record (idle_outputs funct3) { reg_write = true; wb_sel = wb_pc4; jalr = true }

unfoldable pub branch_outputs : ℕ → Control
unfolding idle_outputs
branch_outputs funct3 =
    let c : Control = record (idle_outputs funct3) { imm_format = imm_sel Format.b } in
    if funct3 == 0b010 || funct3 == 0b011
    then record c { illegal = true }
    else record c { branch = true }

unfoldable pub load_outputs : ℕ → Control
unfolding idle_outputs
load_outputs funct3 =
    if funct3 == 0b011 || funct3 == 0b110 || funct3 == 0b111
    then record (idle_outputs funct3) { illegal = true }
    else record (idle_outputs funct3) { reg_write = true; wb_sel = wb_mem; mem_read = true }

unfoldable pub store_outputs : ℕ → Control
unfolding idle_outputs
store_outputs funct3 =
    let c : Control = record (idle_outputs funct3) { imm_format = imm_sel Format.s } in
    if bits funct3 2 2 != 0 || bits funct3 1 0 == 0b11
    then record c { illegal = true }
    else record c { mem_write = true }

-- {funct7[5], funct3}
unfoldable pub wide_op : ℕ → ℕ → ℕ
wide_op funct3 funct7 = (bits funct7 5 5 <<< 3) + funct3

unfoldable pub imm_outputs : ℕ → ℕ → Control
unfolding idle_outputs wide_op
imm_outputs funct3 funct7 = record (idle_outputs funct3) {
  reg_write = true;
  alu_op = if funct3 == 0b101 then wide_op funct3 funct7 else funct3;
  illegal =
      (funct3 == 0b001 && funct7 != 0b000_0000)
      || (funct3 == 0b101 && funct7 != 0b000_0000 && funct7 != 0b010_0000);
}

unfoldable pub reg_outputs : ℕ → ℕ → Control
unfolding idle_outputs wide_op
reg_outputs funct3 funct7 = record (idle_outputs funct3) {
  alu_b_sel = alu_b_rs2;
  reg_write = true;
  alu_op = wide_op funct3 funct7;
  illegal =
      funct7 != 0b000_0000 && not (funct7 == 0b010_0000 && (funct3 == 0b000 || funct3 == 0b101));
}

unfoldable pub system_outputs : ℕ → ℕ → Control
unfolding idle_outputs
system_outputs inst funct3 =
    if bits inst 31 7 == 0
    then record (idle_outputs funct3) { ecall = true }
    else if bits inst 31 20 == 0x001 && bits inst 19 7 == 0
    then record (idle_outputs funct3) { ebreak = true }
    else record (idle_outputs funct3) { illegal = true }

-- The `case`.
unfoldable pub selected_outputs : ℕ → ℕ → ℕ → ℕ → Control
unfolding idle_outputs jalr_outputs branch_outputs load_outputs store_outputs imm_outputs
    reg_outputs system_outputs
selected_outputs inst opcode funct3 funct7 =
    if opcode == op_lui
    then record (idle_outputs funct3) {
      alu_a_sel = alu_a_zero;
      imm_format = imm_sel Format.u;
      reg_write = true;
    }
    else if opcode == op_auipc
    then record (idle_outputs funct3) {
      alu_a_sel = alu_a_pc;
      imm_format = imm_sel Format.u;
      reg_write = true;
    }
    else if opcode == op_jal
    then record (idle_outputs funct3) {
      imm_format = imm_sel Format.j;
      reg_write = true;
      wb_sel = wb_pc4;
      jump = true;
    }
    else if opcode == op_jalr
    then jalr_outputs funct3
    else if opcode == op_branch
    then branch_outputs funct3
    else if opcode == op_load
    then load_outputs funct3
    else if opcode == op_store
    then store_outputs funct3
    else if opcode == op_imm
    then imm_outputs funct3 funct7
    else if opcode == op_reg
    then reg_outputs funct3 funct7
    else if opcode == op_misc_mem
    then record (idle_outputs funct3) { illegal = funct3 != 0b000 }
    else if opcode == op_system
    then system_outputs inst funct3
    else record (idle_outputs funct3) { illegal = true }

-- The outputs after the `case`.
unfoldable pub suppress : Control → Control
suppress c =
    let live = not c.illegal in
    record c {
      reg_write = c.reg_write && live;
      mem_read = c.mem_read && live;
      mem_write = c.mem_write && live;
      branch = c.branch && live;
      jump = c.jump && live;
      jalr = c.jalr && live;
      ecall = c.ecall && live;
      ebreak = c.ebreak && live;
    }

unfoldable pub decoder_block : ℕ → Control
unfolding selected_outputs suppress
decoder_block inst =
    suppress (selected_outputs inst (bits inst 6 0) (bits inst 14 12) (bits inst 31 25))
