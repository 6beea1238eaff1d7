-- ===== src/Reference/Decoder.antt =====
-- `ref_decode` of verif/unit/tb_decoder.py: the control signals of an instruction word. A signal
-- of one bit is a Bool, a select or code is a number.
use rv32i_cpu.Base.{
  ℕ, Bool, true, false, not, ◌&&◌, ◌||◌, bit_and, bit_or, ltb, ◌==◌, ◌!=◌, if◌then◌else◌, ◌<<<◌,
  ◌>>>◌,
}
use rv32i_cpu.Bits.{bits}
use rv32i_cpu.Isa.{
  op_lui, op_auipc, op_jal, op_jalr, op_branch, op_load, op_store, op_imm, op_reg, op_misc_mem,
  op_system,
}
use rv32i_cpu.Reference.Alu.{AluOp, alu_ops}
use rv32i_cpu.Reference.Imm.{Format, imm_sel}

-- Selects of verif/isa.py.
abbrev pub alu_a_rs1 : ℕ
alu_a_rs1 = 0

abbrev pub alu_a_pc : ℕ
alu_a_pc = 1

abbrev pub alu_a_zero : ℕ
alu_a_zero = 2

abbrev pub alu_b_rs2 : ℕ
alu_b_rs2 = 0

abbrev pub alu_b_imm : ℕ
alu_b_imm = 1

abbrev pub wb_alu : ℕ
wb_alu = 0

abbrev pub wb_mem : ℕ
wb_mem = 1

abbrev pub wb_pc4 : ℕ
wb_pc4 = 2

pub record Control : Type 0 where
  pub alu_op : ℕ
  pub alu_a_sel : ℕ
  pub alu_b_sel : ℕ
  pub imm_format : ℕ
  pub reg_write : Bool
  pub wb_sel : ℕ
  pub mem_read : Bool
  pub mem_write : Bool
  pub mem_op : ℕ
  pub branch : Bool
  pub jump : Bool
  pub jalr : Bool
  pub ecall : Bool
  pub ebreak : Bool
  pub illegal : Bool

-- The dict `c` before any update.
abbrev pub defaults : ℕ → Control
defaults funct3 = record {
  alu_op = alu_ops AluOp.add;
  alu_a_sel = alu_a_rs1;
  alu_b_sel = alu_b_imm;
  imm_format = imm_sel Format.i;
  reg_write = false;
  wb_sel = wb_alu;
  mem_read = false;
  mem_write = false;
  mem_op = funct3;
  branch = false;
  jump = false;
  jalr = false;
  ecall = false;
  ebreak = false;
  illegal = false;
}

abbrev pub flag_illegal : Control → Control
flag_illegal c = record c { illegal = true }

-- The updates of one opcode, on the dict `c`.
module _ (inst funct3 funct7 : ℕ) where
  abbrev pub decode_lui : Control
  decode_lui = record (defaults funct3) {
    alu_a_sel = alu_a_zero;
    imm_format = imm_sel Format.u;
    reg_write = true;
  }

  abbrev pub decode_auipc : Control
  decode_auipc = record (defaults funct3) {
    alu_a_sel = alu_a_pc;
    imm_format = imm_sel Format.u;
    reg_write = true;
  }

  abbrev pub decode_jal : Control
  decode_jal = record (defaults funct3) {
    imm_format = imm_sel Format.j;
    reg_write = true;
    wb_sel = wb_pc4;
    jump = true;
  }

  abbrev pub decode_jalr : Control
  decode_jalr =
      if funct3 != 0
      then flag_illegal (defaults funct3)
      else record (defaults funct3) { reg_write = true; wb_sel = wb_pc4; jalr = true }

  abbrev pub decode_branch : Control
  decode_branch =
      let c : Control = record (defaults funct3) { imm_format = imm_sel Format.b } in
      if funct3 == 0b010 || funct3 == 0b011 then flag_illegal c else record c { branch = true }

  abbrev pub decode_load : Control
  decode_load =
      if funct3 == 0b011 || funct3 == 0b110 || funct3 == 0b111
      then flag_illegal (defaults funct3)
      else record (defaults funct3) { reg_write = true; wb_sel = wb_mem; mem_read = true }

  abbrev pub decode_store : Control
  decode_store =
      let c : Control = record (defaults funct3) { imm_format = imm_sel Format.s } in
      if ltb 0b010 funct3 then flag_illegal c else record c { mem_write = true }

  abbrev pub decode_imm : Control
  decode_imm =
      let code =
        if funct3 == 0b101 then bit_or (bit_and (funct7 >>> 5) 1 <<< 3) funct3 else funct3 in
      let c : Control = record (defaults funct3) { reg_write = true; alu_op = code } in
      let c' : Control = if funct3 == 0b001 && funct7 != 0x00 then flag_illegal c else c in
      if funct3 == 0b101 && not (funct7 == 0x00 || funct7 == 0x20) then flag_illegal c' else c'

  abbrev pub decode_reg : Control
  decode_reg =
      let c : Control = record (defaults funct3) {
        alu_b_sel = alu_b_rs2;
        reg_write = true;
        alu_op = bit_or (bit_and (funct7 >>> 5) 1 <<< 3) funct3;
      } in
      if funct7 != 0x00 && not (funct7 == 0x20 && (funct3 == 0b000 || funct3 == 0b101))
      then flag_illegal c
      else c

  abbrev pub decode_misc_mem : Control
  decode_misc_mem = if funct3 != 0 then flag_illegal (defaults funct3) else defaults funct3

  abbrev pub decode_system : Control
  decode_system =
      if bits inst 31 7 == 0
      then record (defaults funct3) { ecall = true }
      else if bits inst 31 20 == 0x001 && bits inst 19 7 == 0
      then record (defaults funct3) { ebreak = true }
      else flag_illegal (defaults funct3)

  unfoldable pub decode_opcode : ℕ → Control
  decode_opcode opcode =
      if opcode == op_lui
      then decode_lui
      else if opcode == op_auipc
      then decode_auipc
      else if opcode == op_jal
      then decode_jal
      else if opcode == op_jalr
      then decode_jalr
      else if opcode == op_branch
      then decode_branch
      else if opcode == op_load
      then decode_load
      else if opcode == op_store
      then decode_store
      else if opcode == op_imm
      then decode_imm
      else if opcode == op_reg
      then decode_reg
      else if opcode == op_misc_mem
      then decode_misc_mem
      else if opcode == op_system
      then decode_system
      else flag_illegal (defaults funct3)

-- An illegal word has no effect.
unfoldable pub mute : Control → Control
mute c =
    if c.illegal
    then record c {
      reg_write = false;
      mem_read = false;
      mem_write = false;
      branch = false;
      jump = false;
      jalr = false;
      ecall = false;
      ebreak = false;
    }
    else c

unfoldable pub ref_decode : ℕ → Control
unfolding decode_opcode mute
ref_decode inst = mute (decode_opcode inst (bits inst 14 12) (bits inst 31 25) (bits inst 6 0))
