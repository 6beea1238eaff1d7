-- ===== src/Iss/Execute.antt =====
-- The `try` block of `Iss.step`: what each opcode computes, or the cause of its trap.
pub mod Outcome
use rv32i_cpu.Base.{
  ℕ, ◌+◌, Bool, true, false, not, ◌&&◌, ◌||◌, Option, none, some, bit_and, ltb, ◌==◌, ◌!=◌,
  if◌then◌else◌, ◌>>>◌, get_or,
}
use rv32i_cpu.Base.BitOps.{and_not}
use rv32i_cpu.Bits.{mask32, bits}
use rv32i_cpu.Isa.{
  op_lui, op_auipc, op_jal, op_jalr, op_branch, op_load, op_store, op_imm, op_reg, op_misc_mem,
  op_system,
}
use rv32i_cpu.Iss.State.{
  Iss, halt_ecall, halt_ebreak, halt_illegal, halt_mem_misalign, halt_fetch_misalign,
}
use rv32i_cpu.Iss.Decode.{fields, imm_i, imm_s, imm_b, imm_u, imm_j}
use rv32i_cpu.Iss.Memory.{misaligned, load}
use rv32i_cpu.Iss.Alu.{alu, branch_taken}

-- The local variables that the commit reads. `none` is Python's None.
pub record Effect : Type 0 where
  pub rd_value : Option ℕ
  pub next_pc : ℕ
  pub mem_write : ℕ
  pub mem_addr : ℕ
  pub mem_wdata : ℕ

pub data Result {ℓ} (A : Type ℓ) : Type ℓ where
  ok : A → Result A
  trap : ℕ → Result A

infixl 5 ◌>>=◌ ◌>>◌
abbrev pub ◌>>=◌ {ℓ κ} : {A : Type ℓ} {B : Type κ} → Result A → (A → Result B) → Result B
ok a >>= f = f a
trap c >>= f = trap c

abbrev pub ◌>>◌ {ℓ} : {B : Type ℓ} → Result (Unit {0}) → Result B → Result B
m >> k = m >>= λ _. k

-- `if b: raise Trap(cause)`.
abbrev pub raise_if : Bool → ℕ → Result (Unit {0})
raise_if true cause = trap cause
raise_if false cause = ok tt

-- The instruction goes on to `next` and writes `value`, if any.
abbrev pub goes_on : Option ℕ → ℕ → Effect
goes_on value next = record {
  rd_value = value;
  next_pc = next;
  mem_write = 0;
  mem_addr = 0;
  mem_wdata = 0;
}

module _ (s : Iss) (pc inst : ℕ) where
  abbrev pub operand_a : ℕ
  operand_a = get_or s.regs (fields inst).rs1 0

  abbrev pub operand_b : ℕ
  operand_b = get_or s.regs (fields inst).rs2 0

  abbrev pub pc_plus4 : ℕ
  pc_plus4 = bit_and (pc + 4) mask32

  unfoldable pub execute_jalr : Result Effect
  execute_jalr = do
    raise_if ((fields inst).funct3 != 0) halt_illegal
    ok (goes_on (some pc_plus4) (bit_and (and_not (operand_a + imm_i inst) 1) mask32))

  unfoldable pub execute_branch : Result Effect
  execute_branch = do
    raise_if ((fields inst).funct3 == 0b010 || (fields inst).funct3 == 0b011) halt_illegal
    ok (
        goes_on none (
          if branch_taken (fields inst).funct3 operand_a operand_b
          then bit_and (pc + imm_b inst) mask32
          else pc_plus4))

  unfoldable pub execute_load : Result Effect
  execute_load = do
    let funct3 = (fields inst).funct3
    raise_if (funct3 == 0b011 || funct3 == 0b110 || funct3 == 0b111) halt_illegal
    let addr = bit_and (operand_a + imm_i inst) mask32
    raise_if (misaligned funct3 addr) halt_mem_misalign
    ok (record {
      rd_value = some (load s funct3 addr);
      next_pc = pc_plus4;
      mem_write = 0;
      mem_addr = addr;
      mem_wdata = 0;
    })

  unfoldable pub execute_store : Result Effect
  execute_store = do
    let funct3 = (fields inst).funct3
    raise_if (ltb 0b010 funct3) halt_illegal
    let addr = bit_and (operand_a + imm_s inst) mask32
    raise_if (misaligned funct3 addr) halt_mem_misalign
    ok (record {
      rd_value = none;
      next_pc = pc_plus4;
      mem_write = 1;
      mem_addr = addr;
      mem_wdata = operand_b;
    })

  unfoldable pub execute_imm : Result Effect
  execute_imm = do
    let funct3 = (fields inst).funct3
    let funct7 = (fields inst).funct7
    raise_if (funct3 == 0b001 && funct7 != 0x00) halt_illegal
    raise_if (funct3 == 0b101 && not (funct7 == 0x00 || funct7 == 0x20)) halt_illegal
    let shift_op = funct3 == 0b001 || funct3 == 0b101
    ok (
        goes_on
          (some (
            alu funct3 (if funct3 == 0b101 then bit_and (funct7 >>> 5) 1 else 0) operand_a
              (if shift_op then bits inst 24 20 else imm_i inst)))
          pc_plus4)

  unfoldable pub execute_reg : Result Effect
  execute_reg = do
    let funct3 = (fields inst).funct3
    let funct7 = (fields inst).funct7
    raise_if (funct7 != 0x00 && not (funct7 == 0x20 && (funct3 == 0b000 || funct3 == 0b101)))
        halt_illegal
    ok (goes_on (some (alu funct3 (bit_and (funct7 >>> 5) 1) operand_a operand_b)) pc_plus4)

  unfoldable pub execute_misc_mem : Result Effect
  execute_misc_mem = do
    raise_if ((fields inst).funct3 != 0) halt_illegal
    ok (goes_on none pc_plus4)

  unfoldable pub execute_system : Result Effect
  execute_system = do
    raise_if (bits inst 31 7 == 0) halt_ecall
    raise_if (bits inst 31 20 == 0x001 && bits inst 19 7 == 0) halt_ebreak
    trap halt_illegal

  unfoldable pub dispatch : ℕ → Result Effect
  dispatch opcode =
      if opcode == op_lui
      then ok (goes_on (some (imm_u inst)) pc_plus4)
      else if opcode == op_auipc
      then ok (goes_on (some (bit_and (pc + imm_u inst) mask32)) pc_plus4)
      else if opcode == op_jal
      then ok (goes_on (some pc_plus4) (bit_and (pc + imm_j inst) mask32))
      else if opcode == op_jalr
      then execute_jalr
      else if opcode == op_branch
      then execute_branch
      else if opcode == op_load
      then execute_load
      else if opcode == op_store
      then execute_store
      else if opcode == op_imm
      then execute_imm
      else if opcode == op_reg
      then execute_reg
      else if opcode == op_misc_mem
      then execute_misc_mem
      else if opcode == op_system
      then execute_system
      else trap halt_illegal

  -- The whole `try` block: the opcode, and then the check of the next program counter.
  unfoldable pub execute : Result Effect
  execute = do
    e ← dispatch (fields inst).opcode
    raise_if (bit_and e.next_pc 3 != 0) halt_fetch_misalign
    ok e
