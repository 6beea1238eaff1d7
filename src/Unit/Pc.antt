-- ===== src/Unit/Pc.antt =====
-- rtl/pc_unit.sv, and its testbench verif/unit/tb_pc_unit.py on any device with its pins. A failed
-- assertion is none.
pub mod Passing
use rv32i_cpu.Base.{
  ℕ, zero, suc, ◌+◌, ◌*◌, Bool, true, false, ◌&&◌, ◌||◌, List, [], ◌∷◌, Option, none, some, ◌==◌,
  ◌!=◌, if◌then◌else◌, bit_and, ◌>>=◌, require, to_int,
}
use rv32i_cpu.Bits.{mask32, bits}
use rv32i_cpu.Reference.Pc.{ref_next_pc}
use rv32i_cpu.Core.{reset_pc}

-- The controls that `drive` applies.
pub record Steering : Type 0 where
  pub branch : Bool
  pub taken : Bool
  pub jump : Bool
  pub jalr : Bool
  pub imm : ℕ
  pub alu_result : ℕ

pub record PcPins : Type 0 where
  pub rst : Bool
  pub stall : Bool
  pub control : Steering

-- The outputs, from the register `pc`. A sum of 32 bits wraps.
unfoldable pub pc_plus4 : ℕ → ℕ
pc_plus4 pc = bit_and (pc + 4) mask32

unfoldable pub pc_next : Steering → ℕ → ℕ
pc_next c pc =
    if c.jalr
    then bits c.alu_result 31 1 * 2
    else if c.jump || (c.branch && c.taken)
    then bit_and (pc + c.imm) mask32
    else pc_plus4 pc

unfoldable pub misaligned_target : Steering → ℕ → Bool
misaligned_target c pc = bits (pc_next c pc) 1 0 != 0

-- The `always_ff` block.
unfoldable pub pc_edge : PcPins → ℕ → ℕ
pc_edge pins pc = if pins.rst then reset_pc else if pins.stall then pc else pc_next pins.control pc

pub record PcDut (D : Type 0) : Type 0 where
  pub pc_of : D → ℕ
  pub plus4 : D → ℕ
  pub next : Steering → D → ℕ
  pub flag : Steering → D → Bool
  pub clocked : PcPins → D → D

abbrev pub pc_dut : PcDut ℕ
pc_dut = record {
  pc_of = λ pc. pc;
  plus4 = pc_plus4;
  next = pc_next;
  flag = misaligned_target;
  clocked = pc_edge;
}

abbrev pub none_set : Steering
none_set = record {
  branch = false;
  taken = false;
  jump = false;
  jalr = false;
  imm = 0;
  alu_result = 0;
}

-- The pins while a control is driven: the two numbers are masked.
abbrev pub driven : Steering → PcPins
driven c = record {
  rst = false;
  stall = false;
  control = record c { imm = bit_and c.imm mask32; alu_result = bit_and c.alu_result mask32 };
}

module _ {D : Type 0} (dut : PcDut D) where
  unfoldable pub pc_setup : D → D
  pc_setup = dut.clocked (record { rst = true; stall = false; control = none_set })

  abbrev pub expected : Steering → D → ℕ
  expected c d = ref_next_pc (dut.pc_of d) c.branch c.taken c.jump c.jalr c.imm c.alu_result

  -- `drive` gives the device after the edge, and what it expected the next program counter to be.
  unfoldable pub drive : Steering → D → Option (D × ℕ)
  drive c d =
      require
        (dut.next (driven c).control d == expected c d
          && dut.plus4 d == bit_and (dut.pc_of d + 4) mask32
          && to_int (dut.flag (driven c).control d) == to_int (bit_and (expected c d) 3 != 0))
        (dut.clocked (driven c) d, expected c d)

  -- `drive`, and then the assertion on `pc`.
  unfoldable pub drive_to : Steering → ℕ → D → Option D
  drive_to c expect d = drive c d >>= λ (after, _). require (dut.pc_of after == expect) after

  -- The loop of `n` steps of which the first is number `step`.
  unfoldable pub sequential : ℕ → ℕ → D → Option D
  sequential zero step d = some d
  sequential (suc n) step d =
      drive_to none_set (reset_pc + 4 * (step + 1)) d >>= sequential n (suc step)

  unfoldable pub pc_reset_and_sequential : D → Option D
  pc_reset_and_sequential d =
      require (dut.pc_of (pc_setup d) == reset_pc) (pc_setup d) >>= sequential 20 0

  unfoldable pub pc_branches_and_jumps : D → Option D
  pc_branches_and_jumps d =
      drive_to (record none_set { branch = true; imm = 0x100 }) 4 (pc_setup d)
      >>= drive_to (record none_set { branch = true; taken = true; imm = 0x40 }) 0x44
      >>= drive_to (record none_set { branch = true; taken = true; imm = 0xffff_ffc0 }) 0x04
      >>= drive_to (record none_set { jump = true; imm = 0x200 }) 0x204
      >>= drive_to (record none_set { jalr = true; alu_result = 0x1001 }) 0x1000

  -- The loop of `n` edges with `stall` high, at the program counter `held`.
  unfoldable pub stalled : ℕ → ℕ → D → Option D
  stalled zero held d = some d
  stalled (suc n) held d =
      let after : D = dut.clocked (record (driven none_set) { stall = true }) d in
      require (dut.pc_of after == held) after >>= stalled n held

  unfoldable pub pc_stall_holds : D → Option D
  pc_stall_holds d = drive none_set (pc_setup d) >>= λ (first, _).
      let held : ℕ = dut.pc_of first in stalled 5 held first >>= drive_to none_set (held + 4)

  unfoldable pub pc_misaligned_target : D → Option D
  pc_misaligned_target d =
      let taken : Steering = record none_set { branch = true; taken = true } in
      require
        (to_int (dut.flag (record taken { imm = 0x2 }) (pc_setup d)) == 1
          && to_int (dut.flag (record taken { imm = 0x4 }) (pc_setup d)) == 0)
        (pc_setup d)

  -- The loop, over the controls that `random` draws.
  unfoldable pub drive_all : List Steering → D → Option D
  drive_all [] d = some d
  drive_all (c ∷ controls) d = drive c d >>= λ (after, _). drive_all controls after

  unfoldable pub pc_random_sequence : List Steering → D → Option D
  pc_random_sequence controls d = drive_all controls (pc_setup d)
