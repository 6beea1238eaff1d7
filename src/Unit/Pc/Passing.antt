-- ===== src/Unit/Pc/Passing.antt =====
-- verif/unit/tb_pc_unit.py on rtl/pc_unit.sv.
use rv32i_cpu.Base.{
  ℕ, ◌+◌, ◌-◌, ◌%◌, ◌^◌, ◌≡◌, refl, ap, arith, true, List, [], ◌∷◌, some, ◌!=◌, bit_and, is_some,
  ==_refl, to_int,
}
use rv32i_cpu.Base.BitOps.{and_not, and_low}
use rv32i_cpu.Bits.{mask32, bits}
use rv32i_cpu.Bits.Laws.{bits_lem}
use rv32i_cpu.Core.{reset_pc}
use rv32i_cpu.Reference.Pc.{ref_next_pc}
use rv32i_cpu.Unit.Pc.{
  Steering, pc_plus4, pc_next, misaligned_target, pc_edge, pc_dut, driven, pc_setup, drive,
  drive_to, sequential, pc_reset_and_sequential, pc_branches_and_jumps, stalled, pc_stall_holds,
  pc_misaligned_target, drive_all, pc_random_sequence,
}

-- The next program counter that the reference gives under a control.
abbrev pub next_of : Steering → ℕ → ℕ
next_of c pc = ref_next_pc pc c.branch c.taken c.jump c.jalr c.imm c.alu_result

pub pc_next-next_of : (c : Steering) (pc : ℕ) → pc_next (driven c).control pc ≡ next_of c pc
unfolding pc_next pc_plus4 ref_next_pc and_not
pc_next-next_of c pc = ground (
  arith,
  bits_lem (bit_and c.alu_result mask32) 31 1,
  and_low 32 c.alu_result,
  and_low 1 c.alu_result,
  and_low 32 (c.alu_result - c.alu_result % 2),
  and_low 32 c.imm,
  and_low 32 (pc + c.imm),
  and_low 32 (pc + c.imm % 2 ^ 32),
)

flag_same : (next : ℕ) → to_int (bits next 1 0 != 0) ≡ to_int (bit_and next 3 != 0)
flag_same next =
    let e : bits next 1 0 ≡ bit_and next 3 = omega (arith, bits_lem next 1 0, and_low 2 next) in
    ap (λ t. to_int (t != 0)) e

drive-next_of : (c : Steering) (pc : ℕ) → drive pc_dut c pc ≡ some (next_of c pc, next_of c pc)
unfolding drive pc_plus4 misaligned_target pc_edge
drive-next_of c pc =
    rw
      (
        pc_next-next_of c pc,
        flag_same (next_of c pc),
        ==_refl (next_of c pc),
        ==_refl (bit_and (pc + 4) mask32),
        ==_refl (to_int (bit_and (next_of c pc) 3 != 0)),
      )
      refl

-- Where a sequence of controls leads.
abbrev pub path_end : List Steering → ℕ → ℕ
path_end [] pc = pc
path_end (c ∷ controls) pc = path_end controls (next_of c pc)

drive_all-path_end :
    (controls : List Steering) (pc : ℕ) → drive_all pc_dut controls pc ≡ some (path_end controls pc)
unfolding drive_all
drive_all-path_end [] pc = refl
drive_all-path_end (c ∷ controls) pc =
    rw (drive_all, drive-next_of c pc) (drive_all-path_end controls (next_of c pc))

-- From any program counter the random test passes on rtl/pc_unit.sv, for any sequence of controls, and
-- ends where the reference leads from the reset address.
pub pc_random_sequence-path_end :
    (controls : List Steering) (pc : ℕ)
    → pc_random_sequence pc_dut controls pc ≡ some (path_end controls reset_pc)
unfolding pc_random_sequence pc_setup pc_edge
pc_random_sequence-path_end controls pc = drive_all-path_end controls reset_pc

-- The directed tests pass on rtl/pc_unit.sv from any program counter.
pub pc_directed_tests :
    (pc : ℕ)
    → (is_some (pc_reset_and_sequential pc_dut pc) ≡ true)
      × (is_some (pc_branches_and_jumps pc_dut pc) ≡ true)
      × (is_some (pc_stall_holds pc_dut pc) ≡ true)
      × (is_some (pc_misaligned_target pc_dut pc) ≡ true)
unfolding pc_reset_and_sequential pc_branches_and_jumps pc_stall_holds pc_misaligned_target
    sequential stalled drive drive_to pc_setup pc_edge pc_next pc_plus4 misaligned_target
    ref_next_pc and_not bits
pc_directed_tests pc = (refl, refl, refl, refl)
