-- ===== src/Reference/Pc.antt =====
-- The reference of verif/unit/tb_pc_unit.py.
use rv32i_cpu.Base.{ℕ, ◌+◌, Bool, ◌&&◌, ◌||◌, bit_and, if◌then◌else◌}
use rv32i_cpu.Base.BitOps.{and_not}
use rv32i_cpu.Bits.{mask32}

unfoldable pub ref_next_pc : ℕ → Bool → Bool → Bool → Bool → ℕ → ℕ → ℕ
ref_next_pc pc branch taken jump jalr imm alu =
    if jalr
    then bit_and (and_not alu 1) mask32
    else if jump || (branch && taken)
    then bit_and (pc + imm) mask32
    else bit_and (pc + 4) mask32
