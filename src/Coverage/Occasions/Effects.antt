-- ===== src/Coverage/Occasions/Effects.antt =====
-- The bins of verif/coverage.py that count what an instruction does.
use rv32i_cpu.Base.{ℕ, ◌%◌, ◌^◌, refl, arith, Bool, not, ◌&&◌, ◌||◌, [], ◌==◌, ◌!=◌, leb}
use rv32i_cpu.Bits.{bits}
use rv32i_cpu.Isa.{
  op_lui, op_auipc, op_jal, op_jalr, op_branch, op_load, op_store, op_imm, op_reg, op_misc_mem,
  op_system,
}
use rv32i_cpu.Iss.Decode.{fields}
use rv32i_cpu.Coverage.Occasions.{is, known, jumped, shifts_by, computes}
use rv32i_cpu.Coverage.Occasions.Told.{Told, told}

-- One of the eleven opcodes.
abbrev named : ℕ → Bool
named op =
    op == op_lui
    || op == op_auipc
    || op == op_jal
    || op == op_jalr
    || op == op_branch
    || op == op_load
    || op == op_store
    || op == op_imm
    || op == op_reg
    || op == op_misc_mem
    || op == op_system

pub taken-Told : Told "branch:taken" (λ c. is op_branch c && jumped c)
unfolding fields
taken-Told =
    told "branch:taken" (record { branches = []; loads = []; stores = [] })
      (λ op c. op == op_branch && jumped c) refl (λ c t k. ground (arith, t, k))
      (λ op c u. ground (arith, u))

pub not_taken-Told : Told "branch:not-taken" (λ c. is op_branch c && not (jumped c))
unfolding fields
not_taken-Told =
    told "branch:not-taken" (record { branches = []; loads = []; stores = [] })
      (λ op c. op == op_branch && not (jumped c)) refl (λ c t k. ground (arith, t, k))
      (λ op c u. ground (arith, u))

pub shift_zero-Told : Told "shift:zero" (shifts_by 0)
unfolding fields
shift_zero-Told =
    told "shift:zero" (record { branches = []; loads = []; stores = [] })
      (λ op c.
        (op == op_imm && bits c.inst 14 12 == 1 || op == op_imm && bits c.inst 14 12 == 5)
        && bits c.inst 24 20 == 0)
      refl (λ c t k. ground (arith, t, k)) (λ op c u. ground (arith, u))

pub shift_max-Told : Told "shift:max" (shifts_by 31)
unfolding fields
shift_max-Told =
    told "shift:max" (record { branches = []; loads = []; stores = [] })
      (λ op c.
        (op == op_imm && bits c.inst 14 12 == 1 || op == op_imm && bits c.inst 14 12 == 5)
        && bits c.inst 24 20 == 31)
      refl (λ c t k. ground (arith, t, k)) (λ op c u. ground (arith, u))

pub result_zero-Told : Told "result:zero" (λ c. known c && c.rd != 0 && c.rd_wdata == 0)
unfolding fields
result_zero-Told =
    told "result:zero" (record { branches = []; loads = []; stores = [] })
      (λ op c. named op && c.rd != 0 && c.rd_wdata == 0) refl (λ c t k. ground (arith, t, k))
      (λ op c u. ground (arith, u))

pub result_negative-Told :
    Told "result:negative" (λ c. known c && c.rd != 0 && leb (2 ^ 31) (c.rd_wdata % 2 ^ 32))
unfolding fields
result_negative-Told =
    told "result:negative" (record { branches = []; loads = []; stores = [] })
      (λ op c. named op && c.rd != 0 && leb (2 ^ 31) (c.rd_wdata % 2 ^ 32)) refl
      (λ c t k. ground (arith, t, k)) (λ op c u. ground (arith, u))

pub rd_x0-Told : Told "rd:x0" (λ c. computes c && (fields c.inst).rd == 0 && c.rd == 0)
unfolding fields
rd_x0-Told =
    told "rd:x0" (record { branches = []; loads = []; stores = [] })
      (λ op c. (op == op_imm || op == op_reg || op == op_lui) && bits c.inst 11 7 == 0 && c.rd == 0)
      refl (λ c t k. ground (arith, t, k)) (λ op c u. ground (arith, u))

pub rs1_x0-Told : Told "rs1:x0" (λ c. known c && (fields c.inst).rs1 == 0)
unfolding fields
rs1_x0-Told =
    told "rs1:x0" (record { branches = []; loads = []; stores = [] })
      (λ op c. named op && bits c.inst 19 15 == 0) refl (λ c t k. ground (arith, t, k))
      (λ op c u. ground (arith, u))

pub lane-Told :
    Told "mem:unaligned-lane" (λ c. (is op_load c || is op_store c) && c.mem_addr % 4 != 0)
unfolding fields
lane-Told =
    told "mem:unaligned-lane" (record { branches = []; loads = []; stores = [] })
      (λ op c. (op == op_load || op == op_store) && c.mem_addr % 4 != 0) refl
      (λ c t k. ground (arith, t, k)) (λ op c u. ground (arith, u))
