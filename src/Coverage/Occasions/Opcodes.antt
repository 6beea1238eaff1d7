-- ===== src/Coverage/Occasions/Opcodes.antt =====
-- The bins of verif/coverage.py that count opcodes.
use rv32i_cpu.Base.{refl, arith, [], ◌==◌}
use rv32i_cpu.Isa.{op_lui, op_auipc, op_jal, op_jalr, op_branch, op_load, op_store, op_imm, op_reg}
use rv32i_cpu.Iss.Decode.{fields}
use rv32i_cpu.Coverage.Occasions.{is}
use rv32i_cpu.Coverage.Occasions.Told.{Told, told}

pub op_lui-Told : Told "op:lui" (is op_lui)
unfolding fields
op_lui-Told =
    told "op:lui" (record { branches = []; loads = []; stores = [] }) (λ op c. op == op_lui) refl
      (λ c t k. ground (arith, t, k)) (λ op c u. ground (arith, u))

pub op_auipc-Told : Told "op:auipc" (is op_auipc)
unfolding fields
op_auipc-Told =
    told "op:auipc" (record { branches = []; loads = []; stores = [] }) (λ op c. op == op_auipc)
      refl (λ c t k. ground (arith, t, k)) (λ op c u. ground (arith, u))

pub op_jal-Told : Told "op:jal" (is op_jal)
unfolding fields
op_jal-Told =
    told "op:jal" (record { branches = []; loads = []; stores = [] }) (λ op c. op == op_jal) refl
      (λ c t k. ground (arith, t, k)) (λ op c u. ground (arith, u))

pub op_jalr-Told : Told "op:jalr" (is op_jalr)
unfolding fields
op_jalr-Told =
    told "op:jalr" (record { branches = []; loads = []; stores = [] }) (λ op c. op == op_jalr) refl
      (λ c t k. ground (arith, t, k)) (λ op c u. ground (arith, u))

pub op_branch-Told : Told "op:branch" (is op_branch)
unfolding fields
op_branch-Told =
    told "op:branch" (record { branches = []; loads = []; stores = [] }) (λ op c. op == op_branch)
      refl (λ c t k. ground (arith, t, k)) (λ op c u. ground (arith, u))

pub op_load-Told : Told "op:load" (is op_load)
unfolding fields
op_load-Told =
    told "op:load" (record { branches = []; loads = []; stores = [] }) (λ op c. op == op_load) refl
      (λ c t k. ground (arith, t, k)) (λ op c u. ground (arith, u))

pub op_store-Told : Told "op:store" (is op_store)
unfolding fields
op_store-Told =
    told "op:store" (record { branches = []; loads = []; stores = [] }) (λ op c. op == op_store)
      refl (λ c t k. ground (arith, t, k)) (λ op c u. ground (arith, u))

pub op_imm-Told : Told "op:op-imm" (is op_imm)
unfolding fields
op_imm-Told =
    told "op:op-imm" (record { branches = []; loads = []; stores = [] }) (λ op c. op == op_imm) refl
      (λ c t k. ground (arith, t, k)) (λ op c u. ground (arith, u))

pub op_reg-Told : Told "op:op-reg" (is op_reg)
unfolding fields
op_reg-Told =
    told "op:op-reg" (record { branches = []; loads = []; stores = [] }) (λ op c. op == op_reg) refl
      (λ c t k. ground (arith, t, k)) (λ op c u. ground (arith, u))
