-- ===== src/Coverage/Occasions/Variants.antt =====
-- The bins of verif/coverage.py that count kinds of branches, loads and stores.
use rv32i_cpu.Base.{refl, arith, ◌&&◌, [], ◌∷◌, ◌==◌}
use rv32i_cpu.Bits.{bits}
use rv32i_cpu.Isa.{op_branch, op_load, op_store}
use rv32i_cpu.Iss.Decode.{fields}
use rv32i_cpu.Coverage.Occasions.{kind}
use rv32i_cpu.Coverage.Occasions.Told.{Told, told}

pub beq-Told : Told "branch:beq" (kind op_branch 0)
unfolding fields
beq-Told =
    told "branch:beq" (record { branches = 0 ∷ []; loads = []; stores = [] })
      (λ op c. op == op_branch && bits c.inst 14 12 == 0) refl (λ c t k. ground (arith, t, k))
      (λ op c u. ground (arith, u))

pub bne-Told : Told "branch:bne" (kind op_branch 1)
unfolding fields
bne-Told =
    told "branch:bne" (record { branches = 1 ∷ []; loads = []; stores = [] })
      (λ op c. op == op_branch && bits c.inst 14 12 == 1) refl (λ c t k. ground (arith, t, k))
      (λ op c u. ground (arith, u))

pub blt-Told : Told "branch:blt" (kind op_branch 4)
unfolding fields
blt-Told =
    told "branch:blt" (record { branches = 4 ∷ []; loads = []; stores = [] })
      (λ op c. op == op_branch && bits c.inst 14 12 == 4) refl (λ c t k. ground (arith, t, k))
      (λ op c u. ground (arith, u))

pub bge-Told : Told "branch:bge" (kind op_branch 5)
unfolding fields
bge-Told =
    told "branch:bge" (record { branches = 5 ∷ []; loads = []; stores = [] })
      (λ op c. op == op_branch && bits c.inst 14 12 == 5) refl (λ c t k. ground (arith, t, k))
      (λ op c u. ground (arith, u))

pub bltu-Told : Told "branch:bltu" (kind op_branch 6)
unfolding fields
bltu-Told =
    told "branch:bltu" (record { branches = 6 ∷ []; loads = []; stores = [] })
      (λ op c. op == op_branch && bits c.inst 14 12 == 6) refl (λ c t k. ground (arith, t, k))
      (λ op c u. ground (arith, u))

pub bgeu-Told : Told "branch:bgeu" (kind op_branch 7)
unfolding fields
bgeu-Told =
    told "branch:bgeu" (record { branches = 7 ∷ []; loads = []; stores = [] })
      (λ op c. op == op_branch && bits c.inst 14 12 == 7) refl (λ c t k. ground (arith, t, k))
      (λ op c u. ground (arith, u))

pub lb-Told : Told "mem:lb" (kind op_load 0)
unfolding fields
lb-Told =
    told "mem:lb" (record { branches = []; loads = 0 ∷ []; stores = [] })
      (λ op c. op == op_load && bits c.inst 14 12 == 0) refl (λ c t k. ground (arith, t, k))
      (λ op c u. ground (arith, u))

pub lh-Told : Told "mem:lh" (kind op_load 1)
unfolding fields
lh-Told =
    told "mem:lh" (record { branches = []; loads = 1 ∷ []; stores = [] })
      (λ op c. op == op_load && bits c.inst 14 12 == 1) refl (λ c t k. ground (arith, t, k))
      (λ op c u. ground (arith, u))

pub lw-Told : Told "mem:lw" (kind op_load 2)
unfolding fields
lw-Told =
    told "mem:lw" (record { branches = []; loads = 2 ∷ []; stores = [] })
      (λ op c. op == op_load && bits c.inst 14 12 == 2) refl (λ c t k. ground (arith, t, k))
      (λ op c u. ground (arith, u))

pub lbu-Told : Told "mem:lbu" (kind op_load 4)
unfolding fields
lbu-Told =
    told "mem:lbu" (record { branches = []; loads = 4 ∷ []; stores = [] })
      (λ op c. op == op_load && bits c.inst 14 12 == 4) refl (λ c t k. ground (arith, t, k))
      (λ op c u. ground (arith, u))

pub lhu-Told : Told "mem:lhu" (kind op_load 5)
unfolding fields
lhu-Told =
    told "mem:lhu" (record { branches = []; loads = 5 ∷ []; stores = [] })
      (λ op c. op == op_load && bits c.inst 14 12 == 5) refl (λ c t k. ground (arith, t, k))
      (λ op c u. ground (arith, u))

pub sb-Told : Told "mem:sb" (kind op_store 0)
unfolding fields
sb-Told =
    told "mem:sb" (record { branches = []; loads = []; stores = 0 ∷ [] })
      (λ op c. op == op_store && bits c.inst 14 12 == 0) refl (λ c t k. ground (arith, t, k))
      (λ op c u. ground (arith, u))

pub sh-Told : Told "mem:sh" (kind op_store 1)
unfolding fields
sh-Told =
    told "mem:sh" (record { branches = []; loads = []; stores = 1 ∷ [] })
      (λ op c. op == op_store && bits c.inst 14 12 == 1) refl (λ c t k. ground (arith, t, k))
      (λ op c u. ground (arith, u))

pub sw-Told : Told "mem:sw" (kind op_store 2)
unfolding fields
sw-Told =
    told "mem:sw" (record { branches = []; loads = []; stores = 2 ∷ [] })
      (λ op c. op == op_store && bits c.inst 14 12 == 2) refl (λ c t k. ground (arith, t, k))
      (λ op c u. ground (arith, u))
