-- ===== src/Unit/Blocks/Passing.antt =====
-- The tests of the unit testbenches pass on the blocks of the core.
use rv32i_cpu.Base.{ℕ, zero, suc, ◌≡◌, refl, Bool, true, List, [], ◌∷◌, to_int, ==_refl, ◌<<<◌}
use rv32i_cpu.Base.BitOps.{and_not}
use rv32i_cpu.Bits.{mask32}
use rv32i_cpu.Reference
use rv32i_cpu.Reference.Alu.{AluOp, alu_ops}
use rv32i_cpu.Reference.Branch.{Branch, branches}
use rv32i_cpu.Reference.Imm.{Format, imm_sel, ref_imm}
use rv32i_cpu.Core.Blocks.{alu_block, branch_block, imm_block}
use rv32i_cpu.Unit.Blocks.{
  every, alu_check, all_alu_ops, alu_corners, alu_corner_cases, alu_random,
  alu_undefined_op_is_zero, branch_check, all_branches, branch_corners, branch_corner_cases,
  branch_random, branch_unused_funct3_never_taken, imm_check, formats, walk, imm_walking_ones,
  imm_extremes, imm_random,
}

pub every_lem {ℓ} :
    {A : Type ℓ} (test : A → Bool) (xs : List A) → ((x : A) → test x ≡ true) → every test xs ≡ true
unfolding every
every_lem test [] h = refl
every_lem test (x ∷ xs) h = rw (h x, every_lem test xs h) refl

alu_block-reference :
    (op : AluOp) (a b : ℕ) → alu_block (alu_ops op) a b ≡ Reference.Alu.reference op a b
unfolding alu_block Reference.Alu.reference
alu_block-reference AluOp.add a b = refl
alu_block-reference _ a b = refl

branch_block-reference :
    (name : Branch) (a b : ℕ)
    → branch_block (branches name) a b ≡ Reference.Branch.reference name a b
unfolding branch_block Reference.Branch.reference
branch_block-reference Branch.beq a b = refl
branch_block-reference _ a b = refl

imm_block-ref_imm : (fmt : Format) (inst : ℕ) → imm_block (imm_sel fmt) inst ≡ ref_imm fmt inst
unfolding imm_block ref_imm
imm_block-ref_imm Format.i inst = refl
imm_block-ref_imm _ inst = refl

alu_check_passes : (op : AluOp) (a b : ℕ) → alu_check alu_block op a b ≡ true
unfolding alu_check
alu_check_passes op a b = rw (alu_block-reference op a b) (==_refl (Reference.Alu.reference op a b))

branch_check_passes : (name : Branch) (a b : ℕ) → branch_check branch_block name a b ≡ true
unfolding branch_check
branch_check_passes name a b =
    rw (branch_block-reference name a b) (==_refl (to_int (Reference.Branch.reference name a b)))

imm_check_passes : (fmt : Format) (inst : ℕ) → imm_check imm_block fmt inst ≡ true
unfolding imm_check
imm_check_passes fmt inst = rw (imm_block-ref_imm fmt inst) (==_refl (ref_imm fmt inst))

walk_passes : (fmt : Format) (n : ℕ) → walk imm_block fmt n ≡ true
unfolding walk
walk_passes fmt zero = refl
walk_passes fmt (suc bit) =
    rw
      (
        imm_check_passes fmt (1 <<< bit),
        imm_check_passes fmt (and_not mask32 (1 <<< bit)),
        walk_passes fmt bit,
      )
      refl

-- Every test of the ALU passes on rtl/alu.sv, for any draws.
pub alu_random-alu_block :
    (draws : List (AluOp × (ℕ × ℕ)))
    → (alu_corner_cases alu_block ≡ true)
      × (alu_random alu_block draws ≡ true)
      × (alu_undefined_op_is_zero alu_block ≡ true)
unfolding alu_corner_cases alu_random alu_undefined_op_is_zero every alu_block
alu_random-alu_block draws = (
  every_lem _ (all_alu_ops alu_block) (λ op.
      every_lem _ (alu_corners alu_block)
        (λ a. every_lem _ (alu_corners alu_block) (alu_check_passes op a))),
  every_lem _ draws (λ (op, (a, b)). alu_check_passes op a b),
  refl,
)

-- Every test of the comparator passes on rtl/branch_cmp.sv, for any draws.
pub branch_random-branch_block :
    (draws : List (Branch × (ℕ × ℕ)))
    → (branch_corner_cases branch_block ≡ true)
      × (branch_random branch_block draws ≡ true)
      × (branch_unused_funct3_never_taken branch_block ≡ true)
unfolding branch_corner_cases branch_random branch_unused_funct3_never_taken every branch_block
branch_random-branch_block draws = (
  every_lem _ (all_branches branch_block) (λ n.
      every_lem _ (branch_corners branch_block)
        (λ a. every_lem _ (branch_corners branch_block) (branch_check_passes n a))),
  every_lem _ draws (λ (name, (a, b)). branch_check_passes name a b),
  refl,
)

-- Every test of the immediate generator passes on rtl/imm_gen.sv, for any draws.
pub imm_random-imm_block :
    (draws : List (Format × ℕ))
    → (imm_walking_ones imm_block ≡ true)
      × (imm_extremes imm_block ≡ true)
      × (imm_random imm_block draws ≡ true)
unfolding imm_walking_ones imm_extremes imm_random
imm_random-imm_block draws = (
  every_lem _ (formats imm_block) (λ fmt. walk_passes fmt 32),
  every_lem _ (formats imm_block) (λ fmt. every_lem _ _ (imm_check_passes fmt)),
  every_lem _ draws (λ (fmt, inst). imm_check_passes fmt inst),
)
