-- ===== src/Unit/Blocks.antt =====
-- The tests of verif/unit/tb_alu.py, tb_branch_cmp.py and tb_imm_gen.py, on any block with the pins of
-- rtl/alu.sv, rtl/branch_cmp.sv and rtl/imm_gen.sv. A test is true when no assertion of it fails, and
-- what `random` draws is a parameter.
pub mod Passing
use rv32i_cpu.Base.{
  ℕ, zero, suc, ◌-◌, Bool, true, false, ◌&&◌, List, [], ◌∷◌, ◌==◌, if◌then◌else◌, ◌<<<◌, to_int,
}
use rv32i_cpu.Base.BitOps.{and_not}
use rv32i_cpu.Bits.{mask32}
use rv32i_cpu.Reference
use rv32i_cpu.Reference.Alu.{AluOp, alu_ops}
use rv32i_cpu.Reference.Branch.{Branch, branches}
use rv32i_cpu.Reference.Imm.{Format, imm_sel, ref_imm}

-- A loop whose turns assert.
unfoldable pub every {ℓ} : {A : Type ℓ} → (A → Bool) → List A → Bool
every test [] = true
every test (x ∷ xs) = test x && every test xs

module _ (block : ℕ → ℕ → ℕ → ℕ) where
  unfoldable pub alu_check : AluOp → ℕ → ℕ → Bool
  alu_check op a b = block (alu_ops op) a b == Reference.Alu.reference op a b

  abbrev pub all_alu_ops : List AluOp
  all_alu_ops =
      AluOp.add ∷ AluOp.sll ∷ AluOp.slt ∷ AluOp.sltu ∷ AluOp.xor ∷ AluOp.srl ∷ AluOp.or ∷ AluOp.and
      ∷ AluOp.sub ∷ AluOp.sra ∷ []

  abbrev pub alu_corners : List ℕ
  alu_corners =
      0x0000_0000 ∷ 0x0000_0001 ∷ 0x0000_0002 ∷ 0x0000_001f ∷ 0x0000_0020 ∷ 0x7fff_ffff
      ∷ 0x8000_0000 ∷ 0x8000_0001 ∷ 0xffff_fffe ∷ 0xffff_ffff ∷ 0x5555_5555 ∷ 0xaaaa_aaaa ∷ []

  unfoldable pub alu_corner_cases : Bool
  unfolding every alu_check
  alu_corner_cases =
      every (λ op. every (λ a. every (λ b. alu_check op a b) alu_corners) alu_corners) all_alu_ops

  unfoldable pub alu_random : List (AluOp × (ℕ × ℕ)) → Bool
  alu_random draws = every (λ (op, (a, b)). alu_check op a b) draws

  -- The codes below 16 that no operation has.
  unfoldable pub alu_undefined_op_is_zero : Bool
  alu_undefined_op_is_zero =
      every (λ op. block op 0xdead_beef 0x1234_5678 == 0) (9 ∷ 10 ∷ 11 ∷ 12 ∷ 14 ∷ 15 ∷ [])

module _ (block : ℕ → ℕ → ℕ → Bool) where
  unfoldable pub branch_check : Branch → ℕ → ℕ → Bool
  branch_check name a b =
      to_int (block (branches name) a b) == to_int (Reference.Branch.reference name a b)

  abbrev pub all_branches : List Branch
  all_branches = Branch.beq ∷ Branch.bne ∷ Branch.blt ∷ Branch.bge ∷ Branch.bltu ∷ Branch.bgeu ∷ []

  abbrev pub branch_corners : List ℕ
  branch_corners =
      0x0000_0000 ∷ 0x0000_0001 ∷ 0x7fff_ffff ∷ 0x8000_0000 ∷ 0x8000_0001 ∷ 0xffff_ffff ∷ []

  unfoldable pub branch_corner_cases : Bool
  branch_corner_cases =
      every (λ n. every (λ a. every (λ b. branch_check n a b) branch_corners) branch_corners)
        all_branches

  unfoldable pub branch_random : List (Branch × (ℕ × ℕ)) → Bool
  branch_random draws = every (λ (name, (a, b)). branch_check name a b) draws

  unfoldable pub branch_unused_funct3_never_taken : Bool
  branch_unused_funct3_never_taken =
      every
        (λ funct3.
          every (λ (a, b). to_int (block funct3 a b) == 0)
            ((0, 0) ∷ (5, 5) ∷ (0xffff_ffff, 0) ∷ []))
        (0b010 ∷ 0b011 ∷ [])

module _ (block : ℕ → ℕ → ℕ) where
  unfoldable pub imm_check : Format → ℕ → Bool
  imm_check fmt inst = block (imm_sel fmt) inst == ref_imm fmt inst

  abbrev pub formats : List Format
  formats = Format.i ∷ Format.s ∷ Format.b ∷ Format.u ∷ Format.j ∷ []

  -- The loop over the bits below `n`, from the top.
  unfoldable pub walk : Format → ℕ → Bool
  walk fmt zero = true
  walk fmt (suc bit) =
      imm_check fmt (1 <<< bit) && imm_check fmt (and_not mask32 (1 <<< bit)) && walk fmt bit

  unfoldable pub imm_walking_ones : Bool
  imm_walking_ones = every (λ fmt. walk fmt 32) formats

  unfoldable pub imm_extremes : Bool
  imm_extremes =
      every
        (λ fmt.
          every (λ inst. imm_check fmt inst)
            (0x0000_0000 ∷ 0xffff_ffff ∷ 0x8000_0000 ∷ 0x7fff_ffff ∷ []))
        formats

  unfoldable pub imm_random : List (Format × ℕ) → Bool
  imm_random draws = every (λ (fmt, inst). imm_check fmt inst) draws
