-- ===== src/Reference/Branch.antt =====
-- The reference of verif/unit/tb_branch_cmp.py.
use rv32i_cpu.Base.{ℕ, Bool, not, ltb, leb, ◌==◌, ◌!=◌, ◌≡◌, refl, arith}
use rv32i_cpu.Base.Int.{ltb_ℤ, leb_ℤ}
use rv32i_cpu.Bits.{to_signed}
use rv32i_cpu.Iss.Alu.{branch_taken}

pub data Branch : Type 0 where
  beq bne blt bge bltu bgeu : Branch

abbrev pub branches : Branch → ℕ
branches beq = 0b000
branches bne = 0b001
branches blt = 0b100
branches bge = 0b101
branches bltu = 0b110
branches bgeu = 0b111

unfoldable pub reference : Branch → ℕ → ℕ → Bool
reference beq a b = a == b
reference bne a b = a != b
reference blt a b = ltb_ℤ (to_signed a 32) (to_signed b 32)
reference bge a b = leb_ℤ (to_signed b 32) (to_signed a 32)
reference bltu a b = ltb a b
reference bgeu a b = leb b a

-- The golden model takes a branch exactly when the reference of the comparator does.
pub branch_taken-reference :
    (kind : Branch) (a b : ℕ) → branch_taken (branches kind) a b ≡ reference kind a b
unfolding branch_taken reference
branch_taken-reference beq a b = refl
branch_taken-reference _ a b = refl

-- The kind with the opposite test.
abbrev pub opposite : Branch → Branch
opposite beq = bne
opposite bne = beq
opposite blt = bge
opposite bge = blt
opposite bltu = bgeu
opposite bgeu = bltu

-- Of a branch and its opposite (BEQ and BNE, BLT and BGE, BLTU and BGEU) the golden model takes
-- exactly one, on the same operands.
pub branch_taken-opposite :
    (kind : Branch) (a b : ℕ)
    → branch_taken (branches (opposite kind)) a b ≡ not (branch_taken (branches kind) a b)
unfolding branch_taken
branch_taken-opposite beq a b = ground arith
branch_taken-opposite _ a b = ground arith
