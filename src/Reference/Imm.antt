-- ===== src/Reference/Imm.antt =====
-- The reference of verif/unit/tb_imm_gen.py, and the format codes of verif/isa.py.
use rv32i_cpu.Base.{ℕ, bit_or, ◌<<<◌}
use rv32i_cpu.Bits.{bits, sign_extend}

pub data Format : Type 0 where
  i s b u j : Format

abbrev pub imm_sel : Format → ℕ
imm_sel i = 0
imm_sel s = 1
imm_sel b = 2
imm_sel u = 3
imm_sel j = 4

unfoldable pub ref_imm : Format → ℕ → ℕ
ref_imm i inst = sign_extend (bits inst 31 20) 12
ref_imm s inst = sign_extend (bit_or (bits inst 31 25 <<< 5) (bits inst 11 7)) 12
ref_imm b inst =
    let raw =
      bit_or
        (bit_or (bit_or (bits inst 31 31 <<< 12) (bits inst 7 7 <<< 11)) (bits inst 30 25 <<< 5))
        (bits inst 11 8 <<< 1) in
    sign_extend raw 13
ref_imm u inst = bits inst 31 12 <<< 12
ref_imm j inst =
    let raw =
      bit_or
        (bit_or (bit_or (bits inst 31 31 <<< 20) (bits inst 19 12 <<< 12)) (bits inst 20 20 <<< 11))
        (bits inst 30 21 <<< 1) in
    sign_extend raw 21
