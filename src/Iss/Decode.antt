-- ===== src/Iss/Decode.antt =====
-- The fields and the immediates that `Iss.step` takes out of an instruction word.
pub mod Sums
use rv32i_cpu.Base.{ℕ, bit_or, ◌<<<◌}
use rv32i_cpu.Bits.{bits, sign_extend}

pub record Fields : Type 0 where
  pub opcode : ℕ
  pub rd : ℕ
  pub rs1 : ℕ
  pub rs2 : ℕ
  pub funct3 : ℕ
  pub funct7 : ℕ

unfoldable pub fields : ℕ → Fields
fields inst = record {
  opcode = bits inst 6 0;
  rd = bits inst 11 7;
  rs1 = bits inst 19 15;
  rs2 = bits inst 24 20;
  funct3 = bits inst 14 12;
  funct7 = bits inst 31 25;
}

unfoldable pub imm_i : ℕ → ℕ
imm_i inst = sign_extend (bits inst 31 20) 12

unfoldable pub imm_s : ℕ → ℕ
imm_s inst = sign_extend (bit_or (bits inst 31 25 <<< 5) (bits inst 11 7)) 12

unfoldable pub imm_b : ℕ → ℕ
imm_b inst =
    sign_extend
      (bit_or
        (bit_or (bit_or (bits inst 31 31 <<< 12) (bits inst 7 7 <<< 11)) (bits inst 30 25 <<< 5))
        (bits inst 11 8 <<< 1))
      13

unfoldable pub imm_u : ℕ → ℕ
imm_u inst = bits inst 31 12 <<< 12

unfoldable pub imm_j : ℕ → ℕ
imm_j inst =
    sign_extend
      (bit_or
        (bit_or (bit_or (bits inst 31 31 <<< 20) (bits inst 19 12 <<< 12)) (bits inst 20 20 <<< 11))
        (bits inst 30 21 <<< 1))
      21
