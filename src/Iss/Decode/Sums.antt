-- ===== src/Iss/Decode/Sums.antt =====
-- The fields and immediates of verif/iss.py as quotients and remainders of the word.
use rv32i_cpu.Base.{ℕ, ◌+◌, ◌*◌, ◌/◌, ◌%◌, ◌^◌, ◌≡◌, arith}
use rv32i_cpu.Base.BitOps.{or_add}
use rv32i_cpu.Bits.Laws.{bits_lem, extended, sign_extend_sum}
use rv32i_cpu.Iss.Decode.{Fields, fields, imm_i, imm_s, imm_b, imm_u, imm_j}

abbrev pub field_values : ℕ → Fields
field_values inst = record {
  opcode = inst % 2 ^ 7;
  rd = inst / 2 ^ 7 % 2 ^ 5;
  rs1 = inst / 2 ^ 15 % 2 ^ 5;
  rs2 = inst / 2 ^ 20 % 2 ^ 5;
  funct3 = inst / 2 ^ 12 % 2 ^ 3;
  funct7 = inst / 2 ^ 25 % 2 ^ 7;
}

pub fields_sum : (inst : ℕ) → fields inst ≡ field_values inst
unfolding fields
fields_sum inst = ground (
  arith,
  bits_lem inst 6 0,
  bits_lem inst 11 7,
  bits_lem inst 19 15,
  bits_lem inst 24 20,
  bits_lem inst 14 12,
  bits_lem inst 31 25,
)

pub imm_i_sum : (inst : ℕ) → imm_i inst ≡ extended 11 (inst / 2 ^ 20 % 2 ^ 12)
unfolding imm_i
imm_i_sum inst =
    rw (bits_lem inst 31 20) (sign_extend_sum 11 (inst / 2 ^ 20 % 2 ^ 12) (omega arith))

abbrev pub s_offset : ℕ → ℕ
s_offset inst = inst / 2 ^ 25 % 2 ^ 7 * 2 ^ 5 + inst / 2 ^ 7 % 2 ^ 5

pub imm_s_sum : (inst : ℕ) → imm_s inst ≡ extended 11 (s_offset inst)
unfolding imm_s
imm_s_sum inst =
    rw
      (
        bits_lem inst 31 25,
        bits_lem inst 11 7,
        or_add 5 (inst / 2 ^ 25 % 2 ^ 7 * 2 ^ 5) (inst / 2 ^ 7 % 2 ^ 5) (omega arith) (omega arith),
      )
      (sign_extend_sum 11 (s_offset inst) (omega arith))

abbrev pub b_offset : ℕ → ℕ
b_offset inst =
    inst / 2 ^ 31 % 2 * 2 ^ 12
    + inst / 2 ^ 7 % 2 * 2 ^ 11
    + inst / 2 ^ 25 % 2 ^ 6 * 2 ^ 5
    + inst / 2 ^ 8 % 2 ^ 4 * 2

pub imm_b_sum : (inst : ℕ) → imm_b inst ≡ extended 12 (b_offset inst)
unfolding imm_b
imm_b_sum inst =
    let p = inst / 2 ^ 31 % 2 * 2 ^ 12 in
    let q = inst / 2 ^ 7 % 2 * 2 ^ 11 in
    let r = inst / 2 ^ 25 % 2 ^ 6 * 2 ^ 5 in
    let t = inst / 2 ^ 8 % 2 ^ 4 * 2 in
    rw
      (
        bits_lem inst 31 31,
        bits_lem inst 7 7,
        bits_lem inst 30 25,
        bits_lem inst 11 8,
        or_add 12 p q (omega arith) (omega arith),
        or_add 11 (p + q) r (omega arith) (omega arith),
        or_add 5 (p + q + r) t (omega arith) (omega arith),
      )
      (sign_extend_sum 12 (b_offset inst) (omega arith))

pub imm_u_sum : (inst : ℕ) → imm_u inst ≡ inst / 2 ^ 12 % 2 ^ 20 * 2 ^ 12
unfolding imm_u
imm_u_sum inst = rw (bits_lem inst 31 12)

abbrev pub j_offset : ℕ → ℕ
j_offset inst =
    inst / 2 ^ 31 % 2 * 2 ^ 20
    + inst / 2 ^ 12 % 2 ^ 8 * 2 ^ 12
    + inst / 2 ^ 20 % 2 * 2 ^ 11
    + inst / 2 ^ 21 % 2 ^ 10 * 2

pub imm_j_sum : (inst : ℕ) → imm_j inst ≡ extended 20 (j_offset inst)
unfolding imm_j
imm_j_sum inst =
    let p = inst / 2 ^ 31 % 2 * 2 ^ 20 in
    let q = inst / 2 ^ 12 % 2 ^ 8 * 2 ^ 12 in
    let r = inst / 2 ^ 20 % 2 * 2 ^ 11 in
    let t = inst / 2 ^ 21 % 2 ^ 10 * 2 in
    rw
      (
        bits_lem inst 31 31,
        bits_lem inst 19 12,
        bits_lem inst 20 20,
        bits_lem inst 30 21,
        or_add 20 p q (omega arith) (omega arith),
        or_add 12 (p + q) r (omega arith) (omega arith),
        or_add 11 (p + q + r) t (omega arith) (omega arith),
      )
      (sign_extend_sum 20 (j_offset inst) (omega arith))
