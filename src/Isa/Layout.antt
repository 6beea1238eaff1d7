-- ===== src/Isa/Layout.antt =====
-- Where the builders of verif/isa.py put each field: a word is the sum of its shifted fields.
use rv32i_cpu.Base.{ℕ, ◌+◌, ◌*◌, ◌/◌, ◌%◌, ◌^◌, ◌<◌, ◌≡◌, refl, arith, bit_or}
use rv32i_cpu.Base.Int.{ℤ, mod_ℤ}
use rv32i_cpu.Base.BitOps.{or_add, and_low, and_ℤ_low}
use rv32i_cpu.Isa.{r_type, i_type, s_type, b_type, u_type, j_type}

-- The fields that are no immediate, in their ranges.
abbrev pub InRange : ℕ → ℕ → ℕ → ℕ → ℕ → Type 0
InRange rs2 rs1 funct3 rd opcode =
    (rs2 < 32) × (rs1 < 32) × (funct3 < 8) × (rd < 32) × (opcode < 128)

-- Four disjoint fields below a part that ends at bit 20.
join_low :
    (x c d e f : ℕ)
    → x % 2 ^ 20 ≡ 0
    → InRange 0 c d e f
    → bit_or (bit_or (bit_or (bit_or x (c * 2 ^ 15)) (d * 2 ^ 12)) (e * 2 ^ 7)) f
      ≡ x + c * 2 ^ 15 + d * 2 ^ 12 + e * 2 ^ 7 + f
join_low x c d e f hx h =
    rw
      (
        or_add 20 x (c * 2 ^ 15) hx (omega arith),
        or_add 15 (x + c * 2 ^ 15) (d * 2 ^ 12) (omega arith) (omega arith),
        or_add 12 (x + c * 2 ^ 15 + d * 2 ^ 12) (e * 2 ^ 7) (omega arith) (omega arith),
        or_add 7 (x + c * 2 ^ 15 + d * 2 ^ 12 + e * 2 ^ 7) f (omega arith) (omega arith),
      )
      refl

join_fields :
    (a b c d e f : ℕ)
    → InRange b c d e f
    → bit_or
        (bit_or
          (bit_or (bit_or (bit_or (a * 2 ^ 25) (b * 2 ^ 20)) (c * 2 ^ 15)) (d * 2 ^ 12))
          (e * 2 ^ 7))
        f
      ≡ a * 2 ^ 25 + b * 2 ^ 20 + c * 2 ^ 15 + d * 2 ^ 12 + e * 2 ^ 7 + f
join_fields a b c d e f h =
    rw (or_add 25 (a * 2 ^ 25) (b * 2 ^ 20) (omega arith) (omega arith))
      (join_low (a * 2 ^ 25 + b * 2 ^ 20) c d e f (omega arith) (omega arith))

pub r_type_sum :
    (funct7 rs2 rs1 funct3 rd opcode : ℕ)
    → InRange rs2 rs1 funct3 rd opcode
    → r_type funct7 rs2 rs1 funct3 rd opcode
      ≡ funct7 * 2 ^ 25 + rs2 * 2 ^ 20 + rs1 * 2 ^ 15 + funct3 * 2 ^ 12 + rd * 2 ^ 7 + opcode
unfolding r_type
r_type_sum funct7 rs2 rs1 funct3 rd opcode h = join_fields funct7 rs2 rs1 funct3 rd opcode h

pub i_type_sum :
    (imm : ℤ) (rs1 funct3 rd opcode : ℕ)
    → InRange 0 rs1 funct3 rd opcode
    → i_type imm rs1 funct3 rd opcode
      ≡ mod_ℤ imm (2 ^ 12) * 2 ^ 20 + rs1 * 2 ^ 15 + funct3 * 2 ^ 12 + rd * 2 ^ 7 + opcode
unfolding i_type
i_type_sum imm rs1 funct3 rd opcode h =
    rw (and_ℤ_low 12 imm)
      (join_low (mod_ℤ imm (2 ^ 12) * 2 ^ 20) rs1 funct3 rd opcode (omega arith) h)

pub s_type_sum :
    (imm : ℤ) (rs2 rs1 funct3 opcode : ℕ)
    → InRange rs2 rs1 funct3 0 opcode
    → s_type imm rs2 rs1 funct3 opcode
      ≡ mod_ℤ imm (2 ^ 12) / 2 ^ 5 * 2 ^ 25
        + rs2 * 2 ^ 20
        + rs1 * 2 ^ 15
        + funct3 * 2 ^ 12
        + mod_ℤ imm (2 ^ 12) % 2 ^ 5 * 2 ^ 7
        + opcode
unfolding s_type
s_type_sum imm rs2 rs1 funct3 opcode h =
    let u = mod_ℤ imm (2 ^ 12) in
    rw (and_ℤ_low 12 imm, and_low 5 (mod_ℤ imm (2 ^ 12)))
      (join_fields (u / 2 ^ 5) rs2 rs1 funct3 (u % 2 ^ 5) opcode (omega arith))

-- The bits of a branch offset, in the order of the word.
abbrev pub b_sum : ℕ → ℕ → ℕ → ℕ → ℕ → ℕ
b_sum u rs2 rs1 funct3 opcode =
    u / 2 ^ 12 % 2 * 2 ^ 31
    + u / 2 ^ 5 % 2 ^ 6 * 2 ^ 25
    + rs2 * 2 ^ 20
    + rs1 * 2 ^ 15
    + funct3 * 2 ^ 12
    + u / 2 % 2 ^ 4 * 2 ^ 8
    + u / 2 ^ 11 % 2 * 2 ^ 7
    + opcode

join_branch :
    (p q rs2 rs1 funct3 r t opcode : ℕ)
    → p < 2
    → q < 64
    → r < 16
    → t < 2
    → InRange rs2 rs1 funct3 0 opcode
    → bit_or
        (bit_or
          (bit_or
            (bit_or
              (bit_or (bit_or (bit_or (p * 2 ^ 31) (q * 2 ^ 25)) (rs2 * 2 ^ 20)) (rs1 * 2 ^ 15))
              (funct3 * 2 ^ 12))
            (r * 2 ^ 8))
          (t * 2 ^ 7))
        opcode
      ≡ p * 2 ^ 31
        + q * 2 ^ 25
        + rs2 * 2 ^ 20
        + rs1 * 2 ^ 15
        + funct3 * 2 ^ 12
        + r * 2 ^ 8
        + t * 2 ^ 7
        + opcode
join_branch p q rs2 rs1 funct3 r t opcode hp hq hr ht h =
    let x = p * 2 ^ 31 + q * 2 ^ 25 in
    let y = x + rs2 * 2 ^ 20 + rs1 * 2 ^ 15 + funct3 * 2 ^ 12 in
    rw
      (
        or_add 31 (p * 2 ^ 31) (q * 2 ^ 25) (omega arith) (omega arith),
        or_add 25 x (rs2 * 2 ^ 20) (omega arith) (omega arith),
        or_add 20 (x + rs2 * 2 ^ 20) (rs1 * 2 ^ 15) (omega arith) (omega arith),
        or_add 15 (x + rs2 * 2 ^ 20 + rs1 * 2 ^ 15) (funct3 * 2 ^ 12) (omega arith) (omega arith),
        or_add 12 y (r * 2 ^ 8) (omega arith) (omega arith),
        or_add 8 (y + r * 2 ^ 8) (t * 2 ^ 7) (omega arith) (omega arith),
        or_add 7 (y + r * 2 ^ 8 + t * 2 ^ 7) opcode (omega arith) (omega arith),
      )
      refl

pub b_type_sum :
    (imm : ℤ) (rs2 rs1 funct3 opcode : ℕ)
    → InRange rs2 rs1 funct3 0 opcode
    → b_type imm rs2 rs1 funct3 opcode ≡ b_sum (mod_ℤ imm (2 ^ 13)) rs2 rs1 funct3 opcode
unfolding b_type
b_type_sum imm rs2 rs1 funct3 opcode h =
    let u = mod_ℤ imm (2 ^ 13) in
    rw
      (
        and_ℤ_low 13 imm,
        and_low 1 (u / 2 ^ 12),
        and_low 6 (u / 2 ^ 5),
        and_low 4 (u / 2 ^ 1),
        and_low 1 (u / 2 ^ 11),
      )
      (join_branch (u / 2 ^ 12 % 2) (u / 2 ^ 5 % 2 ^ 6) rs2 rs1 funct3 (u / 2 % 2 ^ 4)
        (u / 2 ^ 11 % 2) opcode (omega arith) (omega arith) (omega arith) (omega arith) h)

pub u_type_sum :
    (imm : ℤ) (rd opcode : ℕ)
    → InRange 0 0 0 rd opcode
    → u_type imm rd opcode ≡ mod_ℤ imm (2 ^ 20) * 2 ^ 12 + rd * 2 ^ 7 + opcode
unfolding u_type
u_type_sum imm rd opcode h =
    let u = mod_ℤ imm (2 ^ 20) in
    rw
      (
        and_ℤ_low 20 imm,
        or_add 12 (u * 2 ^ 12) (rd * 2 ^ 7) (omega arith) (omega arith),
        or_add 7 (u * 2 ^ 12 + rd * 2 ^ 7) opcode (omega arith) (omega arith),
      )
      refl

-- The bits of a jump offset, in the order of the word.
abbrev pub j_sum : ℕ → ℕ → ℕ → ℕ
j_sum u rd opcode =
    u / 2 ^ 20 % 2 * 2 ^ 31
    + u / 2 % 2 ^ 10 * 2 ^ 21
    + u / 2 ^ 11 % 2 * 2 ^ 20
    + u / 2 ^ 12 % 2 ^ 8 * 2 ^ 12
    + rd * 2 ^ 7
    + opcode

pub j_type_sum :
    (imm : ℤ) (rd opcode : ℕ)
    → InRange 0 0 0 rd opcode
    → j_type imm rd opcode ≡ j_sum (mod_ℤ imm (2 ^ 21)) rd opcode
unfolding j_type
j_type_sum imm rd opcode h =
    let u = mod_ℤ imm (2 ^ 21) in
    let p = u / 2 ^ 20 % 2 * 2 ^ 31 in
    let q = u / 2 % 2 ^ 10 * 2 ^ 21 in
    let r = u / 2 ^ 11 % 2 * 2 ^ 20 in
    let t = u / 2 ^ 12 % 2 ^ 8 * 2 ^ 12 in
    rw
      (
        and_ℤ_low 21 imm,
        and_low 1 (u / 2 ^ 20),
        and_low 10 (u / 2 ^ 1),
        and_low 1 (u / 2 ^ 11),
        and_low 8 (u / 2 ^ 12),
        or_add 31 p q (omega arith) (omega arith),
        or_add 21 (p + q) r (omega arith) (omega arith),
        or_add 20 (p + q + r) t (omega arith) (omega arith),
        or_add 12 (p + q + r + t) (rd * 2 ^ 7) (omega arith) (omega arith),
        or_add 7 (p + q + r + t + rd * 2 ^ 7) opcode (omega arith) (omega arith),
      )
      refl
