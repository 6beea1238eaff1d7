-- ===== src/Isa/RoundTrip.antt =====
-- The builders of verif/isa.py against the decoding of verif/iss.py: what a builder puts into a
-- word, the simulator takes out again.
use rv32i_cpu.Base.{ℕ, ◌*◌, ◌/◌, ◌%◌, ◌^◌, ◌<◌, ◌≡◌, sym, ap, ◌∙◌, arith}
use rv32i_cpu.Base.Int.{ℤ, pos, negsuc, ◌≤ℤ◌, and_ℤ, mod_ℤ}
use rv32i_cpu.Base.BitOps.{and_ℤ_low}
use rv32i_cpu.Bits.{mask32}
use rv32i_cpu.Bits.Laws.{extended}
use rv32i_cpu.Isa.{r_type, i_type, s_type, b_type, u_type, j_type}
use rv32i_cpu.Isa.Layout.{
  InRange, r_type_sum, i_type_sum, s_type_sum, b_type_sum, u_type_sum, j_type_sum,
}
use rv32i_cpu.Iss.Decode.{fields, imm_i, imm_s, imm_b, imm_u, imm_j}
use rv32i_cpu.Iss.Decode.Sums.{
  fields_sum, imm_i_sum, imm_s_sum, imm_b_sum, imm_u_sum, imm_j_sum, s_offset, b_offset, j_offset,
}

-- Every field of an R-type word comes back, and the word has 32 bits.
pub fields-r_type :
    (funct7 rs2 rs1 funct3 rd opcode : ℕ)
    → funct7 < 128
    → InRange rs2 rs1 funct3 rd opcode
    → (fields (r_type funct7 rs2 rs1 funct3 rd opcode) ≡ record {
      opcode = opcode;
      rd = rd;
      rs1 = rs1;
      rs2 = rs2;
      funct3 = funct3;
      funct7 = funct7;
    })
      × (r_type funct7 rs2 rs1 funct3 rd opcode < 2 ^ 32)
fields-r_type funct7 rs2 rs1 funct3 rd opcode h7 h =
    let word = r_type funct7 rs2 rs1 funct3 rd opcode in
    ground (arith, fields_sum word, r_type_sum funct7 rs2 rs1 funct3 rd opcode h)

-- Two's complement of 12, 13 and 21 bits, extended, is the number as a word.
module _ (imm : ℤ) where
  extend_12 :
      negsuc 2047 ≤ℤ imm → imm ≤ℤ pos 2047 → extended 11 (mod_ℤ imm (2 ^ 12)) ≡ mod_ℤ imm (2 ^ 32)
  extend_12 lo hi = ground arith

  extend_13 :
      negsuc 4095 ≤ℤ imm → imm ≤ℤ pos 4095 → extended 12 (mod_ℤ imm (2 ^ 13)) ≡ mod_ℤ imm (2 ^ 32)
  extend_13 lo hi = ground arith

  extend_21 :
      negsuc 1048575 ≤ℤ imm
      → imm ≤ℤ pos 1048575
      → extended 20 (mod_ℤ imm (2 ^ 21)) ≡ mod_ℤ imm (2 ^ 32)
  extend_21 lo hi = ground arith

  pub mod-lt :
      (mod_ℤ imm (2 ^ 12) < 2 ^ 12)
      × (mod_ℤ imm (2 ^ 13) < 2 ^ 13)
      × (mod_ℤ imm (2 ^ 20) < 2 ^ 20)
      × (mod_ℤ imm (2 ^ 21) < 2 ^ 21)
  mod-lt = ground arith

  even-mod : mod_ℤ imm 2 ≡ 0 → (mod_ℤ imm (2 ^ 13) % 2 ≡ 0) × (mod_ℤ imm (2 ^ 21) % 2 ≡ 0)
  even-mod h = ground arith

-- An I-type word with an offset of 12 signed bits decodes to its fields and to that offset as a
-- word.
pub imm_i-i_type :
    (imm : ℤ) (rs1 funct3 rd opcode : ℕ)
    → negsuc 2047 ≤ℤ imm
    → imm ≤ℤ pos 2047
    → InRange 0 rs1 funct3 rd opcode
    → let inst = i_type imm rs1 funct3 rd opcode in
      (imm_i inst ≡ and_ℤ imm mask32)
      × ((fields inst).opcode ≡ opcode)
      × ((fields inst).rd ≡ rd)
      × ((fields inst).rs1 ≡ rs1)
      × ((fields inst).funct3 ≡ funct3)
imm_i-i_type imm rs1 funct3 rd opcode lo hi h =
    let word = i_type imm rs1 funct3 rd opcode in
    let low : word / 2 ^ 20 % 2 ^ 12 ≡ mod_ℤ imm (2 ^ 12) =
      omega (arith, i_type_sum imm rs1 funct3 rd opcode h, mod-lt imm) in
    let offset : imm_i word ≡ and_ℤ imm mask32 =
      imm_i_sum word ∙ ap (extended 11) low ∙ extend_12 imm lo hi ∙ sym (and_ℤ_low 32 imm) in
    ground (arith, fields_sum word, i_type_sum imm rs1 funct3 rd opcode h)

-- An S-type word with an offset of 12 signed bits decodes to its fields and to that offset as a
-- word.
pub imm_s-s_type :
    (imm : ℤ) (rs2 rs1 funct3 opcode : ℕ)
    → negsuc 2047 ≤ℤ imm
    → imm ≤ℤ pos 2047
    → InRange rs2 rs1 funct3 0 opcode
    → let inst = s_type imm rs2 rs1 funct3 opcode in
      (imm_s inst ≡ and_ℤ imm mask32)
      × ((fields inst).opcode ≡ opcode)
      × ((fields inst).rs2 ≡ rs2)
      × ((fields inst).rs1 ≡ rs1)
      × ((fields inst).funct3 ≡ funct3)
imm_s-s_type imm rs2 rs1 funct3 opcode lo hi h =
    let word = s_type imm rs2 rs1 funct3 opcode in
    let low : s_offset word ≡ mod_ℤ imm (2 ^ 12) =
      omega (arith, s_type_sum imm rs2 rs1 funct3 opcode h, mod-lt imm) in
    let offset : imm_s word ≡ and_ℤ imm mask32 =
      imm_s_sum word ∙ ap (extended 11) low ∙ extend_12 imm lo hi ∙ sym (and_ℤ_low 32 imm) in
    ground (arith, fields_sum word, s_type_sum imm rs2 rs1 funct3 opcode h, mod-lt imm)

-- A B-type word with an even offset of 13 signed bits decodes to its fields and to that offset as
-- a word.
pub imm_b-b_type :
    (imm : ℤ) (rs2 rs1 funct3 opcode : ℕ)
    → negsuc 4095 ≤ℤ imm
    → imm ≤ℤ pos 4095
    → mod_ℤ imm 2 ≡ 0
    → InRange rs2 rs1 funct3 0 opcode
    → let inst = b_type imm rs2 rs1 funct3 opcode in
      (imm_b inst ≡ and_ℤ imm mask32)
      × ((fields inst).opcode ≡ opcode)
      × ((fields inst).rs2 ≡ rs2)
      × ((fields inst).rs1 ≡ rs1)
      × ((fields inst).funct3 ≡ funct3)
imm_b-b_type imm rs2 rs1 funct3 opcode lo hi even h =
    let word = b_type imm rs2 rs1 funct3 opcode in
    let low : b_offset word ≡ mod_ℤ imm (2 ^ 13) =
      omega (arith, b_type_sum imm rs2 rs1 funct3 opcode h, even-mod imm even, mod-lt imm) in
    let offset : imm_b word ≡ and_ℤ imm mask32 =
      imm_b_sum word ∙ ap (extended 12) low ∙ extend_13 imm lo hi ∙ sym (and_ℤ_low 32 imm) in
    ground (arith, fields_sum word, b_type_sum imm rs2 rs1 funct3 opcode h)

-- A U-type word decodes to its fields and to the low 20 bits of the immediate in the upper 20
-- bits.
pub imm_u-u_type :
    (imm : ℤ) (rd opcode : ℕ)
    → InRange 0 0 0 rd opcode
    → let inst = u_type imm rd opcode in
      (imm_u inst ≡ and_ℤ imm 0xfffff * 2 ^ 12)
      × ((fields inst).opcode ≡ opcode)
      × ((fields inst).rd ≡ rd)
imm_u-u_type imm rd opcode h =
    let word = u_type imm rd opcode in
    ground (
      arith,
      fields_sum word,
      u_type_sum imm rd opcode h,
      imm_u_sum word,
      and_ℤ_low 20 imm,
      mod-lt imm,
    )

-- A J-type word with an even offset of 21 signed bits decodes to its fields and to that offset as
-- a word.
pub imm_j-j_type :
    (imm : ℤ) (rd opcode : ℕ)
    → negsuc 1048575 ≤ℤ imm
    → imm ≤ℤ pos 1048575
    → mod_ℤ imm 2 ≡ 0
    → InRange 0 0 0 rd opcode
    → let inst = j_type imm rd opcode in
      (imm_j inst ≡ and_ℤ imm mask32) × ((fields inst).opcode ≡ opcode) × ((fields inst).rd ≡ rd)
imm_j-j_type imm rd opcode lo hi even h =
    let word = j_type imm rd opcode in
    let low : j_offset word ≡ mod_ℤ imm (2 ^ 21) =
      omega (arith, j_type_sum imm rd opcode h, even-mod imm even, mod-lt imm) in
    let offset : imm_j word ≡ and_ℤ imm mask32 =
      imm_j_sum word ∙ ap (extended 20) low ∙ extend_21 imm lo hi ∙ sym (and_ℤ_low 32 imm) in
    ground (arith, fields_sum word, j_type_sum imm rd opcode h)
