-- ===== src/Iss/Alu.antt =====
-- `Iss._alu` and `Iss._branch_taken`.
use rv32i_cpu.Base.{
  ℕ, ◌+◌, Bool, bit_and, bit_or, bit_xor, ltb, leb, ◌==◌, ◌!=◌, if◌then◌else◌, to_int, ◌<<<◌, ◌>>>◌,
}
use rv32i_cpu.Base.Int.{pos, ◌-ℤ◌, and_ℤ, shr_ℤ, ltb_ℤ, leb_ℤ}
use rv32i_cpu.Bits.{mask32, to_signed}

unfoldable pub alu : ℕ → ℕ → ℕ → ℕ → ℕ
unfolding ◌-ℤ◌ and_ℤ shr_ℤ
alu funct3 funct7_bit5 a b =
    let shamt = bit_and b 0x1f in
    if funct3 == 0b000
    then (if funct7_bit5 != 0 then and_ℤ (pos a -ℤ pos b) mask32 else bit_and (a + b) mask32)
    else if funct3 == 0b001
    then bit_and (a <<< shamt) mask32
    else if funct3 == 0b010
    then to_int (ltb_ℤ (to_signed a 32) (to_signed b 32))
    else if funct3 == 0b011
    then to_int (ltb a b)
    else if funct3 == 0b100
    then bit_xor a b
    else if funct3 == 0b101
    then (if funct7_bit5 != 0 then and_ℤ (shr_ℤ (to_signed a 32) shamt) mask32 else a >>> shamt)
    else if funct3 == 0b110
    then bit_or a b
    else bit_and a b

unfoldable pub branch_taken : ℕ → ℕ → ℕ → Bool
branch_taken funct3 a b =
    if funct3 == 0b000
    then a == b
    else if funct3 == 0b001
    then a != b
    else if funct3 == 0b100
    then ltb_ℤ (to_signed a 32) (to_signed b 32)
    else if funct3 == 0b101
    then leb_ℤ (to_signed b 32) (to_signed a 32)
    else if funct3 == 0b110
    then ltb a b
    else leb b a
