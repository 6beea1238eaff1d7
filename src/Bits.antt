-- ===== src/Bits.antt =====
-- verif/bits.py: fields of a word and two's complement. Words are numbers that are not negative,
-- and a signed value is an integer.
pub mod Laws
use rv32i_cpu.Base.{ℕ, ◌+◌, ◌-◌, ◌^◌, bit_and, ◌>>>◌, ◌!=◌, if◌then◌else◌}
use rv32i_cpu.Base.Int.{ℤ, pos, ◌-ℤ◌, and_ℤ}

abbrev pub mask32 : ℕ
mask32 = 0xffff_ffff

-- `value[hi:lo]`, both ends included.
unfoldable pub bits : ℕ → ℕ → ℕ → ℕ
bits value hi lo = bit_and (value >>> lo) (2 ^ (hi - lo + 1) - 1)

unfoldable pub to_signed : ℕ → ℕ → ℤ
unfolding ◌-ℤ◌
to_signed value width =
    let v = bit_and value (2 ^ width - 1) in
    if v >>> (width - 1) != 0 then pos v -ℤ pos (2 ^ width) else pos v

unfoldable pub sign_extend : ℕ → ℕ → ℕ
unfolding to_signed and_ℤ
sign_extend value width = and_ℤ (to_signed value width) mask32
