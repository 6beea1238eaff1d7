-- ===== src/Iss/Memory.antt =====
-- The memory methods of `Iss`: an array of words, addressed by bytes, that wraps round.
pub mod Lanes
pub mod Bytes
pub mod RoundTrip
use rv32i_cpu.Base.{
  ℕ, ◌*◌, ◌%◌, Bool, false, ◌||◌, bit_and, bit_or, ◌==◌, ◌!=◌, if◌then◌else◌, ◌<<<◌, ◌>>>◌, get_or,
  set,
}
use rv32i_cpu.Base.BitOps.{and_not}
use rv32i_cpu.Bits.{mask32, sign_extend}
use rv32i_cpu.Iss.State.{Iss}

unfoldable pub index : Iss → ℕ → ℕ
index s addr = (addr >>> 2) % s.words

unfoldable pub misaligned : ℕ → ℕ → Bool
misaligned funct3 addr =
    if funct3 == 0b001 || funct3 == 0b101
    then bit_and addr 1 != 0
    else if funct3 == 0b010
    then bit_and addr 3 != 0
    else false

-- The part of a word that a load of `funct3` at `addr` reads.
unfoldable pub read_lane : ℕ → ℕ → ℕ → ℕ
read_lane word funct3 addr =
    let lane_b = bit_and (word >>> (8 * bit_and addr 3)) 0xff in
    let lane_h =
      if bit_and addr 2 != 0 then bit_and (word >>> 16) 0xffff else bit_and word 0xffff in
    if funct3 == 0b000
    then sign_extend lane_b 8
    else if funct3 == 0b001
    then sign_extend lane_h 16
    else if funct3 == 0b100
    then lane_b
    else if funct3 == 0b101
    then lane_h
    else word

unfoldable pub load : Iss → ℕ → ℕ → ℕ
unfolding index read_lane
load s funct3 addr = read_lane (get_or s.mem (index s addr) 0) funct3 addr

-- The word after a store of `funct3` at `addr`. `~` makes a negative number in Python, and the
-- mask behind it a word again.
unfoldable pub write_lane : ℕ → ℕ → ℕ → ℕ → ℕ
unfolding and_not
write_lane word funct3 addr value =
    if funct3 == 0b000
    then (let shift = 8 * bit_and addr 3 in
        bit_or (bit_and (and_not word (0xff <<< shift)) mask32) (bit_and value 0xff <<< shift))
    else if funct3 == 0b001
    then (let shift : ℕ = if bit_and addr 2 != 0 then 16 else 0 in
        bit_or (bit_and (and_not word (0xffff <<< shift)) mask32) (bit_and value 0xffff <<< shift))
    else bit_and value mask32

unfoldable pub store : Iss → ℕ → ℕ → ℕ → Iss
unfolding index write_lane
store s funct3 addr value =
    let i = index s addr in
    record s { mem = set s.mem i (write_lane (get_or s.mem i 0) funct3 addr value) }
