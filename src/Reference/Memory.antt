-- ===== src/Reference/Memory.antt =====
-- The class `MemModel` of verif/unit/tb_memory.py. Its constant WORDS is an argument, `count`.
use rv32i_cpu.Base.{
  ℕ, ◌*◌, ◌%◌, Bool, false, ◌||◌, List, bit_and, bit_or, ◌==◌, ◌!=◌, if◌then◌else◌, ◌<<<◌, ◌>>>◌,
  get_or, set, replicate,
}
use rv32i_cpu.Base.BitOps.{and_not}
use rv32i_cpu.Bits.{mask32, sign_extend}

abbrev pub new : ℕ → List ℕ
new count = replicate count 0

unfoldable pub index : ℕ → ℕ → ℕ
index count addr = (addr >>> 2) % count

unfoldable pub misaligned : ℕ → ℕ → Bool
misaligned op addr =
    if op == 0b001 || op == 0b101
    then bit_and addr 1 != 0
    else if op == 0b010
    then bit_and addr 3 != 0
    else false

unfoldable pub load : ℕ → List ℕ → ℕ → ℕ → ℕ
unfolding index
load count words op addr =
    let word = get_or words (index count addr) 0 in
    let off = bit_and addr 3 in
    let lane_b = bit_and (word >>> (8 * off)) 0xff in
    let lane_h =
      if bit_and addr 2 != 0 then bit_and (word >>> 16) 0xffff else bit_and word 0xffff in
    if op == 0b000
    then sign_extend lane_b 8
    else if op == 0b001
    then sign_extend lane_h 16
    else if op == 0b100
    then lane_b
    else if op == 0b101
    then lane_h
    else word

unfoldable pub store : ℕ → List ℕ → ℕ → ℕ → ℕ → List ℕ
unfolding index misaligned and_not
store count words op addr value =
    if misaligned op addr
    then words
    else (let idx = index count addr in
        let off = bit_and addr 3 in
        let word = get_or words idx 0 in
        let mask = 0xff <<< (8 * off) in
        let shift : ℕ = if bit_and addr 2 != 0 then 16 else 0 in
        let merged =
          if op == 0b000
          then bit_or (bit_and (and_not word mask) mask32) (bit_and value 0xff <<< (8 * off))
          else if op == 0b001
          then bit_or (bit_and (and_not word (0xffff <<< shift)) mask32)
              (bit_and value 0xffff <<< shift)
          else bit_and value mask32 in
        set words idx merged)
