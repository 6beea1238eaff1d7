-- ===== src/Unit/Memory.antt =====
-- rtl/memory.sv: the pins of the memory, its outputs, and a clock edge. The array is a list of
-- `2 ^ idx_bits` words, and `idx_bits`, IDX_BITS of the source, is an argument.
pub mod Same
pub mod Bench
pub mod Passing
use rv32i_cpu.Base.{
  ℕ, ◌+◌, ◌*◌, Bool, true, false, not, ◌&&◌, ◌||◌, List, ◌==◌, ◌!=◌, if◌then◌else◌, ◌<<<◌, get_or,
  set,
}
use rv32i_cpu.Bits.{bits, sign_extend}

pub record MemoryPins : Type 0 where
  pub i_addr : ℕ
  pub d_addr : ℕ
  pub d_op : ℕ
  pub d_read : Bool
  pub d_write : Bool
  pub d_wdata : ℕ

-- `i_index` and `d_index`.
unfoldable pub index_of : ℕ → ℕ → ℕ
index_of idx_bits addr = bits addr (idx_bits + 1) 2

unfoldable pub i_rdata : ℕ → MemoryPins → List ℕ → ℕ
i_rdata idx_bits pins mem = get_or mem (index_of idx_bits pins.i_addr) 0

unfoldable pub unaligned : ℕ → ℕ → Bool
unaligned op addr =
    if op == 0b001 || op == 0b101
    then bits addr 0 0 != 0
    else if op == 0b010
    then bits addr 1 0 != 0
    else false

unfoldable pub d_misaligned : MemoryPins → Bool
d_misaligned pins = (pins.d_read || pins.d_write) && unaligned pins.d_op pins.d_addr

unfoldable pub lane_b : ℕ → ℕ → ℕ
lane_b word off =
    if off == 0
    then bits word 7 0
    else if off == 1
    then bits word 15 8
    else if off == 2
    then bits word 23 16
    else bits word 31 24

unfoldable pub lane_h : ℕ → ℕ → ℕ
lane_h word off = if bits off 1 1 != 0 then bits word 31 16 else bits word 15 0

-- The load path. A replicated sign bit is a sign extension.
unfoldable pub d_rdata : ℕ → MemoryPins → List ℕ → ℕ
d_rdata idx_bits pins mem =
    let word = get_or mem (index_of idx_bits pins.d_addr) 0 in
    let off = bits pins.d_addr 1 0 in
    if pins.d_op == 0b000
    then sign_extend (lane_b word off) 8
    else if pins.d_op == 0b001
    then sign_extend (lane_h word off) 16
    else if pins.d_op == 0b010
    then word
    else if pins.d_op == 0b100
    then lane_b word off
    else if pins.d_op == 0b101
    then lane_h word off
    else word

-- The store path. A concatenation is a sum of shifted fields.
unfoldable pub byte_en : ℕ → ℕ → ℕ
byte_en op off =
    if op == 0b000
    then bits (1 <<< off) 3 0
    else if op == 0b001
    then if bits off 1 1 != 0 then 0b1100 else 0b0011
    else 0b1111

unfoldable pub wdata_lanes : ℕ → ℕ → ℕ
wdata_lanes op wdata =
    if op == 0b000
    then bits wdata 7 0 * 0x0101_0101
    else if op == 0b001
    then bits wdata 15 0 * 0x0001_0001
    else wdata

unfoldable pub merged : ℕ → ℕ → ℕ → ℕ
merged enable lanes word =
    (if bits enable 0 0 != 0 then bits lanes 7 0 else bits word 7 0)
    + ((if bits enable 1 1 != 0 then bits lanes 15 8 else bits word 15 8) <<< 8)
    + ((if bits enable 2 2 != 0 then bits lanes 23 16 else bits word 23 16) <<< 16)
    + ((if bits enable 3 3 != 0 then bits lanes 31 24 else bits word 31 24) <<< 24)

unfoldable pub memory_edge : ℕ → MemoryPins → List ℕ → List ℕ
memory_edge idx_bits pins mem =
    if pins.d_write && not (d_misaligned pins)
    then (let index = index_of idx_bits pins.d_addr in
        set mem index (
          merged (byte_en pins.d_op (bits pins.d_addr 1 0)) (wdata_lanes pins.d_op pins.d_wdata)
            (get_or mem index 0)))
    else mem
