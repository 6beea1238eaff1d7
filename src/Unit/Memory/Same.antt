-- ===== src/Unit/Memory/Same.antt =====
-- rtl/memory.sv computes what the class `MemModel` of verif/unit/tb_memory.py computes.
use rv32i_cpu.Base.{
  ℕ, zero, suc, ◌+◌, ◌*◌, ◌/◌, ◌%◌, ◌^◌, ◌-◌, ◌≤◌, ◌<◌, ◌≡◌, refl, arith, Bool, true, false, List,
  ◌!=◌, if◌then◌else◌, bit_and, get_or, set, All, All-get_or, All-set, if_elim, length, length-set,
  Bool-cases, ◌||◌, inl, inr, ◌>>>◌,
}
use rv32i_cpu.Base.BitOps.{and_low}
use rv32i_cpu.Bits.{bits}
use rv32i_cpu.Bits.Laws.{bits_lem}
use rv32i_cpu.Iss.Memory.{write_lane}
use rv32i_cpu.Iss.Memory.Lanes.{put, bit_one, write_lane-byte, write_lane-half, write_lane-word}
use rv32i_cpu.Iss.Memory.RoundTrip.{write_lane-lt}
use rv32i_cpu.Reference.Memory
use rv32i_cpu.Unit.Memory.{
  MemoryPins, index_of, unaligned, d_misaligned, lane_b, lane_h, d_rdata, byte_en, wdata_lanes,
  merged, memory_edge,
}

pub index_of-index : (k addr : ℕ) → 1 ≤ k → index_of k addr ≡ Memory.index (2 ^ k) addr
unfolding index_of Memory.index
index_of-index k addr h =
    let e : k + 1 - 2 + 1 ≡ k = omega arith in rw (bits_lem addr (k + 1) 2, e) refl

pub unaligned-misaligned : (op addr : ℕ) → unaligned op addr ≡ Memory.misaligned op addr
unfolding unaligned Memory.misaligned
unaligned-misaligned op addr =
    ground (arith, bits_lem addr 0 0, bits_lem addr 1 0, and_low 1 addr, and_low 2 addr)

low_two : (addr : ℕ) → bits addr 1 0 ≡ addr % 4
low_two addr = omega (arith, bits_lem addr 1 0)

lane_b-shift : (word off : ℕ) → off < 4 → lane_b word off ≡ bit_and (word >>> (8 * off)) 0xff
unfolding lane_b bits
lane_b-shift word zero h = refl
lane_b-shift word (suc zero) h = refl
lane_b-shift word (suc (suc zero)) h = refl
lane_b-shift word (suc (suc (suc zero))) h = refl
lane_b-shift word (suc (suc (suc (suc off)))) h = absurd (omega arith)

lane_h-half :
    (word addr : ℕ)
    → lane_h word (addr % 4)
      ≡ (if bit_and addr 2 != 0 then bit_and (word >>> 16) 0xffff else bit_and word 0xffff)
unfolding lane_h
lane_h-half word addr = ground (
  arith,
  bit_one addr,
  bits_lem (addr % 4) 1 1,
  bits_lem word 31 16,
  bits_lem word 15 0,
  and_low 16 word,
  and_low 16 (word / 2 ^ 16),
)

pub d_rdata-load :
    (k : ℕ) (pins : MemoryPins) (mem : List ℕ)
    → 1 ≤ k
    → d_rdata k pins mem ≡ Memory.load (2 ^ k) mem pins.d_op pins.d_addr
unfolding d_rdata Memory.load
d_rdata-load k pins mem h =
    rw
      (
        index_of-index k pins.d_addr h,
        low_two pins.d_addr,
        and_low 2 pins.d_addr,
        lane_h-half (get_or mem (Memory.index (2 ^ k) pins.d_addr) 0) pins.d_addr,
        lane_b-shift (get_or mem (Memory.index (2 ^ k) pins.d_addr) 0) (pins.d_addr % 4)
            (omega arith),
      )
      (ground arith)

merged_bits :
    (enable lanes word : ℕ)
    → merged enable lanes word ≡ (
        (if enable / 2 ^ 0 % 2 != 0 then lanes / 2 ^ 0 % 2 ^ 8 else word / 2 ^ 0 % 2 ^ 8)
        + (if enable / 2 % 2 != 0 then lanes / 2 ^ 8 % 2 ^ 8 else word / 2 ^ 8 % 2 ^ 8) * 2 ^ 8
        + (if enable / 4 % 2 != 0 then lanes / 2 ^ 16 % 2 ^ 8 else word / 2 ^ 16 % 2 ^ 8) * 2 ^ 16
        + (if enable / 8 % 2 != 0 then lanes / 2 ^ 24 % 2 ^ 8 else word / 2 ^ 24 % 2 ^ 8) * 2 ^ 24)
unfolding merged
merged_bits enable lanes word =
    rw
      (
        bits_lem enable 0 0,
        bits_lem enable 1 1,
        bits_lem enable 2 2,
        bits_lem enable 3 3,
        bits_lem lanes 7 0,
        bits_lem lanes 15 8,
        bits_lem lanes 23 16,
        bits_lem lanes 31 24,
        bits_lem word 7 0,
        bits_lem word 15 8,
        bits_lem word 23 16,
        bits_lem word 31 24,
      )
      refl

replicated_byte : (wdata : ℕ) → wdata_lanes 0 wdata ≡ wdata % 2 ^ 8 * 0x0101_0101
unfolding wdata_lanes
replicated_byte wdata = omega (arith, bits_lem wdata 7 0)

replicated_half : (wdata : ℕ) → wdata_lanes 1 wdata ≡ wdata % 2 ^ 16 * 0x0001_0001
unfolding wdata_lanes
replicated_half wdata = omega (arith, bits_lem wdata 15 0)

merged_byte :
    (off wdata word : ℕ)
    → off < 4
    → word < 2 ^ 32
    → merged (byte_en 0 off) (wdata_lanes 0 wdata) word ≡ put 8 (8 * off) word wdata
unfolding byte_en bits
merged_byte zero wdata word h hw =
    rw (merged_bits (byte_en 0 0) (wdata_lanes 0 wdata) word, replicated_byte wdata) (omega arith)
merged_byte (suc zero) wdata word h hw =
    rw (merged_bits (byte_en 0 1) (wdata_lanes 0 wdata) word, replicated_byte wdata) (omega arith)
merged_byte (suc (suc zero)) wdata word h hw =
    rw (merged_bits (byte_en 0 2) (wdata_lanes 0 wdata) word, replicated_byte wdata) (omega arith)
merged_byte (suc (suc (suc zero))) wdata word h hw =
    rw (merged_bits (byte_en 0 3) (wdata_lanes 0 wdata) word, replicated_byte wdata) (omega arith)
merged_byte (suc (suc (suc (suc off)))) wdata word h hw = absurd (omega arith)

merged_half :
    (off wdata word : ℕ)
    → off < 4
    → off % 2 ≡ 0
    → word < 2 ^ 32
    → merged (byte_en 1 off) (wdata_lanes 1 wdata) word ≡ put 16 (8 * off) word wdata
unfolding byte_en bits
merged_half zero wdata word h even hw =
    rw (merged_bits (byte_en 1 0) (wdata_lanes 1 wdata) word, replicated_half wdata) (omega arith)
merged_half (suc (suc zero)) wdata word h even hw =
    rw (merged_bits (byte_en 1 2) (wdata_lanes 1 wdata) word, replicated_half wdata) (omega arith)
merged_half (suc zero) wdata word h even hw = absurd (omega arith)
merged_half (suc (suc (suc off))) wdata word h even hw = absurd (omega arith)

merged_word :
    (op off wdata word : ℕ)
    → 2 ≤ op
    → merged (byte_en op off) (wdata_lanes op wdata) word ≡ wdata % 2 ^ 32
unfolding byte_en wdata_lanes
merged_word op off wdata word h = ground (arith, merged_bits 15 wdata word)

lanes_of_word :
    (word : ℕ)
    → word % 2 ^ 32
      ≡ word % 2 ^ 8
        + word / 2 ^ 8 % 2 ^ 8 * 2 ^ 8
        + word / 2 ^ 16 % 2 ^ 8 * 2 ^ 16
        + word / 2 ^ 24 % 2 ^ 8 * 2 ^ 24
lanes_of_word word = omega arith

-- The word that an aligned store leaves is that of the golden model.
merged-write_lane :
    (op addr wdata word : ℕ)
    → word < 2 ^ 32
    → Memory.misaligned op addr ≡ false
    → merged (byte_en op (bits addr 1 0)) (wdata_lanes op wdata) word
      ≡ write_lane word op addr wdata
unfolding Memory.misaligned
merged-write_lane zero addr wdata word h al =
    rw (low_two addr, write_lane-byte word addr wdata h)
      (merged_byte (addr % 4) wdata word (omega arith) h)
merged-write_lane (suc zero) addr wdata word h al =
    let even : addr % 2 ≡ 0 = ground (arith, and_low 1 addr) in
    rw (low_two addr, write_lane-half word addr wdata h even)
      (merged_half (addr % 4) wdata word (omega arith) (omega arith) h)
merged-write_lane (suc (suc op)) addr wdata word h al =
    rw (write_lane-word word (suc (suc op)) addr wdata (omega arith))
      (merged_word (suc (suc op)) (bits addr 1 0) wdata word (omega arith))

pub store_lane :
    (count : ℕ) (mem : List ℕ) (op addr wdata : ℕ)
    → Memory.store count mem op addr wdata ≡ (
        if Memory.misaligned op addr
        then mem
        else set mem
            (Memory.index count addr)
            (write_lane (get_or mem (Memory.index count addr) 0) op addr wdata))
unfolding Memory.store write_lane
store_lane count mem op addr wdata = refl

or_true : (b : Bool) → (b || true) ≡ true
or_true b = ground arith

-- A clock edge with `d_write` high carries out the store of the model.
pub memory_edge-store :
    (k : ℕ) (pins : MemoryPins) (mem : List ℕ)
    → 1 ≤ k
    → All (λ w. w < 2 ^ 32) mem
    → pins.d_write ≡ true
    → memory_edge k pins mem ≡ Memory.store (2 ^ k) mem pins.d_op pins.d_addr pins.d_wdata
unfolding memory_edge d_misaligned
memory_edge-store k pins mem h small write =
    let word = get_or mem (Memory.index (2 ^ k) pins.d_addr) 0 in
    let word-lt : word < 2 ^ 32 =
      All-get_or (λ w. w < 2 ^ 32) mem (Memory.index (2 ^ k) pins.d_addr) 0 small (omega arith) in
    rw
      (
        write,
        or_true pins.d_read,
        unaligned-misaligned pins.d_op pins.d_addr,
        index_of-index k pins.d_addr h,
        store_lane (2 ^ k) mem pins.d_op pins.d_addr pins.d_wdata,
      )
      (elim (Bool-cases (Memory.misaligned pins.d_op pins.d_addr)) [
        | inl bad ↦ rw bad refl
        | inr al ↦
            rw (al, merged-write_lane pins.d_op pins.d_addr pins.d_wdata word word-lt al) refl
      ])

pub memory_edge_idle :
    (k : ℕ) (pins : MemoryPins) (mem : List ℕ) → pins.d_write ≡ false → memory_edge k pins mem ≡ mem
unfolding memory_edge
memory_edge_idle k pins mem idle = rw idle refl

-- The flag is that of the model while an access is made.
pub d_misaligned-misaligned :
    (pins : MemoryPins)
    → (pins.d_read || pins.d_write) ≡ true
    → d_misaligned pins ≡ Memory.misaligned pins.d_op pins.d_addr
unfolding d_misaligned
d_misaligned-misaligned pins access = rw (access, unaligned-misaligned pins.d_op pins.d_addr) refl

-- A store keeps the length of the array, and its words.
pub store-All :
    (count : ℕ) (mem : List ℕ) (op addr wdata : ℕ)
    → All (λ w. w < 2 ^ 32) mem
    → All (λ w. w < 2 ^ 32) (Memory.store count mem op addr wdata)
store-All count mem op addr wdata small = rw (store_lane count mem op addr wdata) (
    if_elim (All (λ w. w < 2 ^ 32)) (Memory.misaligned op addr) mem _ small (
      All-set (λ w. w < 2 ^ 32) mem (Memory.index count addr) _ small
        (write_lane-lt _ op addr wdata
          (All-get_or (λ w. w < 2 ^ 32) mem (Memory.index count addr) 0 small (omega arith)))))

pub length-store :
    (count : ℕ) (mem : List ℕ) (op addr wdata : ℕ)
    → length (Memory.store count mem op addr wdata) ≡ length mem
length-store count mem op addr wdata = rw (store_lane count mem op addr wdata) (
    if_elim (λ m. length m ≡ length mem) (Memory.misaligned op addr) mem _ refl
      (length-set mem _ _))
