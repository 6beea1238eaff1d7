-- ===== src/Unit/Memory/Passing.antt =====
-- verif/unit/tb_memory.py on rtl/memory.sv: `setup`, the tests, and the random test.
use mathlib.Core.List.{append-nil}
use rv32i_cpu.Base.{
  is_some, ℕ, zero, suc, ◌+◌, ◌*◌, ◌^◌, ◌<◌, ◌≡◌, refl, ap, ◌∙◌, arith, true, false, List, [],
  get_or, All-append, ◌∷◌, ◌++◌, Option, some, length, set, replicate, All, All-replicate,
  length-replicate, ==_refl, to_int,
}
use rv32i_cpu.Base.BitOps.{and_low}
use rv32i_cpu.Bits.{bits, sign_extend}
use rv32i_cpu.Iss.Memory.Lanes.{write_lane-word}
use rv32i_cpu.Reference.Memory
use rv32i_cpu.Unit.Memory.{
  MemoryPins, memory_edge, index_of, unaligned, merged, byte_en, wdata_lanes, i_rdata, lane_b,
  lane_h, d_rdata, d_misaligned,
}
use rv32i_cpu.Unit.Memory.Same.{
  memory_edge-store, memory_edge_idle, d_rdata-load, d_misaligned-misaligned, store-All,
  length-store, store_lane,
}
use rv32i_cpu.Unit.Memory.Bench.{
  word_count, memory_dut, MemoryBench, wipe, clear, memory_setup, do_store, check_load, take_step,
  perform, Access, drawn_store, drawn_load, mem_random, stores, loads, memory_tests,
}

-- The device and the model hold the same words.
pub record Agree (b : MemoryBench (List ℕ)) : Type 0 where
  pub same : b.device ≡ b.model
  pub full : length b.model ≡ word_count
  pub small : All (λ w. w < 2 ^ 32) b.model

wipe_aligned : (i : ℕ) → Memory.misaligned 2 (4 * i) ≡ false
unfolding Memory.misaligned
wipe_aligned i = ground (arith, and_low 2 (4 * i))

wipe_index : (i : ℕ) → i < 256 → Memory.index 256 (4 * i) ≡ i
unfolding Memory.index
wipe_index i h = omega arith

-- An edge of `setup` clears the word at its address.
memory_edge-wipe :
    (i : ℕ) (mem : List ℕ)
    → i < 256
    → All (λ w. w < 2 ^ 32) mem
    → memory_edge 8 (record (wipe memory_dut) { d_addr = 4 * i }) mem ≡ set mem i 0
memory_edge-wipe i mem h small =
    memory_edge-store 8 (record (wipe memory_dut) { d_addr = 4 * i }) mem (omega arith) small refl
    ∙ rw
        (
          store_lane 256 mem 2 (4 * i) 0,
          wipe_aligned i,
          wipe_index i h,
          write_lane-word (get_or mem i 0) 2 (4 * i) 0 (omega arith),
        )
        refl

set-append :
    (i : ℕ) (y : ℕ) (ys : List ℕ) → set (replicate i 0 ++ y ∷ ys) i 0 ≡ replicate (suc i) 0 ++ ys
set-append zero y ys = refl
set-append (suc i) y ys = ap (λ l. 0 ∷ l) (set-append i y ys)

clear-replicate :
    (n i addr : ℕ) (ys : List ℕ)
    → length ys ≡ n
    → i + n ≡ 256
    → addr ≡ 4 * i
    → All (λ w. w < 2 ^ 32) ys
    → clear memory_dut n addr (replicate i 0 ++ ys) ≡ replicate 256 0
unfolding clear
clear-replicate zero i addr [] hl hi e small =
    let e' : i ≡ 256 = omega arith in append-nil (replicate i 0) ∙ ap (λ (n : ℕ). replicate n 0) e'
clear-replicate zero i addr (y ∷ ys) hl hi e small = absurd (omega arith)
clear-replicate (suc n) i addr [] hl hi e small = absurd (omega arith)
clear-replicate (suc n) i addr (y ∷ ys) hl hi e small =
    rw
      (
        e,
        memory_edge-wipe i (replicate i 0 ++ y ∷ ys) (omega arith) (
            All-append (λ w. w < 2 ^ 32) (replicate i 0) (y ∷ ys)
              (All-replicate (λ w. w < 2 ^ 32) i 0 (omega arith)) small),
        set-append i y ys,
      )
      (clear-replicate n (suc i) (4 * i + 4) ys (omega arith) (omega arith) (omega arith) small.1)

-- After `setup` the device and the model hold zeros.
memory_setup-replicate :
    (mem : List ℕ)
    → length mem ≡ word_count
    → All (λ w. w < 2 ^ 32) mem
    → (memory_setup memory_dut mem).device ≡ replicate 256 0
unfolding memory_setup
memory_setup-replicate mem full small =
    rw (memory_edge_idle 8 (record (wipe memory_dut) { d_op = 0; d_write = false }) mem refl)
      (clear-replicate 256 0 0 mem full refl refl small)

memory_setup-Agree :
    (mem : List ℕ)
    → length mem ≡ word_count
    → All (λ w. w < 2 ^ 32) mem
    → Agree (memory_setup memory_dut mem)
unfolding memory_setup
memory_setup-Agree mem full small = record {
  same = memory_setup-replicate mem full small;
  full = length-replicate {A = ℕ} 256 0;
  small = All-replicate (λ (w : ℕ). w < 2 ^ 32) 256 0 (omega arith);
}

-- A step passes, and leaves the device and the model with the same words.
abbrev Passes : Option (MemoryBench (List ℕ)) → Type 0
Passes r = (b : MemoryBench (List ℕ)) × (r ≡ some b) × Agree b

do_store-Passes :
    (op addr number : ℕ) (b : MemoryBench (List ℕ))
    → Agree b
    → Passes (do_store memory_dut op addr number b)
unfolding do_store
do_store-Passes op addr number b a =
    let driven : MemoryPins = record b.pins {
      d_write = true;
      d_read = false;
      d_op = op;
      d_addr = addr;
      d_wdata = number;
    } in
    (
      record {
        pins = record driven { d_write = false };
        device = memory_edge 8 driven b.device;
        model = Memory.store word_count b.model op addr number;
      },
      rw (d_misaligned-misaligned driven refl, ==_refl (to_int (Memory.misaligned op addr))) refl,
      record {
        same =
            ap (λ m. memory_edge 8 driven m) a.same
            ∙ memory_edge-store 8 driven b.model (omega arith) a.small refl;
        full = length-store word_count b.model op addr number ∙ a.full;
        small = store-All word_count b.model op addr number a.small;
      },
    )

check_load-Passes :
    (op addr : ℕ) (b : MemoryBench (List ℕ)) → Agree b → Passes (check_load memory_dut op addr b)
unfolding check_load
check_load-Passes op addr b a =
    let driven : MemoryPins = record b.pins {
      d_read = true;
      d_write = false;
      d_op = op;
      d_addr = addr;
    } in
    (
      record b { pins = driven; device = memory_edge 8 driven b.device },
      rw
          (
            d_misaligned-misaligned driven refl,
            ==_refl (to_int (Memory.misaligned op addr)),
            d_rdata-load 8 driven b.device (omega arith),
            a.same,
            ==_refl (Memory.load word_count b.model op addr),
          )
          refl,
      record {
        same = memory_edge_idle 8 driven b.device refl ∙ a.same;
        full = a.full;
        small = a.small;
      },
    )

draws-Passes :
    (draws : List Access) (b : MemoryBench (List ℕ))
    → Agree b
    → Passes (perform memory_dut (mem_random draws) b)
unfolding mem_random perform take_step
draws-Passes [] b a = (b, refl, a)
draws-Passes (drawn_store op addr number ∷ draws) b a =
    let (after, e, kept) = do_store-Passes (stores op) addr number b a in
    rw (perform, e) (draws-Passes draws after kept)
draws-Passes (drawn_load op addr ∷ draws) b a =
    let (after, e, kept) = check_load-Passes (loads op) addr b a in
    rw (perform, e) (draws-Passes draws after kept)

-- From any contents of the array of 256 words, the random test passes on rtl/memory.sv, for any
-- draws, and leaves the memory and the model with the same words.
pub perform-mem_random :
    (draws : List Access) (mem : List ℕ)
    → length mem ≡ word_count
    → All (λ w. w < 2 ^ 32) mem
    → (b : MemoryBench (List ℕ)) × (perform memory_dut
          (mem_random draws)
          (memory_setup memory_dut mem)
        ≡ some b)
      × (b.device ≡ b.model)
perform-mem_random draws mem full small =
    let (b, e, a) =
      draws-Passes draws (memory_setup memory_dut mem) (memory_setup-Agree mem full small) in
    (b, e, a.same)

abbrev fresh : MemoryBench (List ℕ)
fresh = record {
  pins = record (wipe memory_dut) { d_addr = 4 * 255; d_write = false };
  device = replicate 256 0;
  model = replicate 256 0;
}

memory_setup-fresh :
    (mem : List ℕ)
    → length mem ≡ word_count
    → All (λ w. w < 2 ^ 32) mem
    → memory_setup memory_dut mem ≡ fresh
unfolding memory_setup
memory_setup-fresh mem full small =
    ap (λ (l : List ℕ). record fresh { device = l }) (memory_setup-replicate mem full small)

-- The directed tests pass on rtl/memory.sv from any contents of the array of 256 words.
pub perform-memory_tests :
    (mem : List ℕ)
    → length mem ≡ word_count
    → All (λ w. w < 2 ^ 32) mem
    → All
        (λ test. is_some (perform memory_dut test (memory_setup memory_dut mem)) ≡ true)
        memory_tests
unfolding perform take_step do_store check_load memory_edge i_rdata d_rdata d_misaligned lane_b
    lane_h sign_extend bits unaligned index_of merged byte_en wdata_lanes Memory.store Memory.load
    Memory.misaligned Memory.index
perform-memory_tests mem full small =
    rw (memory_setup-fresh mem full small) (refl, (refl, (refl, (refl, (refl, tt)))))
