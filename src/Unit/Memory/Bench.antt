-- ===== src/Unit/Memory/Bench.antt =====
-- verif/unit/tb_memory.py: the testbench of the memory, on any device with the pins of rtl/memory.sv.
-- A failed assertion is none. A test is a list of steps: the calls of `do_store` and `check_load`, and
-- the assertions between them.
use rv32i_cpu.Base.{
  ℕ, zero, suc, ◌+◌, ◌*◌, Bool, true, false, List, [], ◌∷◌, Option, none, some, ◌==◌, if◌then◌else◌,
  to_int,
}
use rv32i_cpu.Reference.Memory
use rv32i_cpu.Unit.Memory.{MemoryPins, i_rdata, d_rdata, d_misaligned, memory_edge}

abbrev pub word_count : ℕ
word_count = 256

-- `LOADS` and `STORES`.
pub data LoadOp : Type 0 where
  lb lh lw lbu lhu : LoadOp

abbrev pub loads : LoadOp → ℕ
loads LoadOp.lb = 0b000
loads LoadOp.lh = 0b001
loads LoadOp.lw = 0b010
loads LoadOp.lbu = 0b100
loads LoadOp.lhu = 0b101

pub data StoreOp : Type 0 where
  sb sh sw : StoreOp

abbrev pub stores : StoreOp → ℕ
stores StoreOp.sb = 0b000
stores StoreOp.sh = 0b001
stores StoreOp.sw = 0b010

-- A device: what its outputs are, and what a clock edge makes of it, while the pins are driven.
pub record MemoryDut (D : Type 0) : Type 0 where
  pub fetch : MemoryPins → D → ℕ
  pub read : MemoryPins → D → ℕ
  pub flag : MemoryPins → D → Bool
  pub clocked : MemoryPins → D → D

-- rtl/memory.sv with WORDS of 256, so that IDX_BITS is 8.
abbrev pub memory_dut : MemoryDut (List ℕ)
memory_dut = record {
  fetch = i_rdata 8;
  read = d_rdata 8;
  flag = λ pins mem. d_misaligned pins;
  clocked = memory_edge 8;
}

pub record MemoryBench (D : Type 0) : Type 0 where
  pub pins : MemoryPins
  pub device : D
  pub model : List ℕ

module _ {D : Type 0} (dut : MemoryDut D) where
  abbrev pub wipe : MemoryPins
  wipe = record {
    i_addr = 0;
    d_addr = 0;
    d_op = stores StoreOp.sw;
    d_read = false;
    d_write = true;
    d_wdata = 0;
  }

  -- The loop over the addresses, from `addr` on.
  unfoldable pub clear : ℕ → ℕ → D → D
  clear zero addr device = device
  clear (suc n) addr device =
      clear n (addr + 4) (dut.clocked (record wipe { d_addr = addr }) device)

  -- The first edge comes with all pins low.
  unfoldable pub memory_setup : D → MemoryBench D
  memory_setup device = record {
    pins = record wipe { d_addr = 4 * 255; d_write = false };
    device = clear word_count 0 (dut.clocked (record wipe { d_op = 0; d_write = false }) device);
    model = Memory.new word_count;
  }

  unfoldable pub do_store : ℕ → ℕ → ℕ → MemoryBench D → Option (MemoryBench D)
  do_store op addr number b =
      let driven : MemoryPins = record b.pins {
        d_write = true;
        d_read = false;
        d_op = op;
        d_addr = addr;
        d_wdata = number;
      } in
      if to_int (dut.flag driven b.device) == to_int (Memory.misaligned op addr)
      then some (record {
        pins = record driven { d_write = false };
        device = dut.clocked driven b.device;
        model = Memory.store word_count b.model op addr number;
      })
      else none

  unfoldable pub check_load : ℕ → ℕ → MemoryBench D → Option (MemoryBench D)
  check_load op addr b =
      let driven : MemoryPins = record b.pins {
        d_read = true;
        d_write = false;
        d_op = op;
        d_addr = addr;
      } in
      if to_int (dut.flag driven b.device) == to_int (Memory.misaligned op addr)
      then if dut.read driven b.device == Memory.load word_count b.model op addr
        then some (record b { pins = driven; device = dut.clocked driven b.device })
        else none
      else none

-- What a test does one after the other. `reads` and `aligned` are assertions on the pins as they
-- stand, and `fetches` drives `i_addr` first.
pub data Step : Type 0 where
  store : ℕ → ℕ → ℕ → Step
  load : ℕ → ℕ → Step
  reads : ℕ → Step
  aligned : Step
  fetches : ℕ → ℕ → Step

module _ {D : Type 0} (dut : MemoryDut D) where
  unfoldable pub take_step : Step → MemoryBench D → Option (MemoryBench D)
  take_step (store op addr number) b = do_store dut op addr number b
  take_step (load op addr) b = check_load dut op addr b
  take_step (reads expect) b = if dut.read b.pins b.device == expect then some b else none
  take_step aligned b = if to_int (dut.flag b.pins b.device) == 0 then some b else none
  take_step (fetches addr expect) b =
      let driven : MemoryPins = record b.pins { i_addr = addr } in
      if dut.fetch driven b.device == expect then some (record b { pins = driven }) else none

  unfoldable pub perform : List Step → MemoryBench D → Option (MemoryBench D)
  perform [] b = some b
  perform (s ∷ rest) b = elim (take_step s b) [ none ↦ none | some after ↦ perform rest after ]

-- Loads with the value that each is to read.
abbrev pub reading : List (ℕ × (ℕ × ℕ)) → List Step
reading [] = []
reading ((op, (addr, expect)) ∷ rest) = load op addr ∷ reads expect ∷ reading rest

abbrev pub mem_lane_selection : List Step
mem_lane_selection =
    store (stores StoreOp.sw) 0x20 0x1122_3344
    ∷ reading (
        (loads LoadOp.lbu, (0x20, 0x44))
        ∷ (loads LoadOp.lbu, (0x21, 0x33))
        ∷ (loads LoadOp.lbu, (0x22, 0x22))
        ∷ (loads LoadOp.lbu, (0x23, 0x11))
        ∷ (loads LoadOp.lhu, (0x20, 0x3344))
        ∷ (loads LoadOp.lhu, (0x22, 0x1122))
        ∷ (loads LoadOp.lw, (0x20, 0x1122_3344))
        ∷ [])

abbrev pub mem_sign_extension : List Step
mem_sign_extension =
    store (stores StoreOp.sw) 0x40 0x80ff_7f01
    ∷ reading (
        (loads LoadOp.lb, (0x40, 0x0000_0001))
        ∷ (loads LoadOp.lb, (0x41, 0x0000_007f))
        ∷ (loads LoadOp.lb, (0x42, 0xffff_ffff))
        ∷ (loads LoadOp.lb, (0x43, 0xffff_ff80))
        ∷ (loads LoadOp.lbu, (0x43, 0x0000_0080))
        ∷ (loads LoadOp.lh, (0x40, 0x0000_7f01))
        ∷ (loads LoadOp.lh, (0x42, 0xffff_80ff))
        ∷ (loads LoadOp.lhu, (0x42, 0x0000_80ff))
        ∷ [])

abbrev pub mem_sub_word_stores : List Step
mem_sub_word_stores =
    store (stores StoreOp.sw) 0x60 0xaaaa_aaaa
    ∷ store (stores StoreOp.sb) 0x61 0x5a
    ∷ load (loads LoadOp.lw) 0x60
    ∷ reads 0xaaaa_5aaa
    ∷ store (stores StoreOp.sh) 0x62 0x1234
    ∷ load (loads LoadOp.lw) 0x60
    ∷ reads 0x1234_5aaa
    ∷ []

abbrev pub mem_misaligned_flags_and_blocks_write : List Step
mem_misaligned_flags_and_blocks_write =
    store (stores StoreOp.sw) 0x80 0xdead_beef
    ∷ load (loads LoadOp.lh) 0x81
    ∷ load (loads LoadOp.lhu) 0x83
    ∷ load (loads LoadOp.lw) 0x81
    ∷ load (loads LoadOp.lw) 0x82
    ∷ load (loads LoadOp.lw) 0x83
    ∷ load (loads LoadOp.lb) 0x80
    ∷ aligned
    ∷ load (loads LoadOp.lb) 0x81
    ∷ aligned
    ∷ load (loads LoadOp.lb) 0x82
    ∷ aligned
    ∷ load (loads LoadOp.lb) 0x83
    ∷ aligned
    ∷ store (stores StoreOp.sw) 0x82 0x1111_1111
    ∷ load (loads LoadOp.lw) 0x80
    ∷ reads 0xdead_beef
    ∷ []

abbrev pub mem_instruction_port : List Step
mem_instruction_port =
    store (stores StoreOp.sw) 0x00 0x0010_0093
    ∷ store (stores StoreOp.sw) 0x04 0x0020_0113
    ∷ store (stores StoreOp.sw) 0x3fc 0xfe00_0ee3
    ∷ fetches 0x00 0x0010_0093
    ∷ fetches 0x04 0x0020_0113
    ∷ fetches 0x3fc 0xfe00_0ee3
    ∷ []

abbrev pub memory_tests : List (List Step)
memory_tests =
    mem_lane_selection ∷ mem_sign_extension ∷ mem_sub_word_stores
    ∷ mem_misaligned_flags_and_blocks_write ∷ mem_instruction_port ∷ []

-- What `random` draws in a turn of `mem_random`: an address, and a store with its data, or a load.
pub data Access : Type 0 where
  drawn_store : StoreOp → ℕ → ℕ → Access
  drawn_load : LoadOp → ℕ → Access

unfoldable pub mem_random : List Access → List Step
mem_random [] = []
mem_random (drawn_store op addr number ∷ draws) = store (stores op) addr number ∷ mem_random draws
mem_random (drawn_load op addr ∷ draws) = load (loads op) addr ∷ mem_random draws
