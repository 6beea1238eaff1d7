-- ===== src/Randgen/Access.antt =====
-- What the loads and stores of verif/randgen.py access.
use rv32i_cpu.Base.{
  ℕ, ◌+◌, ◌%◌, ◌<◌, ◌≡◌, arith, List, [], ◌∷◌, false, ◌||◌, ◌==◌, ltb, some, none, get_or, bit_and,
  ◌⊎◌,
}
use rv32i_cpu.Base.Int.{pos, and_ℤ}
use rv32i_cpu.Base.BitOps.{and_low}
use rv32i_cpu.Bits.{mask32}
use rv32i_cpu.Isa.{op_load, op_store}
use rv32i_cpu.Isa.RoundTrip.{imm_i-i_type, imm_s-s_type}
use rv32i_cpu.Iss.State.{Iss}
use rv32i_cpu.Iss.Decode.{fields}
use rv32i_cpu.Iss.Memory
use rv32i_cpu.Iss.Memory.{misaligned}
use rv32i_cpu.Iss.Execute.{ok, pc_plus4, execute_load, execute_store, dispatch}
use rv32i_cpu.Randgen.{data_base, data_size, load_f3, store_f3, instruction, load, store}

-- What `_aligned_offset` may return, for the alignment that a table has for the code.
abbrev pub AlignedOffset : List (ℕ × ℕ) → ℕ → ℕ → Type 0
AlignedOffset [] funct3 offset = ⊥
AlignedOffset ((code, align) ∷ table) funct3 offset =
    ((funct3 ≡ code) × (offset < data_size) × (offset % align ≡ 0))
    ⊎ AlignedOffset table funct3 offset

load_aligned :
    (funct3 offset : ℕ)
    → AlignedOffset load_f3 funct3 offset
    → (misaligned funct3 (data_base + offset) ≡ false)
      × ((funct3 == 0b011 || funct3 == 0b110 || funct3 == 0b111) ≡ false)
      × (offset < data_size)
      × (funct3 < 8)
unfolding misaligned
load_aligned funct3 offset h =
    ground (arith, and_low 1 (data_base + offset), and_low 2 (data_base + offset))

store_aligned :
    (funct3 offset : ℕ)
    → AlignedOffset store_f3 funct3 offset
    → (misaligned funct3 (data_base + offset) ≡ false)
      × (ltb 0b010 funct3 ≡ false)
      × (offset < data_size)
      × (funct3 < 8)
unfolding misaligned
store_aligned funct3 offset h =
    ground (arith, and_low 1 (data_base + offset), and_low 2 (data_base + offset))

-- An offset in the data region, added to its base.
address :
    (offset : ℕ)
    → offset < data_size
    → bit_and (data_base + and_ℤ (pos offset) mask32) mask32 ≡ data_base + offset
unfolding and_ℤ
address offset h =
    let small = and_low 32 offset in
    ground (arith, small, and_low 32 (data_base + bit_and offset mask32))

module _ (s : Iss) (pc rd rs1 rs2 : ℕ) (pointer : get_or s.regs 31 0 ≡ data_base) where
  dispatch-load :
      (funct3 offset : ℕ)
      → rd < 32
      → AlignedOffset load_f3 funct3 offset
      → let word = instruction pc rd rs1 rs2 (load funct3 offset) in
        dispatch s pc word (fields word).opcode
        ≡ ok (record {
          rd_value = some (Memory.load s funct3 (data_base + offset));
          next_pc = pc_plus4 s pc word;
          mem_write = 0;
          mem_addr = data_base + offset;
          mem_wdata = 0;
        })
  unfolding instruction dispatch execute_load
  dispatch-load funct3 offset hd h =
      let (aligned, legal, small, code) = load_aligned funct3 offset h in
      let (number, opcode, rd_field, base, funct) =
        imm_i-i_type (pos offset) 31 funct3 rd op_load (omega arith) (omega arith)
          (omega arith, omega arith, code, hd, omega arith) in
      simp (opcode, base, funct, number, pointer, address offset small, aligned, legal)

  dispatch-store :
      (funct3 offset : ℕ)
      → rs2 < 32
      → AlignedOffset store_f3 funct3 offset
      → let word = instruction pc rd rs1 rs2 (store funct3 offset) in
        dispatch s pc word (fields word).opcode
        ≡ ok (record {
          rd_value = none;
          next_pc = pc_plus4 s pc word;
          mem_write = 1;
          mem_addr = data_base + offset;
          mem_wdata = get_or s.regs rs2 0;
        })
  unfolding instruction dispatch execute_store
  dispatch-store funct3 offset h2 h =
      let (aligned, legal, small, code) = store_aligned funct3 offset h in
      let (number, opcode, source, base, funct) =
        imm_s-s_type (pos offset) rs2 31 funct3 op_store (omega arith) (omega arith)
          (h2, omega arith, code, omega arith, omega arith) in
      simp (opcode, base, funct, source, number, pointer, address offset small, aligned, legal)

-- With the data pointer x31 at the base of the data region, the golden model does not trap on a
-- generated load or store, for an offset that `_aligned_offset` may return: the load takes the value
-- at the drawn offset of the region, and the store writes rs2 there.
pub dispatch-instruction :
    (s : Iss) (pc rd rs1 rs2 load_code load_offset store_code store_offset : ℕ)
    → get_or s.regs 31 0 ≡ data_base
    → rd < 32
    → rs2 < 32
    → AlignedOffset load_f3 load_code load_offset
    → AlignedOffset store_f3 store_code store_offset
    → (dispatch s pc
          (instruction pc rd rs1 rs2 (load load_code load_offset))
          (fields (instruction pc rd rs1 rs2 (load load_code load_offset))).opcode
        ≡ ok (record {
          rd_value = some (Memory.load s load_code (data_base + load_offset));
          next_pc = bit_and (pc + 4) mask32;
          mem_write = 0;
          mem_addr = data_base + load_offset;
          mem_wdata = 0;
        }))
      × (dispatch s pc
            (instruction pc rd rs1 rs2 (store store_code store_offset))
            (fields (instruction pc rd rs1 rs2 (store store_code store_offset))).opcode
          ≡ ok (record {
            rd_value = none;
            next_pc = bit_and (pc + 4) mask32;
            mem_write = 1;
            mem_addr = data_base + store_offset;
            mem_wdata = get_or s.regs rs2 0;
          }))
dispatch-instruction s pc rd rs1 rs2 code offset code' offset' pointer hd h2 h h' = (
  dispatch-load s pc rd rs1 rs2 pointer code offset hd h,
  dispatch-store s pc rd rs1 rs2 pointer code' offset' h2 h',
)
