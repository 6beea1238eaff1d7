-- ===== src/Examples/Units.antt =====
-- The unit testbenches of the blocks, at concrete draws.
use rv32i_cpu.Base.{
  ℕ, ◌^◌, ◌<◌, ◌≡◌, refl, arith, List, [], ◌∷◌, true, false, some, replicate, All-replicate,
}
use rv32i_cpu.Core.{reset_pc}
use rv32i_cpu.Core.Blocks.{alu_block}
use rv32i_cpu.Reference.Alu.{AluOp}
use rv32i_cpu.Reference.Imm.{Format}
use rv32i_cpu.Unit.Blocks.{alu_corner_cases, alu_random, alu_undefined_op_is_zero}
use rv32i_cpu.Unit.Blocks.Passing.{alu_random-alu_block}
use rv32i_cpu.Unit.Memory.Bench.{
  memory_dut, MemoryBench, memory_setup, perform, mem_random, drawn_store, drawn_load, Access,
  StoreOp, LoadOp,
}
use rv32i_cpu.Unit.Memory.Passing.{perform-mem_random}
use rv32i_cpu.Unit.Regfile.{regfile_dut, RegfileBench, Turn, regfile_random_rw}
use rv32i_cpu.Unit.Regfile.Passing.{regfile_random_rw-regfile_dut}
use rv32i_cpu.Unit.Pc.{pc_dut, Steering, none_set, pc_random_sequence}
use rv32i_cpu.Unit.Pc.Passing.{path_end, pc_random_sequence-path_end}

-- A byte into a word past the end of the array, a halfword that is misaligned, and loads of both.
abbrev accesses : List Access
accesses =
    drawn_store StoreOp.sb 0x605 0x80
    ∷ drawn_load LoadOp.lb 0x205
    ∷ drawn_store StoreOp.sh 0x207 0x1234
    ∷ drawn_load LoadOp.lhu 0x207
    ∷ []

abbrev before : List ℕ
before = replicate 256 0x1122_3344

perform-mem_random_example :
    (b : MemoryBench (List ℕ)) × (perform memory_dut
        (mem_random accesses)
        (memory_setup memory_dut before)
      ≡ some b)
    × (b.device ≡ b.model)
perform-mem_random_example =
    perform-mem_random accesses before refl
      (All-replicate (λ (w : ℕ). w < 2 ^ 32) 256 0x1122_3344 (omega arith))

-- A write that is read back, and one to x0.
abbrev turns : List Turn
turns =
    record { rs1 = 5; rs2 = 0; we = true; rd = 5; number = 0xdead_beef }
    ∷ record { rs1 = 5; rs2 = 5; we = true; rd = 0; number = 7 }
    ∷ record { rs1 = 0; rs2 = 5; we = false; rd = 5; number = 1 }
    ∷ []

regfile_random_rw-regfile_dut_example :
    (b : RegfileBench (List ℕ)) × (model : List ℕ) × (regfile_random_rw regfile_dut turns
        (replicate 32 3)
      ≡ some (b, model))
    × (b.device ≡ model)
regfile_random_rw-regfile_dut_example = regfile_random_rw-regfile_dut turns (replicate 32 3)

-- A branch backwards from the reset address, and a jump to an odd address.
abbrev controls : List Steering
controls =
    record none_set { branch = true; taken = true; imm = 0xffff_ffc0 }
    ∷ record none_set { jalr = true; alu_result = 0x1001 }
    ∷ []

pc_random_sequence-path_end_example :
    pc_random_sequence pc_dut controls 0x44 ≡ some (path_end controls reset_pc)
pc_random_sequence-path_end_example = pc_random_sequence-path_end controls 0x44

-- A difference below zero, and a shift that keeps the sign.
abbrev operations : List (AluOp × (ℕ × ℕ))
operations = (AluOp.sub, (1, 2)) ∷ (AluOp.sra, (0x8000_0000, 0x24)) ∷ []

alu_random-alu_block_example :
    (alu_corner_cases alu_block ≡ true)
    × (alu_random alu_block operations ≡ true)
    × (alu_undefined_op_is_zero alu_block ≡ true)
alu_random-alu_block_example = alu_random-alu_block operations

abbrev words : List (Format × ℕ)
words = (Format.b, 0xfe00_0ee3) ∷ (Format.j, 0x0080_00ef) ∷ []
