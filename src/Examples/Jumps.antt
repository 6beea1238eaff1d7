-- ===== src/Examples/Jumps.antt =====
-- The targets of generated branches and jumps, and what loads and stores access, at concrete inputs.
use rv32i_cpu.Base.{
  ◌+◌, ◌≡◌, refl, arith, bit_and, false, none, some, inl, inr, get_or, set, replicate,
}
use rv32i_cpu.Bits.{mask32}
use rv32i_cpu.Iss.State.{Iss}
use rv32i_cpu.Iss.Decode.{fields}
use rv32i_cpu.Iss.Memory
use rv32i_cpu.Iss.Execute.{ok, dispatch}
use rv32i_cpu.Randgen.{instruction, load, store}
use rv32i_cpu.Randgen.Access.{dispatch-instruction}

-- A state with the data pointer set.
abbrev pointing : Iss
pointing = record {
  words = 512;
  mem = replicate 512 7;
  regs = set (replicate 32 3) 31 0x400;
  pc = 8;
  halt_cause = 0;
  halted = false;
}

dispatch-instruction_example :
    (dispatch pointing 8
        (instruction 8 5 6 7 (load 1 0x82))
        (fields (instruction 8 5 6 7 (load 1 0x82))).opcode
      ≡ ok (record {
        rd_value = some (Memory.load pointing 1 (0x400 + 0x82));
        next_pc = bit_and (8 + 4) mask32;
        mem_write = 0;
        mem_addr = 0x400 + 0x82;
        mem_wdata = 0;
      }))
    × (dispatch pointing 8
          (instruction 8 5 6 7 (store 2 0xfc))
          (fields (instruction 8 5 6 7 (store 2 0xfc))).opcode
        ≡ ok (record {
          rd_value = none;
          next_pc = bit_and (8 + 4) mask32;
          mem_write = 1;
          mem_addr = 0x400 + 0xfc;
          mem_wdata = get_or pointing.regs 7 0;
        }))
dispatch-instruction_example =
    dispatch-instruction pointing 8 5 6 7 1 0x82 2 0xfc refl (omega arith) (omega arith)
      (inr (inl (refl, omega arith, refl))) (inr (inr (inl (refl, omega arith, refl))))
