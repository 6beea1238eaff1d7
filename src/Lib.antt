-- ===== src/Lib.antt =====
-- Verification library of the rv32i-cpu repository: a single-cycle RV32I core in SystemVerilog, with
-- a golden model, reference models and a scoreboard in Python that judge it.
--
-- The parts and how they interact:
-- * verif/bits.py (module Bits): fields of a word and two's complement.
-- * verif/isa.py (module Isa; the ALU, immediate and select codes are in Reference.Alu,
--   Reference.Imm and Reference.Decoder): opcodes and the builders of instruction words.
-- * verif/iss.py (module Iss): the golden model. The record Iss.State.Iss is the object `Iss`, with
--   the memory and the registers as lists. `step` is cut as the method is: Iss.Decode takes the
--   fields and immediates out of the word, Iss.Execute is the `try` block, where `trap` is the
--   exception `Trap`, and Iss.Step is its handler, the commit, and `run`. `_index`, `_misaligned`,
--   `_load` and `_store` are in Iss.Memory, `_alu` and `_branch_taken` in Iss.Alu.
-- * verif/unit/tb_*.py (module Reference): the reference functions and the memory model that the
--   unit testbenches compare the blocks with.
-- * rtl/memory.sv, rtl/regfile.sv and rtl/pc_unit.sv with verif/unit/tb_memory.py, tb_regfile.py and
--   tb_pc_unit.py (module Unit): each block as it is written, and its testbench on any device with its
--   pins, where a failed assertion is none and what `random` draws is a parameter. Unit.Blocks has the
--   tests of tb_alu.py, tb_branch_cmp.py and tb_imm_gen.py, which are true when no assertion fails.
-- * rtl/core.sv (module Core): one clock edge of the core, `cycle`, on the registers and arrays of
--   the core, the register file, the program counter and the memory. Core.Blocks has rtl/alu.sv,
--   rtl/branch_cmp.sv, rtl/imm_gen.sv and the read port of rtl/regfile.sv. The decoder is
--   `ref_decode` of verif/unit/tb_decoder.py, the memory is `MemModel` of verif/unit/tb_memory.py,
--   and the next program counter is `ref_next_pc` of verif/unit/tb_pc_unit.py, so that the clock edge
--   can be compared with a step of the golden model.
-- * rtl/soc.sv and rtl/core.sv once more (module Unit.Soc): the same clock edge, built of the blocks
--   of module Unit as they are written. rtl/decoder.sv is in Unit.Decoder, and its testbench,
--   verif/unit/tb_decoder.py, in Unit.Decoder.Bench.
-- * verif/tb_core.py (modules Scoreboard and Testbench): the comparison of two commits,
--   `compare_commit`; `load_and_reset`, `advance` and `compare_state`, on the core of module Core;
--   Testbench.Run has `run_program` on any device under test, where an assertion that fails is a
--   value, and Testbench.StepEnable the test that lowers `step_en`. Testbench.Directed has the table
--   of directed programs as texts, and the test that runs them, Testbench.Random the tests of random
--   programs and the gate on coverage.
-- * verif/asm.py (module Asm): Asm.Text has the methods of `str` and the patterns that cut a line,
--   Asm.Number the numbers, Asm.Tables the tables, Asm.Li the immediates of `li`, Asm.Li.Runs
--   the golden model on the words of `li`, Asm.Encode `_reg`,
--   `_imm`, `_expand`, `_encode` and the two passes of `assemble`, on functions on texts that are
--   parameters, and Asm.Source puts these together to `assemble` on a text, and has `to_hex`. An
--   exception is none. Letters and digits are those of ASCII.
-- * verif/randgen.py (module Randgen): the words of a random program, from draws that hold what the
--   functions of Python's `random` return; the number of draws is the length of the body.
--   Randgen.Decoder has the words that `random_legal` of verif/unit/tb_decoder.py draws.
-- * tools/inject_bugs.py (module Inject): Inject.Text has the methods of `str` that edit a file,
--   Inject.Table the table MUTANTS, Inject.Run `run_mutant` and Inject.Main `main`. The directory rtl/
--   is a function that gives texts, the compiler and the simulator are a function of the files they
--   are given, and what is printed is a list of values. Inject.Rtl is the text of rtl/core.sv.
-- * tools/build_program.py (module Build): from the text of a program to the text of its .hex file and
--   the report of `--run`, as values.
-- * verif/coverage.py (module Coverage): the counts of `sample`, `missing`, and the text of `report`.
--   Coverage.Occasions is a table of the required bins, each with a test on a commit.
-- * verif/sim.py, verif/test_unit.py and verif/test_core.py (module Entry): what the pytest entry
--   points ask of the runner of cocotb, which is a parameter.
-- Base has what the modules share: tests on numbers, lists by index, Python's integers with their
-- bit operators. Examples has the tests, and the theorems at concrete inputs.
--
-- Numbers: a word is a number, with the mask of 32 bits where the source has it. Python's integers
-- are Base.Int.ℤ where the source can make a negative one, and `&` with a mask reads them as two's
-- complement. A read past the end of a list gives 0 and a write there does nothing; in a well-formed
-- state no index is out of range, since a register number has five bits and a memory index is a
-- remainder by the length. `run` recurses on `max_steps`, which is the bound of the loop in the
-- source, so there is no fuel. The loop of `run_program` recurses on the budget of the source; the
-- labels of a line are cut with the length of the line as fuel, and a number is written with its value
-- and one, which no number of digits exceeds. The parameter WORDS of the core is the field `count`;
-- the memory of rtl/memory.sv wraps at a power of two, as its own comment asks, and so does the
-- remainder.
--
-- Not modelled: the file that rtl/memory.sv may be loaded from, the clock of the simulator, the
-- making and clearing of the scratch directories of tools/inject_bugs.py, the texts of error messages
-- and the widths of the columns that the tools print, the files that they read and write, as_int of
-- verif/bits.py, which reads a signal of the simulator, the limit that CPython sets on the digits of
-- a number that is read or printed, and the FPGA files.
pub mod Asm
pub mod Base
pub mod Bits
pub mod Build
pub mod Core
pub mod Coverage
pub mod Entry
pub mod Examples
pub mod Inject
pub mod Isa
pub mod Iss
pub mod Randgen
pub mod Reference
pub mod Scoreboard
pub mod Testbench
pub mod Unit
