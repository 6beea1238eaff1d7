-- ===== src/Examples/Build.antt =====
-- The program builder, at a program that stores its answer, and a core that runs it.
use Prim.Native.String.{String}
use rv32i_cpu.Base.{
  ℕ, zero, suc, ◌≡◌, refl, ap, arith, List, [], ◌∷◌, Bool, true, some, get_or, replicate,
}
use rv32i_cpu.Bits.{bits, sign_extend}
use rv32i_cpu.Iss.State.{Iss, new}
use rv32i_cpu.Iss.Decode.{fields, imm_i, imm_s}
use rv32i_cpu.Iss.Alu.{alu}
use rv32i_cpu.Iss.Memory.{misaligned}
use rv32i_cpu.Iss.Execute.{
  execute, dispatch, execute_imm, execute_store, execute_load, execute_system,
}
use rv32i_cpu.Iss.Step.{step, run}
use rv32i_cpu.Asm.Tables.{find}
use rv32i_cpu.Asm.Encode.{imm, reg, split_offset}
use rv32i_cpu.Asm.Source.{assemble_text, to_hex}
use rv32i_cpu.Core.{Core, fetched}
use rv32i_cpu.Core.Lockstep.{enabled}
use rv32i_cpu.Reference
use rv32i_cpu.Reference.Decoder.{ref_decode}
use rv32i_cpu.Build.{
  Options, Report, built, too_long, model_report, report_of, halt_name, listing, build_program,
}
use rv32i_cpu.Build.Board.{shown_register, shown_word, board, build_program-board}

abbrev source : String
source = "li a0, 5\n sw a0, 16(x0)\n ecall\n"

abbrev program : List ℕ
program = 0x0050_0513 ∷ 0x00a0_2823 ∷ 0x0000_0073 ∷ []

abbrev options : Options
options = record { words = 8; run = true }

abbrev initial : Iss
initial = new program 8 0

abbrev board_core : Core
board_core = record {
  count = 8;
  mem = initial.mem;
  regs = initial.regs;
  pc = initial.pc;
  halt_cause = initial.halt_cause;
  halted = initial.halted;
}

abbrev levels : List Bool
levels = replicate 10000 true

enabled-replicate : (n : ℕ) → enabled (replicate n true) ≡ n
enabled-replicate zero = refl
enabled-replicate (suc n) = ap suc (enabled-replicate n)

assembles : assemble_text source 0 ≡ some program
unfolding assemble_text find imm reg split_offset
assembles = refl

halts : (run 10000 (new program 8 0)).0.halted ≡ true
unfolding run new step execute dispatch fields bits execute_imm execute_store misaligned imm_s
    sign_extend execute_load imm_i execute_system
halts = refl

-- What the tool prints of the run: x10 holds 5, and so does the word at 16.
printed : model_report 8 program ≡ record {
  retired = 2;
  halted_on = "ECALL";
  registers = record { index = 10; name = "a0"; value = 5 } ∷ [];
  touched = (4, 5) ∷ [];
}
unfolding model_report report_of run new step execute dispatch fields bits execute_imm execute_store
    misaligned imm_s sign_extend execute_load imm_i execute_system alu
printed = refl

-- A program that does not fit is refused.
refused : build_program (record { words = 2; run = true }) source ≡ too_long 3 2
unfolding build_program assemble_text find imm reg split_offset
refused = refl

build_program-board_example :
    (report : Report) × (build_program options source
      ≡ built (to_hex program) (listing 0 program) (some report))
    × (report.halted_on ≡ halt_name (board options source program 3 board_core levels).halt_cause)
    × (shown_register 10 report.registers
        ≡ get_or (board options source program 3 board_core levels).regs 10 0)
    × (shown_word 4 report.touched
        ≡ get_or (board options source program 3 board_core levels).mem 4 0)
unfolding new ref_decode bits fetched Reference.Memory.index
build_program-board_example =
    build_program-board options source program 3 board_core levels 10 4 (omega arith) refl refl refl
      assembles (omega arith) refl refl halts (omega (arith, enabled-replicate 10000)) (omega arith)
      (omega arith)
