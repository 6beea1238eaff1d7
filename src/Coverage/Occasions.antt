-- ===== src/Coverage/Occasions.antt =====
-- When an instruction hits a required bin of verif/coverage.py, told from the fields of its word and
-- from what its commit shows.
pub mod Tally
pub mod Cases
pub mod Told
pub mod Opcodes
pub mod Variants
pub mod Effects
pub mod Hits
use Prim.Native.String.{String}
use rv32i_cpu.Base.{
  ℕ, ◌+◌, ◌%◌, ◌^◌, ◌/◌, Bool, true, false, not, ◌&&◌, ◌||◌, List, [], ◌∷◌, ◌==◌, ◌!=◌, leb, to_int,
}
use rv32i_cpu.Isa.{
  op_lui, op_auipc, op_jal, op_jalr, op_branch, op_load, op_store, op_imm, op_reg, op_misc_mem,
  op_system,
}
use rv32i_cpu.Iss.State.{Commit}
use rv32i_cpu.Iss.Decode.{fields}

abbrev pub is : ℕ → Commit → Bool
is opcode c = (fields c.inst).opcode == opcode

-- The opcode, and the code of the kind of instruction.
abbrev pub kind : ℕ → ℕ → Commit → Bool
kind opcode funct3 c = is opcode c && (fields c.inst).funct3 == funct3

-- One of the eleven opcodes.
abbrev pub known : Commit → Bool
known c =
    is op_lui c
    || is op_auipc c
    || is op_jal c
    || is op_jalr c
    || is op_branch c
    || is op_load c
    || is op_store c
    || is op_imm c
    || is op_reg c
    || is op_misc_mem c
    || is op_system c

abbrev pub jumped : Commit → Bool
jumped c = c.next_pc != (c.pc + 4) % 2 ^ 32

-- A shift by an immediate, of this distance.
abbrev pub shifts_by : ℕ → Commit → Bool
shifts_by distance c = (kind op_imm 1 c || kind op_imm 5 c) && (fields c.inst).rs2 == distance

abbrev pub computes : Commit → Bool
computes c = is op_imm c || is op_reg c || is op_lui c

abbrev pub occasions : List (String × (Commit → Bool))
occasions =
    ("op:lui", is op_lui)
    ∷ ("op:auipc", is op_auipc)
    ∷ ("op:jal", is op_jal)
    ∷ ("op:jalr", is op_jalr)
    ∷ ("op:branch", is op_branch)
    ∷ ("op:load", is op_load)
    ∷ ("op:store", is op_store)
    ∷ ("op:op-imm", is op_imm)
    ∷ ("op:op-reg", is op_reg)
    ∷ ("branch:beq", kind op_branch 0)
    ∷ ("branch:bne", kind op_branch 1)
    ∷ ("branch:blt", kind op_branch 4)
    ∷ ("branch:bge", kind op_branch 5)
    ∷ ("branch:bltu", kind op_branch 6)
    ∷ ("branch:bgeu", kind op_branch 7)
    ∷ ("branch:taken", λ c. is op_branch c && jumped c)
    ∷ ("branch:not-taken", λ c. is op_branch c && not (jumped c))
    ∷ ("mem:lb", kind op_load 0)
    ∷ ("mem:lh", kind op_load 1)
    ∷ ("mem:lw", kind op_load 2)
    ∷ ("mem:lbu", kind op_load 4)
    ∷ ("mem:lhu", kind op_load 5)
    ∷ ("mem:sb", kind op_store 0)
    ∷ ("mem:sh", kind op_store 1)
    ∷ ("mem:sw", kind op_store 2)
    ∷ ("shift:zero", shifts_by 0)
    ∷ ("shift:max", shifts_by 31)
    ∷ ("result:zero", λ c. known c && c.rd != 0 && c.rd_wdata == 0)
    ∷ ("result:negative", λ c. known c && c.rd != 0 && leb (2 ^ 31) (c.rd_wdata % 2 ^ 32))
    ∷ ("rd:x0", λ c. computes c && (fields c.inst).rd == 0 && c.rd == 0)
    ∷ ("rs1:x0", λ c. known c && (fields c.inst).rs1 == 0)
    ∷ ("mem:unaligned-lane", λ c. (is op_load c || is op_store c) && c.mem_addr % 4 != 0)
    ∷ []

-- How many commits of a trace are an occasion.
abbrev pub occurrences : (Commit → Bool) → List Commit → ℕ
occurrences happens [] = 0
occurrences happens (c ∷ trace) = to_int (happens c) + occurrences happens trace
