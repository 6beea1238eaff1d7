-- ===== src/Coverage.antt =====
-- verif/coverage.py: the functional coverage that is sampled from retired instructions.
pub mod Counts
pub mod Report
pub mod Laws
pub mod Occasions
use Prim.Native.String.{String}
use rv32i_cpu.Base.{
  ℕ, ◌+◌, Bool, true, false, ◌&&◌, ◌||◌, List, [], ◌∷◌, ◌++◌, Option, none, some, map, bit_and,
  get_or, ◌==◌, ◌!=◌, if◌then◌else◌,
}
use rv32i_cpu.Base.Int.{pos, ltb_ℤ}
use rv32i_cpu.Bits.{mask32, bits, to_signed}
use rv32i_cpu.Iss.State.{Commit}
use Counts.{append, Counter, hits, increment, increment_if}

-- `names.get(key)`.
abbrev pub name_of : ℕ → List (ℕ × String) → Option String
name_of key [] = none
name_of key ((k, name) ∷ names) =
    let rest = name_of key names in if k == key then some name else rest

abbrev pub names : List (ℕ × String) → List String
names table = map (λ entry. entry.1) table

abbrev pub opcode_names : List (ℕ × String)
opcode_names =
    (0b0110111, "lui")
    ∷ (0b0010111, "auipc")
    ∷ (0b1101111, "jal")
    ∷ (0b1100111, "jalr")
    ∷ (0b1100011, "branch")
    ∷ (0b0000011, "load")
    ∷ (0b0100011, "store")
    ∷ (0b0010011, "op-imm")
    ∷ (0b0110011, "op-reg")
    ∷ (0b0001111, "fence")
    ∷ (0b1110011, "system")
    ∷ []

abbrev pub branch_names : List (ℕ × String)
branch_names =
    (0b000, "beq")
    ∷ (0b001, "bne")
    ∷ (0b100, "blt")
    ∷ (0b101, "bge")
    ∷ (0b110, "bltu")
    ∷ (0b111, "bgeu")
    ∷ []

abbrev pub load_names : List (ℕ × String)
load_names = (0b000, "lb") ∷ (0b001, "lh") ∷ (0b010, "lw") ∷ (0b100, "lbu") ∷ (0b101, "lhu") ∷ []

abbrev pub store_names : List (ℕ × String)
store_names = (0b000, "sb") ∷ (0b001, "sh") ∷ (0b010, "sw") ∷ []

abbrev pub alu_imm_names : List (ℕ × String)
alu_imm_names =
    (0b000, "addi")
    ∷ (0b010, "slti")
    ∷ (0b011, "sltiu")
    ∷ (0b100, "xori")
    ∷ (0b110, "ori")
    ∷ (0b111, "andi")
    ∷ (0b001, "slli")
    ∷ (0b101, "srli/srai")
    ∷ []

abbrev pub alu_reg_names : List (ℕ × String)
alu_reg_names =
    (0b000, "add/sub")
    ∷ (0b001, "sll")
    ∷ (0b010, "slt")
    ∷ (0b011, "sltu")
    ∷ (0b100, "xor")
    ∷ (0b101, "srl/sra")
    ∷ (0b110, "or")
    ∷ (0b111, "and")
    ∷ []

-- The constant REQUIRED.
abbrev pub required : List String
required =
    ("op:lui" ∷ "op:auipc" ∷ "op:jal" ∷ "op:jalr" ∷ "op:branch" ∷ "op:load" ∷ "op:store"
      ∷ "op:op-imm" ∷ "op:op-reg" ∷ [])
    ++ map (append "branch:") (names branch_names)
    ++ ("branch:taken" ∷ "branch:not-taken" ∷ [])
    ++ map (append "mem:") (names load_names)
    ++ map (append "mem:") (names store_names)
    ++ ("shift:zero" ∷ "shift:max" ∷ "result:zero" ∷ "result:negative" ∷ "rd:x0" ∷ "rs1:x0"
        ∷ "mem:unaligned-lane" ∷ [])

-- The decimal text of a number below 8: a `funct3` that has no name stands for itself.
abbrev pub digit : ℕ → String
digit n = get_or ("0" ∷ "1" ∷ "2" ∷ "3" ∷ "4" ∷ "5" ∷ "6" ∷ "7" ∷ []) n ""

abbrev pub name_or_digit : Option String → ℕ → String
name_or_digit (some name) funct3 = name
name_or_digit none funct3 = digit funct3

-- f"{group}:{table.get(funct3, funct3)}"
abbrev pub bin : String → List (ℕ × String) → ℕ → String
bin group table funct3 = append group (name_or_digit (name_of funct3 table) funct3)

unfoldable pub sample_branch : Counter → ℕ → Commit → Counter
sample_branch counts funct3 c =
    let counted = increment (bin "branch:" branch_names funct3) counts in
    increment
      (if c.next_pc != bit_and (c.pc + 4) mask32 then "branch:taken" else "branch:not-taken")
      counted

unfoldable pub sample_memory : Counter → List (ℕ × String) → ℕ → Commit → Counter
sample_memory counts table funct3 c =
    increment_if (bit_and c.mem_addr 3 != 0) "mem:unaligned-lane"
      (increment (bin "mem:" table funct3) counts)

unfoldable pub sample_imm : Counter → ℕ → ℕ → Counter
sample_imm counts inst funct3 =
    let counted = increment (bin "alu:" alu_imm_names funct3) counts in
    let shamt = bits inst 24 20 in
    let shift_op = funct3 == 0b001 || funct3 == 0b101 in
    increment_if (shift_op && shamt == 31) "shift:max"
      (increment_if (shift_op && shamt == 0) "shift:zero" counted)

unfoldable pub sample_reg : Counter → ℕ → ℕ → Counter
sample_reg counts funct3 funct7 =
    increment_if (funct7 == 0x20) "alu:alt-funct7"
      (increment (bin "alu:" alu_reg_names funct3) counts)

-- The bins of one instruction group, told by the opcode that has its name.
unfoldable pub sample_group : Counter → ℕ → Commit → Counter
unfolding sample_branch sample_memory sample_imm sample_reg
sample_group counts inst c =
    let opcode = bits inst 6 0 in
    let funct3 = bits inst 14 12 in
    if opcode == 0b1100011
    then sample_branch counts funct3 c
    else if opcode == 0b0000011
    then sample_memory counts load_names funct3 c
    else if opcode == 0b0100011
    then sample_memory counts store_names funct3 c
    else if opcode == 0b0010011
    then sample_imm counts inst funct3
    else if opcode == 0b0110011
    then sample_reg counts funct3 (bits inst 31 25)
    else counts

unfoldable pub sample_registers : Counter → ℕ → Commit → Counter
sample_registers counts inst c =
    let opcode = bits inst 6 0 in
    let computes = opcode == 0b0010011 || opcode == 0b0110011 || opcode == 0b0110111 in
    increment_if (bits inst 19 15 == 0) "rs1:x0"
      (increment_if (bits inst 11 7 == 0 && c.rd == 0 && computes) "rd:x0" counts)

unfoldable pub sample_result : Counter → Commit → Counter
sample_result counts c =
    let wrote = c.rd != 0 in
    increment_if (wrote && ltb_ℤ (to_signed c.rd_wdata 32) (pos 0)) "result:negative"
      (increment_if (wrote && c.rd_wdata == 0) "result:zero" counts)

-- The rest of `sample`, on the name of the opcode.
unfoldable pub sample_named : Option String → Counter → ℕ → Commit → Counter
unfolding sample_group sample_registers sample_result
sample_named none counts inst c = increment "op:unknown" counts
sample_named (some name) counts inst c =
    sample_result
      (sample_group (sample_registers (increment (append "op:" name) counts) inst c) inst c) c

unfoldable pub sample : Counter → ℕ → Commit → Counter
unfolding sample_named
sample counts inst c = sample_named (name_of (bits inst 6 0) opcode_names) counts inst c

-- The bins of a list that were never counted.
unfoldable pub uncounted : List String → Counter → List String
uncounted [] counts = []
uncounted (b ∷ bins) counts =
    let rest = uncounted bins counts in if hits b counts == 0 then b ∷ rest else rest

unfoldable pub missing : Counter → List String
unfolding uncounted
missing counts = uncounted required counts

-- The counts after the instructions of a trace, as the testbench samples them.
unfoldable pub sample_trace : Counter → List Commit → Counter
unfolding sample
sample_trace counts [] = counts
sample_trace counts (c ∷ cs) = sample_trace (sample counts c.inst c) cs
