-- ===== src/Iss/State.antt =====
-- The object `Iss` and its constructor, and the constants of verif/iss.py.
use rv32i_cpu.Base.{ℕ, ◌+◌, ◌%◌, List, [], ◌∷◌, Bool, false, bit_and, set, replicate}
use rv32i_cpu.Bits.{mask32}

abbrev pub halt_none : ℕ
halt_none = 0

abbrev pub halt_ecall : ℕ
halt_ecall = 1

abbrev pub halt_ebreak : ℕ
halt_ebreak = 2

abbrev pub halt_illegal : ℕ
halt_illegal = 3

abbrev pub halt_mem_misalign : ℕ
halt_mem_misalign = 4

abbrev pub halt_fetch_misalign : ℕ
halt_fetch_misalign = 5

pub record Iss : Type 0 where
  pub words : ℕ
  pub mem : List ℕ
  pub regs : List ℕ
  pub pc : ℕ
  pub halt_cause : ℕ
  pub halted : Bool

-- What one retired instruction did.
pub record Commit : Type 0 where
  pub pc : ℕ
  pub inst : ℕ
  pub next_pc : ℕ
  pub rd : ℕ
  pub rd_wdata : ℕ
  pub mem_write : ℕ
  pub mem_addr : ℕ
  pub mem_wdata : ℕ

-- The loop of the constructor, from index `i` on: a program longer than the memory wraps round.
unfoldable pub load_program : ℕ → ℕ → List ℕ → List ℕ → List ℕ
load_program words i [] mem = mem
load_program words i (word ∷ rest) mem =
    load_program words (i + 1) rest (set mem (i % words) (bit_and word mask32))

unfoldable pub new : List ℕ → ℕ → ℕ → Iss
unfolding load_program
new program words reset_pc = record {
  words = words;
  mem = load_program words 0 program (replicate words 0);
  regs = replicate 32 0;
  pc = bit_and reset_pc mask32;
  halt_cause = halt_none;
  halted = false;
}
