-- ===== src/Asm/Tables.antt =====
-- The tables of verif/asm.py, and the look-up of a text in a table. An operation that raises gives
-- none.
use text.Mathlib.Text.{◌==◌}
use Prim.Native.String.{String}
use rv32i_cpu.Base.{ℕ, zero, suc, List, [], ◌∷◌, Option, none, some, if◌then◌else◌}

-- `table.get(key)`.
unfoldable pub find {ℓ} : {A : Type ℓ} → String → List (String × A) → Option A
find key [] = none
find key ((k, value) ∷ table) = if k == key then some value else find key table

-- `args[i]`, where IndexError is none.
abbrev pub nth {ℓ} : {A : Type ℓ} → List A → ℕ → Option A
nth [] i = none
nth (x ∷ xs) zero = some x
nth (x ∷ xs) (suc i) = nth xs i

-- `if op in table: return f(table[op])`, and the code after it.
abbrev pub when_found {ℓ κ} : {A : Type ℓ} {B : Type κ} → Option A → (A → B) → B → B
when_found none f rest = rest
when_found (some a) f rest = f a

abbrev pub abi_names : List (String × ℕ)
abi_names =
    ("zero", 0)
    ∷ ("ra", 1)
    ∷ ("sp", 2)
    ∷ ("gp", 3)
    ∷ ("tp", 4)
    ∷ ("t0", 5)
    ∷ ("t1", 6)
    ∷ ("t2", 7)
    ∷ ("s0", 8)
    ∷ ("fp", 8)
    ∷ ("s1", 9)
    ∷ ("a0", 10)
    ∷ ("a1", 11)
    ∷ ("a2", 12)
    ∷ ("a3", 13)
    ∷ ("a4", 14)
    ∷ ("a5", 15)
    ∷ ("a6", 16)
    ∷ ("a7", 17)
    ∷ ("s2", 18)
    ∷ ("s3", 19)
    ∷ ("s4", 20)
    ∷ ("s5", 21)
    ∷ ("s6", 22)
    ∷ ("s7", 23)
    ∷ ("s8", 24)
    ∷ ("s9", 25)
    ∷ ("s10", 26)
    ∷ ("s11", 27)
    ∷ ("t3", 28)
    ∷ ("t4", 29)
    ∷ ("t5", 30)
    ∷ ("t6", 31)
    ∷ []

-- funct7 and funct3.
abbrev pub r_table : List (String × (ℕ × ℕ))
r_table =
    ("add", (0x00, 0b000))
    ∷ ("sub", (0x20, 0b000))
    ∷ ("sll", (0x00, 0b001))
    ∷ ("slt", (0x00, 0b010))
    ∷ ("sltu", (0x00, 0b011))
    ∷ ("xor", (0x00, 0b100))
    ∷ ("srl", (0x00, 0b101))
    ∷ ("sra", (0x20, 0b101))
    ∷ ("or", (0x00, 0b110))
    ∷ ("and", (0x00, 0b111))
    ∷ []

abbrev pub i_table : List (String × ℕ)
i_table =
    ("addi", 0b000)
    ∷ ("slti", 0b010)
    ∷ ("sltiu", 0b011)
    ∷ ("xori", 0b100)
    ∷ ("ori", 0b110)
    ∷ ("andi", 0b111)
    ∷ []

abbrev pub shift_table : List (String × (ℕ × ℕ))
shift_table = ("slli", (0x00, 0b001)) ∷ ("srli", (0x00, 0b101)) ∷ ("srai", (0x20, 0b101)) ∷ []

abbrev pub load_table : List (String × ℕ)
load_table = ("lb", 0b000) ∷ ("lh", 0b001) ∷ ("lw", 0b010) ∷ ("lbu", 0b100) ∷ ("lhu", 0b101) ∷ []

abbrev pub store_table : List (String × ℕ)
store_table = ("sb", 0b000) ∷ ("sh", 0b001) ∷ ("sw", 0b010) ∷ []

abbrev pub branch_table : List (String × ℕ)
branch_table =
    ("beq", 0b000)
    ∷ ("bne", 0b001)
    ∷ ("blt", 0b100)
    ∷ ("bge", 0b101)
    ∷ ("bltu", 0b110)
    ∷ ("bgeu", 0b111)
    ∷ []
