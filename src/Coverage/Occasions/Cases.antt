-- ===== src/Coverage/Occasions/Cases.antt =====
-- The cases of a sample of verif/coverage.py: the eleven opcodes, the kinds of each group, and the
-- tests on a commit.
use Prim.Native.String.{String}
use rv32i_cpu.Base.{
  ℕ, ◌+◌, ◌%◌, ◌^◌, ◌<◌, ◌≡◌, arith, Bool, true, false, ◌&&◌, List, [], ◌∷◌, Option, none, some,
  bit_and, ◌==◌, inl, inr, leb, to_int, if◌then◌else◌, all_below, all_below_lem, Bool-cases, ==_iff,
}
use rv32i_cpu.Base.Int.{pos, ltb_ℤ}
use rv32i_cpu.Base.BitOps.{and_low}
use rv32i_cpu.Bits.{mask32, to_signed}
use rv32i_cpu.Bits.Laws.{to_signed_value}
use rv32i_cpu.Iss.State.{Commit}
use rv32i_cpu.Coverage.{
  name_of, branch_names, load_names, store_names, alu_imm_names, alu_reg_names, bin,
}
use rv32i_cpu.Coverage.Occasions.Tally.{gain}

-- An opcode without a name.
abbrev pub Unknown : ℕ → List (ℕ × String) → Type 0
Unknown op [] = Unit
Unknown op ((k, name) ∷ names) = ((k == op) ≡ false) × Unknown op names

-- A statement about every opcode of a table, with its name.
abbrev pub Each : (Option String → ℕ → Type 0) → List (ℕ × String) → Type 0
Each P [] = Unit
Each P ((k, name) ∷ names) = P (some name) k × Each P names

pub by_opcode :
    (P : Option String → ℕ → Type 0) (names : List (ℕ × String)) (op : ℕ)
    → Each P names
    → (Unknown op names → P none op)
    → P (name_of op names) op
by_opcode P [] op each rest = rest tt
by_opcode P ((k, name) ∷ names) op each rest = elim (Bool-cases (k == op)) [
  | inl same ↦ let e : k ≡ op = (==_iff k op).0 same in rw same (rw e at each.0)
  | inr other ↦ rw other (by_opcode P names op each.1 (λ u. rest (other, u)))
]

-- Which codes of the five groups are counted in a bin.
pub record Kinds : Type 0 where
  pub branches : List ℕ
  pub loads : List ℕ
  pub stores : List ℕ

abbrev pub among : ℕ → List ℕ → Bool
among f [] = false
among f (k ∷ ks) = if f == k then true else among f ks

abbrev pub Counts : String → Kinds → ℕ → Type 0
Counts b kinds f =
    (gain b true (bin "branch:" branch_names f) ≡ to_int (among f kinds.branches))
    × (gain b true (bin "mem:" load_names f) ≡ to_int (among f kinds.loads))
    × (gain b true (bin "mem:" store_names f) ≡ to_int (among f kinds.stores))
    × (gain b true (bin "alu:" alu_imm_names f) ≡ 0)
    × (gain b true (bin "alu:" alu_reg_names f) ≡ 0)

abbrev pub counted : String → Kinds → ℕ → Bool
counted b kinds f =
    gain b true (bin "branch:" branch_names f) == to_int (among f kinds.branches)
    && gain b true (bin "mem:" load_names f) == to_int (among f kinds.loads)
    && gain b true (bin "mem:" store_names f) == to_int (among f kinds.stores)
    && gain b true (bin "alu:" alu_imm_names f) == 0
    && gain b true (bin "alu:" alu_reg_names f) == 0

all_five :
    (p q r s t u v w x y : ℕ)
    → (p == q && r == s && t == u && v == w && x == y) ≡ true
    → (p ≡ q) × (r ≡ s) × (t ≡ u) × (v ≡ w) × (x ≡ y)
all_five p q r s t u v w x y h = ground (arith, h)

pub Counts-counted :
    (b : String) (kinds : Kinds) (f : ℕ)
    → all_below 8 (counted b kinds) ≡ true
    → f < 8
    → Counts b kinds f
Counts-counted b kinds f h lt =
    all_five _ _ _ _ _ _ _ _ _ _ (all_below_lem 8 (counted b kinds) f h lt)

-- The tests of `sample` on a commit, in arithmetic.
pub record Tests (c : Commit) : Type 0 where
  pub next : bit_and (c.pc + 4) mask32 ≡ (c.pc + 4) % 2 ^ 32
  pub lane : bit_and c.mem_addr 3 ≡ c.mem_addr % 4
  pub negative : ltb_ℤ (to_signed c.rd_wdata 32) (pos 0) ≡ leb (2 ^ 31) (c.rd_wdata % 2 ^ 32)

pub tests : (c : Commit) → Tests c
tests c = record {
  next = and_low 32 (c.pc + 4);
  lane = and_low 2 c.mem_addr;
  negative = rw (to_signed_value 31 c.rd_wdata) (ground arith);
}
