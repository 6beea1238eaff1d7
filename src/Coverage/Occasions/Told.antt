-- ===== src/Coverage/Occasions/Told.antt =====
-- A bin of verif/coverage.py is counted on an occasion, as every opcode shows.
use Prim.Native.String.{String}
use rv32i_cpu.Base.{ℕ, ◌≡◌, arith, Bool, true, none, to_int, all_below}
use rv32i_cpu.Bits.{bits}
use rv32i_cpu.Bits.Laws.{bits_lem}
use rv32i_cpu.Iss.State.{Commit}
use rv32i_cpu.Coverage.{name_of, opcode_names}
use rv32i_cpu.Coverage.Occasions.Tally.{tally}
use rv32i_cpu.Coverage.Occasions.Cases.{
  Unknown, Each, by_opcode, Kinds, Counts, counted, Counts-counted, Tests, tests,
}

-- A bin is counted on an occasion, as every opcode shows.
abbrev pub Told : String → (Commit → Bool) → Type 0
Told b happens =
    (c : Commit)
    → tally b (name_of (bits c.inst 6 0) opcode_names) (bits c.inst 6 0) (bits c.inst 14 12) c
      ≡ to_int (happens c)

module _ (b : String) (kinds : Kinds) (test : ℕ → Commit → Bool)
    (table : all_below 8 (counted b kinds) ≡ true) where
  pub told :
      ((c : Commit)
        → Tests c
        → Counts b kinds (bits c.inst 14 12)
        → Each (λ name op. tally b name op (bits c.inst 14 12) c ≡ to_int (test op c)) opcode_names)
      → ((op : ℕ) (c : Commit)
          → Unknown op opcode_names
          → tally b none op (bits c.inst 14 12) c ≡ to_int (test op c))
      → (c : Commit)
      → tally b (name_of (bits c.inst 6 0) opcode_names) (bits c.inst 6 0) (bits c.inst 14 12) c
        ≡ to_int (test (bits c.inst 6 0) c)
  told each rest c =
      let funct3 = bits c.inst 14 12 in
      by_opcode (λ name op. tally b name op funct3 c ≡ to_int (test op c)) opcode_names
        (bits c.inst 6 0)
        (each c (tests c)
          (Counts-counted b kinds funct3 table (omega (arith, bits_lem c.inst 14 12))))
        (rest (bits c.inst 6 0) c)
