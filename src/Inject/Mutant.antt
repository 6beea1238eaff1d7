-- ===== src/Inject/Mutant.antt =====
-- The class `Mutant` and the table BLOCKS of tools/inject_bugs.py.
use Prim.Native.String.{String}
use rv32i_cpu.Base.{ℕ, List, [], ◌∷◌}

pub record Mutant : Type 0 where
  pub target : String
  pub file : String
  pub description : String
  pub old : String
  pub new : String
  pub extra : List (String × String)

-- An entry of BLOCKS: the files to compile, the module with the tests, and the parameters.
pub record Block : Type 0 where
  pub sources : List String
  pub test_module : String
  pub params : List (String × ℕ)

abbrev pub blocks : List (String × Block)
blocks =
    ("alu", record { sources = "alu.sv" ∷ []; test_module = "verif.unit.tb_alu"; params = [] })
    ∷ (
      "regfile",
      record { sources = "regfile.sv" ∷ []; test_module = "verif.unit.tb_regfile"; params = [] },
    )
    ∷ (
      "imm_gen",
      record { sources = "imm_gen.sv" ∷ []; test_module = "verif.unit.tb_imm_gen"; params = [] },
    )
    ∷ (
      "decoder",
      record { sources = "decoder.sv" ∷ []; test_module = "verif.unit.tb_decoder"; params = [] },
    )
    ∷ (
      "branch_cmp",
      record {
        sources = "branch_cmp.sv" ∷ [];
        test_module = "verif.unit.tb_branch_cmp";
        params = [];
      },
    )
    ∷ (
      "memory",
      record {
        sources = "memory.sv" ∷ [];
        test_module = "verif.unit.tb_memory";
        params = ("WORDS", 256) ∷ [];
      },
    )
    ∷ (
      "pc_unit",
      record { sources = "pc_unit.sv" ∷ []; test_module = "verif.unit.tb_pc_unit"; params = [] },
    )
    ∷ (
      "soc",
      record {
        sources =
            "alu.sv" ∷ "regfile.sv" ∷ "imm_gen.sv" ∷ "decoder.sv" ∷ "branch_cmp.sv" ∷ "memory.sv"
            ∷ "pc_unit.sv" ∷ "core.sv" ∷ "soc.sv" ∷ [];
        test_module = "verif.tb_core";
        params = ("WORDS", 1024) ∷ [];
      },
    )
    ∷ []
