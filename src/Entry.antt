-- ===== src/Entry.antt =====
-- verif/sim.py, verif/test_unit.py and verif/test_core.py: what the pytest entry points ask of the
-- runner of cocotb, which is a parameter. Paths are relative to the repository's root.
use Prim.Native.String.{String, ◌++◌ as ◌<>◌}
use text.Mathlib.Text.{◌==◌ as text_eq}
use rv32i_cpu.Base.{ℕ, List, [], ◌∷◌, ◌++◌, map, Bool, true, false, Option, none, some}
use rv32i_cpu.Inject.Mutant.{Block}

-- The variables SIM and WAVES, if they are set.
pub record Environment : Type 0 where
  pub sim : Option String
  pub waves : Option String

-- The arguments of `runner.build`.
pub record BuildCall : Type 0 where
  pub sources : List String
  pub hdl_toplevel : String
  pub parameters : List (String × ℕ)
  pub build_dir : String
  pub timescale : String × String
  pub waves : Bool
  pub always : Bool

-- The arguments of `runner.test`.
pub record TestCall : Type 0 where
  pub hdl_toplevel : String
  pub test_module : String
  pub build_dir : String
  pub test_dir : String
  pub waves : Bool

abbrev pub packages : List String
packages = "rtl/rv32i_pkg.sv" ∷ []

abbrev pub simulator : Environment → String
simulator env = elim env.sim [ none ↦ "icarus" | some name ↦ name ]

abbrev pub wants_waves : Environment → Bool
wants_waves env = elim env.waves [ none ↦ false | some value ↦ text_eq value "1" ]

abbrev pub build_call : Environment → String → Block → BuildCall
build_call env toplevel block = record {
  sources = packages ++ map (λ f. "rtl/" <> f) block.sources;
  hdl_toplevel = toplevel;
  parameters = block.params;
  build_dir = "sim_build/" <> toplevel;
  timescale = ("1ns", "1ps");
  waves = wants_waves env;
  always = true;
}

abbrev pub test_call : Environment → String → Block → TestCall
test_call env toplevel block = record {
  hdl_toplevel = toplevel;
  test_module = block.test_module;
  build_dir = "sim_build/" <> toplevel;
  test_dir = "sim_build/" <> toplevel;
  waves = wants_waves env;
}

-- UNITS
abbrev pub units : List (String × Block)
units =
    ("alu", record { sources = "alu.sv" ∷ []; test_module = "verif.unit.tb_alu"; params = [] })
    ∷ (
      "regfile",
      record { sources = "regfile.sv" ∷ []; test_module = "verif.unit.tb_regfile"; params = [] },
    )
    ∷ (
      "imm_gen",
      record { sources = "imm_gen.sv" ∷ []; test_module = "verif.unit.tb_imm_gen"; params = [] },
    )
    ∷ (
      "decoder",
      record { sources = "decoder.sv" ∷ []; test_module = "verif.unit.tb_decoder"; params = [] },
    )
    ∷ (
      "branch_cmp",
      record {
        sources = "branch_cmp.sv" ∷ [];
        test_module = "verif.unit.tb_branch_cmp";
        params = [];
      },
    )
    ∷ (
      "memory",
      record {
        sources = "memory.sv" ∷ [];
        test_module = "verif.unit.tb_memory";
        params = ("WORDS", 256) ∷ [];
      },
    )
    ∷ (
      "pc_unit",
      record { sources = "pc_unit.sv" ∷ []; test_module = "verif.unit.tb_pc_unit"; params = [] },
    )
    ∷ []

-- RTL
abbrev pub core_rtl : List String
core_rtl =
    "alu.sv" ∷ "regfile.sv" ∷ "imm_gen.sv" ∷ "decoder.sv" ∷ "branch_cmp.sv" ∷ "memory.sv"
    ∷ "pc_unit.sv" ∷ "core.sv" ∷ "soc.sv" ∷ []

-- The runner builds, which may fail, and then tests what it built, which fails if a test does.
module _ {R : Type 0} (build : String → BuildCall → Option R) (test : R → TestCall → Bool)
    (env : Environment) where
  unfoldable pub run_cocotb : String → Block → Bool
  run_cocotb toplevel block = elim (build (simulator env) (build_call env toplevel block)) [
    | none ↦ false
    | some built ↦ test built (test_call env toplevel block)
  ]

  -- `test_unit`, for each of its parameters.
  unfoldable pub test_unit : List Bool
  unfolding run_cocotb
  test_unit = map (λ (u : String × Block). run_cocotb u.0 u.1) units

  unfoldable pub test_core : Bool
  unfolding run_cocotb
  test_core =
      run_cocotb "soc" (record {
        sources = core_rtl;
        test_module = "verif.tb_core";
        params = ("WORDS", 1024) ∷ [];
      })
