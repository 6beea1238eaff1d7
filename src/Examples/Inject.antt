-- ===== src/Examples/Inject.antt =====
-- The script that plants bugs, on a small design and with a simulator that fails one test.
use Prim.Native.String.{String}
use text.Mathlib.Text.{◌==◌ as text_eq}
use rv32i_cpu.Base.{ℕ, ◌≡◌, ◌↔◌, refl, false, [], ◌∷◌, All, Option, none, some, if◌then◌else◌}
use rv32i_cpu.Inject.Mutant.{Mutant, Block}
use rv32i_cpu.Inject.Table.{mutants}
use rv32i_cpu.Inject.Rtl.{core_text}
use rv32i_cpu.Inject.Run.{ended, Work, run_mutant}
use rv32i_cpu.Inject.Main.{Args, select, main}
use rv32i_cpu.Inject.Main.Exit.{NotEmpty, Noticed, main-Noticed}
use rv32i_cpu.Inject.Main.Planted.{Planted, run_mutant-Planted}
use rv32i_cpu.Inject.Main.Stale.{IsRaised, main-IsRaised}

-- Every file but rtl/core.sv is one line.
abbrev rtl : String → Option String
rtl name =
    if text_eq name "core.sv"
    then some core_text
    else some "assign rs2_data = (rs2_addr == 5'd0) ? 32'b0 : regs[rs2_addr];"

abbrev simulate : Block → String → Work → Option (ℕ × ℕ)
simulate block top files = some (3, 1)

abbrev wrong_port : Mutant
wrong_port = record {
  target = "regfile";
  file = "regfile.sv";
  description = "rs2 port reads the rs1 address";
  old = "regs[rs2_addr];";
  new = "regs[rs1_addr];";
  extra = [];
}

planted : run_mutant rtl simulate wrong_port ≡ ended (3, 1)
unfolding run_mutant
planted = refl

run_mutant-Planted_example : Planted rtl simulate wrong_port (3, 1)
unfolding run_mutant
run_mutant-Planted_example = run_mutant-Planted rtl simulate wrong_port (3, 1) refl

abbrev args : Args
args = record { only = some "PORT"; list = false }

main-Noticed_example : ((main rtl simulate args (wrong_port ∷ [])).1 ≡ ended 0) ↔ (
    NotEmpty (select args.only (wrong_port ∷ []))
    × All (λ m. Noticed (run_mutant rtl simulate m)) (select args.only (wrong_port ∷ [])))
main-Noticed_example = main-Noticed rtl simulate args (wrong_port ∷ []) refl

-- The run comes to the exit code 0.
noticed : (main rtl simulate args (wrong_port ∷ [])).1 ≡ ended 0
unfolding main
noticed = refl

main-IsRaised_example :
    IsRaised (main rtl simulate (record { only = none; list = false }) mutants).1
main-IsRaised_example = main-IsRaised rtl simulate refl
