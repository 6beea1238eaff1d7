-- ===== src/Examples/Entry.antt =====
-- The pytest entry points and the script that plants bugs build the same files, with the same tests
-- and the same parameters.
use rv32i_cpu.Base.{◌≡◌, refl, [], ◌∷◌, ◌++◌}
use rv32i_cpu.Inject.Mutant.{blocks}
use rv32i_cpu.Entry.{units, core_rtl}

same_blocks :
    blocks
    ≡ units
      ++ (
        "soc",
        record { sources = core_rtl; test_module = "verif.tb_core"; params = ("WORDS", 1024) ∷ [] },
      )
        ∷ []
same_blocks = refl
