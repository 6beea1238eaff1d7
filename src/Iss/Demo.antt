-- ===== src/Iss/Demo.antt =====
-- The self-check `demo` of verif/iss.py. An assertion that fails, or a text that does not assemble,
-- is false.
use Prim.Native.String.{String}
use rv32i_cpu.Base.{ℕ, List, [], ◌∷◌, Bool, true, false, ◌&&◌, Option, none, some, get_or, ◌==◌}
use rv32i_cpu.Iss.State.{Iss, Commit, halt_ecall, halt_ebreak, halt_illegal, new}
use rv32i_cpu.Iss.Step.{run}
use rv32i_cpu.Asm.Source.{assemble_text}

-- `Iss(program, words=256)`, with `run`, and the assertions on the two.
abbrev asserts : (Iss × List Commit → Bool) → Option (List ℕ) → Bool
asserts holds none = false
asserts holds (some program) = holds (run 10000 (new program 256 0))

abbrev first_writes : ℕ → ℕ → List Commit → Bool
first_writes pc rd [] = false
first_writes pc rd (c ∷ trace) = c.pc == pc && c.rd == rd

abbrev none_retired : List Commit → Bool
none_retired [] = true
none_retired (c ∷ trace) = false

abbrev sum_source : String
sum_source =
    "\n        li   a0, 0\n        li   t0, 1\n    loop:\n        add  a0, a0, t0\n        addi t0, t0, 1\n        li   t1, 11\n        blt  t0, t1, loop\n        ecall\n    "

abbrev sum_holds : Iss × List Commit → Bool
sum_holds (s, trace) =
    s.halt_cause == halt_ecall && get_or s.regs 10 0 == 55 && first_writes 0 10 trace

abbrev extend_source : String
extend_source =
    "\n        li   t0, 0x40\n        li   t1, -2\n        sw   t1, 0(t0)\n        lb   a0, 0(t0)\n        lhu  a1, 0(t0)\n        lw   a2, 0(t0)\n        ebreak\n    "

abbrev extend_holds : Iss × List Commit → Bool
extend_holds (s, trace) =
    s.halt_cause == halt_ebreak
    && get_or s.regs 10 0 == 0xffff_fffe
    && get_or s.regs 11 0 == 0x0000_fffe
    && get_or s.regs 12 0 == 0xffff_fffe

abbrev illegal_holds : Iss × List Commit → Bool
illegal_holds (s, trace) = none_retired trace && s.halt_cause == halt_illegal

abbrev zero_holds : Iss × List Commit → Bool
zero_holds (s, trace) = get_or s.regs 0 0 == 0

unfoldable pub iss_demo : Bool
unfolding assemble_text run new
iss_demo =
    asserts sum_holds (assemble_text sum_source 0)
    && asserts extend_holds (assemble_text extend_source 0)
    && asserts illegal_holds (some (0xffff_ffff ∷ []))
    && asserts zero_holds (assemble_text "li x0, 5\necall" 0)
