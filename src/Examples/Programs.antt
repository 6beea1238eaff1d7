-- ===== src/Examples/Programs.antt =====
-- The pseudo-instruction `li` of the assembler, at a concrete number.
use rv32i_cpu.Base.{ℕ, ◌+◌, ◌*◌, ◌≡◌, refl, arith, List, [], ◌∷◌, some, length}
use rv32i_cpu.Base.Int.{negsuc, and_ℤ, ◌-ℤ◌}
use rv32i_cpu.Bits.{mask32}
use rv32i_cpu.Isa.{i_type, u_type}
use rv32i_cpu.Iss.State.{Iss, new}
use rv32i_cpu.Iss.Step.{run}
use rv32i_cpu.Iss.Step.Invariant.{new-IsWellFormed}
use rv32i_cpu.Asm.Tables.{find}
use rv32i_cpu.Asm.Number.{int_0, x_number}
use rv32i_cpu.Asm.Text.{normalise}
use rv32i_cpu.Asm.Encode.{Labels, reg}
use rv32i_cpu.Asm.Li.{li, loading_words}
use rv32i_cpu.Asm.Li.Words.{line_words, NoNumber, read_reg}
use rv32i_cpu.Asm.Li.Runs.{put, Stored, run-line_words}

abbrev labels : Labels
labels = ("start", 0) ∷ []

abbrev words : List ℕ
words = 0xdead_c537 ∷ 0xeef5_0513 ∷ []

abbrev initial : Iss
initial = new words 8 0

no_number : NoNumber labels
unfolding int_0
no_number = (refl, tt)

named : read_reg "a0" ≡ some 10
unfolding reg normalise find x_number
named = refl

read : int_0 "-0x21524111" ≡ some (negsuc 0x2152_4110)
unfolding int_0
read = refl

stored : Stored initial 0 (loading_words 10 (li (negsuc 0x2152_4110)))
unfolding new li i_type u_type and_ℤ ◌-ℤ◌
stored = (refl, (refl, tt))

run-line_words_example :
    (line_words
        (record { labels = []; op = "li"; args = "a0" ∷ "-0x21524111" ∷ [] })
        initial.pc
        labels
      ≡ some (loading_words 10 (li (negsuc 0x2152_4110))))
    × ((run (length (loading_words 10 (li (negsuc 0x2152_4110)))) initial).0 ≡ record initial {
      regs = put initial.regs 10 (and_ℤ (negsuc 0x2152_4110) mask32);
      pc = initial.pc + 4 * length (loading_words 10 (li (negsuc 0x2152_4110)));
    })
unfolding new
run-line_words_example =
    run-line_words "a0" "-0x21524111" 10 (negsuc 0x2152_4110) [] labels initial no_number named
      (omega arith) read (new-IsWellFormed words 8 0 (omega arith) refl) refl (omega arith) stored
