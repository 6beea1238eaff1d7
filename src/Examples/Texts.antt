-- ===== src/Examples/Texts.antt =====
-- The texts of the assembler: the self-check of verif/asm.py, and the theorems at concrete inputs.
use rv32i_cpu.Base.{◌≡◌, refl, arith, [], ◌∷◌, none, false}
use rv32i_cpu.Asm.Text.{split_lines}
use rv32i_cpu.Asm.Source.{assemble_text, to_hex}
use rv32i_cpu.Asm.Tables.{find}
use rv32i_cpu.Asm.Encode.{imm, reg, split_offset}
use rv32i_cpu.Asm.Hex.{Holds, to_hex-Holds}

-- Texts that are refused: a register, an operation, a number and an operand that are not there.
refused :
    (assemble_text "addi x32, x0, 1" 0 ≡ none)
    × (assemble_text "frob x1, x2" 0 ≡ none)
    × (assemble_text "addi x1, x0, 0x" 0 ≡ none)
    × (assemble_text "addi x1, x0" 0 ≡ none)
unfolding assemble_text find imm reg split_offset
refused = (refl, refl, refl, refl)

to_hex-Holds_example :
    Holds
      (split_lines false (to_hex (0x0010_0093 ∷ 0xfe00_0ce3 ∷ [])))
      (0x0010_0093 ∷ 0xfe00_0ce3 ∷ [])
to_hex-Holds_example =
    to_hex-Holds (0x0010_0093 ∷ 0xfe00_0ce3 ∷ []) (omega arith, (omega arith, tt))
