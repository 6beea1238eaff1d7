-- ===== src/Asm/Demo.antt =====
-- The self-check `demo` of verif/asm.py. An assertion that fails is false.
use rv32i_cpu.Base.{ℕ, List, [], ◌∷◌, Bool, false, ◌&&◌, Option, none, some, length, get_or, ◌==◌}
use rv32i_cpu.Asm.Source.{assemble_text}

-- The assembled words, on which an assertion holds.
abbrev words_hold : (List ℕ → Bool) → Option (List ℕ) → Bool
words_hold holds none = false
words_hold holds (some words) = holds words

-- `== [word]`
abbrev one_word : ℕ → List ℕ → Bool
one_word word [] = false
one_word word (w ∷ []) = w == word
one_word word (w ∷ v ∷ words) = false

unfoldable pub asm_demo : Bool
unfolding assemble_text
asm_demo =
    words_hold (one_word 0x0010_0093) (assemble_text "addi x1, x0, 1" 0)
    && words_hold (one_word 0x0005_2083) (assemble_text "lw x1, 0(x10)" 0)
    && words_hold (one_word 0xfe51_2c23) (assemble_text "sw x5, -8(x2)" 0)
    && words_hold (one_word 0x4020_8133) (assemble_text "sub x2, x1, x2" 0)
    && words_hold (one_word 0x40d0_d093) (assemble_text "srai x1, x1, 13" 0)
    && words_hold (one_word 0x0000_0073) (assemble_text "ecall" 0)
    && words_hold (λ words. get_or words 2 0 == 0xfe00_0ce3)
        (assemble_text "top: nop\nnop\nbeq x0, x0, top" 0)
    && words_hold (one_word 0x0050_0513) (assemble_text "li a0, 5" 0)
    && words_hold (λ words. length words == 2) (assemble_text "li a0, 0x12345" 0)
    && words_hold (one_word 0x0005_0593) (assemble_text "mv a1, a0" 0)
