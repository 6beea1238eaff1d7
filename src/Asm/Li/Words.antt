-- ===== src/Asm/Li/Words.antt =====
-- What `assemble` of verif/asm.py makes of `li`: the instructions of `_expand`, and their words.
use Prim.Native.String.{String}
use text.Mathlib.Text.{◌==◌ as text_eq}
use text.Mathlib.TextEquality.{eq_iff}
use rv32i_cpu.Base.{
  ◌>>=◌, ℕ, ◌+◌, ◌<◌, ◌≡◌, refl, ap, ◌∙◌, arith, List, [], ◌∷◌, All, false, Option, none, some,
  Bool-cases, inl, inr,
}
use rv32i_cpu.Base.Int.{ℤ, pos}
use rv32i_cpu.Isa.{i_type, u_type, op_imm, op_lui}
use rv32i_cpu.Isa.Bounds.{i_type_small, u_type_small}
use rv32i_cpu.Iss.Memory.Lanes.{and_mask-small}
use rv32i_cpu.Asm.Tables.{find}
use rv32i_cpu.Asm.Text.{strip, normalise}
use rv32i_cpu.Asm.Number.{int_0, to_text, x_number}
use rv32i_cpu.Asm.Texts.{int_0-to_text, strip-to_text}
use rv32i_cpu.Asm.Source.{match_offset}
use rv32i_cpu.Asm.Li.{Loaded, one, two, li, loading_words, IsEncodable, li-Loads}
use rv32i_cpu.Asm.Encode.{
  Labels, Line, reg, imm, li_lines, expand, encode, encode_other, line_instructions, place,
  encode_item, second_pass,
}

-- The functions of the assembler on texts.
abbrev pub read_reg : String → Option ℕ
read_reg token = reg strip normalise int_0 to_text x_number match_offset token

-- The words of one line at `pc`, with the labels of the second pass.
abbrev pub line_words : Line → ℕ → Labels → Option (List ℕ)
line_words line pc labels =
    line_instructions strip normalise int_0 to_text x_number match_offset line >>= λ instructions.
    second_pass strip normalise int_0 to_text x_number match_offset labels (place pc instructions)

-- No label is the text of a number.
abbrev pub NoNumber : Labels → Type 0
NoNumber labels = All (λ (l : String × ℕ). int_0 l.0 ≡ none) labels

find-number : (number : ℤ) (labels : Labels) → NoNumber labels → find (to_text number) labels ≡ none
unfolding find
find-number number [] h = refl
find-number number ((name, address) ∷ labels) h =
    elim (Bool-cases (text_eq name (to_text number))) [
      | inl same ↦
          let e : name ≡ to_text number = (eq_iff name (to_text number)).0 same in
          let read : int_0 name ≡ some number = ap int_0 e ∙ int_0-to_text number in
          absurd (cc (read, h.0))
      | inr other ↦ rw other (find-number number labels h.1)
    ]

imm-number :
    (number : ℤ) (labels : Labels) (pc : ℕ)
    → NoNumber labels
    → imm strip normalise int_0 to_text x_number match_offset (to_text number) labels pc false
      ≡ some number
unfolding imm
imm-number number labels pc h =
    rw (strip-to_text number, find-number number labels h, int_0-to_text number) refl

encode-addi :
    (rd_text base : String) (low : ℤ) (pc rd rs1 : ℕ) (labels : Labels)
    → NoNumber labels
    → read_reg rd_text ≡ some rd
    → read_reg base ≡ some rs1
    → encode strip normalise int_0 to_text x_number match_offset "addi"
        (rd_text ∷ base ∷ to_text low ∷ [])
        pc
        labels
      ≡ some (i_type low rs1 0 rd op_imm)
unfolding encode find
encode-addi rd_text base low pc rd rs1 labels h named based =
    rw (imm-number low labels pc h, named, based) refl

encode-lui :
    (rd_text : String) (upper : ℤ) (pc rd : ℕ) (labels : Labels)
    → NoNumber labels
    → read_reg rd_text ≡ some rd
    → encode strip normalise int_0 to_text x_number match_offset "lui"
        (rd_text ∷ to_text upper ∷ [])
        pc
        labels
      ≡ some (u_type upper rd op_lui)
unfolding encode find encode_other
encode-lui rd_text upper pc rd labels h named = rw (imm-number upper labels pc h, named) refl

read_reg_zero : read_reg "x0" ≡ some 0
unfolding reg normalise find x_number
read_reg_zero = refl

-- The words of the instructions of `_expand`.
li_lines-words :
    (rd_text : String) (r : Loaded) (pc rd : ℕ) (labels : Labels)
    → NoNumber labels
    → read_reg rd_text ≡ some rd
    → rd < 32
    → IsEncodable r
    → second_pass strip normalise int_0 to_text x_number match_offset labels
        (place pc (li_lines strip normalise int_0 to_text x_number match_offset rd_text r))
      ≡ some (loading_words rd r)
unfolding second_pass encode_item
li_lines-words rd_text (one low) pc rd labels h named small fits =
    let word =
      i_type_small low 0 0 rd op_imm (omega arith, omega arith, omega arith, small, omega arith) in
    rw (encode-addi rd_text "x0" low pc rd 0 labels h named read_reg_zero, and_mask-small _ word)
      refl
li_lines-words rd_text (two upper low) pc rd labels h named small fits =
    let word =
      i_type_small low rd 0 rd op_imm (omega arith, small, omega arith, small, omega arith) in
    let top =
      u_type_small (pos upper) rd op_lui
        (omega arith, omega arith, omega arith, small, omega arith) in
    rw
      (
        encode-lui rd_text (pos upper) pc rd labels h named,
        encode-addi rd_text rd_text low (pc + 4) rd rd labels h named named,
        and_mask-small _ top,
        and_mask-small _ word,
      )
      refl

-- The assembler makes of `li`, for a register and a number, the words that load it.
pub line_words-loading_words :
    (rd_text number_text : String) (pc rd : ℕ) (number : ℤ) (names : List String) (labels : Labels)
    → NoNumber labels
    → read_reg rd_text ≡ some rd
    → rd < 32
    → int_0 number_text ≡ some number
    → line_words (record { labels = names; op = "li"; args = rd_text ∷ number_text ∷ [] }) pc labels
      ≡ some (loading_words rd (li number))
unfolding line_instructions expand
line_words-loading_words rd_text number_text pc rd number names labels h named small read =
    rw read (li_lines-words rd_text (li number) pc rd labels h named small (li-Loads number).1)
