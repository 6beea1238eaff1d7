-- ===== src/Asm/Encode.antt =====
-- verif/asm.py: `_reg`, `_imm`, `_split_offset`, `_expand`, `_encode`, and the two passes of
-- `assemble` on lines that are already split. AsmError, IndexError and ValueError are none.
use text.Mathlib.Text.{◌==◌}
use Prim.Native.String.{String}
use rv32i_cpu.Base.{
  ◌>>=◌, ℕ, ◌+◌, List, [], ◌∷◌, ◌++◌, Bool, true, false, Option, none, some, bit_and, bit_or, ltb,
  if◌then◌else◌, ◌<<<◌,
}
use rv32i_cpu.Base.Int.{ℤ, pos, ◌-ℤ◌, and_ℤ}
use rv32i_cpu.Bits.{mask32}
use rv32i_cpu.Isa.{
  r_type, i_type, s_type, b_type, u_type, j_type, op_lui, op_auipc, op_jal, op_jalr, op_branch,
  op_load, op_store, op_imm, op_reg,
}
use rv32i_cpu.Asm.Tables.{
  find, nth, when_found, abi_names, r_table, i_table, shift_table, load_table, store_table,
  branch_table,
}
use rv32i_cpu.Asm.Li.{Loaded, one, two, li}

abbrev pub Labels : Type 0
Labels = List (String × ℕ)

abbrev pub Instruction : Type 0
Instruction = String × List String

-- A line after the labels are split off, with the operation "" if there is nothing else, and a word
-- to encode with its address.
pub record Line : Type 0 where
  pub labels : List String
  pub op : String
  pub args : List String

pub record Item : Type 0 where
  pub pc : ℕ
  pub op : String
  pub args : List String

-- The instructions of a `.word` line, one for each argument.
abbrev pub word_lines : List String → List Instruction
word_lines [] = []
word_lines (value ∷ values) = (".word", value ∷ []) ∷ word_lines values

-- Items four bytes apart, from `pc` on.
abbrev pub place : ℕ → List Instruction → List Item
place pc [] = []
place pc ((op, args) ∷ rest) = record { pc = pc; op = op; args = args } ∷ place (pc + 4) rest

abbrev pub after : ℕ → List Instruction → ℕ
after pc [] = pc
after pc (i ∷ rest) = after (pc + 4) rest

abbrev pub add_labels : List String → ℕ → Labels → Labels
add_labels [] pc labels = labels
add_labels (name ∷ names) pc labels = add_labels names pc ((name, pc) ∷ labels)

-- `strip`, and `strip().lower()`; `int(text, 0)` and `str`; the number of a text "x" and digits; and
-- the match of OFFSET_RE, as its two groups.
module _ (strip normalise : String → String) (int_0 : String → Option ℤ) (to_text : ℤ → String)
    (x_number : String → Option ℕ) (match_offset : String → Option (Option String × String)) where
  unfoldable pub reg : String → Option ℕ
  reg token =
      let name = normalise token in
      when_found (find name abi_names) some
        (x_number name >>= λ n. if ltb n 32 then some n else none)

  unfoldable pub imm : String → Labels → ℕ → Bool → Option ℤ
  unfolding ◌-ℤ◌
  imm token labels pc relative =
      let name = strip token in
      when_found (find name labels)
        (λ address. some (if relative then pos address -ℤ pos pc else pos address)) (int_0 name)

  abbrev pub offset_or : String → Option (Option String × String) → String × String
  offset_or token none = ("0", token)
  offset_or token (some (none, base)) = ("0", base)
  offset_or token (some (some offset, base)) = (offset, base)

  unfoldable pub split_offset : String → String × String
  split_offset token = offset_or token (match_offset (strip token))

  abbrev pub li_lines : String → Loaded → List Instruction
  li_lines rd (one low) = ("addi", rd ∷ "x0" ∷ to_text low ∷ []) ∷ []
  li_lines rd (two upper low) =
      ("lui", rd ∷ to_text (pos upper) ∷ []) ∷ ("addi", rd ∷ rd ∷ to_text low ∷ []) ∷ []

  unfoldable pub expand : String → List String → Option (List Instruction)
  unfolding li
  expand op args =
      if op == "nop"
      then some (("addi", "x0" ∷ "x0" ∷ "0" ∷ []) ∷ [])
      else if op == "mv"
      then (nth args 0 >>= λ a. nth args 1 >>= λ b. some (("addi", a ∷ b ∷ "0" ∷ []) ∷ []))
      else if op == "j"
      then (nth args 0 >>= λ a. some (("jal", "x0" ∷ a ∷ []) ∷ []))
      else if op == "jr"
      then (nth args 0 >>= λ a. some (("jalr", "x0" ∷ a ∷ []) ∷ []))
      else if op == "ret"
      then some (("jalr", "x0" ∷ "ra" ∷ []) ∷ [])
      else if op == "beqz"
      then (nth args 0 >>= λ a. nth args 1 >>= λ b. some (("beq", a ∷ "x0" ∷ b ∷ []) ∷ []))
      else if op == "bnez"
      then (nth args 0 >>= λ a. nth args 1 >>= λ b. some (("bne", a ∷ "x0" ∷ b ∷ []) ∷ []))
      else if op == "li"
      then (nth args 1 >>= λ b.
          int_0 b >>= λ number. nth args 0 >>= λ a. some (li_lines a (li number)))
      else some ((op, args) ∷ [])

  -- The registers and the immediate at positions of the arguments.
  abbrev pub reg_at : List String → ℕ → Option ℕ
  reg_at args i = nth args i >>= reg

  abbrev pub imm_at : List String → ℕ → Labels → ℕ → Bool → Option ℤ
  imm_at args i labels pc relative = nth args i >>= λ token. imm token labels pc relative

  -- `imm(rs1)` at a position of the arguments: the offset and the base register.
  abbrev pub access_at : List String → ℕ → Labels → ℕ → Option (ℤ × ℕ)
  access_at args i labels pc = nth args i >>= λ token.
      imm (split_offset token).0 labels pc false >>= λ offset.
      reg (split_offset token).1 >>= λ base. some (offset, base)

  unfoldable pub encode_jal : List String → ℕ → Labels → Option ℕ
  unfolding j_type
  encode_jal (target ∷ []) pc labels =
      imm target labels pc true >>= λ offset. some (j_type offset 1 op_jal)
  encode_jal args pc labels = reg_at args 0 >>= λ rd.
      imm_at args 1 labels pc true >>= λ offset. some (j_type offset rd op_jal)

  unfoldable pub encode_jalr : List String → ℕ → Labels → Option ℕ
  unfolding i_type
  encode_jalr (base ∷ []) pc labels = reg base >>= λ rs1. some (i_type (pos 0) rs1 0 1 op_jalr)
  encode_jalr args pc labels = access_at args 1 labels pc >>= λ (offset, base).
      reg_at args 0 >>= λ rd. some (i_type offset base 0 rd op_jalr)

  -- The operations that no table holds.
  unfoldable pub encode_other : String → List String → ℕ → Labels → Option ℕ
  unfolding encode_jal encode_jalr u_type
  encode_other op args pc labels =
      if op == "lui"
      then (imm_at args 1 labels pc false >>= λ upper.
          reg_at args 0 >>= λ rd. some (u_type upper rd op_lui))
      else if op == "auipc"
      then (imm_at args 1 labels pc false >>= λ upper.
          reg_at args 0 >>= λ rd. some (u_type upper rd op_auipc))
      else if op == "jal"
      then encode_jal args pc labels
      else if op == "jalr"
      then encode_jalr args pc labels
      else if op == "ecall"
      then some 0x0000_0073
      else if op == "ebreak"
      then some 0x0010_0073
      else if op == "fence"
      then some 0x0000_000f
      else none

  unfoldable pub encode : String → List String → ℕ → Labels → Option ℕ
  unfolding r_type i_type s_type b_type and_ℤ encode_other
  encode op args pc labels =
      when_found (find op r_table)
        (λ (funct7, funct3). reg_at args 2 >>= λ rs2. reg_at args 1 >>= λ rs1.
          reg_at args 0 >>= λ rd. some (r_type funct7 rs2 rs1 funct3 rd op_reg))
        (when_found (find op i_table)
          (λ funct3. imm_at args 2 labels pc false >>= λ number. reg_at args 1 >>= λ rs1.
            reg_at args 0 >>= λ rd. some (i_type number rs1 funct3 rd op_imm))
          (when_found (find op shift_table)
            (λ (funct7, funct3). imm_at args 2 labels pc false >>= λ number.
              reg_at args 1 >>= λ rs1. reg_at args 0 >>= λ rd.
              some (i_type (pos (bit_or (funct7 <<< 5) (and_ℤ number 0x1f))) rs1 funct3 rd op_imm))
            (when_found (find op load_table)
              (λ funct3. access_at args 1 labels pc >>= λ (offset, base).
                reg_at args 0 >>= λ rd. some (i_type offset base funct3 rd op_load))
              (when_found (find op store_table)
                (λ funct3. access_at args 1 labels pc >>= λ (offset, base).
                  reg_at args 0 >>= λ rs2. some (s_type offset rs2 base funct3 op_store))
                (when_found (find op branch_table)
                  (λ funct3. imm_at args 2 labels pc true >>= λ target. reg_at args 1 >>= λ rs2.
                    reg_at args 0 >>= λ rs1. some (b_type target rs2 rs1 funct3 op_branch))
                  (encode_other op args pc labels))))))

  -- Pass 1: the instructions of a line.
  unfoldable pub line_instructions : Line → Option (List Instruction)
  unfolding expand
  line_instructions line =
      if line.op == ""
      then some []
      else if line.op == ".word"
      then some (word_lines line.args)
      else expand line.op line.args

  unfoldable pub first_pass : ℕ → Labels → List Line → Option (Labels × List Item)
  unfolding line_instructions
  first_pass pc labels [] = some (labels, [])
  first_pass pc labels (line ∷ lines) = line_instructions line >>= λ instructions.
      first_pass (after pc instructions) (add_labels line.labels pc labels) lines
      >>= λ (final, items). some (final, place pc instructions ++ items)

  -- Pass 2: one word for each item.
  unfoldable pub encode_item : Labels → Item → Option ℕ
  unfolding encode and_ℤ
  encode_item labels item =
      if item.op == ".word"
      then (nth item.args 0 >>= int_0 >>= λ number. some (and_ℤ number mask32))
      else (encode item.op item.args item.pc labels >>= λ word. some (bit_and word mask32))

  unfoldable pub second_pass : Labels → List Item → Option (List ℕ)
  unfolding encode_item
  second_pass labels [] = some []
  second_pass labels (item ∷ items) =
      encode_item labels item >>= λ word. second_pass labels items >>= λ words. some (word ∷ words)

  unfoldable pub assemble : List Line → ℕ → Option (List ℕ)
  unfolding first_pass second_pass
  assemble lines base = first_pass base [] lines >>= λ (labels, items). second_pass labels items
