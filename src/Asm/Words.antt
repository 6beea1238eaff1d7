-- ===== src/Asm/Words.antt =====
-- What `assemble` of verif/asm.py gives: words, one for each item.
use Prim.Native.String.{String}
use rv32i_cpu.Base.{
  ◌>>=◌, ℕ, ◌^◌, ◌<◌, ◌≡◌, refl, arith, ap, suc, ◌+◌, ◌++◌, if_elim, List, [], ◌∷◌, Option, none,
  some, All, bit_and, length,
}
use rv32i_cpu.Base.Int.{ℤ, and_ℤ}
use rv32i_cpu.Base.BitOps.{and_low, and_ℤ_low}
use rv32i_cpu.Bits.{mask32}
use rv32i_cpu.Asm.Tables.{nth}
use rv32i_cpu.Asm.Encode.{
  Labels, Instruction, Line, Item, encode, line_instructions, place, after, add_labels, encode_item,
  first_pass, second_pass, assemble,
}

-- Every value that a result may have.
abbrev pub Every {ℓ κ} : {A : Type ℓ} → (A → Type κ) → Option A → Type κ
Every P none = Unit
Every P (some a) = P a

always {ℓ} : {A : Type ℓ} (m : Option A) → Every (λ _. Unit {0}) m
always none = tt
always (some a) = tt

bind-Every {ℓ κ μ} :
    {A : Type ℓ} {B : Type κ} (P : A → Type μ) (Q : B → Type μ) (m : Option A) (f : A → Option B)
    → Every P m
    → ((a : A) → P a → Every Q (f a))
    → Every Q (m >>= f)
bind-Every P Q none f h k = tt
bind-Every P Q (some a) f h k = k a h

Every-weaken {ℓ κ} :
    {A : Type ℓ} (P Q : A → Type κ) (m : Option A) → Every P m → ((a : A) → P a → Q a) → Every Q m
Every-weaken P Q none h k = tt
Every-weaken P Q (some a) h k = k a h

-- Items four bytes apart, the first at `pc`.
abbrev pub Placed : ℕ → List Item → Type 0
Placed pc [] = Unit
Placed pc (item ∷ items) = (item.pc ≡ pc) × Placed (pc + 4) items

place-Placed :
    (pc : ℕ) (instructions : List Instruction) (items : List Item)
    → Placed (after pc instructions) items
    → Placed pc (place pc instructions ++ items)
place-Placed pc [] items h = h
place-Placed pc ((op, args) ∷ rest) items h = (refl, place-Placed (pc + 4) rest items h)

module _ (strip normalise : String → String) (int_0 : String → Option ℤ) (to_text : ℤ → String)
    (x_number : String → Option ℕ) (match_offset : String → Option (Option String × String)) where
  masked : (m : Option ℕ) → Every (λ w. w < 2 ^ 32) (m >>= λ word. some (bit_and word mask32))
  masked none = tt
  masked (some word) = omega (arith, and_low 32 word)

  masked_ℤ : (m : Option ℤ) → Every (λ w. w < 2 ^ 32) (m >>= λ number. some (and_ℤ number mask32))
  masked_ℤ none = tt
  masked_ℤ (some number) = ground (arith, and_ℤ_low 32 number)

  item-word :
      (labels : Labels) (item : Item)
      → Every
          (λ w. w < 2 ^ 32)
          (encode_item strip normalise int_0 to_text x_number match_offset labels item)
  unfolding encode_item
  item-word labels item =
      if_elim (Every (λ w. w < 2 ^ 32)) _ _ _ (masked_ℤ (nth item.args 0 >>= int_0)) (
        masked (
          encode strip normalise int_0 to_text x_number match_offset item.op item.args item.pc
            labels))

  -- The second pass, if no item is refused, gives a word of 32 bits for each item.
  pub second_pass-words :
      (labels : Labels) (items : List Item)
      → Every
          (λ words. (length words ≡ length items) × All (λ w. w < 2 ^ 32) words)
          (second_pass strip normalise int_0 to_text x_number match_offset labels items)
  unfolding second_pass
  second_pass-words labels [] = (refl, tt)
  second_pass-words labels (item ∷ items) =
      bind-Every (λ w. w < 2 ^ 32) _ _ _ (item-word labels item)
        (λ word h.
          bind-Every (λ words. (length words ≡ length items) × All (λ w. w < 2 ^ 32) words) _ _ _
            (second_pass-words labels items) (λ words ih. (ap suc ih.0, (h, ih.1))))

  -- The first pass, if no line is refused, gives items four bytes apart, the first of them at the
  -- address where the pass starts.
  pub first_pass-Placed :
      (pc : ℕ) (labels : Labels) (lines : List Line)
      → Every
          (λ r. Placed pc r.1)
          (first_pass strip normalise int_0 to_text x_number match_offset pc labels lines)
  unfolding first_pass
  first_pass-Placed pc labels [] = tt
  first_pass-Placed pc labels (line ∷ lines) =
      bind-Every {B = Labels × List Item} (λ _. Unit {0}) (λ x. Placed pc x.1)
        (line_instructions strip normalise int_0 to_text x_number match_offset line) _
        (always (line_instructions strip normalise int_0 to_text x_number match_offset line))
        (λ instructions h.
          bind-Every {B = Labels × List Item}
            (λ (r : Labels × List Item). Placed (after pc instructions) r.1) (λ x. Placed pc x.1) _
            (λ x. some (x.0, place pc instructions ++ x.1))
            (first_pass-Placed (after pc instructions) (add_labels line.labels pc labels) lines)
            (λ r placed. place-Placed pc instructions r.1 placed))

  -- Every program that is assembled is one of words of 32 bits.
  pub assemble-words :
      (lines : List Line) (base : ℕ)
      → Every
          (All (λ w. w < 2 ^ 32))
          (assemble strip normalise int_0 to_text x_number match_offset lines base)
  unfolding assemble
  assemble-words lines base =
      bind-Every {B = List ℕ} (λ _. Unit {0}) (All (λ w. w < 2 ^ 32)) _ _
        (always (first_pass strip normalise int_0 to_text x_number match_offset base [] lines))
        (λ r h.
          Every-weaken (λ words. (length words ≡ length r.1) × All (λ w. w < 2 ^ 32) words)
            (All (λ w. w < 2 ^ 32)) _ (second_pass-words r.0 r.1) (λ words ih. ih.1))
