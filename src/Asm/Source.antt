-- ===== src/Asm/Source.antt =====
-- verif/asm.py: `assemble` on a text, and `to_hex`.
use Prim.Native.String.{String, count, ◌++◌}
use rv32i_cpu.Base.{
  ◌>>=◌, ℕ, zero, suc, ◌-◌, List, [], ◌∷◌, map, true, false, ◌&&◌, Option, none, some,
  if◌then◌else◌,
}
use rv32i_cpu.Asm.Text.{
  is_blank, is_hex, is_alnum, span, lstrip, strip, normalise, split_lines, partition, split_commas,
  clean, behind, match_label,
}
use rv32i_cpu.Asm.Number.{int_0, to_text, x_number, put_digits}
use rv32i_cpu.Asm.Encode.{Line, assemble}

-- Hexadecimal digits and what follows them, if there is one.
abbrev pub some_hex : String → String × String → Option (String × String)
some_hex sign (digits, rest) = if is_blank digits then none else some (sign, rest)

-- What follows "-" and "0x", if the text begins with them.
abbrev pub or_whole : Option String → String → String
or_whole none s = s
or_whole (some rest) s = rest

-- The part of `whole` that is in front of its suffix `rest`.
unfoldable pub front : ℕ → String → String
front zero s = ""
front (suc n) String.[] = ""
front (suc n) (String.◌∷◌ c s) = String.◌∷◌ c (front n s)

-- The optional group -?(?:0x)?[0-9a-fA-F]+ at the start of a text: what is behind it.
unfoldable pub skip_hex : String → Option String
unfolding span
skip_hex s = let (digits, rest) = span is_hex s in if is_blank digits then none else some rest

unfoldable pub skip_number : String → Option String
unfolding skip_hex
skip_number s =
    let unsigned = or_whole (behind b'-' s) s in
    elim (behind b'0' unsigned >>= behind b'x' >>= skip_hex) [
      | none ↦ skip_hex unsigned
      | some rest ↦ some rest
    ]

-- \s*\(\s*([a-zA-Z0-9]+)\s*\)$: the group.
unfoldable pub match_base : String → Option String
unfolding lstrip span
match_base s = behind b'(' (lstrip s) >>= λ inside.
    let (base, rest) = span is_alnum (lstrip inside) in
    behind b')' (lstrip rest) >>= λ end.
    if is_blank end && (if is_blank base then false else true) then some base else none

-- OFFSET_RE, as its two groups.
unfoldable pub match_offset : String → Option (Option String × String)
unfolding skip_number match_base front
match_offset token = elim (skip_number token) [
  | none ↦ match_base token >>= λ base. some (none, base)
  | some rest ↦
      match_base rest >>= λ base. some (some (front (count token - count rest) token), base)
]

-- The labels in front of a line, and the rest of it; the fuel is the length of the line.
unfoldable pub cut_labels : ℕ → String → List String × String
unfolding match_label strip
cut_labels zero line = ([], line)
cut_labels (suc fuel) line = elim (match_label line) [
  | none ↦ ([], line)
  | some (name, rest) ↦ let (names, end) = cut_labels fuel (strip rest) in (name ∷ names, end)
]

abbrev pub split_args : String → List String
unfolding strip split_commas
split_args rest = if is_blank (strip rest) then [] else map strip (split_commas rest)

abbrev pub split_op : List String → String → Line
unfolding partition normalise
split_op labels line =
    let (head, rest) = partition line in
    record { labels = labels; op = normalise head; args = split_args rest }

unfoldable pub read_line : String → Line
unfolding clean cut_labels partition normalise strip split_commas
read_line raw =
    let (labels, rest) = cut_labels (count (clean raw)) (clean raw) in split_op labels rest

unfoldable pub read_lines : String → List Line
unfolding split_lines read_line
read_lines text = map read_line (split_lines false text)

unfoldable pub assemble_text : String → ℕ → Option (List ℕ)
unfolding read_lines assemble strip normalise int_0 to_text x_number match_offset
assemble_text text base =
    assemble strip normalise int_0 to_text x_number match_offset (read_lines text) base

-- f"{w:08x}\n": at least eight digits, padded with zeros.
abbrev pub put_zeros : ℕ → String → String
put_zeros zero s = s
put_zeros (suc n) s = String.◌∷◌ "0" (put_zeros n s)

unfoldable pub hex_digits : ℕ → String
unfolding put_digits
hex_digits w = put_digits 16 (suc w) w ""

unfoldable pub hex_line : ℕ → String
unfolding hex_digits
hex_line w = put_zeros (8 - count (hex_digits w)) (hex_digits w) ++ "\n"

unfoldable pub to_hex : List ℕ → String
unfolding hex_line
to_hex [] = ""
to_hex (w ∷ words) = hex_line w ++ to_hex words
