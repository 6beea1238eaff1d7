-- ===== src/Asm/Text.antt =====
-- The methods of `str` and the three patterns that verif/asm.py cuts lines with, on texts as lists
-- of characters. Letters and digits are those of ASCII.
use Prim.Native.Char.{Char, code}
use Prim.Native.String.{String}
use rv32i_cpu.Base.{
  ℕ, ◌+◌, List, [], ◌∷◌, Bool, true, false, ◌&&◌, ◌||◌, Option, none, some, leb, ◌==◌,
  if◌then◌else◌,
}

abbrev pub between : ℕ → ℕ → ℕ → Bool
between low high c = leb low c && leb c high

-- `str.isspace`, which is also `\s`.
unfoldable pub is_space : ℕ → Bool
is_space c =
    between 9 13 c
    || between 28 32 c
    || c == 0x85
    || c == 0xa0
    || c == 0x1680
    || between 0x2000 0x200a c
    || c == 0x2028
    || c == 0x2029
    || c == 0x202f
    || c == 0x205f
    || c == 0x3000

abbrev pub is_digit : ℕ → Bool
is_digit c = between b'0' b'9' c

abbrev pub is_letter : ℕ → Bool
is_letter c = between b'a' b'z' c || between b'A' b'Z' c

-- [0-9a-fA-F]
abbrev pub is_hex : ℕ → Bool
is_hex c = is_digit c || between b'a' b'f' c || between b'A' b'F' c

abbrev pub is_alnum : ℕ → Bool
is_alnum c = is_letter c || is_digit c

-- [A-Za-z_.] and [A-Za-z0-9_.]
abbrev pub begins_name : ℕ → Bool
begins_name c = is_letter c || c == b'_' || c == b'.'

abbrev pub continues_name : ℕ → Bool
continues_name c = begins_name c || is_digit c

abbrev pub is_blank : String → Bool
is_blank String.[] = true
is_blank (String.◌∷◌ c s) = false

-- The longest prefix of such characters, and the rest.
unfoldable pub span : (ℕ → Bool) → String → String × String
span test String.[] = ("", "")
span test (String.◌∷◌ c s) =
    let (taken, rest) = span test s in
    if test (code c) then (String.◌∷◌ c taken, rest) else ("", String.◌∷◌ c s)

-- `str.strip`, in its two halves.
unfoldable pub lstrip : String → String
unfolding span is_space
lstrip s = (span is_space s).1

unfoldable pub rstrip : String → String
unfolding is_space
rstrip String.[] = ""
rstrip (String.◌∷◌ c s) =
    let rest = rstrip s in if is_blank rest && is_space (code c) then "" else String.◌∷◌ c rest

unfoldable pub strip : String → String
unfolding lstrip rstrip
strip s = rstrip (lstrip s)

-- The lower case of a letter, by its place in the alphabet.
abbrev pub lower_char : Char → String → Char
lower_char c String.[] = c
lower_char c (String.◌∷◌ d s) =
    let rest = lower_char c s in if code c + 32 == code d then d else rest

unfoldable pub lower : String → String
lower String.[] = ""
lower (String.◌∷◌ c s) =
    let rest = lower s in
    if between b'A' b'Z' (code c)
    then String.◌∷◌ (lower_char c "abcdefghijklmnopqrstuvwxyz") rest
    else String.◌∷◌ c rest

unfoldable pub normalise : String → String
unfolding strip lower
normalise s = lower (strip s)

-- The characters that end a line.
abbrev pub ends_line : ℕ → Bool
ends_line c = between 10 13 c || between 28 30 c || c == 0x85 || c == 0x2028 || c == 0x2029

-- A character in front of the first line.
abbrev pub cons_first : Char → List String → List String
cons_first c [] = String.◌∷◌ c "" ∷ []
cons_first c (line ∷ lines) = String.◌∷◌ c line ∷ lines

-- `str.splitlines`; the flag says that the character before was "\r", which "\n" continues.
unfoldable pub split_lines : Bool → String → List String
split_lines return String.[] = []
split_lines return (String.◌∷◌ c s) =
    let rest = split_lines (code c == b'\r') s in
    if return && code c == b'\n'
    then rest
    else if ends_line (code c)
    then "" ∷ rest
    else cons_first c rest

-- `str.partition(" ")`: what is before the first blank and what is behind it.
unfoldable pub partition : String → String × String
partition String.[] = ("", "")
partition (String.◌∷◌ c s) =
    let (head, rest) = partition s in if code c == b' ' then ("", s) else (String.◌∷◌ c head, rest)

-- `str.split(",")`, which gives at least one part.
unfoldable pub split_commas : String → List String
split_commas String.[] = "" ∷ []
split_commas (String.◌∷◌ c s) =
    let rest = split_commas s in if code c == b',' then "" ∷ rest else cons_first c rest

abbrev pub starts_slash : String → Bool
starts_slash String.[] = false
starts_slash (String.◌∷◌ c s) = code c == b'/'

-- `re.split(r"#|//", line, maxsplit=1)[0]`.
unfoldable pub before_comment : String → String
before_comment String.[] = ""
before_comment (String.◌∷◌ c s) =
    let rest = before_comment s in
    if code c == b'#' || (code c == b'/' && starts_slash s) then "" else String.◌∷◌ c rest

-- `_clean`.
unfoldable pub clean : String → String
unfolding before_comment strip
clean line = strip (before_comment line)

-- What follows a character, if the text begins with it.
abbrev pub behind : ℕ → String → Option String
behind c String.[] = none
behind c (String.◌∷◌ d s) = if code d == c then some s else none

abbrev pub name_before_colon : String → Option String → Option (String × String)
unfolding lstrip
name_before_colon name none = none
name_before_colon name (some rest) = some (name, lstrip rest)

-- The pattern of a label: its name, and what follows the colon.
unfoldable pub match_label : String → Option (String × String)
unfolding span lstrip
match_label String.[] = none
match_label (String.◌∷◌ c s) =
    let (name, rest) = span continues_name (String.◌∷◌ c s) in
    if begins_name (code c) then name_before_colon name (behind b':' (lstrip rest)) else none
