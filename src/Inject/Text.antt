-- ===== src/Inject/Text.antt =====
-- The methods of `str` that tools/inject_bugs.py edits a file with: `count`, `replace` and `in`.
use Prim.Native.Char.{code}
use Prim.Native.String.{String, ◌++◌}
use rv32i_cpu.Base.{ℕ, zero, suc, ◌-◌, Bool, ◌||◌, Option, none, some, is_some, ◌==◌, if◌then◌else◌}
use rv32i_cpu.Asm.Text.{is_blank}

abbrev pub length : String → ℕ
length String.[] = 0
length (String.◌∷◌ c s) = suc (length s)

-- What follows `old`, if the text begins with it.
unfoldable pub after_prefix : String → String → Option String
after_prefix String.[] s = some s
after_prefix (String.◌∷◌ c old) String.[] = none
after_prefix (String.◌∷◌ c old) (String.◌∷◌ d s) =
    if code c == code d then after_prefix old s else none

-- The occurrences of `old` that do not overlap, once `skip` characters have been passed over.
unfoldable pub count_from : String → ℕ → String → ℕ
unfolding after_prefix
count_from old skip String.[] = 0
count_from old (suc skip) (String.◌∷◌ c s) = count_from old skip s
count_from old zero (String.◌∷◌ c s) =
    let found = suc (count_from old (length old - 1) s) in
    let passed = count_from old 0 s in
    if is_some (after_prefix old (String.◌∷◌ c s)) then found else passed

-- `text.count(old)`; an empty text stands before each character, and at the end.
unfoldable pub count : String → String → ℕ
unfolding count_from
count text old = if is_blank old then suc (length text) else count_from old 0 text

unfoldable pub replace_from : String → String → ℕ → String → String
unfolding after_prefix
replace_from old new skip String.[] = ""
replace_from old new (suc skip) (String.◌∷◌ c s) = replace_from old new skip s
replace_from old new zero (String.◌∷◌ c s) =
    let found = new ++ replace_from old new (length old - 1) s in
    let passed = String.◌∷◌ c (replace_from old new 0 s) in
    if is_some (after_prefix old (String.◌∷◌ c s)) then found else passed

unfoldable pub interleave : String → String → String
interleave new String.[] = new
interleave new (String.◌∷◌ c s) = new ++ String.◌∷◌ c (interleave new s)

-- `text.replace(old, new)`
unfoldable pub replace : String → String → String → String
unfolding replace_from interleave
replace text old new = if is_blank old then interleave new text else replace_from old new 0 text

-- `old in text`
unfoldable pub contains : String → String → Bool
unfolding after_prefix
contains old String.[] = is_blank old
contains old (String.◌∷◌ c s) = is_some (after_prefix old (String.◌∷◌ c s)) || contains old s
