-- ===== src/Coverage/Report.antt =====
-- `report` of verif/coverage.py, as a text. Names are sorted by the codes of their characters.
use Prim.Native.Char.{code}
use Prim.Native.String.{String, count, ◌++◌}
use rv32i_cpu.Base.{
  ℕ, zero, suc, ◌-◌, List, [], ◌∷◌, ◌++◌ as ◌<>◌, map, Bool, true, false, ltb, ◌==◌, if◌then◌else◌,
  length,
}
use rv32i_cpu.Base.Int.{pos}
use rv32i_cpu.Asm.Number.{to_text}
use rv32i_cpu.Coverage.{required, missing}
use rv32i_cpu.Coverage.Counts.{Counter, hits}

abbrev spaces : ℕ → String
spaces zero = ""
spaces (suc n) = " " ++ spaces n

-- `{s:<n}` and `{s:>n}`
abbrev pub pad_right : ℕ → String → String
pad_right n s = s ++ spaces (n - count s)

abbrev pub pad_left : ℕ → String → String
pad_left n s = spaces (n - count s) ++ s

abbrev pub decimal : ℕ → String
unfolding to_text
decimal n = to_text (pos n)

-- One text stands before another.
unfoldable pub stands_before : String → String → Bool
stands_before s String.[] = false
stands_before String.[] (String.◌∷◌ d t) = true
stands_before (String.◌∷◌ c s) (String.◌∷◌ d t) =
    let rest = stands_before s t in if code c == code d then rest else ltb (code c) (code d)

unfoldable pub insert : String → List String → List String
unfolding stands_before
insert name [] = name ∷ []
insert name (n ∷ names) =
    let rest = insert name names in if stands_before n name then n ∷ rest else name ∷ n ∷ names

unfoldable pub sorted : List String → List String
unfolding insert
sorted [] = []
sorted (name ∷ names) = insert name (sorted names)

-- `sep.join(lines)`
abbrev pub join : String → List String → String
join sep [] = ""
join sep (line ∷ []) = line
join sep (line ∷ next ∷ lines) = line ++ (sep ++ join sep (next ∷ lines))

unfoldable pub bin_line : Counter → String → String
unfolding hits decimal
bin_line counts name = pad_right 28 name ++ (" " ++ pad_left 8 (decimal (hits name counts)))

-- The line on the holes, if there is one.
abbrev pub missing_lines : List String → List String
missing_lines [] = []
missing_lines (gap ∷ gaps) = ("MISSING: " ++ join ", " (gap ∷ gaps)) ∷ []

unfoldable pub report_lines : Counter → List String
unfolding missing sorted bin_line decimal
report_lines counts =
    let gaps = missing counts in
    let total = length required in
    (pad_right 28 "bin" ++ (" " ++ pad_left 8 "hits"))
    ∷ (map (bin_line counts) (sorted (map (λ entry. entry.0) counts))
        <> (""
            ∷ ("required bins hit: " ++ (decimal (total - length gaps) ++ ("/" ++ decimal total)))
            ∷ missing_lines gaps))

unfoldable pub coverage_report : Counter → String
unfolding report_lines
coverage_report counts = join "\n" (report_lines counts)
