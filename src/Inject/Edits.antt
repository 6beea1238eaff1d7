-- ===== src/Inject/Edits.antt =====
-- What `count` and `replace` do to a text in which a pattern stands once.
use Prim.Native.Char.{Char, code}
use Prim.Native.String.{String, ◌++◌}
use text.Mathlib.TextEquality.{Char-path}
use text.Mathlib.TextLemmas.{nil-append, cons-append, append-nil}
use rv32i_cpu.Base.{
  ℕ, zero, suc, ◌-◌, ◌≡◌, refl, sym, ap, ◌∙◌, arith, false, some, is_some, ◌==◌, ==_iff, Bool-cases,
  Option-cases, inl, inr,
}
use rv32i_cpu.Asm.Text.{is_blank}
use rv32i_cpu.Inject.Text.{length, after_prefix, count_from, count, replace_from, replace}

-- A text without its first characters.
abbrev drop : ℕ → String → String
drop zero s = s
drop (suc k) String.[] = ""
drop (suc k) (String.◌∷◌ c s) = drop k s

drop-nil : (k : ℕ) → drop k "" ≡ ""
drop-nil zero = refl
drop-nil (suc k) = refl

-- If a text begins with `old`, it is `old` and the rest.
after_prefix-drop :
    (old s rest : String) → after_prefix old s ≡ some rest → s ≡ old ++ drop (length old) s
unfolding after_prefix
after_prefix-drop String.[] s rest h = sym (nil-append s)
after_prefix-drop (String.◌∷◌ c old) String.[] rest h = cc
after_prefix-drop (String.◌∷◌ c old) (String.◌∷◌ d s) rest h =
    elim (Bool-cases (code c == code d)) [
      | inl same ↦
          let tail : s ≡ old ++ drop (length old) s =
            after_prefix-drop old s rest (ground (arith, h, same)) in
          let head : c ≡ d = Char-path c d ((==_iff (code c) (code d)).0 same) in
          ap (λ e. String.◌∷◌ e s) (sym head)
          ∙ ap (λ t. String.◌∷◌ c t) tail
          ∙ sym (cons-append c old (drop (length old) s))
      | inr other ↦ absurd (ground (arith, h, other))
    ]

-- Where `old` does not stand, nothing is replaced.
replace_from-none :
    (old new : String) (skip : ℕ) (s : String)
    → count_from old skip s ≡ 0
    → replace_from old new skip s ≡ drop skip s
unfolding count_from replace_from
replace_from-none old new skip String.[] h = sym (drop-nil skip)
replace_from-none old new (suc skip) (String.◌∷◌ c s) h = replace_from-none old new skip s h
replace_from-none old new zero (String.◌∷◌ c s) h = ground (arith, h, replace_from-none old new 0 s)

-- A text without as many characters as `old` has.
drop-length :
    (old : String) (c : Char) (s : String)
    → is_blank old ≡ false
    → drop (length old) (String.◌∷◌ c s) ≡ drop (length old - 1) s
drop-length String.[] c s h = cc
drop-length (String.◌∷◌ d old) c s h =
    let e : suc (length old) - 1 ≡ length old = omega arith in rw e refl

-- What a replacement does with `old` in one place.
abbrev pub Replaced : String → String → String → String → Type 0
Replaced old new text result =
    (before : String) × (behind : String) × (text ≡ before ++ (old ++ behind))
    × (result ≡ before ++ (new ++ behind))

Replaced-cons :
    (old new : String) (c : Char) (s result : String)
    → Replaced old new s result
    → Replaced old new (String.◌∷◌ c s) (String.◌∷◌ c result)
Replaced-cons old new c s result (before, behind, e, e') = (
  String.◌∷◌ c before,
  behind,
  ap (λ t. String.◌∷◌ c t) e ∙ sym (cons-append c before (old ++ behind)),
  ap (λ t. String.◌∷◌ c t) e' ∙ sym (cons-append c before (new ++ behind)),
)

Replaced-here :
    (old new rest : String) (c : Char) (s : String)
    → is_blank old ≡ false
    → after_prefix old (String.◌∷◌ c s) ≡ some rest
    → count_from old (length old - 1) s ≡ 0
    → Replaced old new (String.◌∷◌ c s) (new ++ replace_from old new (length old - 1) s)
Replaced-here old new rest c s full found once =
    let behind = drop (length old - 1) s in
    (
      "",
      behind,
      after_prefix-drop old (String.◌∷◌ c s) rest found
          ∙ ap (λ t. old ++ t) (drop-length old c s full)
          ∙ sym (nil-append (old ++ behind)),
      ap (λ t. new ++ t) (replace_from-none old new (length old - 1) s once)
          ∙ sym (nil-append (new ++ behind)),
    )

replace_from-Replaced :
    (old new s : String)
    → is_blank old ≡ false
    → count_from old 0 s ≡ 1
    → Replaced old new s (replace_from old new 0 s)
unfolding count_from replace_from
replace_from-Replaced old new String.[] full h = absurd (ground (arith, h))
replace_from-Replaced old new (String.◌∷◌ c s) full h =
    elim (Option-cases (after_prefix old (String.◌∷◌ c s))) [
      | inl missing ↦
          rw (missing, is_some)
            (Replaced-cons old new c s (replace_from old new 0 s)
              (replace_from-Replaced old new s full (ground (arith, h, missing))))
      | inr (rest, found) ↦
          rw (found, is_some) (Replaced-here old new rest c s full found (ground (arith, h, found)))
    ]

-- `replace`, when `old` stands once in the text, replaces it there and leaves the rest alone.
pub replace-Replaced :
    (text old new : String) → count text old ≡ 1 → Replaced old new text (replace text old new)
unfolding count replace
replace-Replaced String.[] String.[] new h =
    ("", "", refl, sym (nil-append (new ++ "") ∙ append-nil new))
replace-Replaced (String.◌∷◌ c s) String.[] new h = absurd (omega arith)
replace-Replaced text (String.◌∷◌ c old) new h =
    replace_from-Replaced (String.◌∷◌ c old) new text refl h
