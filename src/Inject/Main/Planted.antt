-- ===== src/Inject/Main/Planted.antt =====
-- What the simulator is given: the repository's files, with the mutant planted in one of them.
use Prim.Native.String.{String}
use text.Mathlib.Text.{◌==◌ as text_eq}
use text.Mathlib.TextEquality.{eq_iff}
use rv32i_cpu.Base.{
  ℕ, ◌≡◌, refl, ap, ◌∙◌, map, arith, true, List, [], ◌∷◌, Option, none, some, All, ◌!=◌, ◌⊎◌, inl,
  inr, Bool-cases,
}
use rv32i_cpu.Asm.Tables.{find}
use rv32i_cpu.Inject.Text.{count, replace}
use rv32i_cpu.Inject.Edits.{Replaced, replace-Replaced}
use rv32i_cpu.Inject.Mutant.{Mutant, Block, blocks}
use rv32i_cpu.Inject.Run.{
  Fault, Outcome, ended, raised, ◌>>=◌, found, no_file, no_block, not_built, Work, apply_edits,
  overwrite, copy_all, run_mutant,
}

>>=-eq-ended {ℓ κ} :
    {A : Type ℓ} {B : Type κ} (m : Outcome A) (f : A → Outcome B) {b : B}
    → m >>= f ≡ ended b
    → (a : A) × (m ≡ ended a) × (f a ≡ ended b)
>>=-eq-ended (ended a) f h = (a, refl, h)
>>=-eq-ended (raised why) f h = cc

found-eq-ended {ℓ} :
    {A : Type ℓ} (why : Fault) (o : Option A) {a : A} → found why o ≡ ended a → o ≡ some a
found-eq-ended why none h = cc
found-eq-ended why (some b) h = cc

-- Each edit in turn finds its pattern once, and replaces it there.
abbrev pub Edited : List (String × String) → String → String → Type 0
Edited [] text result = text ≡ result
Edited ((old, new) ∷ edits) text result =
    (count text old ≡ 1) × (next : String) × Replaced old new text next × Edited edits next result

apply_edits-Edited :
    (file : String) (edits : List (String × String)) (text result : String)
    → apply_edits file edits text ≡ ended result
    → Edited edits text result
unfolding apply_edits
apply_edits-Edited file [] text result h = cc
apply_edits-Edited file ((old, new) ∷ edits) text result h =
    elim (Bool-cases (count text old != 1)) [
      | inl bad ↦ absurd (ground (arith, h, bad))
      | inr good ↦
          let once : count text old ≡ 1 = ground (arith, good) in
          (
            once,
            replace text old new,
            replace-Replaced text old new once,
            apply_edits-Edited file edits (replace text old new) result (rw good at h),
          )
    ]

-- A file of the scratch directory has the planted text if it is the victim, and is that of rtl/
-- otherwise.
abbrev pub FromRtl : (String → Option String) → String → String → String × String → Type 0
FromRtl rtl victim edited (name, text) =
    ((name ≡ victim) × (text ≡ edited)) ⊎ ((¬ (name ≡ victim)) × (rtl name ≡ some text))

module _ (rtl : String → Option String) where
  copy_all-All :
      (names : List String) (work : Work)
      → copy_all rtl names ≡ ended work
      → All (λ (f : String × String). rtl f.0 ≡ some f.1) work
  unfolding copy_all
  copy_all-All [] work h = let same : [] ≡ work = cc in rw (← same) tt
  copy_all-All (name ∷ names) work h =
      let (text, e, later) = >>=-eq-ended (found (no_file name) (rtl name)) _ h in
      let (rest, copied, last) = >>=-eq-ended (copy_all rtl names) _ later in
      let same : (name, text) ∷ rest ≡ work = cc in
      rw (← same) (found-eq-ended (no_file name) (rtl name) e, copy_all-All names rest copied)

  overwrite-FromRtl :
      (victim edited : String) (work : Work)
      → All (λ (f : String × String). rtl f.0 ≡ some f.1) work
      → All (FromRtl rtl victim edited) (overwrite victim edited work)
  unfolding overwrite
  overwrite-FromRtl victim edited [] h = tt
  overwrite-FromRtl victim edited ((name, text) ∷ work) h =
      elim (Bool-cases (text_eq name victim)) [
        | inl hit ↦ (
          inl ((eq_iff name victim).0 hit, rw hit refl),
          overwrite-FromRtl victim edited work h.1,
        )
        | inr miss ↦ (
          inr (
            λ e.
                let same : text_eq name victim ≡ true = (eq_iff name victim).1 e in cc (same, miss),
            rw miss h.0,
          ),
          overwrite-FromRtl victim edited work h.1,
        )
      ]

  copy_all-names :
      (names : List String) (work : Work)
      → copy_all rtl names ≡ ended work
      → map (λ f. f.0) work ≡ names
  unfolding copy_all
  copy_all-names [] work h = let same : [] ≡ work = cc in rw (← same) refl
  copy_all-names (name ∷ names) work h =
      let (text, e, later) = >>=-eq-ended (found (no_file name) (rtl name)) _ h in
      let (rest, copied, last) = >>=-eq-ended (copy_all rtl names) _ later in
      let same : (name, text) ∷ rest ≡ work = cc in
      rw (← same) (ap (λ l. name ∷ l) (copy_all-names names rest copied))

  overwrite_names :
      (victim edited : String) (work : Work)
      → map (λ f. f.0) (overwrite victim edited work) ≡ map (λ f. f.0) work
  unfolding overwrite
  overwrite_names victim edited [] = refl
  overwrite_names victim edited ((name, text) ∷ work) =
      ap (λ l. name ∷ l) (overwrite_names victim edited work)

  find-All :
      (name text : String) (work : Work)
      → All (λ (f : String × String). rtl f.0 ≡ some f.1) work
      → find name work ≡ some text
      → rtl name ≡ some text
  unfolding find
  find-All name text [] h e = cc
  find-All name text ((n, t) ∷ work) h e = elim (Bool-cases (text_eq n name)) [
    | inl hit ↦
        let same : n ≡ name = (eq_iff n name).0 hit in
        let value : t ≡ text = ground (arith, rw hit at e) in cc
    | inr miss ↦ find-All name text work h.1 (rw miss at e)
  ]

  module _ (simulate : Block → String → Work → Option (ℕ × ℕ)) where
    -- What a run of a mutant comes from.
    pub record Planted (m : Mutant) (r : ℕ × ℕ) : Type 0 where
      pub block : Block
      pub files : Work
      pub original : String
      pub edited : String
      pub names : map (λ f. f.0) files ≡ "rv32i_pkg.sv" ∷ block.sources
      pub opened : rtl m.file ≡ some original
      pub listed : find m.target blocks ≡ some block
      pub edits : Edited ((m.old, m.new) ∷ m.extra) original edited
      pub from_rtl : All (FromRtl rtl m.file edited) files
      pub simulated : simulate block m.target files ≡ some r

    -- When a mutant is run, every pattern stood once in its file and was replaced there, and the
    -- simulator was given the files of its block, that one as edited and all others as they are in rtl/.
    pub run_mutant-Planted :
        (m : Mutant) (r : ℕ × ℕ) → run_mutant rtl simulate m ≡ ended r → Planted m r
    unfolding run_mutant
    run_mutant-Planted m r h =
        let (block, listed, h1) =
          >>=-eq-ended (found (no_block m.target) (find m.target blocks)) _ h in
        let (work, copied, h2) =
          >>=-eq-ended (copy_all rtl ("rv32i_pkg.sv" ∷ block.sources)) _ h1 in
        let (text, opened, h3) = >>=-eq-ended (found (no_file m.file) (find m.file work)) _ h2 in
        let (edited, planted, h4) =
          >>=-eq-ended (apply_edits m.file ((m.old, m.new) ∷ m.extra) text) _ h3 in
        record {
          block = block;
          files = overwrite m.file edited work;
          original = text;
          edited = edited;
          listed = found-eq-ended (no_block m.target) (find m.target blocks) listed;
          edits = apply_edits-Edited m.file ((m.old, m.new) ∷ m.extra) text edited planted;
          from_rtl =
              overwrite-FromRtl m.file edited work
                (copy_all-All ("rv32i_pkg.sv" ∷ block.sources) work copied);
          names =
              overwrite_names m.file edited work
              ∙ copy_all-names ("rv32i_pkg.sv" ∷ block.sources) work copied;
          opened =
              find-All m.file text work (copy_all-All ("rv32i_pkg.sv" ∷ block.sources) work copied)
                (found-eq-ended (no_file m.file) (find m.file work) opened);
          simulated = found-eq-ended not_built _ h4;
        }
