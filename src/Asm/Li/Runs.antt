-- ===== src/Asm/Li/Runs.antt =====
-- What the golden model does with the words that `assemble` of verif/asm.py makes of `li`.
use Prim.Native.String.{String}
use rv32i_cpu.Base.{
  ℕ, zero, suc, ◌+◌, ◌*◌, ◌%◌, ◌^◌, ◌<◌, ◌≡◌, refl, ap, ◌∙◌, arith, List, [], ◌∷◌, false, some,
  length, get_or, get_or-set_self, set, bit_and, ◌!=◌, if◌then◌else◌, Bool-cases, inl, inr, ◌>>>◌,
}
use rv32i_cpu.Base.Int.{ℤ, pos, and_ℤ, ◌≤ℤ◌, negsuc}
use rv32i_cpu.Base.BitOps.{and_low, and_ℤ_low}
use rv32i_cpu.Bits.{mask32}
use rv32i_cpu.Isa.{i_type, u_type, op_imm, op_lui}
use rv32i_cpu.Isa.RoundTrip.{imm_i-i_type, imm_u-u_type}
use rv32i_cpu.Iss.State.{Iss, Commit}
use rv32i_cpu.Iss.Decode.{fields}
use rv32i_cpu.Iss.Alu.{alu}
use rv32i_cpu.Iss.Memory.{index}
use rv32i_cpu.Iss.Execute.{ok, goes_on, execute_imm, dispatch, execute}
use rv32i_cpu.Iss.Step.{
  write_memory, write_register, commit_state, commit_of, finish, fetch, step, continue_run, run,
}
use rv32i_cpu.Iss.Step.Invariant.{IsWellFormed}
use rv32i_cpu.Asm.Number.{int_0}
use rv32i_cpu.Asm.Encode.{Labels}
use rv32i_cpu.Asm.Li.{Loaded, one, two, li, loaded_value, loading_words, IsEncodable, li-Loads}
use rv32i_cpu.Asm.Li.Words.{read_reg, line_words, NoNumber, line_words-loading_words}

-- The registers with a value in one of them, if it is not x0.
abbrev pub put : List ℕ → ℕ → ℕ → List ℕ
put regs rd v = if rd != 0 then set regs rd v else regs

-- A running model at an aligned address, that the next words do not take past 32 bits.
abbrev Ready : ℕ → Iss → Type 0
Ready n s = (s.halted ≡ false) × (s.pc % 4 ≡ 0) × (s.pc + 4 * n < 2 ^ 32)

aligned_next :
    (pc : ℕ)
    → pc % 4 ≡ 0
    → pc + 4 < 2 ^ 32
    → (bit_and (pc + 4) mask32 ≡ pc + 4) × ((bit_and (pc + 4) 3 != 0) ≡ false)
aligned_next pc h small = ground (arith, and_low 32 (pc + 4), and_low 2 (pc + 4))

-- An instruction that writes a register and goes on.
writes_step :
    (s : Iss) (inst rd v : ℕ)
    → Ready 1 s
    → fetch s ≡ inst
    → (fields inst).rd ≡ rd
    → dispatch s s.pc inst (fields inst).opcode ≡ ok (goes_on (some v) (bit_and (s.pc + 4) mask32))
    → (c : Commit) × (step s
        ≡ (record s { regs = put s.regs rd (bit_and v mask32); pc = s.pc + 4 }, some c))
unfolding step finish commit_state commit_of write_memory write_register execute
writes_step s inst rd v (running, aligned, small) fetched field dispatched =
    let next = aligned_next s.pc aligned (omega arith) in
    let e = goes_on (some v) (s.pc + 4) in
    (
      commit_of s inst e,
      elim (Bool-cases (rd != 0)) [
        | inl wrote ↦ simp (running, fetched, dispatched, next.0, next.1, field, wrote)
        | inr kept ↦ simp (running, fetched, dispatched, next.0, next.1, field, kept)
      ],
    )

dispatch-addi :
    (s : Iss) (low : ℤ) (rs1 rd : ℕ)
    → negsuc 2047 ≤ℤ low
    → low ≤ℤ pos 2047
    → rs1 < 32
    → rd < 32
    → let inst = i_type low rs1 0 rd op_imm in
      ((fields inst).rd ≡ rd)
      × (dispatch s s.pc inst (fields inst).opcode
          ≡ ok (
              goes_on
                (some (bit_and (get_or s.regs rs1 0 + and_ℤ low mask32) mask32))
                (bit_and (s.pc + 4) mask32)))
unfolding dispatch execute_imm alu
dispatch-addi s low rs1 rd lo hi h1 hd =
    let (number, opcode, target, base, funct) =
      imm_i-i_type low rs1 0 rd op_imm lo hi (omega arith, h1, omega arith, hd, omega arith) in
    (target, simp (opcode, funct, base, number))

dispatch-lui :
    (s : Iss) (upper rd : ℕ)
    → upper < 2 ^ 20
    → rd < 32
    → let inst = u_type (pos upper) rd op_lui in
      ((fields inst).rd ≡ rd)
      × (dispatch s s.pc inst (fields inst).opcode
          ≡ ok (goes_on (some (upper * 2 ^ 12)) (bit_and (s.pc + 4) mask32)))
unfolding dispatch
dispatch-lui s upper rd h hd =
    let (number, opcode, target) =
      imm_u-u_type (pos upper) rd op_lui (omega arith, omega arith, omega arith, hd, omega arith) in
    let whole : and_ℤ (pos upper) 0xfffff ≡ upper = omega (arith, and_ℤ_low 20 (pos upper), h) in
    (target, simp (opcode, number, whole))

-- A write of the register again leaves the last value.
set-set : (xs : List ℕ) (i v w : ℕ) → set (set xs i v) i w ≡ set xs i w
set-set [] i v w = refl
set-set (x ∷ xs) zero v w = refl
set-set (x ∷ xs) (suc i) v w = ap (λ l. x ∷ l) (set-set xs i v w)

-- What the second instruction adds is seen only if the register is not x0.
put_sum :
    (regs : List ℕ) (rd u m : ℕ)
    → rd < length regs
    → put (put regs rd u) rd (bit_and (bit_and (get_or (put regs rd u) rd 0 + m) mask32) mask32)
      ≡ put regs rd (bit_and (u + m) mask32)
put_sum regs rd u m h = elim (Bool-cases (rd != 0)) [
  | inl wrote ↦
      let mask : bit_and (bit_and (u + m) mask32) mask32 ≡ bit_and (u + m) mask32 =
        omega (arith, and_low 32 (u + m), and_low 32 (bit_and (u + m) mask32)) in
      simp (wrote, get_or-set_self regs rd u 0 h, mask, set-set regs rd u (bit_and (u + m) mask32))
  | inr kept ↦ simp kept
]

-- The words that the model reads from an address on.
abbrev pub Stored : Iss → ℕ → List ℕ → Type 0
Stored s pc [] = Unit
Stored s pc (word ∷ words) =
    (get_or s.mem ((pc >>> 2) % s.words) 0 ≡ word) × Stored s (pc + 4) words

-- The model with the value in the register, behind the words.
abbrev pub loaded : Iss → ℕ → Loaded → Iss
loaded s rd r = record s {
  regs = put s.regs rd (loaded_value r);
  pc = s.pc + 4 * length (loading_words rd r);
}

run-one : (s t : Iss) (c : Commit) → step s ≡ (t, some c) → (run 1 s).0 ≡ t
unfolding run continue_run
run-one s t c e = rw e refl

run-two :
    (s t u : Iss) (c d : Commit) → step s ≡ (t, some c) → step t ≡ (u, some d) → (run 2 s).0 ≡ u
unfolding run continue_run
run-two s t u c d e e' = rw (e, e') refl

run-loading_words :
    (s : Iss) (rd : ℕ) (r : Loaded)
    → Ready (length (loading_words rd r)) s
    → rd < 32
    → length s.regs ≡ 32
    → get_or s.regs 0 0 ≡ 0
    → IsEncodable r
    → Stored s s.pc (loading_words rd r)
    → (run (length (loading_words rd r)) s).0 ≡ loaded s rd r
unfolding fetch index
run-loading_words s rd (one low) (running, aligned, room) hd full zero_register fits stored =
    let (target, dispatched) = dispatch-addi s low 0 rd fits.0 fits.1 (omega arith) hd in
    let m = and_ℤ low mask32 in
    let (c, stepped) =
      writes_step s (i_type low 0 0 rd op_imm) rd (bit_and (get_or s.regs 0 0 + m) mask32)
        (running, aligned, omega arith) stored.0 target dispatched in
    let small : m < 2 ^ 32 = ground (arith, and_ℤ_low 32 low) in
    let value : bit_and (bit_and (get_or s.regs 0 0 + m) mask32) mask32 ≡ m = omega (
      arith,
      zero_register,
      small,
      and_low 32 (get_or s.regs 0 0 + m),
      and_low 32 (bit_and (get_or s.regs 0 0 + m) mask32),
    ) in
    run-one s _ c stepped ∙ rw value refl
run-loading_words s rd (two upper low) (running, aligned, room) hd full zero_register fits stored =
    let (target, dispatched) = dispatch-lui s upper rd fits.0 hd in
    let v = bit_and (upper * 2 ^ 12) mask32 in
    let (c, stepped) =
      writes_step s (u_type (pos upper) rd op_lui) rd (upper * 2 ^ 12)
        (running, aligned, omega arith) stored.0 target dispatched in
    let t : Iss = record s { regs = put s.regs rd v; pc = s.pc + 4 } in
    let m = and_ℤ low mask32 in
    let (target', dispatched') = dispatch-addi t low rd rd fits.1 fits.2 hd hd in
    let (d, stepped') =
      writes_step t (i_type low rd 0 rd op_imm) rd (bit_and (get_or t.regs rd 0 + m) mask32)
        (running, omega arith, omega arith) stored.1.0 target' dispatched' in
    let top : v ≡ upper * 2 ^ 12 = omega (arith, and_low 32 (upper * 2 ^ 12), fits.0) in
    let pc : s.pc + 4 + 4 ≡ s.pc + 8 = omega arith in
    run-two s t _ c d stepped stepped'
    ∙ rw (put_sum s.regs rd v m (omega (arith, full, hd)), top, pc) refl

-- For a register below 32 and the text of a number, of either sign, the assembler makes of `li` one
-- word or two, where no label is the text of a number. A well-formed running golden model that has
-- these words at its program counter, not at the end of the address space, then runs them, and
-- nothing else changes but the register, which holds the number as a word, unless it is x0, and the
-- program counter, which stands behind the words.
pub run-line_words :
    (rd_text number_text : String) (rd : ℕ) (number : ℤ) (names : List String) (labels : Labels)
    (s : Iss)
    → NoNumber labels
    → read_reg rd_text ≡ some rd
    → rd < 32
    → int_0 number_text ≡ some number
    → IsWellFormed s
    → s.halted ≡ false
    → s.pc + 8 < 2 ^ 32
    → Stored s s.pc (loading_words rd (li number))
    → (line_words
          (record { labels = names; op = "li"; args = rd_text ∷ number_text ∷ [] })
          s.pc
          labels
        ≡ some (loading_words rd (li number)))
      × ((run (length (loading_words rd (li number))) s).0 ≡ record s {
        regs = put s.regs rd (and_ℤ number mask32);
        pc = s.pc + 4 * length (loading_words rd (li number));
      })
run-line_words rd_text number_text rd number names labels s h named small read w running room
      stored =
    let (value, fits) = li-Loads number in
    (
      line_words-loading_words rd_text number_text s.pc rd number names labels h named small read,
      run-loading_words s rd (li number) (running, w.pc_aligned, short (li number) room) small
            w.register_count w.zero_register fits stored
          ∙ ap
              (λ v. record s {
                regs = put s.regs rd v;
                pc = s.pc + 4 * length (loading_words rd (li number));
              })
              value,
    )
  where
    short : (r : Loaded) → s.pc + 8 < 2 ^ 32 → s.pc + 4 * length (loading_words rd r) < 2 ^ 32
    short (one low) h = omega arith
    short (two upper low) h = omega arith
