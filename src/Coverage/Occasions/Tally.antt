-- ===== src/Coverage/Occasions/Tally.antt =====
-- What a sample of verif/coverage.py adds to the hits of a bin, bin by bin.
use text.Mathlib.Text.{◌==◌ as text_eq}
use Prim.Native.String.{String}
use rv32i_cpu.Base.{
  ℕ, ◌+◌, ◌≡◌, ◌∙◌, arith, Bool, true, false, not, ◌&&◌, ◌||◌, List, Option, none, some, bit_and,
  ◌==◌, ◌!=◌, if◌then◌else◌, to_int,
}
use rv32i_cpu.Base.Int.{pos, ltb_ℤ}
use rv32i_cpu.Bits.{mask32, bits, to_signed}
use rv32i_cpu.Iss.State.{Commit}
use rv32i_cpu.Coverage.{
  name_of, opcode_names, branch_names, load_names, store_names, alu_imm_names, alu_reg_names, bin,
  sample_branch, sample_memory, sample_imm, sample_reg, sample_group, sample_registers,
  sample_result, sample_named, sample,
}
use rv32i_cpu.Coverage.Counts.{append, Counter, hits, increment, increment_if, hits-increment}

-- One for a bin that is counted on a condition, if it is the bin that is asked for.
abbrev pub gain : String → Bool → String → ℕ
gain b counted x = if text_eq x b then to_int counted else 0

module _ (b : String) where
  hits-gain :
      (x : String) (counts : Counter) → hits b (increment x counts) ≡ hits b counts + gain b true x
  hits-gain x counts = ground (arith, hits-increment x b counts)

  hits-gain_if :
      (counted : Bool) (x : String) (counts : Counter)
      → hits b (increment_if counted x counts) ≡ hits b counts + gain b counted x
  unfolding increment_if
  hits-gain_if true x counts = hits-gain x counts
  hits-gain_if false x counts = ground arith

  abbrev pub branch_tally : ℕ → Bool → ℕ
  branch_tally funct3 taken =
      gain b true (bin "branch:" branch_names funct3)
      + (gain b taken "branch:taken" + gain b (not taken) "branch:not-taken")

  abbrev pub memory_tally : List (ℕ × String) → ℕ → Bool → ℕ
  memory_tally table funct3 lane =
      gain b true (bin "mem:" table funct3) + gain b lane "mem:unaligned-lane"

  abbrev pub imm_tally : ℕ → ℕ → ℕ
  imm_tally funct3 shamt =
      let shift_op = funct3 == 0b001 || funct3 == 0b101 in
      gain b true (bin "alu:" alu_imm_names funct3)
      + (gain b (shift_op && shamt == 0) "shift:zero"
          + gain b (shift_op && shamt == 31) "shift:max")

  abbrev pub reg_tally : ℕ → ℕ → ℕ
  reg_tally funct3 funct7 =
      gain b true (bin "alu:" alu_reg_names funct3) + gain b (funct7 == 0x20) "alu:alt-funct7"

  hits-outcome :
      (taken : Bool) (counts : Counter)
      → hits b (increment (if taken then "branch:taken" else "branch:not-taken") counts)
        ≡ hits b counts + (gain b taken "branch:taken" + gain b (not taken) "branch:not-taken")
  hits-outcome true counts = hits-gain "branch:taken" counts ∙ ground arith
  hits-outcome false counts = hits-gain "branch:not-taken" counts ∙ ground arith

  hits-sample_branch :
      (counts : Counter) (funct3 : ℕ) (c : Commit)
      → hits b (sample_branch counts funct3 c)
        ≡ hits b counts + branch_tally funct3 (c.next_pc != bit_and (c.pc + 4) mask32)
  unfolding sample_branch
  hits-sample_branch counts funct3 c =
      let kind = bin "branch:" branch_names funct3 in
      omega (
        arith,
        hits-gain kind counts,
        hits-outcome (c.next_pc != bit_and (c.pc + 4) mask32) (increment kind counts),
      )

  hits-sample_memory :
      (counts : Counter) (table : List (ℕ × String)) (funct3 : ℕ) (c : Commit)
      → hits b (sample_memory counts table funct3 c)
        ≡ hits b counts + memory_tally table funct3 (bit_and c.mem_addr 3 != 0)
  unfolding sample_memory
  hits-sample_memory counts table funct3 c =
      let kind = bin "mem:" table funct3 in
      omega (
        arith,
        hits-gain kind counts,
        hits-gain_if (bit_and c.mem_addr 3 != 0) "mem:unaligned-lane" (increment kind counts),
      )

  hits-sample_imm :
      (counts : Counter) (inst funct3 : ℕ)
      → hits b (sample_imm counts inst funct3) ≡ hits b counts + imm_tally funct3 (bits inst 24 20)
  unfolding sample_imm
  hits-sample_imm counts inst funct3 =
      let counted = increment (bin "alu:" alu_imm_names funct3) counts in
      let shift_op = funct3 == 0b001 || funct3 == 0b101 in
      let none_moved = shift_op && bits inst 24 20 == 0 in
      omega (
        arith,
        hits-gain (bin "alu:" alu_imm_names funct3) counts,
        hits-gain_if none_moved "shift:zero" counted,
        hits-gain_if (shift_op && bits inst 24 20 == 31) "shift:max"
            (increment_if none_moved "shift:zero" counted),
      )

  hits-sample_reg :
      (counts : Counter) (funct3 funct7 : ℕ)
      → hits b (sample_reg counts funct3 funct7) ≡ hits b counts + reg_tally funct3 funct7
  unfolding sample_reg
  hits-sample_reg counts funct3 funct7 =
      let kind = bin "alu:" alu_reg_names funct3 in
      omega (
        arith,
        hits-gain kind counts,
        hits-gain_if (funct7 == 0x20) "alu:alt-funct7" (increment kind counts),
      )

  -- What the group of an opcode adds.
  abbrev pub group_tally : ℕ → ℕ → Commit → ℕ
  group_tally opcode funct3 c =
      if opcode == 0b1100011
      then branch_tally funct3 (c.next_pc != bit_and (c.pc + 4) mask32)
      else if opcode == 0b0000011
      then memory_tally load_names funct3 (bit_and c.mem_addr 3 != 0)
      else if opcode == 0b0100011
      then memory_tally store_names funct3 (bit_and c.mem_addr 3 != 0)
      else if opcode == 0b0010011
      then imm_tally funct3 (bits c.inst 24 20)
      else if opcode == 0b0110011
      then reg_tally funct3 (bits c.inst 31 25)
      else 0

  split_if :
      (test : Bool) (x y : Counter) (m n h : ℕ)
      → hits b x ≡ h + m
      → hits b y ≡ h + n
      → hits b (if test then x else y) ≡ h + (if test then m else n)
  split_if true x y m n h e e' = e
  split_if false x y m n h e e' = e'

  adds_nothing : (counts : Counter) → hits b counts ≡ hits b counts + 0
  adds_nothing counts = omega arith

  hits-sample_group :
      (counts : Counter) (c : Commit)
      → hits b (sample_group counts c.inst c)
        ≡ hits b counts + group_tally (bits c.inst 6 0) (bits c.inst 14 12) c
  unfolding sample_group
  hits-sample_group counts c =
      let funct3 = bits c.inst 14 12 in
      split_if _ _ _ _ _ (hits b counts) (hits-sample_branch counts funct3 c) (
        split_if _ _ _ _ _ (hits b counts) (hits-sample_memory counts load_names funct3 c) (
          split_if _ _ _ _ _ (hits b counts) (hits-sample_memory counts store_names funct3 c) (
            split_if _ _ _ _ _ (hits b counts) (hits-sample_imm counts c.inst funct3) (
              split_if _ _ _ _ _ (hits b counts) (hits-sample_reg counts funct3 (bits c.inst 31 25))
                (adds_nothing counts)))))

  abbrev pub registers_tally : ℕ → Commit → ℕ
  registers_tally opcode c =
      let computes = opcode == 0b0010011 || opcode == 0b0110011 || opcode == 0b0110111 in
      gain b (bits c.inst 11 7 == 0 && c.rd == 0 && computes) "rd:x0"
      + gain b (bits c.inst 19 15 == 0) "rs1:x0"

  abbrev pub result_tally : Commit → ℕ
  result_tally c =
      let wrote = c.rd != 0 in
      gain b (wrote && c.rd_wdata == 0) "result:zero"
      + gain b (wrote && ltb_ℤ (to_signed c.rd_wdata 32) (pos 0)) "result:negative"

  hits-sample_registers :
      (counts : Counter) (c : Commit)
      → hits b (sample_registers counts c.inst c)
        ≡ hits b counts + registers_tally (bits c.inst 6 0) c
  unfolding sample_registers
  hits-sample_registers counts c =
      let opcode = bits c.inst 6 0 in
      let computes = opcode == 0b0010011 || opcode == 0b0110011 || opcode == 0b0110111 in
      let dropped = bits c.inst 11 7 == 0 && c.rd == 0 && computes in
      omega (
        arith,
        hits-gain_if dropped "rd:x0" counts,
        hits-gain_if (bits c.inst 19 15 == 0) "rs1:x0" (increment_if dropped "rd:x0" counts),
      )

  hits-sample_result :
      (counts : Counter) (c : Commit)
      → hits b (sample_result counts c) ≡ hits b counts + result_tally c
  unfolding sample_result
  hits-sample_result counts c =
      let wrote = c.rd != 0 in
      let zero_result = wrote && c.rd_wdata == 0 in
      omega (
        arith,
        hits-gain_if zero_result "result:zero" counts,
        hits-gain_if (wrote && ltb_ℤ (to_signed c.rd_wdata 32) (pos 0)) "result:negative"
            (increment_if zero_result "result:zero" counts),
      )

  -- What a sample adds, by the name of the opcode.
  abbrev pub tally : Option String → ℕ → ℕ → Commit → ℕ
  tally none opcode funct3 c = gain b true "op:unknown"
  tally (some name) opcode funct3 c =
      gain b true (append "op:" name)
      + (registers_tally opcode c + (group_tally opcode funct3 c + result_tally c))

  hits-sample_named :
      (name : Option String) (counts : Counter) (c : Commit)
      → hits b (sample_named name counts c.inst c)
        ≡ hits b counts + tally name (bits c.inst 6 0) (bits c.inst 14 12) c
  unfolding sample_named
  hits-sample_named none counts c = hits-gain "op:unknown" counts
  hits-sample_named (some name) counts c =
      let counted = increment (append "op:" name) counts in
      let registers = sample_registers counted c.inst c in
      omega (
        arith,
        hits-gain (append "op:" name) counts,
        hits-sample_registers counted c,
        hits-sample_group registers c,
        hits-sample_result (sample_group registers c.inst c) c,
      )

  pub hits-sample :
      (counts : Counter) (c : Commit)
      → hits b (sample counts c.inst c)
        ≡ hits b counts
          + tally (name_of (bits c.inst 6 0) opcode_names) (bits c.inst 6 0) (bits c.inst 14 12) c
  unfolding sample
  hits-sample counts c = hits-sample_named (name_of (bits c.inst 6 0) opcode_names) counts c
