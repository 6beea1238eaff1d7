-- ===== src/Iss/Execute/Outcome.antt =====
-- What every outcome of the `try` block of `Iss.step` satisfies.
use rv32i_cpu.Base.{
  ℕ, ◌+◌, ◌%◌, ◌^◌, ◌≤◌, ◌<◌, ◌≡◌, arith, some, bit_and, Bool-cases, inl, inr, ◌!=◌, if_elim,
}
use rv32i_cpu.Base.BitOps.{and_not, and_low}
use rv32i_cpu.Bits.{mask32}
use rv32i_cpu.Iss.State.{Iss, halt_illegal, halt_fetch_misalign}
use rv32i_cpu.Iss.Decode.{fields, imm_i, imm_b, imm_u, imm_j}
use rv32i_cpu.Iss.Execute.{
  Effect, Result, ok, trap, goes_on, raise_if, ◌>>=◌, ◌>>◌, pc_plus4, operand_a, execute_jalr,
  execute_branch, execute_load, execute_store, execute_imm, execute_reg, execute_misc_mem,
  execute_system, dispatch, execute,
}

-- The next program counter is a word, and a trap has one of the five causes.
abbrev pub IsBounded : Result Effect → Type 0
IsBounded (ok e) = e.next_pc < 2 ^ 32
IsBounded (trap cause) = (1 ≤ cause) × (cause ≤ 5)

module _ (s : Iss) (pc inst : ℕ) where
  -- A property of the outcomes of the eleven opcodes holds of the dispatch on any opcode.
  pub dispatch_elim :
      (P : Result Effect → Type 0)
      → P (ok (goes_on (some (imm_u inst)) (pc_plus4 s pc inst)))
      → P (ok (goes_on (some (bit_and (pc + imm_u inst) mask32)) (pc_plus4 s pc inst)))
      → P (ok (goes_on (some (pc_plus4 s pc inst)) (bit_and (pc + imm_j inst) mask32)))
      → P (execute_jalr s pc inst)
      → P (execute_branch s pc inst)
      → P (execute_load s pc inst)
      → P (execute_store s pc inst)
      → P (execute_imm s pc inst)
      → P (execute_reg s pc inst)
      → P (execute_misc_mem s pc inst)
      → P (execute_system s pc inst)
      → P (trap halt_illegal)
      → (opcode : ℕ) → P (dispatch s pc inst opcode)
  unfolding dispatch
  dispatch_elim P lui auipc jal jalr branch load store imm reg fence system illegal opcode =
      if_elim P _ _ _ lui (
        if_elim P _ _ _ auipc (
          if_elim P _ _ _ jal (
            if_elim P _ _ _ jalr (
              if_elim P _ _ _ branch (
                if_elim P _ _ _ load (
                  if_elim P _ _ _ store (
                    if_elim P _ _ _ imm (
                      if_elim P _ _ _ reg
                        (if_elim P _ _ _ fence (if_elim P _ _ _ system illegal))))))))))

  pub mask-lt : (x : ℕ) → bit_and x mask32 < 2 ^ 32
  mask-lt x = omega (arith, and_low 32 x)

  pc_plus4-lt : pc_plus4 s pc inst < 2 ^ 32
  pc_plus4-lt = mask-lt (pc + 4)

  jalr-IsBounded : IsBounded (execute_jalr s pc inst)
  unfolding execute_jalr
  jalr-IsBounded = ground (arith, mask-lt (and_not (operand_a s pc inst + imm_i inst) 1))

  branch-IsBounded : IsBounded (execute_branch s pc inst)
  unfolding execute_branch
  branch-IsBounded = ground (arith, pc_plus4-lt, mask-lt (pc + imm_b inst))

  load-IsBounded : IsBounded (execute_load s pc inst)
  unfolding execute_load
  load-IsBounded = ground (arith, pc_plus4-lt)

  store-IsBounded : IsBounded (execute_store s pc inst)
  unfolding execute_store
  store-IsBounded = ground (arith, pc_plus4-lt)

  imm-IsBounded : IsBounded (execute_imm s pc inst)
  unfolding execute_imm
  imm-IsBounded = ground (arith, pc_plus4-lt)

  reg-IsBounded : IsBounded (execute_reg s pc inst)
  unfolding execute_reg
  reg-IsBounded = ground (arith, pc_plus4-lt)

  fence-IsBounded : IsBounded (execute_misc_mem s pc inst)
  unfolding execute_misc_mem
  fence-IsBounded = ground (arith, pc_plus4-lt)

  system-IsBounded : IsBounded (execute_system s pc inst)
  unfolding execute_system
  system-IsBounded = ground arith

  dispatch-IsBounded : (opcode : ℕ) → IsBounded (dispatch s pc inst opcode)
  dispatch-IsBounded =
      dispatch_elim IsBounded (mask-lt _) (mask-lt _) (mask-lt _) jalr-IsBounded branch-IsBounded
        load-IsBounded store-IsBounded imm-IsBounded reg-IsBounded fence-IsBounded system-IsBounded
        (omega arith)

-- After the check of the next program counter: it is also a multiple of 4.
abbrev pub IsAligned : Result Effect → Type 0
IsAligned (ok e) = (e.next_pc < 2 ^ 32) × (e.next_pc % 4 ≡ 0)
IsAligned (trap cause) = (1 ≤ cause) × (cause ≤ 5)

checked :
    (r : Result Effect)
    → IsBounded r
    → IsAligned (r >>= λ e. raise_if (bit_and e.next_pc 3 != 0) halt_fetch_misalign >> ok e)
checked (trap cause) h = h
checked (ok e) h = elim (Bool-cases (bit_and e.next_pc 3 != 0)) [
  | inl odd ↦ rw odd (omega arith)
  | inr even ↦ rw even (h, ground (arith, and_low 2 e.next_pc))
]

pub execute-IsAligned : (s : Iss) (pc inst : ℕ) → IsAligned (execute s pc inst)
unfolding execute
execute-IsAligned s pc inst =
    checked (dispatch s pc inst (fields inst).opcode)
      (dispatch-IsBounded s pc inst (fields inst).opcode)
