-- ===== src/Core/Legal.antt =====
-- Which words are illegal: to the dispatch of the golden model, and to the decoder.
use rv32i_cpu.Base.{ℕ, ◌≡◌, refl, ◌∙◌, sym, arith, Bool, false, ◌==◌}
use rv32i_cpu.Iss.State.{Iss, halt_illegal}
use rv32i_cpu.Iss.Decode.{fields}
use rv32i_cpu.Iss.Execute.{
  Effect, Result, ok, trap, execute_jalr, execute_branch, execute_load, execute_store, execute_imm,
  execute_reg, execute_misc_mem, execute_system, dispatch,
}
use rv32i_cpu.Reference.Decoder.{Control, decode_opcode, mute, ref_decode}
use rv32i_cpu.Core.Refines.{opcode_both}

-- An outcome is the trap of an illegal word.
abbrev pub refuses : Result Effect → Bool
refuses (ok e) = false
refuses (trap cause) = cause == halt_illegal

mute_illegal : (c : Control) → (mute c).illegal ≡ c.illegal
unfolding mute
mute_illegal c = ground arith

-- The signal of a word is that of its fields.
pub ref_decode_illegal :
    (inst : ℕ)
    → (ref_decode inst).illegal
      ≡ (decode_opcode inst (fields inst).funct3 (fields inst).funct7 (fields inst).opcode).illegal
unfolding ref_decode fields
ref_decode_illegal inst = mute_illegal _

module _ (s : Iss) (pc inst : ℕ) where
  abbrev Alike : Control → Result Effect → Type 0
  Alike c r = refuses r ≡ c.illegal

  opcode_Alike :
      (opcode : ℕ)
      → Alike
          (decode_opcode inst (fields inst).funct3 (fields inst).funct7 opcode)
          (dispatch s pc inst opcode)
  unfolding execute_jalr execute_branch execute_load execute_store execute_imm execute_reg
      execute_misc_mem execute_system
  opcode_Alike =
      opcode_both Alike s pc inst (fields inst).funct3 (fields inst).funct7 refl refl refl
        (ground arith) (ground arith) (ground arith) (ground arith) (ground arith) (ground arith)
        (ground arith) (ground arith) refl

  -- The golden model traps a word as illegal exactly when the reference of the decoder flags it.
  pub dispatch-ref_decode :
      refuses (dispatch s pc inst (fields inst).opcode) ≡ (ref_decode inst).illegal
  dispatch-ref_decode = opcode_Alike (fields inst).opcode ∙ sym (ref_decode_illegal inst)
