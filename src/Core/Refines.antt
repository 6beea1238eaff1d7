-- ===== src/Core/Refines.antt =====
-- One clock edge of the core against one step of the golden model.
use rv32i_cpu.Base.{
  ℕ, ◌+◌, bit_and, ◌≡◌, refl, arith, Bool, true, false, none, some, Bool-cases, inl, inr, if_both,
}
use rv32i_cpu.Bits.{mask32}
use rv32i_cpu.Iss
use rv32i_cpu.Reference
use rv32i_cpu.Iss.State.{Iss, halt_illegal}
use rv32i_cpu.Iss.Decode.{fields, imm_u, imm_j}
use rv32i_cpu.Iss.Execute.{
  Effect, Result, ok, trap, goes_on, pc_plus4, execute_jalr, execute_branch, execute_load,
  execute_store, execute_imm, execute_reg, execute_misc_mem, execute_system, dispatch, execute,
}
use rv32i_cpu.Iss.Step.{finish, fetch, step}
use rv32i_cpu.Iss.Step.Effects.{step_running, step_halted}
use rv32i_cpu.Iss.Step.Invariant.{IsWellFormed}
use rv32i_cpu.Reference.Decoder.{
  Control, defaults, flag_illegal, mute, decode_lui, decode_auipc, decode_jal, decode_jalr,
  decode_branch, decode_load, decode_store, decode_imm, decode_reg, decode_misc_mem, decode_system,
  decode_opcode, ref_decode,
}
use rv32i_cpu.Core.{Core, as_iss, Wires, wires, clock, fetched, cycle_with, cycle}
use rv32i_cpu.Core.Edge.{Agrees, Same, trap_Same, retire_Same}
use rv32i_cpu.Core.Signals.{checked, illegal_Agrees}
use rv32i_cpu.Core.Jumps.{lui_Agrees, auipc_Agrees, jal_Agrees, jalr_Agrees, branch_Agrees}
use rv32i_cpu.Core.Values.{misc_mem_Agrees, system_Agrees}
use rv32i_cpu.Core.Results.{imm_Agrees, reg_Agrees}
use rv32i_cpu.Core.Accesses.{load_Agrees, store_Agrees}

-- A relation of signals and outcomes that holds for each of the eleven opcodes, and of an illegal
-- word and its trap, holds of the decoder and the dispatch on any opcode.
pub opcode_both :
    (R : Control → Result Effect → Type 0) (s : Iss) (pc inst f3 f7 : ℕ)
    → R (decode_lui inst f3 f7) (ok (goes_on (some (imm_u inst)) (pc_plus4 s pc inst)))
    → R
        (decode_auipc inst f3 f7)
        (ok (goes_on (some (bit_and (pc + imm_u inst) mask32)) (pc_plus4 s pc inst)))
    → R
        (decode_jal inst f3 f7)
        (ok (goes_on (some (pc_plus4 s pc inst)) (bit_and (pc + imm_j inst) mask32)))
    → R (decode_jalr inst f3 f7) (execute_jalr s pc inst)
    → R (decode_branch inst f3 f7) (execute_branch s pc inst)
    → R (decode_load inst f3 f7) (execute_load s pc inst)
    → R (decode_store inst f3 f7) (execute_store s pc inst)
    → R (decode_imm inst f3 f7) (execute_imm s pc inst)
    → R (decode_reg inst f3 f7) (execute_reg s pc inst)
    → R (decode_misc_mem inst f3 f7) (execute_misc_mem s pc inst)
    → R (decode_system inst f3 f7) (execute_system s pc inst)
    → R (flag_illegal (defaults f3)) (trap halt_illegal)
    → (opcode : ℕ) → R (decode_opcode inst f3 f7 opcode) (dispatch s pc inst opcode)
unfolding decode_opcode dispatch
opcode_both R s pc inst f3 f7 lui auipc jal jalr branch load store imm reg fence system bad opcode =
    if_both R _ _ _ _ _ lui (
      if_both R _ _ _ _ _ auipc (
        if_both R _ _ _ _ _ jal (
          if_both R _ _ _ _ _ jalr (
            if_both R _ _ _ _ _ branch (
              if_both R _ _ _ _ _ load (
                if_both R _ _ _ _ _ store (
                  if_both R _ _ _ _ _ imm (
                    if_both R _ _ _ _ _ reg
                      (if_both R _ _ _ _ _ fence (if_both R _ _ _ _ _ system bad))))))))))

module _ (k : Core) (inst : ℕ) (w : IsWellFormed (as_iss k)) (run : k.halted ≡ false) where
  -- The signals of a decoded instruction agree with an outcome of the model.
  abbrev Matches : Control → Result Effect → Type 0
  Matches c r = Agrees (fields inst).funct3 (mute c) (wires true k inst (mute c)) (checked r)

  opcode_Matches :
      (opcode : ℕ)
      → Matches
          (decode_opcode inst (fields inst).funct3 (fields inst).funct7 opcode)
          (dispatch (as_iss k) k.pc inst opcode)
  opcode_Matches =
      opcode_both Matches (as_iss k) k.pc inst (fields inst).funct3 (fields inst).funct7
        (lui_Agrees k inst w run) (auipc_Agrees k inst w run) (jal_Agrees k inst w run)
        (jalr_Agrees k inst w run) (branch_Agrees k inst w run) (load_Agrees k inst w run)
        (store_Agrees k inst w run) (imm_Agrees k inst w run) (reg_Agrees k inst w run)
        (misc_mem_Agrees k inst w run) (system_Agrees k inst w run)
        (illegal_Agrees k inst w run (flag_illegal (defaults (fields inst).funct3)) refl)

  execute-Agrees :
      Agrees
        (fields inst).funct3
        (ref_decode inst)
        (wires true k inst (ref_decode inst))
        (execute (as_iss k) k.pc inst)
  unfolding ref_decode execute fields
  execute-Agrees = opcode_Matches (fields inst).opcode

  edge_Same :
      (c : Control) (x : Wires) (r : Result Effect)
      → Agrees (fields inst).funct3 c x r
      → Same (clock false true k inst c x) (finish (as_iss k) inst r)
  edge_Same c x (trap cause) h = trap_Same k inst c x run cause h
  edge_Same c x (ok e) h = retire_Same k inst c x run e h

  decoded_Same :
      Same
        (cycle_with false true k inst (ref_decode inst))
        (finish (as_iss k) inst (execute (as_iss k) k.pc inst))
  unfolding cycle_with
  decoded_Same =
      edge_Same (ref_decode inst) (wires true k inst (ref_decode inst))
        (execute (as_iss k) k.pc inst) execute-Agrees

-- A halted core keeps its state over a clock edge, and retires nothing.
pub cycle_halted : (step_en : Bool) (k : Core) → k.halted ≡ true → cycle false step_en k ≡ (k, none)
unfolding cycle clock
cycle_halted true k h = ground (arith, h)
cycle_halted false k h = ground (arith, h)

fetched_eq : (k : Core) → fetched k ≡ fetch (as_iss k)
unfolding fetched fetch Reference.Memory.index Iss.Memory.index
fetched_eq k = refl

cycle_lem :
    (k : Core)
    → cycle false true k
      ≡ cycle_with false true k (fetch (as_iss k)) (ref_decode (fetch (as_iss k)))
unfolding cycle
cycle_lem k = rw (fetched_eq k) refl

-- From any well-formed state, a clock edge of the enabled core does what a step of the golden model
-- does: the two end in the same state, and either both retire, with commits that the scoreboard
-- accepts, or neither does.
pub cycle-step : (k : Core) → IsWellFormed (as_iss k) → Same (cycle false true k) (step (as_iss k))
cycle-step k w = elim (Bool-cases k.halted) [
  | inl halted ↦ rw (cycle_halted true k halted, step_halted (as_iss k) halted) refl
  | inr run ↦
      rw (cycle_lem k, step_running (as_iss k) run) (decoded_Same k (fetch (as_iss k)) w run)
]
