-- ===== src/Examples/Demos.antt =====
-- The self-checks of verif/iss.py and verif/asm.py pass.
use rv32i_cpu.Base.{◌≡◌, refl, true}
use rv32i_cpu.Bits.{bits, sign_extend, to_signed}
use rv32i_cpu.Iss.Decode.{fields, imm_b, imm_i, imm_s}
use rv32i_cpu.Iss.Alu.{alu, branch_taken}
use rv32i_cpu.Iss.Memory.{misaligned, load}
use rv32i_cpu.Iss.Execute.{
  execute, dispatch, execute_imm, execute_reg, execute_branch, execute_store, execute_load,
  execute_system,
}
use rv32i_cpu.Iss.Step.{step}
use rv32i_cpu.Iss.Demo.{iss_demo}
use rv32i_cpu.Asm.Tables.{find}
use rv32i_cpu.Asm.Encode.{imm, reg, split_offset}
use rv32i_cpu.Asm.Demo.{asm_demo}

asm_demo_passes : asm_demo ≡ true
unfolding asm_demo find imm reg split_offset
asm_demo_passes = refl

iss_demo_passes : iss_demo ≡ true
unfolding iss_demo find imm reg split_offset bits step execute dispatch fields execute_imm
    execute_reg execute_branch execute_store execute_load execute_system misaligned alu branch_taken
    imm_i imm_s imm_b sign_extend to_signed load
iss_demo_passes = refl
