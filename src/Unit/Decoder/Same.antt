-- ===== src/Unit/Decoder/Same.antt =====
-- rtl/decoder.sv computes what `ref_decode` of verif/unit/tb_decoder.py computes.
use rv32i_cpu.Base.{ℕ, ◌*◌, ◌/◌, ◌^◌, ◌<◌, ◌≡◌, refl, arith, ◌!=◌, bit_and, bit_or}
use rv32i_cpu.Base.BitOps.{and_low, or_add}
use rv32i_cpu.Bits.{bits}
use rv32i_cpu.Bits.Laws.{bits_lem}
use rv32i_cpu.Reference.Decoder.{
  Control, decode_store, decode_imm, decode_reg, decode_misc_mem, decode_opcode, mute, ref_decode,
}
use rv32i_cpu.Unit.Decoder.{
  idle_outputs, jalr_outputs, branch_outputs, load_outputs, store_outputs, wide_op, imm_outputs,
  reg_outputs, system_outputs, selected_outputs, suppress, decoder_block,
}

wide_op-or :
    (funct3 funct7 : ℕ)
    → funct3 < 8
    → wide_op funct3 funct7 ≡ bit_or (bit_and (funct7 / 2 ^ 5) 1 * 2 ^ 3) funct3
unfolding wide_op
wide_op-or funct3 funct7 h = omega (
  arith,
  bits_lem funct7 5 5,
  and_low 1 (funct7 / 2 ^ 5),
  or_add 3 (bit_and (funct7 / 2 ^ 5) 1 * 2 ^ 3) funct3 (omega arith) h,
)

suppress-mute : (c : Control) → suppress c ≡ mute c
unfolding suppress mute
suppress-mute c = ground arith

module _ (inst funct3 funct7 : ℕ) (h : funct3 < 8) where
  store_same : store_outputs funct3 ≡ decode_store inst funct3 funct7
  unfolding store_outputs idle_outputs
  store_same = ground (arith, bits_lem funct3 2 2, bits_lem funct3 1 0)

  imm_same : imm_outputs funct3 funct7 ≡ decode_imm inst funct3 funct7
  unfolding imm_outputs idle_outputs
  imm_same = ground (arith, wide_op-or funct3 funct7 h)

  reg_same : reg_outputs funct3 funct7 ≡ decode_reg inst funct3 funct7
  unfolding reg_outputs idle_outputs
  reg_same = ground (arith, wide_op-or funct3 funct7 h)

  misc_mem_same :
      (let c : Control = record (idle_outputs funct3) { illegal = funct3 != 0b000 } in c)
      ≡ decode_misc_mem inst funct3 funct7
  unfolding idle_outputs
  misc_mem_same = ground arith

  selected_outputs-decode_opcode :
      (opcode : ℕ)
      → selected_outputs inst opcode funct3 funct7 ≡ decode_opcode inst funct3 funct7 opcode
  unfolding selected_outputs decode_opcode jalr_outputs branch_outputs load_outputs system_outputs
      idle_outputs
  selected_outputs-decode_opcode opcode = rw (store_same, imm_same, reg_same, misc_mem_same) refl

-- rtl/decoder.sv gives the control signals of the reference, for every word.
pub decoder_block-ref_decode : (inst : ℕ) → decoder_block inst ≡ ref_decode inst
unfolding decoder_block ref_decode
decoder_block-ref_decode inst =
    rw
      (
        selected_outputs-decode_opcode inst (bits inst 14 12) (bits inst 31 25)
            (omega (arith, bits_lem inst 14 12)) (bits inst 6 0),
        suppress-mute,
      )
      refl
