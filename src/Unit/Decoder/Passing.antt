-- ===== src/Unit/Decoder/Passing.antt =====
-- verif/unit/tb_decoder.py on rtl/decoder.sv.
use rv32i_cpu.Base.{ℕ, zero, suc, ◌≡◌, refl, true, List, [], ◌∷◌, ==_refl, bit_or, ◌<<<◌}
use rv32i_cpu.Reference.Decoder.{Control, ref_decode}
use rv32i_cpu.Randgen.Decoder.{random_legal}
use rv32i_cpu.Unit.Blocks.Passing.{every_lem}
use rv32i_cpu.Unit.Decoder.{decoder_block}
use rv32i_cpu.Unit.Decoder.Same.{decoder_block-ref_decode}
use rv32i_cpu.Unit.Decoder.Bench.{
  Port, ports, port_value, bad_ports, directed_words, LegalDraw, decoder_check, decoder_directed,
  decoder_random_legal, decoder_random_words, opcodes_below, decoder_every_opcode,
}

bad_ports_self : (c : Control) (list : List Port) → bad_ports c c list ≡ []
unfolding bad_ports
bad_ports_self c [] = refl
bad_ports_self c (p ∷ rest) = rw (==_refl (port_value c p)) (bad_ports_self c rest)

decoder_check_passes : (inst : ℕ) → decoder_check decoder_block inst ≡ true
unfolding decoder_check
decoder_check_passes inst =
    rw (decoder_check, decoder_block-ref_decode inst, bad_ports_self (ref_decode inst) ports) refl

opcodes_below_passes : (n : ℕ) → opcodes_below decoder_block n ≡ true
unfolding opcodes_below
opcodes_below_passes zero = refl
opcodes_below_passes (suc opcode) =
    rw
      (
        decoder_check_passes (
            bit_or (bit_or (bit_or (bit_or (0x0ab <<< 20) (3 <<< 15)) (2 <<< 12)) (4 <<< 7))
              opcode),
        opcodes_below_passes opcode,
      )
      refl

-- Every test of the decoder passes on rtl/decoder.sv, for any draws of legal words and of words.
pub decoder_random_words-decoder_block :
    (draws : List LegalDraw) (words : List ℕ)
    → (decoder_directed decoder_block ≡ true)
      × (decoder_random_legal decoder_block draws ≡ true)
      × (decoder_random_words decoder_block words ≡ true)
      × (decoder_every_opcode decoder_block ≡ true)
unfolding decoder_directed decoder_random_legal decoder_random_words decoder_every_opcode
decoder_random_words-decoder_block draws words = (
  every_lem _ directed_words decoder_check_passes,
  every_lem _ draws (λ d. decoder_check_passes (random_legal d.rd d.rs1 d.rs2 d.number d.kind)),
  every_lem _ words decoder_check_passes,
  opcodes_below_passes 128,
)
