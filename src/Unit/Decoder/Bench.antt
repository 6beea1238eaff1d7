-- ===== src/Unit/Decoder/Bench.antt =====
-- The tests of verif/unit/tb_decoder.py, on any block with the outputs of rtl/decoder.sv. A test is
-- true when no assertion of it fails, and what `random` draws is a parameter.
use rv32i_cpu.Base.{
  ℕ, zero, suc, Bool, true, false, ◌&&◌, List, [], ◌∷◌, ◌==◌, if◌then◌else◌, bit_or, ◌<<<◌, to_int,
}
use rv32i_cpu.Reference.Decoder.{Control, ref_decode}
use rv32i_cpu.Randgen.Decoder.{Kind, random_legal}
use rv32i_cpu.Unit.Blocks.{every}

-- `PORTS`.
pub data Port : Type 0 where
  alu_op alu_a_sel alu_b_sel imm_select reg_write wb_sel : Port
  mem_read mem_write mem_op branch jump jalr ecall ebreak illegal : Port

abbrev pub ports : List Port
ports =
    Port.alu_op ∷ Port.alu_a_sel ∷ Port.alu_b_sel ∷ Port.imm_select ∷ Port.reg_write ∷ Port.wb_sel
    ∷ Port.mem_read ∷ Port.mem_write ∷ Port.mem_op ∷ Port.branch ∷ Port.jump ∷ Port.jalr
    ∷ Port.ecall ∷ Port.ebreak ∷ Port.illegal ∷ []

-- `as_int` of a port.
unfoldable pub port_value : Control → Port → ℕ
port_value c Port.alu_op = c.alu_op
port_value c Port.alu_a_sel = c.alu_a_sel
port_value c Port.alu_b_sel = c.alu_b_sel
port_value c Port.imm_select = c.imm_format
port_value c Port.reg_write = to_int c.reg_write
port_value c Port.wb_sel = c.wb_sel
port_value c Port.mem_read = to_int c.mem_read
port_value c Port.mem_write = to_int c.mem_write
port_value c Port.mem_op = c.mem_op
port_value c Port.branch = to_int c.branch
port_value c Port.jump = to_int c.jump
port_value c Port.jalr = to_int c.jalr
port_value c Port.ecall = to_int c.ecall
port_value c Port.ebreak = to_int c.ebreak
port_value c Port.illegal = to_int c.illegal

-- The ports that differ from what is expected, of those in a list.
unfoldable pub bad_ports : Control → Control → List Port → List Port
unfolding port_value
bad_ports got exp [] = []
bad_ports got exp (p ∷ rest) =
    let bad = bad_ports got exp rest in
    if port_value got p == port_value exp p then bad else p ∷ bad

abbrev pub directed_words : List ℕ
directed_words =
    0x0010_0093 ∷ 0x1234_50b7 ∷ 0x0000_0097 ∷ 0x0080_00ef ∷ 0x0000_80e7 ∷ 0xfe00_0ee3 ∷ 0x0005_2083
    ∷ 0xfe51_2c23 ∷ 0x4020_8133 ∷ 0x4020_d133 ∷ 0x0050_9093 ∷ 0x40d0_d093 ∷ 0x0000_000f
    ∷ 0x0000_0073 ∷ 0x0010_0073 ∷ 0x0000_0000 ∷ 0xffff_ffff ∷ 0x0020_0073 ∷ 0x0000_0173
    ∷ 0x0000_302f ∷ []

-- What `random` draws for a word of `random_legal`.
pub record LegalDraw : Type 0 where
  pub rd : ℕ
  pub rs1 : ℕ
  pub rs2 : ℕ
  pub number : ℕ
  pub kind : Kind

module _ (block : ℕ → Control) where
  -- `check` passes on a word.
  unfoldable pub decoder_check : ℕ → Bool
  unfolding bad_ports
  decoder_check inst = elim (bad_ports (block inst) (ref_decode inst) ports) [
    | [] ↦ true
    | _ ↦ false
  ]

  unfoldable pub decoder_directed : Bool
  decoder_directed = every decoder_check directed_words

  unfoldable pub decoder_random_legal : List LegalDraw → Bool
  decoder_random_legal draws =
      every (λ d. decoder_check (random_legal d.rd d.rs1 d.rs2 d.number d.kind)) draws

  unfoldable pub decoder_random_words : List ℕ → Bool
  decoder_random_words words = every decoder_check words

  -- The loop over the opcodes below `n`, from the top.
  unfoldable pub opcodes_below : ℕ → Bool
  opcodes_below zero = true
  opcodes_below (suc opcode) =
      decoder_check
        (bit_or (bit_or (bit_or (bit_or (0x0ab <<< 20) (3 <<< 15)) (2 <<< 12)) (4 <<< 7)) opcode)
      && opcodes_below opcode

  unfoldable pub decoder_every_opcode : Bool
  decoder_every_opcode = opcodes_below 128
