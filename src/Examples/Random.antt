-- ===== src/Examples/Random.antt =====
-- Random programs and random words, at concrete draws.
use rv32i_cpu.Base.{◌≡◌, refl, arith, List, [], ◌∷◌, All, false, inl, inr}
use rv32i_cpu.Iss.Decode.{fields}
use rv32i_cpu.Iss.Execute.{dispatch}
use rv32i_cpu.Reference.Decoder.{ref_decode}
use rv32i_cpu.Core.Legal.{refuses, dispatch-ref_decode}
use rv32i_cpu.Core.Words.{IsLegal}
use rv32i_cpu.Randgen
use rv32i_cpu.Randgen.{Draw, body, random_program}
use rv32i_cpu.Randgen.Pointer.{writes_pointer, random_program-IsLegal}
use rv32i_cpu.Randgen.Decoder
use rv32i_cpu.Randgen.Decoder.{random_legal, random_legal-IsLegal}
use rv32i_cpu.Examples.Demo.{start}

abbrev draws : List Draw
draws =
    record { rd = 5; rs1 = 6; rs2 = 7; choice = Randgen.shift 5 0x20 31 }
    ∷ record { rd = 8; rs1 = 0; rs2 = 9; choice = Randgen.store 1 6 }
    ∷ []

dispatch-ref_decode_example :
    refuses (dispatch start 0 0x0000_302f (fields 0x0000_302f).opcode)
    ≡ (ref_decode 0x0000_302f).illegal
dispatch-ref_decode_example = dispatch-ref_decode start 0 0x0000_302f

random_program-IsLegal_example :
    All IsLegal (random_program draws) × All (λ w. writes_pointer w ≡ false) (body 0 draws)
random_program-IsLegal_example = random_program-IsLegal draws (
  (omega arith, omega arith, omega arith, omega arith, (omega arith, inr (refl, inr (inl refl)))),
  ((omega arith, omega arith, omega arith, omega arith, (inr (inl refl), omega arith)), tt),
)

random_legal-IsLegal_example : IsLegal (random_legal 1 2 3 0xabc (Decoder.imm 5 13 0x400))
random_legal-IsLegal_example =
    random_legal-IsLegal 1 2 3 0xabc (Decoder.imm 5 13 0x400) (omega arith) (omega arith)
      (omega arith) (omega arith) (omega arith, omega arith, inr (inl refl))
