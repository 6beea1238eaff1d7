-- ===== src/Unit/Regfile/Passing.antt =====
-- verif/unit/tb_regfile.py on rtl/regfile.sv.
use rv32i_cpu.Base.{
  ℕ, zero, suc, ◌≡◌, refl, ap, ◌∙◌, arith, Bool, true, false, ◌&&◌, List, [], ◌∷◌, Option, some,
  ◌!=◌, if◌then◌else◌, get_or, set, replicate, get_or-set_ne, is_some, ==_refl,
}
use rv32i_cpu.Core.Agree.{read_port-get_or}
use rv32i_cpu.Core.Blocks.{read_port}
use rv32i_cpu.Unit.Regfile.{
  RegfilePins, regfile_edge, regfile_dut, RegfileBench, Turn, reset, all_clear,
  regfile_reset_clears_all, regfile_x0_hardwired, random_turn, random_turns, regfile_random_rw,
}

-- The device is not in reset and holds the model's registers, of which x0 is zero.
record Agree (b : RegfileBench (List ℕ)) (model : List ℕ) : Type 0 where
  running : b.pins.rst ≡ false
  same : b.device ≡ model
  zero_first : get_or model 0 0 ≡ 0

reset-replicate : (regs : List ℕ) → (reset regfile_dut regs).device ≡ replicate 32 0
unfolding reset regfile_edge
reset-replicate regs = refl

resets : (regs : List ℕ) → (reset regfile_dut regs).pins.rst ≡ false
unfolding reset
resets regs = refl

edge_runs :
    (pins : RegfilePins) (regs : List ℕ)
    → pins.rst ≡ false
    → regfile_edge pins regs
      ≡ (if pins.we && pins.rd_addr != 0 then set regs pins.rd_addr pins.rd_data else regs)
unfolding regfile_edge
edge_runs pins regs h = rw h refl

written_zero :
    (model : List ℕ) (rd number : ℕ) (we : Bool)
    → get_or model 0 0 ≡ 0
    → get_or (if we && rd != 0 then set model rd number else model) 0 0 ≡ 0
written_zero model rd number false h = h
written_zero model zero number true h = h
written_zero model (suc rd) number true h =
    ground (arith, h, get_or-set_ne model (suc rd) 0 number 0 (omega arith))

abbrev Passes : Option (RegfileBench (List ℕ) × List ℕ) → Type 0
Passes r = (b : RegfileBench (List ℕ)) × (model : List ℕ) × (r ≡ some (b, model)) × Agree b model

random_turn-Passes :
    (d : Turn) (b : RegfileBench (List ℕ)) (model : List ℕ)
    → Agree b model
    → Passes (random_turn regfile_dut d (b, model))
unfolding random_turn
random_turn-Passes d b model a =
    let pins : RegfilePins = record b.pins {
      we = d.we;
      rd_addr = d.rd;
      rd_data = d.number;
      rs1_addr = d.rs1;
      rs2_addr = d.rs2;
    } in
    (
      record { pins = pins; device = regfile_edge pins b.device },
      if d.we && d.rd != 0 then set model d.rd d.number else model,
      rw
          (
            a.same,
            read_port-get_or model d.rs1 a.zero_first,
            read_port-get_or model d.rs2 a.zero_first,
            ==_refl (get_or model d.rs1 0),
            ==_refl (get_or model d.rs2 0),
          )
          refl,
      record {
        running = a.running;
        same =
            edge_runs pins b.device a.running
            ∙ ap (λ (regs : List ℕ). if d.we && d.rd != 0 then set regs d.rd d.number else regs)
                a.same;
        zero_first = written_zero model d.rd d.number d.we a.zero_first;
      },
    )

random_turns-Passes :
    (draws : List Turn) (b : RegfileBench (List ℕ)) (model : List ℕ)
    → Agree b model
    → Passes (random_turns regfile_dut draws (b, model))
unfolding random_turns
random_turns-Passes [] b model a = (b, model, refl, a)
random_turns-Passes (d ∷ draws) b model a =
    let (after, kept, e, agrees) = random_turn-Passes d b model a in
    rw (random_turns, e) (random_turns-Passes draws after kept agrees)

-- From any registers the random test passes on rtl/regfile.sv, for any draws, and leaves the register
-- file and the model with the same registers.
pub regfile_random_rw-regfile_dut :
    (draws : List Turn) (regs : List ℕ)
    → (b : RegfileBench (List ℕ)) × (model : List ℕ) × (regfile_random_rw regfile_dut draws regs
        ≡ some (b, model))
      × (b.device ≡ model)
unfolding regfile_random_rw
regfile_random_rw-regfile_dut draws regs =
    let (b, model, e, a) =
      random_turns-Passes draws (reset regfile_dut regs) (replicate 32 0)
        (record { running = resets regs; same = reset-replicate regs; zero_first = refl }) in
    (b, model, e, a.same)

-- The two directed tests pass on rtl/regfile.sv from any registers.
pub regfile_directed_tests :
    (regs : List ℕ)
    → (is_some (regfile_reset_clears_all regfile_dut regs) ≡ true)
      × (is_some (regfile_x0_hardwired regfile_dut regs) ≡ true)
unfolding regfile_reset_clears_all regfile_x0_hardwired all_clear reset regfile_edge read_port
regfile_directed_tests regs = (refl, refl)
