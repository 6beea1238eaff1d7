-- ===== src/Unit/Regfile.antt =====
-- rtl/regfile.sv, and its testbench verif/unit/tb_regfile.py on any device with its pins. A failed
-- assertion is none.
pub mod Passing
use rv32i_cpu.Base.{
  ℕ, zero, suc, ◌+◌, Bool, true, false, ◌&&◌, List, [], ◌∷◌, Option, none, some, ◌==◌, ◌!=◌,
  if◌then◌else◌, get_or, set, replicate, ◌>>=◌, require,
}
use rv32i_cpu.Core.Blocks.{read_port}

pub record RegfilePins : Type 0 where
  pub rst : Bool
  pub we : Bool
  pub rd_addr : ℕ
  pub rd_data : ℕ
  pub rs1_addr : ℕ
  pub rs2_addr : ℕ

-- The `always_ff` block.
unfoldable pub regfile_edge : RegfilePins → List ℕ → List ℕ
regfile_edge pins regs =
    if pins.rst
    then replicate 32 0
    else if pins.we && pins.rd_addr != 0
    then set regs pins.rd_addr pins.rd_data
    else regs

pub record RegfileDut (D : Type 0) : Type 0 where
  pub rs1_data : RegfilePins → D → ℕ
  pub rs2_data : RegfilePins → D → ℕ
  pub clocked : RegfilePins → D → D

abbrev pub regfile_dut : RegfileDut (List ℕ)
regfile_dut = record {
  rs1_data = λ pins regs. read_port regs pins.rs1_addr;
  rs2_data = λ pins regs. read_port regs pins.rs2_addr;
  clocked = regfile_edge;
}

pub record RegfileBench (D : Type 0) : Type 0 where
  pub pins : RegfilePins
  pub device : D

-- What `random` draws in a turn of `regfile_random_rw`.
pub record Turn : Type 0 where
  pub rs1 : ℕ
  pub rs2 : ℕ
  pub we : Bool
  pub rd : ℕ
  pub number : ℕ

module _ {D : Type 0} (dut : RegfileDut D) where
  abbrev pub quiet : RegfilePins
  quiet = record { rst = false; we = false; rd_addr = 0; rd_data = 0; rs1_addr = 0; rs2_addr = 0 }

  unfoldable pub reset : D → RegfileBench D
  reset device =
      let held = record quiet { rst = true } in
      record { pins = quiet; device = dut.clocked held (dut.clocked held device) }

  -- The pins that `read` leaves.
  abbrev pub pointed : ℕ → ℕ → RegfileBench D → RegfileBench D
  pointed rs1 rs2 b = record b { pins = record b.pins { rs1_addr = rs1; rs2_addr = rs2 } }

  -- The values that `read` gives.
  abbrev pub shows : RegfileBench D → ℕ × ℕ
  shows b = (dut.rs1_data b.pins b.device, dut.rs2_data b.pins b.device)

  abbrev pub both_zero : RegfileBench D → Bool
  both_zero b = (shows b).0 == 0 && (shows b).1 == 0

  -- The loop over `n` registers from `r` on.
  unfoldable pub all_clear : ℕ → ℕ → RegfileBench D → Option (RegfileBench D)
  all_clear zero r b = some b
  all_clear (suc n) r b =
      require (both_zero (pointed r r b)) (pointed r r b) >>= all_clear n (suc r)

  unfoldable pub regfile_reset_clears_all : D → Option (RegfileBench D)
  unfolding reset
  regfile_reset_clears_all device = all_clear 32 0 (reset device)

  unfoldable pub regfile_x0_hardwired : D → Option (RegfileBench D)
  unfolding reset
  regfile_x0_hardwired device =
      let b : RegfileBench D = reset device in
      let driven = record b.pins { we = true; rd_addr = 0; rd_data = 0xffff_ffff } in
      let written : RegfileBench D = record {
        pins = record driven { we = false };
        device = dut.clocked driven b.device;
      } in
      require (both_zero (pointed 0 0 written)) (pointed 0 0 written)

  -- A turn of the loop, with `model`.
  unfoldable pub random_turn : Turn → RegfileBench D × List ℕ → Option (RegfileBench D × List ℕ)
  random_turn d (b, model) =
      let driven : RegfileBench D =
        pointed d.rs1 d.rs2
          (record b { pins = record b.pins { we = d.we; rd_addr = d.rd; rd_data = d.number } }) in
      require ((shows driven).0 == get_or model d.rs1 0 && (shows driven).1 == get_or model d.rs2 0)
        (
          record driven { device = dut.clocked driven.pins driven.device },
          if d.we && d.rd != 0 then set model d.rd d.number else model,
        )

  unfoldable pub random_turns :
      List Turn → RegfileBench D × List ℕ → Option (RegfileBench D × List ℕ)
  random_turns [] p = some p
  random_turns (d ∷ draws) p = random_turn d p >>= random_turns draws

  unfoldable pub regfile_random_rw : List Turn → D → Option (RegfileBench D × List ℕ)
  unfolding reset
  regfile_random_rw draws device = random_turns draws (reset device, replicate 32 0)
