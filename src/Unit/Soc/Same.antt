-- ===== src/Unit/Soc/Same.antt =====
-- The core built of its blocks as they are written is the core of module Core, which has the
-- references of the decoder, the memory and the program counter in their place.
use rv32i_cpu.Base.{
  ℕ, ◌+◌, ◌-◌, ◌%◌, ◌^◌, ◌≤◌, ◌<◌, ◌≡◌, refl, sym, ap, ◌∙◌, arith, Bool, false, not, ◌&&◌, ◌||◌,
  List, ◌!=◌, if◌then◌else◌, bit_and, All, Bool-cases, inl, inr,
}
use rv32i_cpu.Base.BitOps.{and_not, and_low}
use rv32i_cpu.Bits.{bits, mask32}
use rv32i_cpu.Bits.Laws.{bits_lem}
use rv32i_cpu.Reference.Decoder.{Control, ref_decode}
use rv32i_cpu.Reference.Memory
use rv32i_cpu.Reference.Pc.{ref_next_pc}
use rv32i_cpu.Core.{Core, Wires, wires, clock, cycle, fetched, write_back, cause_of}
use rv32i_cpu.Core.Blocks.{read_port}
use rv32i_cpu.Unit.Memory.{MemoryPins, i_rdata, d_misaligned, memory_edge}
use rv32i_cpu.Unit.Memory.Same.{
  index_of-index, unaligned-misaligned, d_rdata-load, memory_edge-store,
}
use rv32i_cpu.Unit.Regfile.{regfile_edge}
use rv32i_cpu.Unit.Pc.{Steering, pc_plus4, pc_next, misaligned_target, pc_edge}
use rv32i_cpu.Unit.Pc.Passing.{next_of}
use rv32i_cpu.Unit.Decoder.{decoder_block}
use rv32i_cpu.Unit.Decoder.Same.{decoder_block-ref_decode}
use rv32i_cpu.Unit.Soc.{
  memory_pins, steering, alu_result_of, soc_wires, soc_clock, soc_inst, soc_cycle,
}

pc_next_same : (c : Steering) (pc : ℕ) → pc_next c pc ≡ next_of c pc
unfolding pc_next pc_plus4 ref_next_pc and_not
pc_next_same c pc = ground (
  arith,
  bits_lem c.alu_result 31 1,
  and_low 1 c.alu_result,
  and_low 32 (c.alu_result - c.alu_result % 2),
)

target_flag : (c : Steering) (pc : ℕ) → misaligned_target c pc ≡ (bit_and (next_of c pc) 3 != 0)
unfolding misaligned_target
target_flag c pc = rw (pc_next_same c pc) (
    let e : bits (next_of c pc) 1 0 ≡ bit_and (next_of c pc) 3 =
      omega (arith, bits_lem (next_of c pc) 1 0, and_low 2 (next_of c pc)) in
    ap (λ t. t != 0) e)

memory_edge_off :
    (k : ℕ) (pins : MemoryPins) (mem : List ℕ)
    → (pins.d_write && not (d_misaligned pins)) ≡ false
    → memory_edge k pins mem ≡ mem
unfolding memory_edge
memory_edge_off k pins mem off = rw off refl

-- A store that the core's flag lets through is the store of the model, and no other is made.
memory_edge_stored :
    (k : ℕ) (pins : MemoryPins) (mem : List ℕ)
    → 1 ≤ k
    → All (λ w. w < 2 ^ 32) mem
    → memory_edge k pins mem ≡ (
        if pins.d_write && not (d_misaligned pins)
        then Memory.store (2 ^ k) mem pins.d_op pins.d_addr pins.d_wdata
        else mem)
memory_edge_stored k pins mem h small =
    elim (Bool-cases (pins.d_write && not (d_misaligned pins))) [
      | inl on ↦ rw on (memory_edge-store k pins mem h small (ground (arith, on)))
      | inr off ↦ rw off (memory_edge_off k pins mem off)
    ]

soc_inst-fetched : (idx : ℕ) (k : Core) → 1 ≤ idx → k.count ≡ 2 ^ idx → soc_inst idx k ≡ fetched k
unfolding soc_inst fetched i_rdata
soc_inst-fetched idx k h e = rw (e, index_of-index idx k.pc h) refl

cycle_parts :
    (k : Core) (rst step_en : Bool)
    → clock rst step_en k
        (fetched k)
        (ref_decode (fetched k))
        (wires step_en k (fetched k) (ref_decode (fetched k)))
      ≡ cycle rst step_en k
unfolding cycle
cycle_parts k rst step_en = refl

module _ (idx : ℕ) (k : Core) (h : 1 ≤ idx) (e : k.count ≡ 2 ^ idx) where
  -- The signals of module Core, with the result of the ALU named.
  wires_parts :
      (step_en : Bool) (inst : ℕ) (c : Control)
      → let pins =
          memory_pins idx step_en k c
            (alu_result_of idx k inst c)
            (read_port k.regs (bits inst 24 20)) in
        let steer =
          steering idx k inst c (alu_result_of idx k inst c) (read_port k.regs (bits inst 24 20)) in
        let flag = (pins.d_read || pins.d_write) && Memory.misaligned pins.d_op pins.d_addr in
        wires step_en k inst c ≡ record {
          rs2_data = read_port k.regs (bits inst 24 20);
          alu_y = alu_result_of idx k inst c;
          d_misaligned = flag;
          wb_data =
              write_back c
                (alu_result_of idx k inst c)
                (Memory.load k.count k.mem pins.d_op pins.d_addr)
                (bit_and (k.pc + 4) mask32);
          pc_next = next_of steer k.pc;
          trap_cause = cause_of c flag (bit_and (next_of steer k.pc) 3 != 0);
        }
  unfolding wires alu_result_of memory_pins steering
  wires_parts step_en inst c = refl

  soc_wires-wires :
      (step_en : Bool) (inst : ℕ) (c : Control)
      → soc_wires idx step_en k inst c ≡ wires step_en k inst c
  unfolding soc_wires d_misaligned pc_plus4
  soc_wires-wires step_en inst c =
      let pins =
        memory_pins idx step_en k c (alu_result_of idx k inst c)
          (read_port k.regs (bits inst 24 20)) in
      let steer =
        steering idx k inst c (alu_result_of idx k inst c) (read_port k.regs (bits inst 24 20)) in
      rw
        (
          wires_parts step_en inst c,
          unaligned-misaligned pins.d_op pins.d_addr,
          d_rdata-load idx pins k.mem h
              ∙ ap (λ count. Memory.load count k.mem pins.d_op pins.d_addr) (sym e),
          pc_next_same steer k.pc,
          target_flag steer k.pc,
        )
        refl

  soc_clock-clock :
      (rst step_en : Bool) (inst : ℕ) (c : Control) (w : Wires)
      → All (λ x. x < 2 ^ 32) k.mem
      → d_misaligned (memory_pins idx step_en k c w.alu_y w.rs2_data) ≡ w.d_misaligned
      → pc_next (steering idx k inst c w.alu_y w.rs2_data) k.pc ≡ w.pc_next
      → soc_clock idx rst step_en k inst c w ≡ clock rst step_en k inst c w
  unfolding soc_clock clock memory_pins regfile_edge pc_edge
  soc_clock-clock rst step_en inst c w small hd hp =
      rw
        (
          memory_edge_stored idx (memory_pins idx step_en k c w.alu_y w.rs2_data) k.mem h small,
          hd,
          hp,
          e,
        )
        refl

  soc_wires_flag :
      (step_en : Bool) (inst : ℕ) (c : Control)
      → let w = soc_wires idx step_en k inst c in
        (d_misaligned (memory_pins idx step_en k c w.alu_y w.rs2_data) ≡ w.d_misaligned)
        × (pc_next (steering idx k inst c w.alu_y w.rs2_data) k.pc ≡ w.pc_next)
  unfolding soc_wires
  soc_wires_flag step_en inst c = (refl, refl)

  soc_cycle_parts :
      (rst step_en : Bool)
      → soc_cycle idx rst step_en k
        ≡ soc_clock idx rst step_en k
            (soc_inst idx k)
            (decoder_block (soc_inst idx k))
            (soc_wires idx step_en k (soc_inst idx k) (decoder_block (soc_inst idx k)))
  unfolding soc_cycle
  soc_cycle_parts rst step_en = refl

  -- On an array of words whose length is a power of two, at least two, a clock edge of the core built
  -- of the blocks as they are written does what the edge of module Core does.
  pub soc_cycle-cycle :
      (rst step_en : Bool)
      → All (λ w. w < 2 ^ 32) k.mem
      → soc_cycle idx rst step_en k ≡ cycle rst step_en k
  soc_cycle-cycle rst step_en small =
      let inst = fetched k in
      let c = ref_decode inst in
      let (flag, next) = soc_wires_flag step_en inst c in
      rw
        (
          soc_cycle_parts rst step_en,
          soc_inst-fetched idx k h e,
          decoder_block-ref_decode inst,
          soc_clock-clock rst step_en inst c (soc_wires idx step_en k inst c) small flag next,
          soc_wires-wires step_en inst c,
        )
        (cycle_parts k rst step_en)
