-- ===== src/Reference.antt =====
-- verif/unit: the reference models against which the testbenches hold the blocks of the core.
pub mod Alu
pub mod Branch
pub mod Imm
pub mod Decoder
pub mod Pc
pub mod Memory
