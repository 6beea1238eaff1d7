-- ===== src/Unit.antt =====
-- Blocks of rtl/ beside the unit testbenches that drive them.
pub mod Memory
pub mod Regfile
pub mod Pc
pub mod Blocks
pub mod Decoder
pub mod Soc
