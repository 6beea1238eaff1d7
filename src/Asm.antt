-- ===== src/Asm.antt =====
-- verif/asm.py: the tables of the assembler, the pseudo-instruction `li`, the encoding of an
-- instruction, and the two passes.
pub mod Tables
pub mod Li
pub mod Encode
pub mod Words
pub mod Text
pub mod Number
pub mod Source
pub mod Digits
pub mod Texts
pub mod Hex
pub mod Demo
