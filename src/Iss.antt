-- ===== src/Iss.antt =====
-- verif/iss.py, the golden model: an instruction-set simulator. The object is a record that each
-- method takes and returns; a `raise Trap(cause)` is a value that the rest of the step passes on.
pub mod State
pub mod Decode
pub mod Memory
pub mod Alu
pub mod Execute
pub mod Step
pub mod Demo
