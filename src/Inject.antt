-- ===== src/Inject.antt =====
-- tools/inject_bugs.py: bugs that are planted in a copy of the design, one at a time, and the tests
-- that are to notice them.
pub mod Text
pub mod Edits
pub mod Mutant
pub mod Table
pub mod Rtl
pub mod Run
pub mod Main
