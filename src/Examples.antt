-- ===== src/Examples.antt =====
-- Tests of the definitions, and the theorems at concrete inputs.
pub mod Demo
mod Machine
mod Words
mod Programs
mod Jumps
mod Bench
mod Directed
mod Texts
mod Units
mod Build
mod Demos
mod Entry
mod Generated
mod Inject
mod Soc
mod Random
