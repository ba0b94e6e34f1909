-- ===== src/State.antt =====
-- crates/shell-state: witnesses, the reference accumulator and the transition applier.
pub mod Tests
pub mod Witness
pub mod Accumulator
pub mod Applier
