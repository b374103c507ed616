-- ===== src/Peg.antt =====
-- lib/endb_proc_macro
pub mod Syntax
pub mod Outcome
pub mod Leaf
pub mod Machine
pub mod Ensures
pub mod Grows
pub mod Tracking
pub mod Fuel
pub mod WellFormed
pub mod Progress
pub mod Restores
pub mod Bounds
pub mod Meaning
pub mod Reported
pub mod Hidden
