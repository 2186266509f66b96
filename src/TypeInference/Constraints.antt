-- ===== src/TypeInference/Constraints.antt =====
-- typeinference/mod.rs, `solve_constraints`, and what it computes.
pub mod Defs
pub mod Step
pub mod Sound
pub mod Complete
pub mod Errors
pub mod Terminates
