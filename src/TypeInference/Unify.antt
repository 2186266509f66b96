-- ===== src/TypeInference/Unify.antt =====
-- typeinference/mod.rs, `bind_var` and `unify`, and what they compute.
pub mod Defs
pub mod Compatible
pub mod Advance
pub mod Next
pub mod BindVar
pub mod Arms
pub mod Sound
pub mod Complete
pub mod Scope
pub mod Terminates
pub mod Correct
