-- ===== src/TypeInference/Context.antt =====
-- typeinference/mod.rs, `InferContext`: its state, its operations and their laws.
pub mod State
pub mod Names
pub mod Literals
pub mod Defaults
pub mod Tame
pub mod Scoping
pub mod Lookup
