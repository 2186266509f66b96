-- ===== src/TypeInference/Scheme.antt =====
-- typeinference/mod.rs, type schemes: their definitions, generalization and instantiation.
pub mod Defs
pub mod Generalize
pub mod Instantiate
