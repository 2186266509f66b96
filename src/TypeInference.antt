-- ===== src/TypeInference.antt =====
-- metel-interpreter/src/typeinference/mod.rs: types with variables, substitutions, unification,
-- constraints and schemes.
pub mod Syntax
pub mod Substitution
pub mod Unify
pub mod Size
pub mod Constraints
pub mod Scheme
pub mod Registry
pub mod Context
