-- ===== src/TypeInference/Substitution.antt =====
-- typeinference/mod.rs, `Substitution`: its operations, and what they do to a substitution that
-- binds no variable of the types it binds to.
pub mod Walk
pub mod Defs
pub mod Vars
pub mod Algebra
pub mod Idempotent
pub mod Compose
