-- ===== src/TypeInference/Registry.antt =====
-- typeinference/mod.rs, `TypeDefinitionRegistry`: its state, its operations and their laws.
pub mod Types
pub mod Structs
pub mod Entries
pub mod Scopes
pub mod Merge
pub mod Impls
