-- ===== src/NameResolver.antt =====
-- metel-interpreter/src/name_resolver.rs.
pub mod Defs
pub mod Imports
pub mod Resolve
pub mod Symbols
pub mod Links
pub mod Trees
pub mod Exports
pub mod Resolved
