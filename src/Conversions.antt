-- ===== src/Conversions.antt =====
-- metel-interpreter/src/typechecker/conversions.rs: type expressions, types with variables and
-- resolved types.
pub mod Defs
pub mod RoundTrip
