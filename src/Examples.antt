-- ===== src/Examples.antt =====
-- Runs of the definitions, and the theorems at concrete inputs.
pub mod Inference
pub mod Context
pub mod Names
pub mod Evaluator
