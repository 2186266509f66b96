-- ===== src/Evaluator.antt =====
-- metel-interpreter/src/evaluator: the tree-walking interpreter.
pub mod Values
pub mod Outcome
pub mod Platform
pub mod Arith
pub mod State
pub mod Env
pub mod Paths
pub mod Registry
pub mod TypeOf
pub mod Machine
pub mod Call
pub mod Place
pub mod Assign
pub mod Method
pub mod Loop
pub mod Operators
pub mod Eval
pub mod Program
pub mod Keeps
pub mod Display
pub mod Builtins
pub mod Pattern
pub mod Returns
