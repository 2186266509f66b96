-- ===== src/Lib.antt =====
-- The Metel interpreter (metel-interpreter/src): type inference, the syntax tree, the conversions
-- between the type languages, the resolution of names and the evaluator.
--
-- The program reads `.mtl` files (module_loader.rs, parser/mod.rs), resolves imports
-- (name_resolver.rs, path_normalizer.rs), infers types (typechecker/ over typeinference/mod.rs),
-- elaborates and evaluates. The type checker walks the syntax tree and calls the inference context:
-- it draws type variables, binds names in scopes and collects constraints; then it solves the
-- constraints, gives the literals that are left their default types, and converts the types under the
-- substitution to resolved types.
--
-- Error: error/mod.rs, and `Span` of ast/mod.rs. Errors are their codes and positions; the messages
--   are left out, as is the display of types and errors everywhere.
-- Run: the result of a function that can fail and that has fuel.
-- Types: types/mod.rs, `Type`.
-- TypeInference: typeinference/mod.rs.
--   Syntax: `TypeVar`, `TypeVarGenerator` (a `u32` that wraps), `InferType`, `occurs_in`.
--   Substitution: `Substitution`, `apply` (Walk and Defs), `compose`; Algebra and Idempotent hold the
--     substitution as a function, on which the other proofs stand.
--   Unify: `bind_var` and `unify` in Defs. Compatible is the relation that `unify` is to achieve:
--     equal types, up to the coercions that its arms allow.
--   Constraints: `Constraint` and `solve_constraints`.
--   Scheme: `free_vars`, `generalize`, `instantiate`.
--   Registry: `TypeDefinitionRegistry`, its state in Types, the lexical scopes of structs in Structs,
--     the other operations in Entries.
--   Context: `InferContext`, its state in State, scopes and names in Names, the variables of literals
--     in Literals.
-- Ast: ast/mod.rs, all nodes of the syntax tree.
-- Conversions: typechecker/conversions.rs.
-- ModulePaths: module_paths.rs.
-- NameResolver: name_resolver.rs, with the modules and the path aliases of module_loader.rs that it
--   reads. Defs has the symbol table, Imports the trees of imports and exports, Resolve the three
--   passes of `resolve`; the other files hold the proofs.
-- TypedAst: typed_ast/mod.rs, the tree that the evaluator runs.
-- Evaluator: evaluator/.
--   Values: values, callables and environments of mod.rs. An `Rc<RefCell<Value>>` is an address of the
--     heap of State, and so is the array behind an `Rc<RefCell<Vec<Value>>>`: aliasing is by address.
--   State: what a step reads and writes; Outcome: how it ends, a panic of the interpreter included.
--   Arith: `eval_binop` of lvalue.rs. Env: `Environment`. Paths: fat pointers. Pattern: pattern.rs.
--   Registry: `RuntimeRegistry`, written in Registry and read in Lookup. Builtins, Display, TypeOf:
--     builtins.rs, display.rs, type_of.rs. Call: call.rs. Place, Assign, Method, Operators, Loop, Eval:
--     the places of lvalue.rs and the arms of `eval_expr`, `eval_stmt` and `eval_decl`. Machine: how the
--     arms hand parts of the tree on. Program: the passes over modules and `main`.
--   Keeps: one lemma for each arm, on what it leaves as it was.
--   Env/Cells, Env/Capture: the cells under `deep_clone_value` and `capture_clone`.
--   Platform: floating point, the text of numbers, texts and the clock, which are parameters; so is
--     `construct_generic_body` of typechecker/, which makes the body of a generic function at its call.
-- Examples: runs of the definitions, and the theorems at concrete inputs.
-- Prelude: library names, maps and sets as lists, tests. A `HashMap` is an association list, a
--   `HashSet` a list; no theorem rests on the order of their iteration beyond what it states.
--
-- Fuel: `apply` follows chains of bindings and `unify` calls itself on types to which it has applied
-- what it found so far; neither decreases structurally. Each takes fuel and answers `out_of_fuel`
-- without it. The source has no fuel, so each is also shown to return.
-- The evaluator spends one unit of fuel where an arm hands a part of the tree on, and for each round of
-- a loop; the copy of a value has the fuel as its depth. A program need not end, so no fuel is enough
-- for all; what is stated of the evaluator is stated of every fuel.
--
-- Not modelled: the parser (it walks the pairs of a generated parser), the module loader (files), the
-- path normalizer, the walk of the type checker over the tree and the construction of the typed tree,
-- the elaborator, `format_value` of display.rs with the standard error output of `dbg`, and the command
-- line. Where Rust iterates over a `HashMap` in no stated order, the order here is that of the list.

pub mod Prelude
pub mod Error
pub mod Run
pub mod Types
pub mod TypeInference
pub mod Ast
pub mod Conversions
pub mod ModulePaths
pub mod NameResolver
pub mod TypedAst
pub mod Evaluator
pub mod Examples
