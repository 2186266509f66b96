-- ===== src/Evaluator/Program.antt =====
-- evaluator/mod.rs: `run_passes`, `run_main` and the entry points, and the registration of the methods
-- of `impl` blocks.
use metel.Prelude.{ℕ, String, List, [], ◌∷◌, Option, some, none, string_eq, list_eq}
use metel.Prelude.Map.{HashMap, get, insert, or_else}
use metel.Prelude.Int.{pos}
use metel.Error.{Span, r0001, r0002}
use metel.TypeInference.Registry.Types.{TypeDefinitionRegistry}
use metel.Ast.Types.{TypeExpr, TypeExprs, OptionTypeExpr, Param, ReceiverKind}
use metel.Ast.Trees.{SymbolId}
use metel.TypedAst.{
  ResolvedImportRef, TypedModule, TypedModuleGraph, TypedDecls, TypedFunDecls, TypedImplBlock,
  nil_decls, cons_decls, nil_funs, cons_funs, fun_decl, impl_block, fun, impl,
}
use metel.Evaluator.Outcome.{Outcome, done}
use metel.Evaluator.Platform.{Platform}
use metel.Evaluator.State.{M, ◌>>=◌, ◌>>◌, return, lift, clear_stack}
use metel.Evaluator.Env.{get_env, set_env, get_value, set_value, define}
use metel.Evaluator.Arith.{panic, internal_failure}
use metel.Evaluator.Registry.{
  RuntimeRegistry, RuntimeMethod, RuntimeTypeRef, named, register_aspect_method,
  register_type_value, register_inherent_method,
}
use metel.Evaluator.Registry.Lookup.{std_core_lookup, get_module_value}
use metel.Evaluator.Builtins.Register.{runtime_registry}
use metel.Evaluator.Machine.{Construct, block, decl}
use metel.Evaluator.Eval.{eval, closure_body, function_value}
use metel.Evaluator.Values.{
  TypeCtx, Environment, ClosureBody, typed, untyped, RuntimeCallable, closure, Value, callable,
  unit, Signal, value,
}

-- `Environment::new`
unfoldable pub empty_env : Environment
empty_env = record { scopes = [] ∷ []; type_ctx = none }

abbrev pub program_span : Span
program_span = record { start = 0; end = 0; filename = "<program>"; line = 0; col = 0 }

module _ (rust : Platform) where
  abbrev pub concat3 : String → String → String → String
  concat3 a b c = rust.concat a (rust.concat b c)

  -- The text of a type.
  unfoldable mutual
    pub runtime_type_key : TypeExpr → String
    runtime_type_key (TypeExpr.named name TypeExprs.nil) = name
    runtime_type_key (TypeExpr.named name (TypeExprs.cons t ts)) =
        rust.concat name (concat3 "<" (rust.join ", " (runtime_type_key t ∷ type_keys ts)) ">")
    runtime_type_key TypeExpr.unit = "()"
    runtime_type_key (TypeExpr.tuple items) = concat3 "(" (rust.join ", " (type_keys items)) ")"
    runtime_type_key (TypeExpr.array inner) = rust.concat (runtime_type_key inner) "[]"
    runtime_type_key (TypeExpr.sized_array inner size) =
        rust.concat "["
          (concat3 (runtime_type_key inner) "; " (rust.concat (rust.show_int (pos size)) "]"))
    runtime_type_key (TypeExpr.pointer inner) = rust.concat "*" (runtime_type_key inner)
    runtime_type_key (TypeExpr.mut_pointer inner) = rust.concat "*mut " (runtime_type_key inner)
    runtime_type_key (TypeExpr.fun params OptionTypeExpr.absent) =
        concat3 "fun(" (rust.join ", " (type_keys params)) ")"
    runtime_type_key (TypeExpr.fun params (OptionTypeExpr.present ret)) =
        rust.concat (concat3 "fun(" (rust.join ", " (type_keys params)) ") -> ")
          (runtime_type_key ret)
    runtime_type_key (TypeExpr.impl_aspect bound name span) =
        rust.concat "impl " (runtime_type_key bound)

    pub type_keys : TypeExprs → List String
    type_keys TypeExprs.nil = []
    type_keys (TypeExprs.cons t ts) = runtime_type_key t ∷ type_keys ts

  abbrev pub keys_of : List TypeExpr → List String
  keys_of [] = []
  keys_of (t ∷ ts) = runtime_type_key t ∷ keys_of ts

  abbrev pub annotation : Option TypeExpr → TypeExpr
  annotation (some t) = t
  annotation none = TypeExpr.named "_" TypeExprs.nil

  -- The parameters that are no receivers.
  abbrev pub param_refs : List Param → List RuntimeTypeRef
  param_refs [] = []
  param_refs (p ∷ ps) = elim (p.receiver) [
    | some kind ↦ param_refs ps
    | none ↦ named (runtime_type_key (annotation p.type_ann)) ∷ param_refs ps
  ]

  abbrev pub type_ref : Option TypeExpr → Option RuntimeTypeRef
  type_ref none = none
  type_ref (some t) = some (named (runtime_type_key t))

  abbrev pub receiver_of : List Param → Option ReceiverKind
  receiver_of [] = none
  receiver_of (p ∷ ps) = p.receiver

  unfoldable pub runtime_method_from_decl :
      String → List Param → Option TypeExpr → RuntimeCallable → RuntimeMethod
  unfolding runtime_type_key
  runtime_method_from_decl label params ret body = record {
    label = label;
    receiver = receiver_of params;
    signature = record { params = param_refs params; ret = type_ref ret };
    body = body;
  }

  -- A method of an aspect, a function of the type or a method of its own.
  abbrev pub register_method :
      RuntimeRegistry
      → String
      → Option String
      → Option SymbolId
      → List TypeExpr
      → String
      → RuntimeMethod
      → RuntimeRegistry
  register_method registry type_name (some aspect_name) aspect_id args name m =
      register_aspect_method registry type_name aspect_name aspect_id (keys_of args) name m
  register_method registry type_name none aspect_id args name m = elim (m.receiver) [
    | none ↦ register_type_value registry type_name name m
    | some kind ↦ register_inherent_method registry type_name name m
  ]

  unfoldable pub register_methods :
      Environment
      → String
      → Option String
      → Option SymbolId
      → List TypeExpr
      → TypedFunDecls
      → RuntimeRegistry
      → RuntimeRegistry
  unfolding runtime_type_key runtime_method_from_decl register_aspect_method register_type_value
      register_inherent_method
  register_methods env type_name aspect_name aspect_id args nil_funs registry = registry
  register_methods env type_name aspect_name aspect_id args
        (cons_funs (fun_decl name generics params ret body span) ms) registry =
      let made = function_value name params (closure_body body env.type_ctx) env in
      let m = runtime_method_from_decl (concat3 type_name "::" name) params ret made in
      register_methods env type_name aspect_name aspect_id args ms
        (register_method registry type_name aspect_name aspect_id args name m)

  -- A block whose target is no named type registers nothing.
  unfoldable pub register_impl : Environment → TypedImplBlock → RuntimeRegistry → RuntimeRegistry
  unfolding register_methods
  register_impl env
        (impl_block aspect_name aspect_id args (TypeExpr.named type_name targs) methods span)
        registry =
      register_methods env type_name aspect_name aspect_id args methods registry
  register_impl env _ registry = registry

-- Pass 1a: every function of the module has a cell before any is made.
unfoldable pub placeholders : ℕ → TypedDecls → M (Unit {0})
unfolding define
placeholders fuel nil_decls = return tt
placeholders fuel (cons_decls (fun (fun_decl name generics params ret body span)) ds) = do
  define fuel name unit
  placeholders fuel ds
placeholders fuel (cons_decls _ ds) = placeholders fuel ds

-- Pass 1b: the functions take the places, and the methods are registered.
unfoldable pub tie_functions : Platform → ℕ → TypedDecls → RuntimeRegistry → M RuntimeRegistry
unfolding set_value register_impl
tie_functions rust fuel nil_decls registry = return registry
tie_functions rust fuel (cons_decls (fun (fun_decl name generics params ret body span)) ds)
      registry =
    do
      env ← get_env
      let made = function_value name params (closure_body body env.type_ctx) env
      written ← set_value fuel name (callable made) env
      tie_functions rust fuel ds registry
tie_functions rust fuel (cons_decls (impl b) ds) registry = do
  env ← get_env
  tie_functions rust fuel ds (register_impl rust env b registry)
tie_functions rust fuel (cons_decls _ ds) registry = tie_functions rust fuel ds registry

abbrev pub alias_if_free : ℕ → String → Option Value → Option Value → M (Unit {0})
alias_if_free fuel alias (some v) none = define fuel alias v
alias_if_free fuel alias _ _ = return tt

-- An alias is bound where its name is free.
unfoldable pub bind_aliases : ℕ → HashMap String String → RuntimeRegistry → M (Unit {0})
unfolding get_value std_core_lookup define
bind_aliases fuel [] registry = return tt
bind_aliases fuel ((alias, canonical) ∷ rest) registry = do
  env ← get_env
  found ← get_value canonical env
  taken ← get_value alias env
  alias_if_free fuel alias (or_else found (std_core_lookup canonical registry)) taken
  bind_aliases fuel rest registry

module _ (rust : Platform) (construct : Construct) (fuel : ℕ) where
  -- Pass 2: the other declarations, in order.
  unfoldable pub run_decls : RuntimeRegistry → TypedDecls → M (Unit {0})
  unfolding eval
  run_decls registry nil_decls = return tt
  run_decls registry (cons_decls (fun f) ds) = run_decls registry ds
  run_decls registry (cons_decls (impl b) ds) = run_decls registry ds
  run_decls registry (cons_decls d ds) = do
    signal ← eval rust construct registry fuel (decl d)
    run_decls registry ds

  abbrev pub with_ctx : Option TypeCtx → Environment → Environment
  with_ctx ctx env = record env { type_ctx = ctx }

  -- The registry after the passes; the environment is the state's.
  unfoldable pub run_passes :
      TypedDecls → HashMap String String → Option TypeCtx → RuntimeRegistry → M RuntimeRegistry
  unfolding placeholders tie_functions bind_aliases run_decls
  run_passes decls aliases ctx registry = do
    env ← get_env
    set_env (with_ctx ctx env)
    placeholders fuel decls
    registry' ← tie_functions rust fuel decls registry
    bind_aliases fuel aliases registry'
    run_decls registry' decls
    return registry'

  abbrev pub main_body : Option Value → Outcome ClosureBody
  main_body (some (callable (closure c))) = done (c.body)
  main_body (some _) = panic r0002 program_span
  main_body none = panic r0001 program_span

  abbrev pub run_main_body : RuntimeRegistry → ClosureBody → M Signal
  run_main_body registry (typed b) = eval rust construct registry fuel (block b)
  run_main_body registry (untyped b) = lift (panic r0002 program_span)

  abbrev pub main_result : Signal → Outcome (Unit {0})
  main_result (value v) = done tt
  main_result (Signal.return v) = done tt
  main_result _ = internal_failure

  unfoldable pub run_main : RuntimeRegistry → M (Unit {0})
  unfolding get_value eval
  run_main registry = do
    env ← get_env
    found ← get_value "main" env
    body ← lift (main_body found)
    signal ← run_main_body registry body
    lift (main_result signal)

  abbrev pub Envs : Type 0
  Envs = HashMap (List String) Environment

  abbrev pub define_found : String → Option Value → M (Unit {0})
  define_found name none = return tt
  define_found name (some v) = define fuel name v

  -- The value of an import: of the module's environment where it has run, else of the registry.
  unfoldable pub imported_value : Envs → RuntimeRegistry → ResolvedImportRef → M (Option Value)
  unfolding get get_value get_module_value
  imported_value envs registry ref = elim (get ref.source_module envs) [
    | some env ↦ get_value ref.canonical_name env
    | none ↦ return (get_module_value registry ref.source_module ref.canonical_name)
  ]

  unfoldable pub seed_imports :
      Envs → RuntimeRegistry → HashMap String ResolvedImportRef → M (Unit {0})
  unfolding imported_value define
  seed_imports envs registry [] = return tt
  seed_imports envs registry ((local_name, ref) ∷ rest) = do
    found ← imported_value envs registry ref
    define_found local_name found
    seed_imports envs registry rest

  -- One module after another: the registry, the environments of those that have run, and the path of
  -- the last.
  unfoldable pub run_modules :
      TypeDefinitionRegistry
      → List TypedModule
      → List String
      → RuntimeRegistry
      → Envs
      → M (List String × RuntimeRegistry × Envs)
  unfolding seed_imports run_passes insert empty_env
  run_modules types [] last registry envs = return (last, registry, envs)
  run_modules types (m ∷ ms) last registry envs = do
    set_env empty_env
    seed_imports envs registry m.imported_names
    registry' ←
        run_passes m.decls m.import_aliases
          (some (record { scheme_env = m.scheme_env; registry = types })) registry
    env ← get_env
    run_modules types ms m.module_path registry' (insert m.module_path env envs)

  abbrev pub root_env : Option Environment → Outcome Environment
  root_env (some env) = done env
  root_env none = panic r0001 program_span

  unfoldable pub evaluate_graph : TypedModuleGraph → M (Unit {0})
  unfolding run_modules runtime_registry get run_main clear_stack
  evaluate_graph graph = do
    clear_stack
    (root_path, registry, envs) ←
        run_modules graph.type_registry graph.modules [] (runtime_registry rust) []
    env ← lift (root_env (get root_path envs))
    set_env env
    run_main registry

  -- A program of one file, with the context where there is one.
  unfoldable pub evaluate_with_ctx : TypedDecls → Option TypeCtx → M (Unit {0})
  unfolding empty_env run_passes runtime_registry run_main clear_stack
  evaluate_with_ctx program ctx = do
    clear_stack
    set_env empty_env
    registry ← run_passes program [] ctx (runtime_registry rust)
    run_main registry

  unfoldable pub evaluate : TypedDecls → M (Unit {0})
  unfolding evaluate_with_ctx
  evaluate program = evaluate_with_ctx program none
