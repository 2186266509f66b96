-- ===== src/TypedAst.antt =====
-- metel-interpreter/src/typed_ast/mod.rs: the tree that the type checker makes and the evaluator runs.
-- A struct of the source is a type with one constructor, its fields in order, or a constructor of the
-- enum that alone has it.
use metel.Prelude.{ℕ, String, List, Option, Bool}
use metel.Prelude.Map.{HashMap}
use metel.Error.{Span}
use metel.Types.{ResolvedType}
use metel.TypeInference.Scheme.Defs.{TypeScheme}
use metel.TypeInference.Registry.Types.{TypeDefinitionRegistry}
use metel.Ast.Literals.{Literal, Pattern, BinOp, UnaryOp, AssignOp}
use metel.Ast.Types.{TypeExpr, GenericParam, Param, FieldDef, VariantDef}
use metel.Ast.Trees.{SymbolId, AspectMethod, Block}

pub data MethodDispatch : Type 0 where
  dynamic inherent : MethodDispatch
  aspect : SymbolId → MethodDispatch

pub record ResolvedImportRef : Type 0 where
  pub source_module : List String
  pub canonical_name : String
  pub symbol_id : Option SymbolId

pub record TypedStructDecl : Type 0 where
  pub name : String
  pub generics : List GenericParam
  pub fields : List FieldDef
  pub span : Span

pub record TypedEnumDecl : Type 0 where
  pub name : String
  pub generics : List GenericParam
  pub variants : List VariantDef
  pub span : Span

pub record TypedAspectDecl : Type 0 where
  pub name : String
  pub generics : List String
  pub methods : List AspectMethod
  pub span : Span

mutual
  pub data TypedDecl : Type 0 where
    let_item : TypedLetDecl → TypedDecl
    mut_item : TypedLetDecl → TypedDecl
    fun : TypedFunDecl → TypedDecl
    struct : TypedStructDecl → TypedDecl
    enum : TypedEnumDecl → TypedDecl
    impl : TypedImplBlock → TypedDecl
    aspect : TypedAspectDecl → TypedDecl
    stmt : TypedStmt → TypedDecl

  -- `Vec<TypedDecl>`
  pub data TypedDecls : Type 0 where
    nil_decls : TypedDecls
    cons_decls : TypedDecl → TypedDecls → TypedDecls

  -- `TypedLetDecl` and `TypedMutDecl`, which have the same fields
  pub data TypedLetDecl : Type 0 where
    let_decl : String → Option TypeExpr → TypedExpr → Span → TypedLetDecl

  pub data FunBody : Type 0 where
    typed : TypedBlock → FunBody
    generic : Block → FunBody

  pub data TypedFunDecl : Type 0 where
    fun_decl :
        String → List GenericParam → List Param → Option TypeExpr → FunBody → Span → TypedFunDecl

  -- `Vec<TypedFunDecl>`
  pub data TypedFunDecls : Type 0 where
    nil_funs : TypedFunDecls
    cons_funs : TypedFunDecl → TypedFunDecls → TypedFunDecls

  pub data TypedImplBlock : Type 0 where
    impl_block :
        Option String
        → Option SymbolId
        → List TypeExpr
        → TypeExpr
        → TypedFunDecls
        → Span
        → TypedImplBlock

  pub data TypedStmt : Type 0 where
    while : TypedExpr → TypedBlock → Span → TypedStmt
    for : OptionTypedForInit → OptionTypedExpr → OptionTypedExpr → TypedBlock → Span → TypedStmt
    for_in : String → Bool → TypedExpr → TypedBlock → Span → TypedStmt
    return : OptionTypedExpr → Span → TypedStmt
    break : OptionTypedExpr → Span → TypedStmt
    continue : Span → TypedStmt
    expr_stmt : TypedExpr → TypedStmt

  pub data TypedForInit : Type 0 where
    let_init : TypedLetDecl → TypedForInit
    mut_init : TypedLetDecl → TypedForInit
    expr_init : TypedExpr → TypedForInit

  -- `Option<TypedForInit>`
  pub data OptionTypedForInit : Type 0 where
    no_init : OptionTypedForInit
    some_init : TypedForInit → OptionTypedForInit

  pub data TypedBlock : Type 0 where
    block : TypedDecls → OptionTypedExpr → Span → TypedBlock

  -- `Option<TypedBlock>`
  pub data OptionTypedBlock : Type 0 where
    no_block : OptionTypedBlock
    some_block : TypedBlock → OptionTypedBlock

  pub data TypedPlace : Type 0 where
    ident_place : String → Span → TypedPlace
    deref_place : TypedExpr → Span → TypedPlace
    field_place : TypedPlace → String → Span → TypedPlace
    index_place : TypedPlace → TypedExpr → Span → TypedPlace

  pub data TypedExpr : Type 0 where
    literal : Literal → ResolvedType → Span → TypedExpr
    ident : String → ResolvedType → Span → TypedExpr
    path : List String → ResolvedType → Span → TypedExpr
    tuple : TypedExprs → ResolvedType → Span → TypedExpr
    array : TypedExprs → ResolvedType → Span → TypedExpr
    repeat_array : TypedExpr → ℕ → ResolvedType → Span → TypedExpr
    bin_op : TypedExpr → BinOp → TypedExpr → ResolvedType → Span → TypedExpr
    unary_op : UnaryOp → TypedExpr → ResolvedType → Span → TypedExpr
    assign : TypedPlace → AssignOp → TypedExpr → ResolvedType → Span → TypedExpr
    call : TypedExpr → TypedExprs → ResolvedType → Span → TypedExpr
    method_call : TypedExpr → String → TypedExprs → ResolvedType → MethodDispatch → Span → TypedExpr
    field_access : TypedExpr → String → ResolvedType → Span → TypedExpr
    tuple_access : TypedExpr → ℕ → ResolvedType → Span → TypedExpr
    index : TypedExpr → TypedExpr → ResolvedType → Span → TypedExpr
    cast : TypedExpr → TypeExpr → ResolvedType → Span → TypedExpr
    match : TypedExpr → TypedMatchArms → ResolvedType → Span → TypedExpr
    if_else : TypedExpr → TypedBlock → OptionTypedBlock → ResolvedType → Span → TypedExpr
    loop : TypedBlock → ResolvedType → Span → TypedExpr
    closure : List Param → Option TypeExpr → TypedBlock → ResolvedType → Span → TypedExpr
    generic_closure :
        Option String → List Param → Option TypeExpr → Block → ResolvedType → Span → TypedExpr
    struct_literal : List String → TypedFields → ResolvedType → Span → TypedExpr

  -- `Vec<TypedExpr>`
  pub data TypedExprs : Type 0 where
    nil_exprs : TypedExprs
    cons_exprs : TypedExpr → TypedExprs → TypedExprs

  -- `Option<TypedExpr>`
  pub data OptionTypedExpr : Type 0 where
    no_expr : OptionTypedExpr
    some_expr : TypedExpr → OptionTypedExpr

  -- `Vec<(String, TypedExpr)>`
  pub data TypedFields : Type 0 where
    nil_fields : TypedFields
    cons_fields : String → TypedExpr → TypedFields → TypedFields

  -- `Vec<TypedMatchArm>`, each arm a pattern, a guard, a body and a span
  pub data TypedMatchArms : Type 0 where
    nil_arms : TypedMatchArms
    cons_arms : Pattern → OptionTypedExpr → TypedBlock → Span → TypedMatchArms → TypedMatchArms

pub record TypedModule : Type 0 where
  pub module_path : List String
  pub decls : TypedDecls
  pub import_aliases : HashMap String String
  pub imported_names : HashMap String ResolvedImportRef
  pub scheme_env : HashMap String TypeScheme

pub record TypedModuleGraph : Type 0 where
  pub modules : List TypedModule
  pub type_registry : TypeDefinitionRegistry
