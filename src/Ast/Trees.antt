-- ===== src/Ast/Trees.antt =====
-- ast/mod.rs: declarations, blocks, statements and expressions, which hold one another. A struct of
-- the source is a type with one constructor, its fields in order.
use metel.Prelude.{ℕ, String, List, Option, Bool}
use metel.Error.{Span}
use metel.Ast.Literals.{Literal, Pattern, BinOp, UnaryOp, AssignOp}
use metel.Ast.Modules.{Visibility, ImportDecl, ExportDecl}
use metel.Ast.Types.{TypeExpr, GenericParam, WhereClause, Param, StructDecl, EnumDecl}

-- `SymbolId(u32)`
abbrev pub SymbolId : Type 0
SymbolId = ℕ

mutual
  pub data Decl : Type 0 where
    let_item : LetDecl → Decl
    mut_item : MutDecl → Decl
    fun : FunDecl → Decl
    struct : StructDecl → Decl
    enum : EnumDecl → Decl
    impl : ImplBlock → Decl
    aspect : AspectDecl → Decl
    stmt : Stmt → Decl

  -- `Vec<Decl>`
  pub data Decls : Type 0 where
    nil_decls : Decls
    cons_decls : Decl → Decls → Decls

  pub data LetDecl : Type 0 where
    let_decl : String → Option TypeExpr → Expr → Span → LetDecl

  pub data MutDecl : Type 0 where
    mut_decl : String → Option TypeExpr → Expr → Span → MutDecl

  pub data FunDecl : Type 0 where
    fun_decl :
        Visibility
        → String
        → List GenericParam
        → Option WhereClause
        → List Param
        → Option TypeExpr
        → Block
        → Span
        → FunDecl

  -- `Vec<FunDecl>`
  pub data FunDecls : Type 0 where
    nil_funs : FunDecls
    cons_funs : FunDecl → FunDecls → FunDecls

  pub data ImplBlock : Type 0 where
    impl_block : Option String → List TypeExpr → TypeExpr → FunDecls → Span → ImplBlock

  pub data AspectDecl : Type 0 where
    aspect_decl : Visibility → String → List String → AspectMethods → Span → AspectDecl

  pub data AspectMethod : Type 0 where
    aspect_method :
        String
        → List GenericParam
        → List Param
        → Option TypeExpr
        → OptionBlock
        → Span
        → AspectMethod

  -- `Vec<AspectMethod>`
  pub data AspectMethods : Type 0 where
    nil_methods : AspectMethods
    cons_methods : AspectMethod → AspectMethods → AspectMethods

  pub data Block : Type 0 where
    block : Decls → OptionExpr → Span → Block

  -- `Option<Block>`
  pub data OptionBlock : Type 0 where
    no_block : OptionBlock
    some_block : Block → OptionBlock

  pub data Stmt : Type 0 where
    while : Expr → Block → Span → Stmt
    for : OptionForInit → OptionExpr → OptionExpr → Block → Span → Stmt
    for_in : String → Bool → Expr → Block → Span → Stmt
    return : OptionExpr → Span → Stmt
    break : OptionExpr → Span → Stmt
    continue : Span → Stmt
    expr_stmt : Expr → Stmt

  pub data ForInit : Type 0 where
    let_init : LetDecl → ForInit
    mut_init : MutDecl → ForInit
    expr_init : Expr → ForInit

  -- `Option<ForInit>`
  pub data OptionForInit : Type 0 where
    no_init : OptionForInit
    some_init : ForInit → OptionForInit

  pub data Expr : Type 0 where
    literal : Literal → Span → Expr
    ident : String → Span → Expr
    path : List String → Span → Expr
    resolved_path : String → Option SymbolId → List String → Span → Expr
    tuple : Exprs → Span → Expr
    array : Exprs → Span → Expr
    repeat_array : Expr → ℕ → Span → Expr
    bin_op : Expr → BinOp → Expr → Span → Expr
    unary_op : UnaryOp → Expr → Span → Expr
    assign : AssignTarget → AssignOp → Expr → Span → Expr
    call : Expr → List TypeExpr → Exprs → Span → Expr
    method_call : Expr → String → List TypeExpr → Exprs → Span → Expr
    field_access : Expr → String → Span → Expr
    tuple_access : Expr → ℕ → Span → Expr
    index : Expr → Expr → Span → Expr
    cast : Expr → TypeExpr → Span → Expr
    ascribe : Expr → TypeExpr → Span → Expr
    match : Expr → MatchArms → Span → Expr
    if_else : Expr → Block → OptionBlock → Span → Expr
    loop : Block → Span → Expr
    closure : List Param → Option TypeExpr → Block → Span → Expr
    struct_literal : List String → Fields → Span → Expr
    propagate_error : Expr → Span → Expr

  -- `Vec<Expr>`
  pub data Exprs : Type 0 where
    nil_exprs : Exprs
    cons_exprs : Expr → Exprs → Exprs

  -- `Option<Expr>`
  pub data OptionExpr : Type 0 where
    no_expr : OptionExpr
    some_expr : Expr → OptionExpr

  -- `Vec<(String, Expr)>`
  pub data Fields : Type 0 where
    nil_fields : Fields
    cons_fields : String → Expr → Fields → Fields

  pub data AssignTarget : Type 0 where
    ident_target : String → Span → AssignTarget
    deref_target : Expr → Span → AssignTarget
    field_access_target : Expr → String → Span → AssignTarget
    index_target : Expr → Expr → Span → AssignTarget

  -- `Vec<MatchArm>`, each arm a pattern, a guard, a body and a span
  pub data MatchArms : Type 0 where
    nil_arms : MatchArms
    cons_arms : Pattern → OptionExpr → Block → Span → MatchArms → MatchArms

pub record Program : Type 0 where
  pub imports : List ImportDecl
  pub exports : List ExportDecl
  pub decls : Decls
