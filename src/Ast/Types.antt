-- ===== src/Ast/Types.antt =====
-- ast/mod.rs: type expressions, and the declarations that hold only those.
use metel.Prelude.{ℕ, String, List, Option, Bool}
use metel.Error.{Span}
use metel.Ast.Modules.{Visibility}

mutual
  pub data TypeExpr : Type 0 where
    named : String → TypeExprs → TypeExpr
    unit : TypeExpr
    tuple : TypeExprs → TypeExpr
    array : TypeExpr → TypeExpr
    sized_array : TypeExpr → ℕ → TypeExpr
    pointer mut_pointer : TypeExpr → TypeExpr
    fun : TypeExprs → OptionTypeExpr → TypeExpr
    impl_aspect : TypeExpr → String → Span → TypeExpr

  -- `Vec<TypeExpr>`
  pub data TypeExprs : Type 0 where
    nil : TypeExprs
    cons : TypeExpr → TypeExprs → TypeExprs

  -- `Option<Box<TypeExpr>>`
  pub data OptionTypeExpr : Type 0 where
    absent : OptionTypeExpr
    present : TypeExpr → OptionTypeExpr

pub record GenericParam : Type 0 where
  pub name : String
  pub bounds : List TypeExpr

pub record WhereClause : Type 0 where
  pub constraints : List (String × List TypeExpr)

pub data ReceiverKind : Type 0 where
  value ref ref_mut : ReceiverKind

pub record Param : Type 0 where
  pub mutable : Bool
  pub receiver : Option ReceiverKind
  pub name : String
  pub type_ann : Option TypeExpr
  pub span : Span

pub record FieldDef : Type 0 where
  pub visibility : Visibility
  pub name : String
  pub type_ann : TypeExpr
  pub span : Span

pub record VariantDef : Type 0 where
  pub name : String
  pub fields : List FieldDef
  pub span : Span

pub record StructDecl : Type 0 where
  pub visibility : Visibility
  pub name : String
  pub generics : List GenericParam
  pub where_clause : Option WhereClause
  pub fields : List FieldDef
  pub span : Span

pub record EnumDecl : Type 0 where
  pub visibility : Visibility
  pub name : String
  pub generics : List GenericParam
  pub where_clause : Option WhereClause
  pub variants : List VariantDef
  pub span : Span
