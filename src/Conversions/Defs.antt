-- ===== src/Conversions/Defs.antt =====
-- typechecker/conversions.rs.
use metel.Prelude.{ℕ, String, Option, some, none, if◌then◌else◌, str_eq, string_eq}
use metel.Prelude.Map.{HashMap, get}
use metel.Error.{Span, type_error, t0002}
use metel.Run.{Run, ok, err, ◌>>=◌}
use metel.Types.{ResolvedType, ResolvedTypes}
use metel.Ast.Types.{TypeExpr, TypeExprs, OptionTypeExpr, absent, present}
use metel.TypeInference.Syntax.{
  TypeVar, InferType, InferTypes, concrete, var, never, fun, tuple, array, sized_array, pointer,
  mut_pointer, named, nil, cons, int, float, bool, str, unit,
}
use metel.TypeInference.Substitution.Defs.{Substitution, apply}

-- The arms of the match on a name that stands without arguments.
unfoldable pub base_type : String → Option InferType
base_type name =
    if str_eq name "i64"
    then some int
    else if str_eq name "f64"
    then some float
    else if str_eq name "boolean"
    then some bool
    else if str_eq name "Char"
    then some (concrete ResolvedType.char)
    else if str_eq name "String"
    then some str
    else if str_eq name "Never"
    then some never
    else if str_eq name "i8"
    then some (concrete ResolvedType.i8)
    else if str_eq name "i16"
    then some (concrete ResolvedType.i16)
    else if str_eq name "i32"
    then some (concrete ResolvedType.i32)
    else if str_eq name "u8"
    then some (concrete ResolvedType.u8)
    else if str_eq name "u16"
    then some (concrete ResolvedType.u16)
    else if str_eq name "u32"
    then some (concrete ResolvedType.u32)
    else if str_eq name "u64"
    then some (concrete ResolvedType.u64)
    else if str_eq name "f32"
    then some (concrete ResolvedType.f32)
    else none

abbrev pub or_type : Option InferType → InferType → InferType
or_type (some t) u = t
or_type none u = u

-- The match on `(name, arg_tys.len())`.
unfoldable pub named_type : String → InferTypes → InferType
unfolding base_type
named_type name nil = or_type (base_type name) (named name nil)
named_type name (cons t nil) = if str_eq name "Array" then array t else named name (cons t nil)
named_type name (cons t (cons u us)) = named name (cons t (cons u us))

-- `generics.get(name)`, where there are generics.
abbrev pub generic_var : Option (HashMap String TypeVar) → String → Option InferType
generic_var none name = none
generic_var (some generics) name = elim (get name generics) [ some v ↦ some (var v) | none ↦ none ]

-- `Self`, where the name of the type is known.
abbrev pub self_type : Option String → String → Option InferType
self_type none name = none
self_type (some self_ty_name) name =
    if str_eq name "Self" then some (named self_ty_name nil) else none

-- A name without arguments: a generic parameter, `Self`, or a type.
unfoldable pub bare_name : Option (HashMap String TypeVar) → Option String → String → InferType
unfolding named_type
bare_name generics self_ty_name name =
    or_type (generic_var generics name)
      (or_type (self_type self_ty_name name) (named_type name nil))

-- `type_expr_to_infer_in_context`
unfoldable mutual
  unfolding bare_name named_type

  pub type_expr_to_infer_in_context :
      Option (HashMap String TypeVar) → Option String → TypeExpr → InferType
  type_expr_to_infer_in_context g s (TypeExpr.named name TypeExprs.nil) = bare_name g s name
  type_expr_to_infer_in_context g s (TypeExpr.named name (TypeExprs.cons t ts)) =
      named_type name
        (cons (type_expr_to_infer_in_context g s t) (type_exprs_to_infer_in_context g s ts))
  type_expr_to_infer_in_context g s TypeExpr.unit = unit
  type_expr_to_infer_in_context g s (TypeExpr.tuple ts) =
      tuple (type_exprs_to_infer_in_context g s ts)
  type_expr_to_infer_in_context g s (TypeExpr.array t) = array (type_expr_to_infer_in_context g s t)
  type_expr_to_infer_in_context g s (TypeExpr.sized_array t n) =
      sized_array (type_expr_to_infer_in_context g s t) n
  type_expr_to_infer_in_context g s (TypeExpr.pointer t) =
      pointer (type_expr_to_infer_in_context g s t)
  type_expr_to_infer_in_context g s (TypeExpr.mut_pointer t) =
      mut_pointer (type_expr_to_infer_in_context g s t)
  type_expr_to_infer_in_context g s (TypeExpr.fun ps ret) =
      fun (type_exprs_to_infer_in_context g s ps) (return_type_in_context g s ret)
  type_expr_to_infer_in_context g s (TypeExpr.impl_aspect bound _ _) =
      type_expr_to_infer_in_context g s bound

  pub type_exprs_to_infer_in_context :
      Option (HashMap String TypeVar) → Option String → TypeExprs → InferTypes
  type_exprs_to_infer_in_context g s TypeExprs.nil = nil
  type_exprs_to_infer_in_context g s (TypeExprs.cons t ts) =
      cons (type_expr_to_infer_in_context g s t) (type_exprs_to_infer_in_context g s ts)

  -- A function type without a return type returns `()`.
  pub return_type_in_context :
      Option (HashMap String TypeVar) → Option String → OptionTypeExpr → InferType
  return_type_in_context g s absent = unit
  return_type_in_context g s (present t) = type_expr_to_infer_in_context g s t

unfoldable pub type_expr_to_infer_with_generics : TypeExpr → HashMap String TypeVar → InferType
type_expr_to_infer_with_generics t generics = type_expr_to_infer_in_context (some generics) none t

unfoldable pub type_expr_to_infer_with_generics_and_self :
    TypeExpr → HashMap String TypeVar → String → InferType
type_expr_to_infer_with_generics_and_self t generics self_ty_name =
    type_expr_to_infer_in_context (some generics) (some self_ty_name) t

unfoldable pub type_expr_to_infer : TypeExpr → InferType
type_expr_to_infer t = type_expr_to_infer_in_context none none t

unfoldable pub type_expr_to_infer_with_self : TypeExpr → String → InferType
type_expr_to_infer_with_self t self_ty_name =
    type_expr_to_infer_in_context none (some self_ty_name) t

unfoldable mutual
  pub infer_type_to_type : Span → InferType → Run ResolvedType
  infer_type_to_type span (concrete t) = ok t
  infer_type_to_type span never = ok ResolvedType.never
  infer_type_to_type span (var _) = err (type_error t0002 span)
  infer_type_to_type span (fun params ret) = do
    ps ← infer_types_to_types span params
    r ← infer_type_to_type span ret
    ok (ResolvedType.fun ps r)
  infer_type_to_type span (tuple ts) = do
    us ← infer_types_to_types span ts
    ok (ResolvedType.tuple us)
  infer_type_to_type span (array t) = do u ← infer_type_to_type span t; ok (ResolvedType.array u)
  infer_type_to_type span (sized_array t n) = do
    u ← infer_type_to_type span t
    ok (ResolvedType.sized_array u n)
  infer_type_to_type span (pointer t) = do
    u ← infer_type_to_type span t
    ok (ResolvedType.pointer u)
  infer_type_to_type span (mut_pointer t) = do
    u ← infer_type_to_type span t
    ok (ResolvedType.mut_pointer u)
  infer_type_to_type span (named name args) = do
    us ← infer_types_to_types span args
    ok (ResolvedType.named name us)

  pub infer_types_to_types : Span → InferTypes → Run ResolvedTypes
  infer_types_to_types span nil = ok ResolvedTypes.nil
  infer_types_to_types span (cons t ts) = do
    u ← infer_type_to_type span t
    us ← infer_types_to_types span ts
    ok (ResolvedTypes.cons u us)

unfoldable pub resolved_to_type : ℕ → InferType → Substitution → Span → Run ResolvedType
unfolding infer_type_to_type
resolved_to_type fuel t subst span = apply fuel subst t >>= infer_type_to_type span

unfoldable mutual
  pub type_to_infer : ResolvedType → InferType
  type_to_infer ResolvedType.never = never
  type_to_infer (ResolvedType.array t) = array (type_to_infer t)
  type_to_infer (ResolvedType.sized_array t n) = sized_array (type_to_infer t) n
  type_to_infer (ResolvedType.tuple ts) = tuple (types_to_infer ts)
  type_to_infer (ResolvedType.pointer t) = pointer (type_to_infer t)
  type_to_infer (ResolvedType.mut_pointer t) = mut_pointer (type_to_infer t)
  type_to_infer (ResolvedType.fun ps ret) = fun (types_to_infer ps) (type_to_infer ret)
  type_to_infer (ResolvedType.named name args) = named name (types_to_infer args)
  type_to_infer other = concrete other

  pub types_to_infer : ResolvedTypes → InferTypes
  types_to_infer ResolvedTypes.nil = nil
  types_to_infer (ResolvedTypes.cons t ts) = cons (type_to_infer t) (types_to_infer ts)
