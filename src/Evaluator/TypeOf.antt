-- ===== src/Evaluator/TypeOf.antt =====
-- evaluator/type_of.rs: `value_to_type`.
use metel.Prelude.{ℕ, zero, suc, List, [], ◌∷◌, Option, some, none}
use metel.Types.{ResolvedType, ResolvedTypes}
use metel.Ast.Literals.{IntKind, FloatKind}
use metel.Evaluator.Outcome.{out_of_fuel}
use metel.Evaluator.Platform.{Platform}
use metel.Evaluator.State.{M, ◌>>=◌, return, read_cell, read_array}
use metel.Evaluator.Values.{
  Value, Values, PathSegment, field, tuple_index, array_index, int, float, char, boolean, str, unit,
  tuple, array, struct, enum, callable, pointer, mut_pointer, mut_field_pointer, closure, intrinsic,
  nil, cons,
}

abbrev pub int_type : IntKind → ResolvedType
int_type IntKind.i8 = ResolvedType.i8
int_type IntKind.i16 = ResolvedType.i16
int_type IntKind.i32 = ResolvedType.i32
int_type IntKind.i64 = ResolvedType.i64
int_type IntKind.u8 = ResolvedType.u8
int_type IntKind.u16 = ResolvedType.u16
int_type IntKind.u32 = ResolvedType.u32
int_type IntKind.u64 = ResolvedType.u64

abbrev pub float_type : FloatKind → ResolvedType
float_type FloatKind.f32 = ResolvedType.f32
float_type FloatKind.f64 = ResolvedType.f64

-- `Type::Fun(vec![], Box::new(Type::Unit))`
abbrev pub unknown_function : ResolvedType
unknown_function = ResolvedType.fun ResolvedTypes.nil ResolvedType.unit

abbrev pub known_function : Option ResolvedType → ResolvedType
known_function (some t) = t
known_function none = unknown_function

-- The type of the first element, or of nothing.
abbrev pub first_type : (Value → M ResolvedType) → Values → M ResolvedType
first_type f nil = return ResolvedType.unit
first_type f (cons v vs) = f v

module _ (rust : Platform) where
  -- The type at the end of a path, as far as the names tell it.
  unfoldable pub follow_type : ResolvedType → List PathSegment → ResolvedType
  follow_type t [] = t
  follow_type (ResolvedType.named name args) (field f ∷ path) =
      follow_type (ResolvedType.named (rust.concat name (rust.concat "." f)) ResolvedTypes.nil) path
  follow_type _ (field f ∷ path) = follow_type ResolvedType.unit path
  follow_type t (tuple_index i ∷ path) = follow_type t path
  follow_type t (array_index i ∷ path) = follow_type t path

  -- The walk, with what it does with the values behind an address as an argument.
  unfoldable mutual
    unfolding read_cell read_array follow_type

    pub type_with : (Value → M ResolvedType) → Value → M ResolvedType
    type_with f (int k n) = return (int_type k)
    type_with f (float k x) = return (float_type k)
    type_with f (char c) = return ResolvedType.char
    type_with f (boolean b) = return ResolvedType.boolean
    type_with f (str s) = return ResolvedType.str
    type_with f unit = return ResolvedType.unit
    type_with f (tuple items) = do types ← types_with f items; return (ResolvedType.tuple types)
    type_with f (array a) = do
      items ← read_array a
      elem ← first_type f items
      return (ResolvedType.array elem)
    type_with f (struct name fields) = return (ResolvedType.named name ResolvedTypes.nil)
    type_with f (enum name variant fields) = return (ResolvedType.named name ResolvedTypes.nil)
    type_with f (callable (closure c)) = return (known_function c.fun_type)
    type_with f (callable (intrinsic i)) = return unknown_function
    type_with f (pointer a) = do v ← read_cell a; t ← f v; return (ResolvedType.pointer t)
    type_with f (mut_pointer a) = do v ← read_cell a; t ← f v; return (ResolvedType.mut_pointer t)
    type_with f (mut_field_pointer root path) = do
      v ← read_cell root
      t ← f v
      return (ResolvedType.mut_pointer (follow_type t path))

    pub types_with : (Value → M ResolvedType) → Values → M ResolvedTypes
    types_with f nil = return ResolvedTypes.nil
    types_with f (cons v vs) = do
      t ← type_with f v
      ts ← types_with f vs
      return (ResolvedTypes.cons t ts)

  unfoldable pub value_to_type : ℕ → Value → M ResolvedType
  unfolding type_with
  value_to_type zero v = λ s. out_of_fuel
  value_to_type (suc fuel) v = type_with (value_to_type fuel) v

  -- `args.iter().map(value_to_type)`
  unfoldable pub value_types : ℕ → Values → M ResolvedTypes
  unfolding type_with value_to_type
  value_types fuel args = types_with (value_to_type fuel) args
