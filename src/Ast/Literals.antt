-- ===== src/Ast/Literals.antt =====
-- ast/mod.rs: literals, patterns, operators. An `f64` is its bit pattern, a `char` its code point.
use metel.Prelude.{ℕ, String, List, Option, Bool}
use metel.Prelude.Int.{ℤ}
use metel.Error.{Span}

pub data IntKind : Type 0 where
  i8 i16 i32 i64 u8 u16 u32 u64 : IntKind

pub data FloatKind : Type 0 where
  f32 f64 : FloatKind

pub data Literal : Type 0 where
  int : ℤ → Literal
  float : ℕ → Literal
  sized_int : ℤ → IntKind → Literal
  sized_float : ℕ → FloatKind → Literal
  char : ℕ → Literal
  boolean : Bool → Literal
  str : String → Literal
  none : Literal
  unit : Literal

mutual
  pub data Pattern : Type 0 where
    wildcard : Span → Pattern
    none : Span → Pattern
    literal : Literal → Span → Pattern
    binding : String → Span → Pattern
    enum_variant : List String → List String → Span → Pattern
    tuple : Patterns → Span → Pattern
    array : Patterns → Option String → Span → Pattern

  -- `Vec<Pattern>`
  pub data Patterns : Type 0 where
    nil : Patterns
    cons : Pattern → Patterns → Patterns

pub data BinOp : Type 0 where
  add sub mul div rem : BinOp
  eq ne lt le gt ge : BinOp
  and or : BinOp
  range range_inclusive : BinOp

pub data UnaryOp : Type 0 where
  neg not ref ref_mut deref : UnaryOp

pub data AssignOp : Type 0 where
  assign add_assign sub_assign mul_assign div_assign rem_assign : AssignOp
