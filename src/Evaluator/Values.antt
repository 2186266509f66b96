-- ===== src/Evaluator/Values.antt =====
-- evaluator/mod.rs: runtime values, callables and environments. An `Rc<RefCell<Value>>` is the address
-- of a cell of the heap, an `Rc<RefCell<Vec<Value>>>` the address of an array. The eight constructors
-- for integers are one with the kind, the two for floats too; a float is its bit pattern.
use metel.Prelude.{ℕ, String, List, Option, Bool}
use metel.Prelude.Map.{HashMap}
use metel.Prelude.Int.{ℤ}
use metel.Types.{ResolvedType}
use metel.TypeInference.Scheme.Defs.{TypeScheme}
use metel.TypeInference.Registry.Types.{TypeDefinitionRegistry}
use metel.Ast.Literals.{IntKind, FloatKind}
use metel.Ast.Types.{Param}
use metel.Ast.Trees.{Block}
use metel.TypedAst.{TypedBlock}

-- typeinference/mod.rs
pub record TypeCtx : Type 0 where
  pub scheme_env : HashMap String TypeScheme
  pub registry : TypeDefinitionRegistry

abbrev pub Address : Type 0
Address = ℕ

-- The scopes, the innermost first.
pub record Environment : Type 0 where
  pub scopes : List (HashMap String Address)
  pub type_ctx : Option TypeCtx

pub data ClosureBody : Type 0 where
  typed : TypedBlock → ClosureBody
  untyped : Block → ClosureBody

pub record ClosureValue : Type 0 where
  pub name : Option String
  pub params : List Param
  pub body : ClosureBody
  pub captured : Environment
  pub type_ctx : Option TypeCtx
  pub fun_type : Option ResolvedType

-- builtins.rs: the functions that it registers, each by its label. `from_int` has the kind that it
-- converts to and the source type in the label.
pub data Intrinsic : Type 0 where
  print println : Intrinsic
  i64_to_string f64_to_string boolean_to_string char_to_string string_to_string : Intrinsic
  string_len_method array_len : Intrinsic
  i64_from f64_from : Intrinsic
  from_int : IntKind → String → Intrinsic
  from_float : FloatKind → String → Intrinsic
  u32_from_char char_from_u32 : Intrinsic
  string_len string_concat : Intrinsic
  list_new list_from list_push list_pop list_len list_get list_as_slice : Intrinsic
  clock assert assert_msg dbg : Intrinsic

pub data RuntimeCallable : Type 0 where
  closure : ClosureValue → RuntimeCallable
  intrinsic : Intrinsic → RuntimeCallable

pub data PathSegment : Type 0 where
  field : String → PathSegment
  tuple_index array_index : ℕ → PathSegment

mutual
  pub data Value : Type 0 where
    int : IntKind → ℤ → Value
    float : FloatKind → ℕ → Value
    char : ℕ → Value
    boolean : Bool → Value
    str : String → Value
    unit : Value
    tuple : Values → Value
    array : Address → Value
    struct : String → ValueFields → Value
    enum : String → String → ValueFields → Value
    callable : RuntimeCallable → Value
    pointer mut_pointer : Address → Value
    mut_field_pointer : Address → List PathSegment → Value

  -- `Vec<Value>`
  pub data Values : Type 0 where
    nil : Values
    cons : Value → Values → Values

  -- `HashMap<String, Value>`
  pub data ValueFields : Type 0 where
    nil_fields : ValueFields
    cons_fields : String → Value → ValueFields → ValueFields

pub data Signal : Type 0 where
  value : Value → Signal
  return : Value → Signal
  break : Value → Signal
  continue : Signal

pub data RuntimeTypePattern : Type 0 where
  str array : RuntimeTypePattern
  primitive : String → RuntimeTypePattern
