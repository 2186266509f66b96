-- ===== src/TypeInference/Syntax.antt =====
-- typeinference/mod.rs, `TypeVar`, `TypeVarGenerator` and `InferType`.
use metel.Prelude.{ℕ, String, Bool, false, ◌||◌, ◌==◌, ◌+◌, ◌%◌, ◌^◌}
use metel.Types.{ResolvedType}

-- `TypeVar(u32)`
abbrev pub TypeVar : Type 0
TypeVar = ℕ

pub record TypeVarGenerator : Type 0 where
  pub counter : ℕ

-- The counter is a `u32`: `+= 1` wraps.
unfoldable pub fresh : TypeVarGenerator → TypeVar × TypeVarGenerator
fresh gen = (gen.counter, record { counter = (gen.counter + 1) % 2 ^ 32 })

mutual
  pub data InferType : Type 0 where
    concrete : ResolvedType → InferType
    var : TypeVar → InferType
    never : InferType
    fun : InferTypes → InferType → InferType
    tuple : InferTypes → InferType
    array : InferType → InferType
    sized_array : InferType → ℕ → InferType
    pointer mut_pointer : InferType → InferType
    named : String → InferTypes → InferType

  -- `Vec<InferType>`
  pub data InferTypes : Type 0 where
    nil : InferTypes
    cons : InferType → InferTypes → InferTypes

abbrev pub int : InferType
int = concrete ResolvedType.i64

abbrev pub float : InferType
float = concrete ResolvedType.f64

abbrev pub bool : InferType
bool = concrete ResolvedType.boolean

abbrev pub str : InferType
str = concrete ResolvedType.str

abbrev pub unit : InferType
unit = concrete ResolvedType.unit

-- `occurs_in`
unfoldable mutual
  pub occurs_in : TypeVar → InferType → Bool
  occurs_in v (concrete _) = false
  occurs_in v never = false
  occurs_in v (var w) = w == v
  occurs_in v (fun params ret) = occurs_in_any v params || occurs_in v ret
  occurs_in v (tuple ts) = occurs_in_any v ts
  occurs_in v (array t) = occurs_in v t
  occurs_in v (sized_array t _) = occurs_in v t
  occurs_in v (pointer t) = occurs_in v t
  occurs_in v (mut_pointer t) = occurs_in v t
  occurs_in v (named _ args) = occurs_in_any v args

  pub occurs_in_any : TypeVar → InferTypes → Bool
  occurs_in_any v nil = false
  occurs_in_any v (cons t ts) = occurs_in v t || occurs_in_any v ts

unfoldable pub length : InferTypes → ℕ
length nil = 0
length (cons t ts) = length ts + 1
