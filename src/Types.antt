-- ===== src/Types.antt =====
-- metel-interpreter/src/types/mod.rs: the resolved types.
use metel.Prelude.{ℕ, String, Bool, true, false, ◌||◌, ℕ_discrete, String-discrete}

mutual
  pub data ResolvedType : Type 0 where
    boolean str char unit never : ResolvedType
    i8 i16 i32 i64 u8 u16 u32 u64 : ResolvedType
    f32 f64 : ResolvedType
    tuple : ResolvedTypes → ResolvedType
    array : ResolvedType → ResolvedType
    sized_array : ResolvedType → ℕ → ResolvedType
    pointer mut_pointer : ResolvedType → ResolvedType
    fun : ResolvedTypes → ResolvedType → ResolvedType
    named : String → ResolvedTypes → ResolvedType

  -- `Vec<Type>`
  pub data ResolvedTypes : Type 0 where
    nil : ResolvedTypes
    cons : ResolvedType → ResolvedTypes → ResolvedTypes

unfoldable pub ResolvedType-discrete : Discrete ResolvedType
ResolvedType-discrete = hlevel (ℕ_discrete, String-discrete)

unfoldable pub is_integer : ResolvedType → Bool
is_integer i64 = true
is_integer i8 = true
is_integer i16 = true
is_integer i32 = true
is_integer u8 = true
is_integer u16 = true
is_integer u32 = true
is_integer u64 = true
is_integer _ = false

unfoldable pub is_float : ResolvedType → Bool
is_float f64 = true
is_float f32 = true
is_float _ = false

unfoldable pub is_numeric : ResolvedType → Bool
unfolding is_integer is_float
is_numeric t = is_integer t || is_float t
