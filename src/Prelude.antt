-- ===== src/Prelude.antt =====
-- The names that the modules share: the libraries', passed on, the tests on numbers, the interface
-- of equality and the maps.
mod Tests
pub mod Eq
pub mod Map
pub mod Sets
pub mod Int
pub use Tests.*
pub use Eq.{Eq as Equality, same, pair_beq_iff, list_beq_iff, list_eq, pair_eq, ℕ_eq, string_eq}
unfoldable pub use Eq.{String-discrete}
pub use Prim.Native.Nat.{ℕ, zero, suc, ◌+◌, ◌-◌, ◌*◌, ◌/◌, ◌%◌, ◌^◌, ◌≤◌, ◌<◌, max}
pub use Prim.Native.String.{String}
pub use mathlib.Core.Path.{◌≡◌, refl, sym, ap, ◌∙◌, subst}
pub use mathlib.Core.Logic.{◌≢◌, ◌↔◌, ◌⊎◌, inl, inr}
pub use mathlib.Core.Bool.{Bool, true, false, ◌&&◌, ◌||◌, not}
unfoldable pub use mathlib.Core.Bool.{decide}
pub use mathlib.Core.Option.{Option, none, some}
pub use mathlib.Core.List.{List, [], ◌∷◌, ◌++◌, map}
pub use native.Mathlib.Omega.{arith}
unfoldable pub use native.Mathlib.Decide.{dec_lt, ℕ_discrete}
pub use text.Mathlib.Text.{◌==◌ as str_eq}
pub use text.Mathlib.TextEquality.{eq_iff as str_eq_iff}
