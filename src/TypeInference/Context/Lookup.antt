-- ===== src/TypeInference/Context/Lookup.antt =====
-- Which binding a name has.
use metel.Prelude.{
  String, List, [], ◌∷◌, Option, some, Bool, ◌≡◌, arith, if◌then◌else◌, string_eq, str_eq,
}
use metel.Prelude.Map.{get, insert}
use metel.Run.{ok, err}
use metel.Error.{Span, type_error, t0006}
use metel.TypeInference.Syntax.{InferType}
use metel.TypeInference.Context.State.{InferContext}
use metel.TypeInference.Context.Names.{push_scope, bind_mono, lookup_for_write}

-- After a name is bound to a type in a new innermost scope, writing to it gives that type where the
-- binding is mutable and the error T0006 where it is not, whatever the name was bound to outside; for
-- any other name it is judged as before.
pub lookup_for_write-bind_mono :
    (name j : String) (t : InferType) (is_mutable : Bool) (span : Span) (ctx : InferContext)
    → lookup_for_write j span (bind_mono name t is_mutable (push_scope ctx)) ≡ (
        if str_eq name j
        then if is_mutable then ok t else err (type_error t0006 span)
        else lookup_for_write j span ctx)
unfolding lookup_for_write bind_mono push_scope get insert
lookup_for_write-bind_mono name j t is_mutable span ctx = ground arith

-- A scope that is entered, or a parameter or local that is bound in the innermost scope.
pub data ScopeStep : Type 0 where
  enter : ScopeStep
  bind_name : String → InferType → Bool → ScopeStep

unfoldable pub take_steps : List ScopeStep → InferContext → InferContext
unfolding push_scope bind_mono
take_steps [] ctx = ctx
take_steps (enter ∷ steps) ctx = take_steps steps (push_scope ctx)
take_steps (bind_name name t is_mutable ∷ steps) ctx =
    take_steps steps (bind_mono name t is_mutable ctx)

-- The type of the last of the steps that binds the name, or the type from before them.
unfoldable pub last_type : String → List ScopeStep → Option InferType → Option InferType
last_type j [] before = before
last_type j (enter ∷ steps) before = last_type j steps before
last_type j (bind_name name t is_mutable ∷ steps) before =
    last_type j steps (if str_eq name j then some t else before)
