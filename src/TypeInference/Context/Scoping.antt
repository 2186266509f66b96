-- ===== src/TypeInference/Context/Scoping.antt =====
-- Entering a scope, binding names and leaving the scope gives the context back.
use metel.Prelude.{String, List, [], ◌∷◌, some, Bool, ◌≡◌, refl, ◌∙◌}
use metel.TypeInference.Syntax.{InferType}
use metel.TypeInference.Scheme.Defs.{TypeScheme}
use metel.TypeInference.Context.State.{InferContext, bind_poly}
use metel.TypeInference.Context.Names.{push_scope, pop_scope, bind_mono, bind_poly_if_absent}

-- What is bound in a scope.
pub data Binding : Type 0 where
  mono : String → InferType → Bool → Binding
  poly : String → TypeScheme → Binding
  poly_if_absent : String → TypeScheme → Binding

unfoldable pub bind_one : Binding → InferContext → InferContext
unfolding bind_mono bind_poly bind_poly_if_absent
bind_one (mono name t is_mutable) ctx = bind_mono name t is_mutable ctx
bind_one (poly name scheme) ctx = bind_poly name scheme ctx
bind_one (poly_if_absent name scheme) ctx = bind_poly_if_absent name scheme ctx

unfoldable pub bind_all : List Binding → InferContext → InferContext
bind_all [] ctx = ctx
bind_all (b ∷ bs) ctx = bind_all bs (bind_one b ctx)

pop-bind_one : (b : Binding) (ctx : InferContext) → pop_scope (bind_one b ctx) ≡ pop_scope ctx
unfolding pop_scope bind_one
pop-bind_one (mono name t m) ctx = refl
pop-bind_one (poly name s) ctx = refl
pop-bind_one (poly_if_absent name s) ctx = refl

pop-bind_all :
    (bs : List Binding) (ctx : InferContext) → pop_scope (bind_all bs ctx) ≡ pop_scope ctx
unfolding bind_all
pop-bind_all [] ctx = refl
pop-bind_all (b ∷ bs) ctx = pop-bind_all bs (bind_one b ctx) ∙ pop-bind_one b ctx

-- A scope that is entered, filled with any bindings and left gives back the context from before it.
pub pop_scope-push_scope :
    (bs : List Binding) (ctx : InferContext) → pop_scope (bind_all bs (push_scope ctx)) ≡ some ctx
unfolding pop_scope push_scope
pop_scope-push_scope bs ctx = pop-bind_all bs (push_scope ctx) ∙ entered
  where
    entered : pop_scope (push_scope ctx) ≡ some ctx
    entered = refl
