-- ===== src/TypeInference/Registry/Impls.antt =====
-- `From` and `Iterable` implementations, registered and looked up.
use metel.Prelude.{
  String, List, [], ◌∷◌, ◌++◌, ◌≡◌, inl, inr, string_eq, pair_eq, Bool-cases, arith, ◌&&◌, str_eq,
  str_eq_iff, ◌||◌,
}
use metel.Prelude.Map.{get, get-insert}
use metel.Types.{ResolvedType}
use metel.TypeInference.Registry.Types.{TypeDefinitionRegistry}
use metel.TypeInference.Registry.Entries.{
  or_default, register_aspect_impl, starts_with_type, any_from, has_from_impl,
}

any_from-append :
    (source : ResolvedType) (impls : List (List ResolvedType)) (args : List ResolvedType)
    → any_from source (impls ++ args ∷ []) ≡ (any_from source impls || starts_with_type source args)
unfolding any_from
any_from-append source [] args = ground arith
any_from-append source (xs ∷ impls) args = ground (arith, any_from-append source impls args)

-- After an implementation is registered, `has_from_impl` finds the conversions that it found before,
-- and the new one if it is a `From` for that target from that source, and no other.
pub has_from_impl-register_aspect_impl :
    (target aspect : String) (args : List ResolvedType) (r : TypeDefinitionRegistry) (name : String)
    (source : ResolvedType)
    → has_from_impl name source (register_aspect_impl target aspect args r) ≡ (
        has_from_impl name source r
        || (str_eq target name && str_eq aspect "From" && starts_with_type source args))
unfolding has_from_impl register_aspect_impl
has_from_impl-register_aspect_impl target aspect args r name source =
    elim (Bool-cases (str_eq target name)) [
      | inl t ↦ elim (Bool-cases (str_eq aspect "From")) [
        | inl a ↦
            rw
              (
                get-insert (target, aspect) (name, "From")
                    (or_default (get (target, aspect) r.impl_aspect_env) ++ args ∷ [])
                    r.impl_aspect_env,
                t,
                a,
                (str_eq_iff target name).0 t,
                (str_eq_iff aspect "From").0 a,
              )
              (any_from-append source (or_default (get (name, "From") r.impl_aspect_env)) args)
        | inr a ↦ ground (
          arith,
          get-insert (target, aspect) (name, "From")
              (or_default (get (target, aspect) r.impl_aspect_env) ++ args ∷ []) r.impl_aspect_env,
        )
      ]
      | inr t ↦ ground (
        arith,
        get-insert (target, aspect) (name, "From")
            (or_default (get (target, aspect) r.impl_aspect_env) ++ args ∷ []) r.impl_aspect_env,
      )
    ]
