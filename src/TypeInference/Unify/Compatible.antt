-- ===== src/TypeInference/Unify/Compatible.antt =====
-- What `unify` makes of two types: equal ones, up to the coercions that its arms allow. `Never` goes
-- with every type, a sized array with an array, a pointer with a mutable one, at any depth.
use metel.Prelude.{ℕ, String}
use metel.TypeInference.Syntax.{
  TypeVar, InferType, InferTypes, never, fun, tuple, array, sized_array, pointer, mut_pointer,
  named, nil, cons,
}
use metel.TypeInference.Substitution.Algebra.{substitute, substitute_all}

mutual
  pub data Compatible : InferType → InferType → Type 0 where
    same : {t : InferType} → Compatible t t
    never_left : {t : InferType} → Compatible never t
    never_right : {t : InferType} → Compatible t never
    funs :
        {ps qs : InferTypes} {t u : InferType}
        → CompatibleAll ps qs
        → Compatible t u
        → Compatible (fun ps t) (fun qs u)
    tuples : {ts us : InferTypes} → CompatibleAll ts us → Compatible (tuple ts) (tuple us)
    arrays : {t u : InferType} → Compatible t u → Compatible (array t) (array u)
    sized_arrays :
        {t u : InferType} {n : ℕ} → Compatible t u → Compatible (sized_array t n) (sized_array u n)
    sized_to_array :
        {t u : InferType} {n : ℕ} → Compatible t u → Compatible (sized_array t n) (array u)
    array_to_sized :
        {t u : InferType} {n : ℕ} → Compatible t u → Compatible (array t) (sized_array u n)
    pointers : {t u : InferType} → Compatible t u → Compatible (pointer t) (pointer u)
    mut_pointers : {t u : InferType} → Compatible t u → Compatible (mut_pointer t) (mut_pointer u)
    pointer_to_mut : {t u : InferType} → Compatible t u → Compatible (pointer t) (mut_pointer u)
    mut_to_pointer : {t u : InferType} → Compatible t u → Compatible (mut_pointer t) (pointer u)
    nameds :
        {name : String} {ts us : InferTypes}
        → CompatibleAll ts us
        → Compatible (named name ts) (named name us)

  pub data CompatibleAll : InferTypes → InferTypes → Type 0 where
    nils : CompatibleAll nil nil
    conses :
        {t u : InferType} {ts us : InferTypes}
        → Compatible t u
        → CompatibleAll ts us
        → CompatibleAll (cons t ts) (cons u us)

module _ (σ : TypeVar → InferType) where
  mutual
    pub Compatible-substitute :
        {t u : InferType} → Compatible t u → Compatible (substitute σ t) (substitute σ u)
    Compatible-substitute same = same
    Compatible-substitute never_left = never_left
    Compatible-substitute never_right = never_right
    Compatible-substitute (funs hs h) = funs (CompatibleAll-substitute hs) (Compatible-substitute h)
    Compatible-substitute (tuples hs) = tuples (CompatibleAll-substitute hs)
    Compatible-substitute (arrays h) = arrays (Compatible-substitute h)
    Compatible-substitute (sized_arrays h) = sized_arrays (Compatible-substitute h)
    Compatible-substitute (sized_to_array h) = sized_to_array (Compatible-substitute h)
    Compatible-substitute (array_to_sized h) = array_to_sized (Compatible-substitute h)
    Compatible-substitute (pointers h) = pointers (Compatible-substitute h)
    Compatible-substitute (mut_pointers h) = mut_pointers (Compatible-substitute h)
    Compatible-substitute (pointer_to_mut h) = pointer_to_mut (Compatible-substitute h)
    Compatible-substitute (mut_to_pointer h) = mut_to_pointer (Compatible-substitute h)
    Compatible-substitute (nameds hs) = nameds (CompatibleAll-substitute hs)

    pub CompatibleAll-substitute :
        {ts us : InferTypes}
        → CompatibleAll ts us
        → CompatibleAll (substitute_all σ ts) (substitute_all σ us)
    CompatibleAll-substitute nils = nils
    CompatibleAll-substitute (conses h hs) =
        conses (Compatible-substitute h) (CompatibleAll-substitute hs)

mutual
  pub Compatible-sym : {t u : InferType} → Compatible t u → Compatible u t
  Compatible-sym same = same
  Compatible-sym never_left = never_right
  Compatible-sym never_right = never_left
  Compatible-sym (funs hs h) = funs (CompatibleAll-sym hs) (Compatible-sym h)
  Compatible-sym (tuples hs) = tuples (CompatibleAll-sym hs)
  Compatible-sym (arrays h) = arrays (Compatible-sym h)
  Compatible-sym (sized_arrays h) = sized_arrays (Compatible-sym h)
  Compatible-sym (sized_to_array h) = array_to_sized (Compatible-sym h)
  Compatible-sym (array_to_sized h) = sized_to_array (Compatible-sym h)
  Compatible-sym (pointers h) = pointers (Compatible-sym h)
  Compatible-sym (mut_pointers h) = mut_pointers (Compatible-sym h)
  Compatible-sym (pointer_to_mut h) = mut_to_pointer (Compatible-sym h)
  Compatible-sym (mut_to_pointer h) = pointer_to_mut (Compatible-sym h)
  Compatible-sym (nameds hs) = nameds (CompatibleAll-sym hs)

  pub CompatibleAll-sym : {ts us : InferTypes} → CompatibleAll ts us → CompatibleAll us ts
  CompatibleAll-sym nils = nils
  CompatibleAll-sym (conses h hs) = conses (Compatible-sym h) (CompatibleAll-sym hs)
