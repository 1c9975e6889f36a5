-- ===== src/Relation/Subtype.antt =====
-- `is_subtype` of src/subtyping.rs. `seen` holds the pairs that the recursive comparison is in the
-- middle of, the latest first; a callee that pushes a pair pops it before it returns, so it is passed
-- down by value. The functions between two calls of `is_subtype_inner` take that call as `rec`.
pub mod Unroll
pub mod Answers
pub mod Fresh
pub mod Decides
pub mod Equation
pub mod Join
pub mod Rules
use Prim.Native.Nat.{Ordering, max}
use ts_rust.Prelude.{
  ℕ, zero, suc, ◌+◌, ◌*◌, Bool, true, false, ◌&&◌, ◌||◌, not, List, [], ◌∷◌, Option, none, some,
  ◌==◌, ltb, if◌then◌else◌, Check, all?, any?, ◌&&?◌, ◌||?◌, length, get_elem?, any, is_empty,
}
use ts_rust.Types.{
  TypeId, Param, FunctionType, PropertyEntry, ObjectType, Ty, number, string, boolean, undefined,
  unknown, error, function, object, array, union, string_literal, number_literal, boolean_literal,
  never, void, generic_parameter, intersection,
}
use ts_rust.Types
use ts_rust.Types.Number.{f64_eq}
use ts_rust.Types.Names.{cmp, ids_eq}
use ts_rust.Types.Equality.{bool_eq}
use ts_rust.Relation.View.{View}
use ts_rust.Relation.Empty.{find_property, intersection_reduces_to_never}

abbrev pub Pair : Type 0
Pair = TypeId × TypeId

abbrev pub is_any_or_error : Ty → Bool
is_any_or_error Ty.any = true
is_any_or_error error = true
is_any_or_error _ = false

unfoldable pub required_param_count : List Param → ℕ
required_param_count [] = 0
required_param_count (p ∷ ps) =
    let rest = required_param_count ps in if not p.optional && not p.rest then suc rest else rest

-- `params.last().filter(|p| p.rest)`.
unfoldable pub last_rest : List Param → Option Param
last_rest [] = none
last_rest (p ∷ []) = if p.rest then some p else none
last_rest (p ∷ q ∷ qs) = last_rest (q ∷ qs)

unfoldable pub contains_pair : List Pair → TypeId → TypeId → Bool
contains_pair [] a b = false
contains_pair ((c, d) ∷ seen) a b = c == a && d == b || contains_pair seen a b

unfoldable pub prepend : Option PropertyEntry → List PropertyEntry → List PropertyEntry
prepend none found = found
prepend (some p) found = p ∷ found

unfoldable pub provided_by : Ty → PropertyEntry → List PropertyEntry → List PropertyEntry
unfolding find_property prepend
provided_by (object o) wanted found = prepend (find_property wanted.name o.properties) found
provided_by _ wanted found = found

module _ (v : View) where
  open v use {get}

  unfoldable pub is_universally_compatible : TypeId → Bool
  is_universally_compatible id = is_any_or_error (get id)

  unfoldable pub is_trivial_subtype : TypeId → TypeId → Bool
  unfolding is_universally_compatible
  is_trivial_subtype sub sup =
      sub == sup || is_universally_compatible sub || is_universally_compatible sup

  -- A rest parameter's own type is an array of what each position takes.
  unfoldable pub position_type : Param → TypeId
  position_type p =
      if p.rest then elim (get p.type_id) [ array element ↦ element | _ ↦ p.type_id ] else p.type_id

  unfoldable pub param_type_at : List Param → ℕ → Option TypeId
  unfolding last_rest position_type
  param_type_at params position = elim (get_elem? params position) [
    | some p ↦ some (position_type p)
    | none ↦ elim (last_rest params) [ some p ↦ some (position_type p) | none ↦ none ]
  ]

  -- What each object member has under the wanted name.
  unfoldable pub provided : List TypeId → PropertyEntry → List PropertyEntry
  unfolding provided_by
  provided [] wanted = []
  provided (m ∷ ms) wanted = provided_by (get m) wanted (provided ms wanted)

  module _ (rec : TypeId → TypeId → Check) where
    -- One round of the loop over positions: contravariant, or either way for a method.
    unfoldable pub position_is_subtype : Bool → Option TypeId → Option TypeId → Check
    position_is_subtype bivariant (some sub_param) (some sup_param) =
        rec sup_param sub_param ||? (some bivariant &&? rec sub_param sup_param)
    position_is_subtype bivariant _ _ = some true

    unfoldable pub positions_are_subtypes : Bool → List Param → List Param → ℕ → ℕ → Check
    unfolding position_is_subtype param_type_at
    positions_are_subtypes bivariant sub sup zero position = some true
    positions_are_subtypes bivariant sub sup (suc left) position =
        let rest = positions_are_subtypes bivariant sub sup left (position + 1) in
        position_is_subtype bivariant (param_type_at sub position) (param_type_at sup position)
        &&? rest

    unfoldable pub function_is_subtype_with : FunctionType → FunctionType → Bool → Check
    unfolding required_param_count positions_are_subtypes
    function_is_subtype_with sub sup bivariant =
        if ltb (required_param_count sup.params) (required_param_count sub.params)
        then some false
        else positions_are_subtypes bivariant sub.params sup.params
            (max (length sub.params) (length sup.params)) 0
          &&? rec sub.return_type sup.return_type

    unfoldable pub function_is_subtype : FunctionType → FunctionType → Check
    unfolding function_is_subtype_with
    function_is_subtype sub sup = function_is_subtype_with sub sup false

    -- Two function types under the method rule, any other two under the relation itself.
    unfoldable pub method_is_subtype : Ty → Ty → TypeId → TypeId → Check
    unfolding function_is_subtype_with
    method_is_subtype (function sub) (function sup) a b = function_is_subtype_with sub sup true
    method_is_subtype _ _ a b = rec a b

    unfoldable pub property_is_subtype : TypeId → PropertyEntry → Check
    unfolding method_is_subtype
    property_is_subtype sub_type sup_property =
        if sup_property.is_method
        then method_is_subtype (get sub_type) (get sup_property.type_id) sub_type
            sup_property.type_id
        else rec sub_type sup_property.type_id

    -- The merge-join, with what is left of the peekable iterator as its first list.
    unfoldable pub properties_are_subtypes : List PropertyEntry → List PropertyEntry → Check
    unfolding property_is_subtype cmp
    properties_are_subtypes subs [] = some true
    properties_are_subtypes [] (sup ∷ sups) =
        let rest = properties_are_subtypes [] sups in if sup.optional then rest else some false
    properties_are_subtypes (sub ∷ subs) (sup ∷ sups) =
        let skip = properties_are_subtypes subs (sup ∷ sups) in
        let matched = properties_are_subtypes subs sups in
        let absent = properties_are_subtypes (sub ∷ subs) sups in
        elim (cmp sub.name sup.name) [
          | Ordering.lt ↦ skip
          | Ordering.eq ↦
              if sub.optional && not sup.optional
              then some false
              else property_is_subtype sub.type_id sup &&? matched
          | Ordering.gt ↦ if sup.optional then absent else some false
        ]

    unfoldable pub object_is_subtype : ObjectType → ObjectType → Check
    unfolding properties_are_subtypes
    object_is_subtype sub sup = properties_are_subtypes sub.properties sup.properties

    unfoldable pub wanted_is_provided : PropertyEntry → List PropertyEntry → Check
    unfolding property_is_subtype any?
    wanted_is_provided wanted found =
        if is_empty found
        then some wanted.optional
        else some (wanted.optional || any (λ p. not p.optional) found)
          &&? any? (λ p. property_is_subtype p.type_id wanted) found

    unfoldable pub intersection_satisfies_object : List TypeId → ObjectType → Check
    unfolding provided wanted_is_provided all?
    intersection_satisfies_object members target =
        all? (λ wanted. wanted_is_provided wanted (provided members wanted)) target.properties

    -- The arms for an intersection on the left.
    unfoldable pub intersection_is_subtype : List TypeId → Ty → TypeId → TypeId → Check
    unfolding intersection_satisfies_object all? any?
    intersection_is_subtype members (intersection sups) sub sup = all? (λ m. rec sub m) sups
    intersection_is_subtype members (union sups) sub sup =
        any? (λ m. rec sub m) sups ||? any? (λ m. rec m sup) members
    intersection_is_subtype members (object target) sub sup =
        any? (λ m. rec m sup) members ||? intersection_satisfies_object members target
    intersection_is_subtype members _ sub sup = any? (λ m. rec m sup) members

    -- The `match` of `is_subtype_uncached`, arm by arm.
    unfoldable pub arms : Ty → Ty → TypeId → TypeId → Check
    unfolding intersection_reduces_to_never intersection_is_subtype f64_eq ids_eq bool_eq
        function_is_subtype object_is_subtype
    arms _ unknown sub sup = some true
    arms (intersection members) right sub sup =
        intersection_reduces_to_never v sub ||? intersection_is_subtype members right sub sup
    arms (generic_parameter _ _ (some bound)) _ sub sup = rec bound sup
    arms (string_literal a) (string_literal b) sub sup = some (ids_eq a b)
    arms (number_literal a) (number_literal b) sub sup = some (f64_eq a b)
    arms (boolean_literal a) (boolean_literal b) sub sup = some (bool_eq a b)
    arms (string_literal _) string sub sup = some true
    arms (number_literal _) number sub sup = some true
    arms (boolean_literal _) boolean sub sup = some true
    arms never _ sub sup = some true
    arms undefined void sub sup = some true
    arms (union members) _ sub sup = all? (λ m. rec m sup) members
    arms _ (intersection members) sub sup = all? (λ m. rec sub m) members
    arms _ (union members) sub sup = any? (λ m. rec sub m) members
    arms (function a) (function b) sub sup = function_is_subtype a b
    arms (array a) (array b) sub sup = rec a b
    arms (object a) (object b) sub sup = object_is_subtype a b
    arms _ _ sub sup = some false

    unfoldable pub is_subtype_uncached : TypeId → TypeId → Check
    unfolding arms
    is_subtype_uncached sub sup = arms (get sub) (get sup) sub sup

  unfoldable pub is_subtype_inner : ℕ → List Pair → TypeId → TypeId → Check
  unfolding is_trivial_subtype contains_pair is_subtype_uncached
  is_subtype_inner zero seen sub sup = none
  is_subtype_inner (suc fuel) seen sub sup =
      if is_trivial_subtype sub sup
      then some true
      else if contains_pair seen sub sup
      then some true
      else is_subtype_uncached (is_subtype_inner fuel ((sub, sup) ∷ seen)) sub sup

  -- No pair is compared inside itself, so one level more than there are pairs of ids is enough.
  abbrev pub enough : ℕ
  enough = suc (v.size * v.size)

  unfoldable pub is_subtype : TypeId → TypeId → Check
  unfolding is_subtype_inner
  is_subtype sub sup = is_subtype_inner enough [] sub sup

  -- `property_relates`.
  unfoldable pub property_relates : TypeId → PropertyEntry → Check
  unfolding property_is_subtype is_subtype_inner
  property_relates sub_type sup_property =
      property_is_subtype (is_subtype_inner enough []) sub_type sup_property
