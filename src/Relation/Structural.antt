-- ===== src/Relation/Structural.antt =====
-- `TypeArena::structurally_equal` of src/arena.rs: whether two types are the same by shape. `look` is
-- `TypeArena::get`, and `none` an index out of bounds, which panics, or the fuel running out.
pub mod Depth
pub mod Total
pub mod Decides
use ts_rust.Prelude.{
  ℕ, zero, suc, ◌+◌, ◌*◌, Bool, true, false, ◌&&◌, List, [], ◌∷◌, Option, none, some, ◌==◌,
  if◌then◌else◌, Check, all?, any?, ◌&&?◌, length,
}
use ts_rust.Types.{
  TypeId, Param, FunctionType, PropertyEntry, ObjectType, Ty, number, string, boolean, null,
  undefined, any, unknown, error, never, void, function, object, array, union, string_literal,
  number_literal, boolean_literal, generic_parameter, intersection,
}
use ts_rust.Types.Names.{ids_eq}
use ts_rust.Types.Equality.{bool_eq, list_eq, type_param_eq, parameter_id_eq}
use ts_rust.Relation.Subtype.{Pair, contains_pair}

module _ (rec : TypeId → TypeId → Check) where
  -- `params.iter().zip(..).all(..)`: the zip ends with the shorter list.
  unfoldable pub same_params : List Param → List Param → Check
  unfolding bool_eq
  same_params (p ∷ ps) (q ∷ qs) =
      let rest = same_params ps qs in
      some (bool_eq p.optional q.optional && bool_eq p.rest q.rest)
      &&? (rec p.type_id q.type_id &&? rest)
  same_params _ _ = some true

  unfoldable pub same_properties : List PropertyEntry → List PropertyEntry → Check
  unfolding bool_eq ids_eq
  same_properties (p ∷ ps) (q ∷ qs) =
      let rest = same_properties ps qs in
      some
        (ids_eq p.name q.name && bool_eq p.optional q.optional && bool_eq p.is_method q.is_method)
      &&? (rec p.type_id q.type_id &&? rest)
  same_properties _ _ = some true

  unfoldable pub same_function : FunctionType → FunctionType → Check
  unfolding same_params
  same_function f g =
      some (
        bool_eq f.is_untyped g.is_untyped
        && list_eq type_param_eq f.type_params g.type_params
        && length f.params == length g.params)
      &&? (same_params f.params g.params &&? rec f.return_type g.return_type)

  -- A list of members stands for a set.
  unfoldable pub same_members : List TypeId → List TypeId → Check
  unfolding all? any?
  same_members xs ys = some (length xs == length ys) &&? all? (λ x. any? (λ y. rec x y) ys) xs

-- `inside` is the call with the pair of objects pushed on `seen`.
module _ (rec inside : TypeId → TypeId → Check) (seen : List Pair) (a b : TypeId) where
  unfoldable pub same_object : ObjectType → ObjectType → Check
  unfolding same_properties contains_pair
  same_object x y =
      if length x.properties == length y.properties
      then (if contains_pair seen a b
          then some true
          else same_properties inside x.properties y.properties)
      else some false

  unfoldable pub same_types : Ty → Ty → Check
  unfolding same_function same_members same_object ids_eq bool_eq parameter_id_eq
  same_types number number = some true
  same_types string string = some true
  same_types boolean boolean = some true
  same_types null null = some true
  same_types undefined undefined = some true
  same_types any any = some true
  same_types unknown unknown = some true
  same_types error error = some true
  same_types never never = some true
  same_types void void = some true
  same_types (string_literal x) (string_literal y) = some (ids_eq x y)
  same_types (number_literal x) (number_literal y) = some (x == y)
  same_types (boolean_literal x) (boolean_literal y) = some (bool_eq x y)
  same_types (array x) (array y) = rec x y
  same_types (function f) (function g) = same_function rec f g
  same_types (object x) (object y) = same_object x y
  same_types (union xs) (union ys) = same_members rec xs ys
  same_types (intersection xs) (intersection ys) = same_members rec xs ys
  same_types (generic_parameter x _ _) (generic_parameter y _ _) = some (parameter_id_eq x y)
  same_types _ _ = some false

  unfoldable pub same_read : Option Ty → Option Ty → Check
  unfolding same_types
  same_read (some s) (some t) = same_types s t
  same_read _ _ = none

-- A type that is no object names smaller ids, and no pair of objects is compared inside itself.
abbrev pub deep_enough : ℕ → ℕ
deep_enough size = suc (size * size * size + size)

module _ (look : TypeId → Option Ty) where
  unfoldable pub structurally_equal_inner : ℕ → List Pair → TypeId → TypeId → Check
  unfolding same_read
  structurally_equal_inner zero seen a b = none
  structurally_equal_inner (suc fuel) seen a b =
      if a == b
      then some true
      else same_read (structurally_equal_inner fuel seen)
          (structurally_equal_inner fuel ((a, b) ∷ seen)) seen a b (look a) (look b)

  unfoldable pub structurally_equal : ℕ → TypeId → TypeId → Check
  unfolding structurally_equal_inner
  structurally_equal size a b = structurally_equal_inner (deep_enough size) [] a b
