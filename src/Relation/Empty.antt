-- ===== src/Relation/Empty.antt =====
-- `TypeArena::intersection_reduces_to_never` of src/arena.rs, without its memo per id:
-- whether two object members of an intersection disagree about a discriminant.
use ts_rust.Prelude.{
  refl, Bool, true, false, ◌||◌, List, [], ◌∷◌, Option, none, some, any, find, Check, any?, ◌&&?◌,
  ◌||?◌, Answers, &&?-Answers, ||?-Answers, any?-Answers, All-intro,
}
use ts_rust.Types.{
  Name, TypeId, PropertyEntry, ObjectType, Ty, object, union, intersection, string_literal,
  number_literal, boolean_literal,
}
use ts_rust.Types.Names.{ids_eq}
use ts_rust.Relation.View.{View, is_literal}
use ts_rust.Relation.Disjoint.{is_disjoint}
use ts_rust.Relation.Disjoint.Pairs.{alternatives, all_disjoint}
use ts_rust.Relation.Disjoint.Levels.{is_disjoint_lem}

-- `properties.iter().find(|p| p.name == name)`.
unfoldable pub find_property : Name → List PropertyEntry → Option PropertyEntry
unfolding ids_eq
find_property name ps = find (λ p. ids_eq p.name name) ps

module _ (v : View) where
  open v use {get}

  unfoldable pub objects_of : List TypeId → List ObjectType
  objects_of [] = []
  objects_of (m ∷ ms) = elim (get m) [ object o ↦ o ∷ objects_of ms | _ ↦ objects_of ms ]

  unfoldable pub is_unit : TypeId → Bool
  is_unit type_id = elim (get type_id) [
    | string_literal _ ↦ true
    | number_literal _ ↦ true
    | boolean_literal _ ↦ true
    | union alternatives ↦ any (λ a. is_literal (get a)) alternatives
    | _ ↦ false
  ]

  unfoldable pub conflict_with : PropertyEntry → Option PropertyEntry → Check
  unfolding is_disjoint is_unit
  conflict_with property none = some false
  conflict_with property (some other) =
      is_disjoint v property.type_id other.type_id
      &&? some (is_unit property.type_id || is_unit other.type_id)

  unfoldable pub objects_conflict : ObjectType → ObjectType → Check
  unfolding find_property conflict_with any?
  objects_conflict left right =
      any? (λ p. conflict_with p (find_property p.name right.properties)) left.properties

  -- Each object against the later ones.
  unfoldable pub any_conflict : List ObjectType → Check
  unfolding objects_conflict
  any_conflict [] = some false
  any_conflict (left ∷ rest) =
      let later = any_conflict rest in any? (objects_conflict left) rest ||? later

  unfoldable pub reduces : Ty → Check
  unfolding any_conflict objects_of
  reduces (intersection members) = any_conflict (objects_of members)
  reduces _ = some false

  unfoldable pub intersection_reduces_to_never : TypeId → Check
  unfolding reduces
  intersection_reduces_to_never id = reduces (get id)

  conflict_with-Answers :
      (p : PropertyEntry) (o : Option PropertyEntry) → Answers (conflict_with p o)
  unfolding conflict_with
  conflict_with-Answers p none = (false, refl)
  conflict_with-Answers p (some other) =
      &&?-Answers
        (
          all_disjoint v (alternatives v p.type_id) (alternatives v other.type_id),
          is_disjoint_lem v p.type_id other.type_id,
        )
        (is_unit p.type_id || is_unit other.type_id, refl)

  any_conflict-Answers : (os : List ObjectType) → Answers (any_conflict os)
  unfolding any_conflict objects_conflict
  any_conflict-Answers [] = (false, refl)
  any_conflict-Answers (left ∷ rest) =
      ||?-Answers
        (any?-Answers (objects_conflict left) rest (
          All-intro _ rest (λ right. any?-Answers _ left.properties (
            All-intro _ left.properties
              (λ p. conflict_with-Answers p (find_property p.name right.properties))))))
        (any_conflict-Answers rest)

  reduces-Answers : (t : Ty) → Answers (reduces t)
  unfolding reduces
  reduces-Answers (intersection members) = any_conflict-Answers (objects_of members)
  reduces-Answers t = (false, refl)

  -- The question is always answered.
  pub intersection_reduces_to_never-Answers :
      (id : TypeId) → Answers (intersection_reduces_to_never id)
  unfolding intersection_reduces_to_never
  intersection_reduces_to_never-Answers id = reduces-Answers (get id)
