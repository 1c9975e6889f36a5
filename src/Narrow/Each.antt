-- ===== src/Narrow/Each.antt =====
-- src/bridge/narrow.rs, the narrowings that may put other types in a member's place: by `typeof` and
-- by equality with literals. A type that is no union is the union of itself.
pub mod Tag
pub mod Gather
pub mod Tagged
pub mod Typeof
pub mod Literals
use ts_rust.Prelude.{
  ℕ, Bool, true, false, ◌&&◌, ◌||◌, not, List, [], ◌∷◌, ◌++◌, Option, none, some, if◌then◌else◌,
  ◌==◌, Check, any?,
}
use ts_rust.Types.{
  TypeId, Name, Ty, number, string, boolean, null, undefined, any, unknown, error, function, object,
  array, union, string_literal, number_literal, boolean_literal, generic_parameter,
}
use ts_rust.Types.Fixed
use ts_rust.Types.Names.{ids_eq}
use ts_rust.Types.Equality.{bool_eq}
use ts_rust.Arena.{TypeArena}
use ts_rust.Arena.Read.{get}
use ts_rust.Arena.Alloc.{alloc}
use ts_rust.Narrow.Each.Tag
use ts_rust.Narrow.Members.{filter_members, union_of}

unfoldable pub matches_typeof_tag : Ty → Name → Bool
unfolding ids_eq
matches_typeof_tag string tag = ids_eq tag Tag.string
matches_typeof_tag (string_literal _) tag = ids_eq tag Tag.string
matches_typeof_tag number tag = ids_eq tag Tag.number
matches_typeof_tag (number_literal _) tag = ids_eq tag Tag.number
matches_typeof_tag boolean tag = ids_eq tag Tag.boolean
matches_typeof_tag (boolean_literal _) tag = ids_eq tag Tag.boolean
matches_typeof_tag undefined tag = ids_eq tag Tag.undefined
matches_typeof_tag (object _) tag = ids_eq tag Tag.object
matches_typeof_tag (array _) tag = ids_eq tag Tag.object
matches_typeof_tag null tag = ids_eq tag Tag.object
matches_typeof_tag (function _) tag = ids_eq tag Tag.function
matches_typeof_tag _ tag = false

unfoldable pub primitive_for_tag : Name → Option TypeId
unfolding ids_eq
primitive_for_tag tag =
    if ids_eq tag Tag.string
    then some Fixed.string
    else if ids_eq tag Tag.number
    then some Fixed.number
    else if ids_eq tag Tag.boolean
    then some Fixed.boolean
    else if ids_eq tag Tag.undefined
    then some Fixed.undefined
    else none

abbrev pub unwrap_or : Option TypeId → TypeId → TypeId
unwrap_or none id = id
unwrap_or (some other) id = other

-- `any`, the error type and a type parameter: kept on both sides.
unfoldable pub is_opaque : Ty → Bool
is_opaque any = true
is_opaque error = true
is_opaque (generic_parameter _ _ _) = true
is_opaque _ = false

unfoldable pub is_unknown : Ty → Bool
is_unknown unknown = true
is_unknown _ = false

-- What `narrow_by_typeof` keeps for a member of type `ty`.
unfoldable pub typeof_kept : Name → Bool → TypeId → Ty → List TypeId
unfolding matches_typeof_tag primitive_for_tag is_opaque is_unknown bool_eq
typeof_kept tag want_match member ty =
    if is_opaque ty
    then member ∷ []
    else if is_unknown ty
    then (if want_match then unwrap_or (primitive_for_tag tag) member ∷ [] else member ∷ [])
    else if bool_eq (matches_typeof_tag ty tag) want_match
    then member ∷ []
    else []

abbrev pub append_kept : Option (List TypeId) → Option (List TypeId) → Option (List TypeId)
append_kept none rest = none
append_kept (some kept) none = none
append_kept (some kept) (some rest) = some (kept ++ rest)

unfoldable pub keep_each : (TypeId → Option (List TypeId)) → List TypeId → Option (List TypeId)
keep_each f [] = some []
keep_each f (m ∷ members) = append_kept (f m) (keep_each f members)

-- `union_members(arena, id).unwrap_or_else(|| vec![id])`.
abbrev pub members_of : Ty → TypeId → List TypeId
members_of (union members) id = members
members_of _ id = id ∷ []

abbrev pub with_type : Option Ty → (Ty → Option (List TypeId)) → Option (List TypeId)
with_type none f = none
with_type (some ty) f = f ty

abbrev pub contains : List TypeId → TypeId → Bool
contains [] id = false
contains (other ∷ ids) id = other == id || contains ids id

unfoldable pub literal_widens_to : Ty → Ty → Bool
literal_widens_to string (string_literal _) = true
literal_widens_to number (number_literal _) = true
literal_widens_to boolean (boolean_literal _) = true
literal_widens_to wide literal = false

module _ (a : TypeArena) (literals : List TypeId) where
  unfoldable pub matching_kept : TypeId → Ty → Option (List TypeId)
  unfolding filter_members literal_widens_to
  matching_kept member any = some (member ∷ [])
  matching_kept member error = some (member ∷ [])
  matching_kept member (generic_parameter _ _ _) = some (member ∷ [])
  matching_kept member unknown = some literals
  matching_kept member string = filter_members a (literal_widens_to string) literals
  matching_kept member number = filter_members a (literal_widens_to number) literals
  matching_kept member boolean = filter_members a (literal_widens_to boolean) literals
  matching_kept member _ = some []

  unfoldable pub keep_matching : TypeId → Option (List TypeId)
  unfolding matching_kept
  keep_matching member =
      if contains literals member
      then some (member ∷ [])
      else with_type (get a member) (matching_kept member)

module _ (digest : List TypeId → ℕ) (a : TypeArena) (id : TypeId) where
  abbrev pub narrow_each_read :
      (TypeId → Option (List TypeId)) → Option Ty → Option (TypeArena × TypeId)
  narrow_each_read f none = none
  narrow_each_read f (some ty) = union_of digest a (keep_each f (members_of ty id))

  unfoldable pub narrow_by_typeof : Name → Bool → Option (TypeArena × TypeId)
  unfolding keep_each typeof_kept
  narrow_by_typeof tag want_match =
      narrow_each_read (λ m. with_type (get a m) (λ ty. some (typeof_kept tag want_match m ty)))
        (get a id)

  -- `narrow_by_literals` with `want_match`.
  unfoldable pub narrow_to_literals : List TypeId → Option (TypeArena × TypeId)
  unfolding keep_each keep_matching
  narrow_to_literals literals = narrow_each_read (keep_matching a literals) (get a id)
