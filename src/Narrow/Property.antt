-- ===== src/Narrow/Property.antt =====
-- src/bridge/narrow.rs, the narrowings of a union of objects by a property of its members: whether it
-- is there, what literals it may equal, and whether it may be true. A type that is no union is left
-- as it is.
pub mod Common
pub mod Keeps
pub mod Literals
use ts_rust.Prelude.{
  ℕ, Bool, true, false, ◌&&◌, ◌||◌, not, List, [], ◌∷◌, Option, none, some, if◌then◌else◌, ◌==◌,
  Check, any?,
}
use ts_rust.Types.{
  TypeId, Name, PropertyEntry, Ty, number, string, boolean, object, union, string_literal,
  number_literal, boolean_literal,
}
use ts_rust.Arena.{TypeArena}
use ts_rust.Arena.Read.{get}
use ts_rust.Relation.Empty.{find_property}
use ts_rust.Narrow.Members.{union_of, may_be, is_open}
use ts_rust.Narrow.Each.{contains, members_of, literal_widens_to}

abbrev pub type_id_of : Option PropertyEntry → Option TypeId
type_id_of none = none
type_id_of (some entry) = some entry.type_id

-- The type of a member's property, if the member is an object that has it.
unfoldable pub property_type : Name → Ty → Option TypeId
unfolding find_property
property_type property (object o) = type_id_of (find_property property o.properties)
property_type property _ = none

abbrev pub ask : (Ty → Check) → Option Ty → Check
ask question none = none
ask question (some ty) = question ty

abbrev pub is_only : List TypeId → List TypeId → Bool
is_only literals (candidate ∷ []) = contains literals candidate
is_only literals _ = false

-- `property_may_equal`, for two ids that differ.
unfoldable pub may_equal : Ty → Ty → Bool
unfolding is_open literal_widens_to
may_equal candidate literal = is_open candidate || literal_widens_to candidate literal

module _ (a : TypeArena) where
  unfoldable pub property_may_equal : TypeId → TypeId → Check
  unfolding may_equal
  property_may_equal candidate literal =
      if candidate == literal
      then some true
      else ask (λ c. ask (λ l. some (may_equal c l)) (get a literal)) (get a candidate)

  -- Whether a candidate for the property's type may be true, or false.
  unfoldable pub candidate_may_be : Bool → TypeId → Check
  unfolding may_be
  candidate_may_be want_truthy candidate =
      ask (λ ty. some (may_be want_truthy ty)) (get a candidate)

  abbrev pub candidates_may_be : Bool → List TypeId → Check
  candidates_may_be want_truthy candidates = any? (candidate_may_be want_truthy) candidates

  abbrev pub candidates_match : List TypeId → Bool → List TypeId → Check
  candidates_match literals want_match candidates =
      if want_match
      then any? (λ candidate. any? (λ literal. property_may_equal candidate literal) literals)
          candidates
      else some (not (is_only literals candidates))

  -- A member without the property is kept; of another its property's candidates are asked.
  abbrev pub keep_property : (List TypeId → Check) → Option TypeId → Check
  keep_property question none = some true
  keep_property question (some id) = ask (λ ty. question (members_of ty id)) (get a id)

  unfoldable pub keep_member : Name → (List TypeId → Check) → TypeId → Check
  unfolding property_type
  keep_member property question member =
      ask (λ ty. keep_property question (property_type property ty)) (get a member)

  abbrev pub prepend_if : Check → TypeId → Option (List TypeId) → Option (List TypeId)
  prepend_if none member kept = none
  prepend_if (some b) member none = none
  prepend_if (some b) member (some kept) = some (if b then member ∷ kept else kept)

  unfoldable pub keep_members : (TypeId → Check) → List TypeId → Option (List TypeId)
  keep_members keep [] = some []
  keep_members keep (member ∷ members) = prepend_if (keep member) member (keep_members keep members)

module _ (digest : List TypeId → ℕ) (a : TypeArena) (id : TypeId) where
  abbrev pub narrow_union : (TypeId → Check) → Option Ty → Option (TypeArena × TypeId)
  narrow_union keep none = none
  narrow_union keep (some (union members)) = union_of digest a (keep_members a keep members)
  narrow_union keep (some _) = some (a, id)

  unfoldable pub narrow_by_property_literals :
      Name → List TypeId → Bool → Option (TypeArena × TypeId)
  unfolding keep_members keep_member property_may_equal any?
  narrow_by_property_literals property literals want_match =
      narrow_union (keep_member a property (candidates_match a literals want_match)) (get a id)

  unfoldable pub narrow_by_property_truthiness : Name → Bool → Option (TypeArena × TypeId)
  unfolding keep_members keep_member candidate_may_be any?
  narrow_by_property_truthiness property want_truthy =
      narrow_union (keep_member a property (candidates_may_be a want_truthy)) (get a id)
