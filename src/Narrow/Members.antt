-- ===== src/Narrow/Members.antt =====
-- src/bridge/narrow.rs, the functions that narrow a type: which members of a union a test keeps. A
-- type that is no union is narrowed alone, or as the union of itself. `none` is the panic of an id
-- out of bounds.
pub mod Kept
pub mod Sides
pub mod Truthy
use ts_rust.Prelude.{
  ℕ, Bool, true, false, ◌&&◌, ◌||◌, not, List, [], ◌∷◌, ◌++◌, Option, none, some, if◌then◌else◌,
  is_empty, filter,
}
use ts_rust.Types.{
  TypeId, Name, Ty, number, string, boolean, null, undefined, any, unknown, error, function, object,
  array, union, string_literal, number_literal, boolean_literal, generic_parameter,
}
use ts_rust.Types.Fixed
use ts_rust.Types.Number.{is_zero}
use ts_rust.Types.Equality.{bool_eq}
use ts_rust.Arena.{TypeArena}
use ts_rust.Arena.Read.{get}
use ts_rust.Arena.Union.{alloc_union}

-- Always false in a condition, and always true.
unfoldable pub is_definitely_falsy : Ty → Bool
unfolding is_zero
is_definitely_falsy null = true
is_definitely_falsy undefined = true
is_definitely_falsy (boolean_literal b) = not b
is_definitely_falsy (number_literal n) = is_zero n
is_definitely_falsy (string_literal s) = is_empty s
is_definitely_falsy _ = false

unfoldable pub is_definitely_truthy : Ty → Bool
unfolding is_zero
is_definitely_truthy (object _) = true
is_definitely_truthy (array _) = true
is_definitely_truthy (function _) = true
is_definitely_truthy (boolean_literal b) = b
is_definitely_truthy (number_literal n) = not (is_zero n)
is_definitely_truthy (string_literal s) = not (is_empty s)
is_definitely_truthy _ = false

unfoldable pub may_be : Bool → Ty → Bool
unfolding is_definitely_falsy is_definitely_truthy
may_be want_truthy ty =
    if want_truthy then not (is_definitely_falsy ty) else not (is_definitely_truthy ty)

-- `is_target` and `is_open` of `narrow_by_nullish`, and what it keeps.
unfoldable pub is_target : Bool → Bool → Ty → Bool
is_target target_is_null is_loose null = is_loose || target_is_null
is_target target_is_null is_loose undefined = is_loose || not target_is_null
is_target target_is_null is_loose _ = false

unfoldable pub is_open : Ty → Bool
is_open any = true
is_open unknown = true
is_open error = true
is_open (generic_parameter _ _ _) = true
is_open _ = false

unfoldable pub keeps_nullish : Bool → Bool → Bool → Ty → Bool
unfolding is_target is_open bool_eq
keeps_nullish target_is_null is_loose want_match ty =
    is_open ty || bool_eq (is_target target_is_null is_loose ty) want_match

unfoldable pub is_nullish : Ty → Bool
is_nullish null = true
is_nullish undefined = true
is_nullish _ = false

module _ (a : TypeArena) where
  abbrev pub prepend_kept : Bool → TypeId → Option (List TypeId) → Option (List TypeId)
  prepend_kept b m none = none
  prepend_kept true m (some kept) = some (m ∷ kept)
  prepend_kept false m (some kept) = some kept

  abbrev pub keep_one :
      (Ty → Bool) → TypeId → Option Ty → Option (List TypeId) → Option (List TypeId)
  keep_one keep m none kept = none
  keep_one keep m (some ty) kept = prepend_kept (keep ty) m kept

  -- `members.into_iter().filter(|&m| ..).collect()`, the question asked of the type of each.
  unfoldable pub filter_members : (Ty → Bool) → List TypeId → Option (List TypeId)
  filter_members keep [] = some []
  filter_members keep (m ∷ members) = keep_one keep m (get a m) (filter_members keep members)

module _ (digest : List TypeId → ℕ) where
  abbrev pub union_of : TypeArena → Option (List TypeId) → Option (TypeArena × TypeId)
  union_of a none = none
  union_of a (some kept) = alloc_union digest a kept

  -- What `narrow_truthy`, `narrow_by_nullish` and `narrow_to_non_nullish` share.
  abbrev pub narrow_read :
      TypeArena → TypeId → (Ty → Bool) → Option Ty → Option (TypeArena × TypeId)
  narrow_read a id keep none = none
  narrow_read a id keep (some (union members)) = union_of a (filter_members a keep members)
  narrow_read a id keep (some ty) = some (a, if keep ty then id else Fixed.never)

  unfoldable pub narrow_members : TypeArena → TypeId → (Ty → Bool) → Option (TypeArena × TypeId)
  unfolding filter_members
  narrow_members a id keep = narrow_read a id keep (get a id)

  unfoldable pub narrow_truthy : TypeArena → TypeId → Bool → Option (TypeArena × TypeId)
  unfolding narrow_members
  narrow_truthy a id want_truthy = narrow_members a id (may_be want_truthy)

  unfoldable pub narrow_by_nullish :
      TypeArena → TypeId → Bool → Bool → Bool → Option (TypeArena × TypeId)
  unfolding narrow_members
  narrow_by_nullish a id target_is_null is_loose want_match =
      narrow_members a id (keeps_nullish target_is_null is_loose want_match)

  unfoldable pub narrow_to_non_nullish : TypeArena → TypeId → Option (TypeArena × TypeId)
  unfolding narrow_members
  narrow_to_non_nullish a id = narrow_members a id (λ ty. not (is_nullish ty))
