-- ===== src/Arena/Read.antt =====
-- `TypeArena::get`, and the ways of looking at a slot: `raw`, `slot_of`, `decl_parts`, `shallow`.
-- `none` is an index out of bounds, which panics, or the loop's fuel running out.
pub mod Sound
pub mod Later
pub mod Grows
pub mod Descends
use ts_rust.Prelude.{
  ℕ, zero, suc, Bool, true, false, List, [], Option, none, some, length, get_elem?,
}
use ts_rust.Types.{TypeId, DeclSlot, Ty, ObjectType, object, ref, named, app}
use ts_rust.Arena.{TypeArena, DeclInfo, DeclState, resolving, resolved, failed, name_only}

-- What a `Ref` reads as while its declaration has no body.
abbrev pub empty_object : Ty
empty_object = object (record { properties = [] })

unfoldable pub raw : TypeArena → TypeId → Option Ty
raw a id = get_elem? a.types id

unfoldable pub read_state : (TypeId → Option Ty) → DeclState → Option Ty
read_state rec (resolved body) = rec body
read_state rec _ = some empty_object

unfoldable pub read_decl : (TypeId → Option Ty) → Option DeclInfo → Option Ty
unfolding read_state
read_decl rec none = none
read_decl rec (some d) = read_state rec d.state

-- One round of the loop of `get`.
unfoldable pub look_through : TypeArena → (TypeId → Option Ty) → Option Ty → Option Ty
unfolding read_decl
look_through a rec none = none
look_through a rec (some (ref slot)) = read_decl rec (get_elem? a.decls slot)
look_through a rec (some (named _ inner)) = rec inner
look_through a rec (some (app _ _ body)) = rec body
look_through a rec (some ty) = some ty

unfoldable pub get_within : TypeArena → ℕ → TypeId → Option Ty
unfolding look_through
get_within a zero id = none
get_within a (suc fuel) id = look_through a (get_within a fuel) (get_elem? a.types id)

-- A wrapper is allocated after what it wraps and a body is no wrapper, so this many rounds do.
unfoldable pub get : TypeArena → TypeId → Option Ty
unfolding get_within
get a id = get_within a (suc (suc (length a.types))) id

-- The wrappers alone: a `Ref` is where it stops.
unfoldable pub unwrap : (TypeId → Option Ty) → Option Ty → Option Ty
unwrap rec none = none
unwrap rec (some (named _ inner)) = rec inner
unwrap rec (some (app _ _ body)) = rec body
unwrap rec (some ty) = some ty

unfoldable pub shallow_within : TypeArena → ℕ → TypeId → Option Ty
unfolding unwrap
shallow_within a zero id = none
shallow_within a (suc fuel) id = unwrap (shallow_within a fuel) (get_elem? a.types id)

unfoldable pub shallow : TypeArena → TypeId → Option Ty
unfolding shallow_within
shallow a id = shallow_within a (suc (length a.types)) id

unfoldable pub slot_of : TypeArena → TypeId → Option DeclSlot
slot_of a id = elim (get_elem? a.types id) [
  | none ↦ none
  | some ty ↦ elim ty [ ref slot ↦ some slot | _ ↦ none ]
]

abbrev pub resolved_part : DeclSlot → DeclState → Option (DeclSlot × TypeId)
resolved_part slot (resolved body) = some (slot, body)
resolved_part slot _ = none

abbrev pub parts_of_decl : DeclSlot → Option DeclInfo → Option (DeclSlot × TypeId)
parts_of_decl slot none = none
parts_of_decl slot (some d) = resolved_part slot d.state

unfoldable pub decl_parts : TypeArena → TypeId → Option (DeclSlot × TypeId)
decl_parts a id = elim (get_elem? a.types id) [
  | none ↦ none
  | some ty ↦ elim ty [
    | ref slot ↦ parts_of_decl slot (get_elem? a.decls slot)
    | named slot inner ↦ some (slot, inner)
    | _ ↦ none
  ]
]
