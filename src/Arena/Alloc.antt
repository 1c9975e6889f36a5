-- ===== src/Arena/Alloc.antt =====
-- `TypeArena::alloc` and what is built on it: hash-consing with a digest, every hit of which is
-- compared with the slot. `none` is the panic of an id out of bounds.
pub mod Interns
pub mod Unique
pub mod Keeps
use ts_rust.Prelude.{
  ℕ, Bool, true, false, not, List, [], ◌∷◌, ◌++◌, Option, none, some, ltb, if◌then◌else◌, get_elem?,
  Check,
}
use ts_rust.Types.{
  TypeId, DeclSlot, Ty, function, object, array, string_literal, number_literal, boolean_literal,
  generic_parameter, named, app, intersection,
}
use ts_rust.Types.Equality.{type_eq}
use ts_rust.Arena.{TypeArena}
use ts_rust.Arena.Store.{lookup, insert, push, fixed_slots}

-- The kinds that share one id by content.
unfoldable pub is_internable : Ty → Bool
is_internable (object _) = true
is_internable (array _) = true
is_internable (function _) = true
is_internable (string_literal _) = true
is_internable (number_literal _) = true
is_internable (boolean_literal _) = true
is_internable (generic_parameter _ _ _) = true
is_internable (named _ _) = true
is_internable (app _ _ _) = true
is_internable (intersection _) = true
is_internable _ = false

-- `self.types[id] == ty`.
abbrev pub slot_eq : Ty → Option Ty → Check
slot_eq ty none = none
slot_eq ty (some t) = some (type_eq t ty)

unfoldable pub holds : List Ty → Ty → TypeId → Check
holds types ty id = slot_eq ty (get_elem? types id)

abbrev pub or_later : Check → TypeId → Option (Option TypeId) → Option (Option TypeId)
or_later none id later = none
or_later (some true) id later = some (some id)
or_later (some false) id later = later

-- `ids.iter().find(|id| self.types[id] == ty)`.
unfoldable pub find_slot : List Ty → Ty → List TypeId → Option (Option TypeId)
find_slot types ty [] = some none
find_slot types ty (id ∷ ids) =
    let later = find_slot types ty ids in or_later (holds types ty id) id later

-- The ids of a digest; `collided.entry(digest).or_default()`.
abbrev pub or_default : Option (List TypeId) → List TypeId
or_default none = []
or_default (some ids) = ids

module _ (digest : Ty → ℕ) where
  -- A type that shares its digest with an earlier, different one, and has no slot yet.
  unfoldable pub add_collided : TypeArena → Ty → TypeArena × TypeId
  add_collided a ty =
      let (b, id) = push a ty in
      let ids = or_default (lookup (digest ty) b.collided) in
      (record b { collided = insert (digest ty) (ids ++ id ∷ []) b.collided }, id)

  unfoldable pub from_collided :
      TypeArena → Ty → Option (Option TypeId) → Option (TypeArena × TypeId)
  from_collided a ty none = none
  from_collided a ty (some (some found)) = some (a, found)
  from_collided a ty (some none) = some (add_collided a ty)

  unfoldable pub add_first : TypeArena → Ty → TypeArena × TypeId
  add_first a ty =
      let (b, id) = push a ty in (record b { interned = insert (digest ty) id b.interned }, id)

  unfoldable pub from_existing : TypeArena → Ty → TypeId → Check → Option (TypeArena × TypeId)
  from_existing a ty existing none = none
  from_existing a ty existing (some true) = some (a, existing)
  from_existing a ty existing (some false) =
      from_collided a ty (find_slot a.types ty (or_default (lookup (digest ty) a.collided)))

  unfoldable pub from_table : TypeArena → Ty → Option TypeId → Option (TypeArena × TypeId)
  from_table a ty none = some (add_first a ty)
  from_table a ty (some existing) = from_existing a ty existing (holds a.types ty existing)

  unfoldable pub alloc : TypeArena → Ty → Option (TypeArena × TypeId)
  alloc a ty =
      if is_internable ty then from_table a ty (lookup (digest ty) a.interned) else some (push a ty)

  unfoldable pub alloc_named : TypeArena → DeclSlot → TypeId → Option (TypeArena × TypeId)
  alloc_named a slot inner =
      if ltb inner fixed_slots then some (a, inner) else alloc a (named slot inner)

  unfoldable pub alloc_app :
      TypeArena → DeclSlot → List TypeId → TypeId → Option (TypeArena × TypeId)
  alloc_app a slot args body = alloc a (app slot args body)
