-- ===== src/Arena/Declare/Names.antt =====
-- The names of declarations: `builtin_slot`, `name_ref` and `display_name`.
use ts_rust.Prelude.{
  ◌<◌, ◌≡◌, refl, List, ◌∷◌, none, some, length, get_elem?, set, get_elem?-lt, get_elem?-set_self,
  Option-cases, inl, inr,
}
use ts_rust.Types.{TypeId, DeclSlot, Name, ref}
use ts_rust.Types.Names.{ids_eq_refl}
use ts_rust.Arena.{TypeArena}
use ts_rust.Arena.Store.{lookup_name}
use ts_rust.Arena.Read.{slot_of}
use ts_rust.Arena.Declare.{
  builtin_slot, existing_builtin_slot, alloc_name, add_builtin, name_ref, name_at, display_name,
  decl_name,
}

lookup_name-insert :
    (name : Name) (slot : DeclSlot) (m : List (Name × DeclSlot))
    → lookup_name name ((name, slot) ∷ m) ≡ some slot
unfolding lookup_name
lookup_name-insert name slot m = rw (ids_eq_refl name) refl

builtin_slot-hit :
    (a : TypeArena) (name : Name) (slot : DeclSlot)
    → lookup_name name a.builtin_slots ≡ some slot
    → builtin_slot a name ≡ (a, slot)
unfolding builtin_slot
builtin_slot-hit a name slot h = rw (h, builtin_slot) refl

builtin_slot-miss :
    (a : TypeArena) (name : Name)
    → lookup_name name a.builtin_slots ≡ none
    → builtin_slot a name ≡ add_builtin name (alloc_name a name)
unfolding builtin_slot
builtin_slot-miss a name h = rw (h, builtin_slot) refl

added :
    (name : Name) (p : TypeArena × DeclSlot)
    → lookup_name name (add_builtin name p).0.builtin_slots ≡ some (add_builtin name p).1
added name p = lookup_name-insert name p.1 p.0.builtin_slots

-- The slot of a built-in, once it has been asked for, is found by name, and to ask for it again
-- gives the same slot and changes nothing.
pub builtin_slot-again :
    (a : TypeArena) (name : Name)
    → (existing_builtin_slot (builtin_slot a name).0 name ≡ some (builtin_slot a name).1)
      × (builtin_slot (builtin_slot a name).0 name ≡ builtin_slot a name)
unfolding existing_builtin_slot
builtin_slot-again a name =
    (known, builtin_slot-hit (builtin_slot a name).0 name (builtin_slot a name).1 known)
  where
    known : lookup_name name (builtin_slot a name).0.builtin_slots ≡ some (builtin_slot a name).1
    known = elim (Option-cases (lookup_name name a.builtin_slots)) [
      | inl new ↦ rw (builtin_slot-miss a name new) (added name (alloc_name a name))
      | inr (slot, old) ↦ rw (builtin_slot-hit a name slot old) old
    ]

-- To name a `Ref` whose declaration the arena holds succeeds, and the `Ref` then prints under that
-- name, whatever name it had.
pub display_name-name_ref :
    (a : TypeArena) (reference : TypeId) (slot : DeclSlot) (name : Name)
    → get_elem? a.types reference ≡ some (ref slot)
    → slot < length a.decls
    → (b : TypeArena) × (name_ref a reference name ≡ some b)
      × (display_name b reference ≡ some (some name))
      × (b.types ≡ a.types)
unfolding name_ref display_name slot_of
display_name-name_ref a reference slot name is_ref below =
    let (d, e) = get_elem?-lt a.decls slot below in
    (
      record a { decls = set a.decls slot (record d { name = some name }) },
      rw (is_ref, name_ref, slot_of) (rw (e, name_at) refl),
      rw (is_ref, display_name)
          (rw (get_elem?-set_self a.decls slot (record d { name = some name }) below, decl_name)
            refl),
      refl,
    )
