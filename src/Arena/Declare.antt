-- ===== src/Arena/Declare.antt =====
-- Declarations: `alloc_name`, `builtin_slot`, `alloc_ref`, `resolve_ref`, `fail_ref`, `name_ref`, and
-- the names that ids print under; `clear`. `none` is the panic of a declaration out of bounds.
pub mod Sound
pub mod Resolve
pub mod Clear
pub mod Names
use ts_rust.Prelude.{
  ℕ, zero, suc, ◌+◌, ◌%◌, ◌^◌, Bool, true, false, ◌||◌, List, [], ◌∷◌, ◌++◌, Option, none, some,
  length, get_elem?, set, any, ◌==◌, if◌then◌else◌,
}
use ts_rust.Types.{TypeId, DeclSlot, Name, Ty, ref, named, app}
use ts_rust.Types.Names.{ids_eq}
use ts_rust.Arena.{TypeArena, DeclInfo, DeclState, resolving, resolved, failed, name_only}
use ts_rust.Arena.Store.{lookup_name, as_u32, push, fixed_slots}
use ts_rust.Arena.Read.{slot_of}

-- `self.decls.push(...)`.
abbrev pub push_decl : TypeArena → DeclState → Option Name → TypeArena
push_decl a st name = record a { decls = a.decls ++ (record { state = st; name = name }) ∷ [] }

unfoldable pub alloc_name : TypeArena → Name → TypeArena × DeclSlot
alloc_name a name = (push_decl a name_only (some name), as_u32 (length a.decls))

abbrev pub add_builtin : Name → TypeArena × DeclSlot → TypeArena × DeclSlot
add_builtin name (a, slot) = (record a { builtin_slots = (name, slot) ∷ a.builtin_slots }, slot)

unfoldable pub builtin_slot : TypeArena → Name → TypeArena × DeclSlot
builtin_slot a name = elim (lookup_name name a.builtin_slots) [
  | some slot ↦ (a, slot)
  | none ↦ add_builtin name (alloc_name a name)
]

unfoldable pub existing_builtin_slot : TypeArena → Name → Option DeclSlot
existing_builtin_slot a name = lookup_name name a.builtin_slots

unfoldable pub alloc_ref : TypeArena → TypeArena × TypeId
alloc_ref a = push (push_decl a resolving none) (ref (as_u32 (length a.decls)))

-- `self.decls[slot].state = st`.
abbrev pub with_state :
    List DeclInfo → DeclSlot → DeclState → Option DeclInfo → Option (List DeclInfo)
with_state ds slot st none = none
with_state ds slot st (some d) = some (set ds slot (record d { state = st }))

-- `wrapping_add(1)` of a `u64`.
abbrev pub next_generation : ℕ → ℕ
next_generation g = (g + 1) % 2 ^ 64

-- What remembers an answer about an id is emptied.
abbrev pub invalidate : TypeArena → List DeclInfo → TypeArena
invalidate a ds = record a {
  decls = ds;
  generation = next_generation a.generation;
  param_scan = [];
  equality_cache = [];
  empty_intersections = [];
}

abbrev pub resolve_at : TypeArena → TypeId → DeclSlot → Option TypeArena
resolve_at a body slot = elim (with_state a.decls slot (resolved body) (get_elem? a.decls slot)) [
  | none ↦ none
  | some ds ↦ some (invalidate a ds)
]

-- Without the debug assertions: an id that is no `Ref` is left alone.
unfoldable pub resolve_ref : TypeArena → TypeId → TypeId → Option TypeArena
resolve_ref a reference body = elim (slot_of a reference) [
  | none ↦ some a
  | some slot ↦ resolve_at a body slot
]

abbrev pub fail_at : TypeArena → DeclSlot → Option TypeArena
fail_at a slot = elim (with_state a.decls slot failed (get_elem? a.decls slot)) [
  | none ↦ none
  | some ds ↦ some (record a { decls = ds })
]

unfoldable pub fail_ref : TypeArena → TypeId → Option TypeArena
fail_ref a reference = elim (slot_of a reference) [ none ↦ some a | some slot ↦ fail_at a slot ]

abbrev pub name_at : TypeArena → Name → DeclSlot → Option TypeArena
name_at a name slot = elim (get_elem? a.decls slot) [
  | none ↦ none
  | some d ↦ some (record a { decls = set a.decls slot (record d { name = some name }) })
]

unfoldable pub name_ref : TypeArena → TypeId → Name → Option TypeArena
name_ref a reference name = elim (slot_of a reference) [
  | none ↦ some a
  | some slot ↦ name_at a name slot
]

-- `decls[slot].name`; the outer `none` is a slot out of bounds.
abbrev pub decl_name : List DeclInfo → DeclSlot → Option (Option Name)
decl_name ds slot = elim (get_elem? ds slot) [ none ↦ none | some d ↦ some d.name ]

unfoldable pub display_name : TypeArena → TypeId → Option (Option Name)
display_name a id = elim (get_elem? a.types id) [
  | none ↦ some none
  | some ty ↦ elim ty [
    | ref slot ↦ decl_name a.decls slot
    | named slot _ ↦ decl_name a.decls slot
    | _ ↦ some none
  ]
]

abbrev pub with_args : List TypeId → Option (Option Name) → Option (Option (Name × List TypeId))
with_args args none = none
with_args args (some none) = some none
with_args args (some (some name)) = some (some (name, args))

unfoldable pub app_parts : TypeArena → TypeId → Option (Option (Name × List TypeId))
app_parts a id = elim (get_elem? a.types id) [
  | none ↦ some none
  | some ty ↦ elim ty [ app slot args _ ↦ with_args args (decl_name a.decls slot) | _ ↦ some none ]
]

unfoldable pub mark_enum : TypeArena → TypeId → TypeArena
mark_enum a id = record a { enum_types = a.enum_types ++ id ∷ [] }

unfoldable pub is_enum : TypeArena → TypeId → Bool
is_enum a id = any (λ e. e == id) a.enum_types

-- `Record`, in UTF-8.
abbrev pub record_name : Name
record_name = 82 ∷ 101 ∷ 99 ∷ 111 ∷ 114 ∷ 100 ∷ []

unfoldable pub record_value_type : TypeArena → TypeId → Option TypeId
record_value_type a id = elim (lookup_name record_name a.builtin_slots) [
  | none ↦ none
  | some wanted ↦ elim (get_elem? a.types id) [
    | none ↦ none
    | some ty ↦ elim ty [
      | app slot args _ ↦ if slot == wanted then get_elem? args 1 else none
      | _ ↦ none
    ]
  ]
]

-- `Vec::truncate`.
abbrev pub truncate {ℓ} : {A : Type ℓ} → ℕ → List A → List A
truncate zero xs = []
truncate (suc n) [] = []
truncate (suc n) (x ∷ xs) = x ∷ truncate n xs

unfoldable pub clear : TypeArena → TypeArena
clear a = record {
  types = truncate fixed_slots a.types;
  builtin_slots = [];
  interned = [];
  collided = [];
  interned_unions = [];
  param_scan = [];
  equality_cache = [];
  empty_intersections = [];
  generation = next_generation a.generation;
  decls = [];
  enum_types = [];
}
