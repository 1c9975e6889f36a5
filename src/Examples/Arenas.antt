-- ===== src/Examples/Arenas.antt =====
-- The theorems on the arena, applied to arenas that grow out of `new`; every type here has the same
-- digest, so that the second one collides with the first.
use ts_rust.Prelude.{
  ℕ, ◌<◌, ◌^◌, ◌≡◌, ◌≢◌, ◌↔◌, refl, true, false, [], ◌∷◌, ◌++◌, Option, some, arith, get_elem?,
  length,
}
use ts_rust.Types.{TypeId, Ty, ObjectType, object, array}
use ts_rust.Arena.{TypeArena}
use ts_rust.Arena.Store.{blank, new, push_all, push, lookup}
use ts_rust.Arena.Read.{get, get_within, look_through, empty_object}
use ts_rust.Arena.Read.Sound.{IsSound, is_wrapper, get_total}
use ts_rust.Arena.Read.Later.{Later, Reads, get_later}
use ts_rust.Arena.Read.Grows.{Later-push}
use ts_rust.Arena.Alloc.{
  is_internable, holds, find_slot, add_first, add_collided, from_collided, from_existing,
  from_table, alloc,
}
use ts_rust.Arena.Alloc.Interns.{IsTidy}
use ts_rust.Arena.Alloc.Keeps.{alloc_total, alloc-keeps}
use ts_rust.Arena.Alloc.Unique.{alloc_unique}
use ts_rust.Types.Equality.{type_eq}
use ts_rust.Arena.Declare.Names.{display_name-name_ref}
use ts_rust.Arena.Declare.{
  record_name, name_ref, display_name, alloc_ref, resolve_ref, clear, next_generation,
}
use ts_rust.Arena.Declare.Sound.{alloc_ref_lem, fresh_ref, fresh_ref-IsSound}
use ts_rust.Arena.Declare.Resolve.{resolve_ref_lem}
use ts_rust.Arena.Declare.Clear.{new-IsSound, new-IsTidy, new-types, primitives, clear_lem}

abbrev digest : Ty → ℕ
digest ty = 0

abbrev one : TypeArena
one = record blank { types = primitives ++ array 0 ∷ []; interned = (0, 10) ∷ [] }

abbrev two : TypeArena
two = record one { types = one.types ++ array 1 ∷ []; collided = (0, 11 ∷ []) ∷ [] }

new_room : length new.types < 2 ^ 32
new_room = rw new-types (omega arith)

alloc_one : ◌≡◌ {A = Option (TypeArena × TypeId)} (alloc digest new (array 0)) (some (one, 10))
unfolding alloc from_table add_first new push_all push is_internable lookup
alloc_one = refl

alloc_two : ◌≡◌ {A = Option (TypeArena × TypeId)} (alloc digest one (array 1)) (some (two, 11))
unfolding alloc from_table from_existing from_collided add_collided push is_internable lookup holds
    find_slot type_eq
alloc_two = refl

internable : (i : TypeId) → is_internable (array i) ≡ true
unfolding is_internable
internable i = refl

pub one-keeps : IsSound one × IsTidy one
one-keeps =
    alloc-keeps digest new one (array 0) 10 new-IsSound new-IsTidy new_room (internable 0)
      (rw new-types (omega arith)) alloc_one

alloc_unique_example :
    ◌≡◌ {A = Option (TypeArena × TypeId)} (alloc digest two (array 0)) (some (two, 10))
    × (◌≡◌ {A = TypeId} 10 11 ↔ (array 0 ≡ array 1))
alloc_unique_example =
    alloc_unique digest new one two (array 0) (array 1) 10 11 new-IsTidy one-keeps.1 new_room
      (omega arith) (internable 0) (internable 1) alloc_one alloc_two

alloc_total_example :
    (b : TypeArena) × (i : TypeId) × (alloc digest one (array 1) ≡ some (b, i))
    × (get_elem? b.types i ≡ some (array 1))
    × IsSound b
    × IsTidy b
alloc_total_example =
    alloc_total digest one (array 1) one-keeps.0 one-keeps.1 (omega arith) (internable 1)
      (omega arith)

get_total_example : (ty : Ty) × (get one 10 ≡ some ty) × (is_wrapper ty ≡ false)
get_total_example = get_total one 10 one-keeps.0 (omega arith)

get_one : get one 10 ≡ some (array 0)
unfolding get
get_one = unfold get_within look_through in refl

get_later_example : Reads (get two 10) (array 0)
get_later_example =
    get_later one two one-keeps.0 (Later-push one two (array 1) refl refl) (omega arith) 10
      (array 0) (omega arith) get_one

alloc_ref_lem_example :
    (alloc_ref one ≡ (fresh_ref one one-keeps.0, 11))
    × IsSound (alloc_ref one).0
    × (get (alloc_ref one).0 (alloc_ref one).1 ≡ some empty_object)
alloc_ref_lem_example = alloc_ref_lem one one-keeps.0 (omega arith) (omega arith)

-- A declaration in slot 11, and a body that mentions it.
abbrev declared : TypeArena
declared = fresh_ref one one-keeps.0

abbrev pub body_type : ObjectType
body_type = record {
  properties = (record { name = 110 ∷ []; type_id = 11; optional = false; is_method = false }) ∷ [];
}

abbrev pub with_body : TypeArena
with_body = record declared {
  types = declared.types ++ object body_type ∷ [];
  collided = (0, 12 ∷ []) ∷ [];
}

alloc_body :
    ◌≡◌ {A = Option (TypeArena × TypeId)}
      (alloc digest declared (object body_type))
      (some (with_body, 12))
unfolding alloc from_table from_existing from_collided add_collided push is_internable lookup holds
    find_slot type_eq
alloc_body = refl

pub with_body-IsSound : IsSound with_body
unfolding lookup
with_body-IsSound =
    (alloc-keeps digest declared with_body (object body_type) 12 (fresh_ref-IsSound one one-keeps.0)
      declared-IsTidy (omega arith) (unfold is_internable in refl) (omega arith, tt) alloc_body).0
  where
    declared-IsTidy : IsTidy declared
    declared-IsTidy = record {
      first = λ d id h. omega (arith, one-keeps.1.first d id h);
      others = λ d. one-keeps.1.others d;
    }

resolve_ref_lem_example :
    (b : TypeArena) × (resolve_ref with_body 11 12 ≡ some b)
    × IsSound b
    × (b.types ≡ with_body.types)
    × (get b 11 ≡ some (object body_type))
    × ((i : TypeId) (ty : Ty) → i < 13 → get with_body i ≡ some ty → Reads (get b i) ty)
    × (b.generation ≢ 0)
resolve_ref_lem_example =
    resolve_ref_lem with_body 11 12 0 body_type with_body-IsSound (omega arith) refl refl

clear_lem_example :
    (clear one ≡ record new { generation = next_generation 0 }) × ((clear one).generation ≢ 0)
clear_lem_example = clear_lem one new_one (omega arith)
  where
    new_one : Later new one
    new_one = Later-push new one (array 0) (rw new-types refl) (unfold new push_all push in refl)

display_name-name_ref_example :
    (b : TypeArena) × (name_ref declared 11 record_name ≡ some b)
    × (display_name b 11 ≡ some (some record_name))
    × (b.types ≡ declared.types)
display_name-name_ref_example = display_name-name_ref declared 11 0 record_name refl (omega arith)
