-- ===== src/Arena/Union.antt =====
-- `alloc_union` of src/arena.rs: nested unions are flattened, `never` and what is there already by
-- shape is dropped, and the finished list of members is interned by its own digest, the parameter
-- `digest`. `none` is the panic of an id out of bounds. The queue is the code's vector with its end
-- first.
pub mod Leaves
pub mod Flatten
pub mod Distinct
pub mod Sound
use ts_rust.Prelude.{
  ℕ, zero, suc, ◌+◌, Bool, true, false, List, [], ◌∷◌, ◌++◌, Option, none, some, length, get_elem?,
  Check, any?, if◌then◌else◌,
}
use ts_rust.Types.{TypeId, Ty, union, never}
use ts_rust.Types.Fixed
use ts_rust.Types.Equality.{list_eq, id_eq}
use ts_rust.Relation.Structural.{structurally_equal}
use ts_rust.Arena.{TypeArena}
use ts_rust.Arena.Store.{lookup, insert, push}
use ts_rust.Arena.Read.{get}

-- `self.structurally_equal(x, y)`.
unfoldable pub same_shape : TypeArena → TypeId → TypeId → Check
same_shape a x y = structurally_equal (get a) (length a.types) x y

-- `queue.extend(nested)`, and the vector of the members turned end first.
unfoldable pub extend : List TypeId → List TypeId → List TypeId
extend [] queue = queue
extend (id ∷ nested) queue = extend nested (id ∷ queue)

abbrev pub keep_or_drop :
    List TypeId → TypeId → List TypeId → Check → Option (List TypeId × List TypeId)
keep_or_drop flat id queue none = none
keep_or_drop flat id queue (some true) = some (flat, queue)
keep_or_drop flat id queue (some false) = some (flat ++ id ∷ [], queue)

module _ (a : TypeArena) where
  unfoldable pub already_present : List TypeId → TypeId → Check
  unfolding any?
  already_present flat id = any? (λ existing. same_shape a existing id) flat

  -- One round of the loop, for the id that was popped.
  unfoldable pub round :
      Option Ty → List TypeId → TypeId → List TypeId → Option (List TypeId × List TypeId)
  unfolding extend already_present
  round none flat id queue = none
  round (some (union nested)) flat id queue = some (flat, extend nested queue)
  round (some never) flat id queue = some (flat, queue)
  round (some _) flat id queue = keep_or_drop flat id queue (already_present flat id)

  abbrev pub next_round :
      (List TypeId → List TypeId → Option (List TypeId))
      → Option (List TypeId × List TypeId)
      → Option (List TypeId)
  next_round rec none = none
  next_round rec (some (flat, queue)) = rec flat queue

  unfoldable pub flatten : ℕ → List TypeId → List TypeId → Option (List TypeId)
  unfolding round
  flatten zero flat queue = none
  flatten (suc fuel) flat [] = some flat
  flatten (suc fuel) flat (id ∷ queue) = next_round (flatten fuel) (round (get a id) flat id queue)

  -- The members of a union are no unions, so each is popped once more at most.
  abbrev pub cost : Option Ty → ℕ
  cost (some (union nested)) = suc (length nested)
  cost _ = 1

  unfoldable pub rounds : List TypeId → ℕ
  rounds [] = 0
  rounds (id ∷ queue) = cost (get a id) + rounds queue

  unfoldable pub flat_members : List TypeId → Option (List TypeId)
  unfolding flatten rounds
  flat_members members = flatten (suc (rounds (extend members []))) [] (extend members [])

-- `matches!(ty, Type::Union(m) if *m == flat)`.
unfoldable pub is_union_of : List TypeId → Ty → Bool
unfolding list_eq
is_union_of flat (union members) = list_eq id_eq members flat
is_union_of flat _ = false

module _ (digest : List TypeId → ℕ) where
  abbrev pub add_union : TypeArena → List TypeId → TypeArena × TypeId
  add_union a flat =
      let (b, id) = push a (union flat) in
      (record b { interned_unions = insert (digest flat) id b.interned_unions }, id)

  abbrev pub existing_union :
      TypeArena → List TypeId → TypeId → Option Ty → Option (TypeArena × TypeId)
  existing_union a flat existing none = none
  existing_union a flat existing (some ty) =
      some (if is_union_of flat ty then (a, existing) else push a (union flat))

  unfoldable pub intern_union :
      TypeArena → List TypeId → Option TypeId → Option (TypeArena × TypeId)
  unfolding is_union_of push
  intern_union a flat none = some (add_union a flat)
  intern_union a flat (some existing) = existing_union a flat existing (get_elem? a.types existing)

  unfoldable pub finish_union : TypeArena → List TypeId → Option (TypeArena × TypeId)
  unfolding intern_union
  finish_union a [] = some (a, Fixed.never)
  finish_union a (id ∷ []) = some (a, id)
  finish_union a (id ∷ other ∷ more) =
      intern_union a (id ∷ other ∷ more) (lookup (digest (id ∷ other ∷ more)) a.interned_unions)

  abbrev pub finish_flat : TypeArena → Option (List TypeId) → Option (TypeArena × TypeId)
  finish_flat a none = none
  finish_flat a (some flat) = finish_union a flat

  unfoldable pub alloc_union : TypeArena → List TypeId → Option (TypeArena × TypeId)
  unfolding finish_union
  alloc_union a members = finish_flat a (flat_members a members)
