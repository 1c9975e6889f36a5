-- ===== src/Arena/Union/Leaves.antt =====
-- What the loop of `alloc_union` computes: the leaves of the members, those left out that have the
-- shape of an earlier one.
use ts_rust.Prelude.{
  suc, ◌+◌, ◌≡◌, refl, ◌∙◌, List, [], ◌∷◌, ◌++◌, Option, none, some, length, All, arith,
  if◌then◌else◌,
}
use ts_rust.Types.{TypeId, Ty, union, never}
use ts_rust.Relation.View.{IsLeaf}
use ts_rust.Relation.Subtype.Unroll.{yes_only}
use ts_rust.Arena.{TypeArena}
use ts_rust.Arena.Read.{get}
use ts_rust.Arena.Read.Sound.{value}
use ts_rust.Arena.Union.{already_present, extend, rounds, cost}

module _ (a : TypeArena) where
  abbrev pub leaves_at : Ty → TypeId → List TypeId → List TypeId
  leaves_at (union nested) id rest = extend nested rest
  leaves_at never id rest = rest
  leaves_at _ id rest = id ∷ rest

  -- The leaves of a queue, in the order in which they are popped.
  unfoldable pub leaves : List TypeId → List TypeId
  leaves [] = []
  leaves (id ∷ queue) = leaves_at (value (get a id)) id (leaves queue)

  unfoldable pub add_leaf : List TypeId → TypeId → List TypeId
  add_leaf flat id = if yes_only (already_present a flat id) then flat else flat ++ id ∷ []

  unfoldable pub add_leaves : List TypeId → List TypeId → List TypeId
  unfolding add_leaf
  add_leaves flat [] = flat
  add_leaves flat (id ∷ ids) = add_leaves (add_leaf flat id) ids

  leaves-leaf :
      (t : Ty) (id : TypeId) (rest : List TypeId) → IsLeaf t → leaves_at t id rest ≡ id ∷ rest
  leaves-leaf (union ms) id rest (u, n) = cc
  leaves-leaf never id rest (u, n) = cc
  leaves-leaf t id rest l = refl

  cost-leaf : (r : Option Ty) → IsLeaf (value r) → cost a r ≡ 1
  cost-leaf none l = refl
  cost-leaf (some (union ms)) (u, n) = cc
  cost-leaf (some t) l = refl

  -- A queue that is extended by leaves has these leaves more, and takes a round more for each.
  pub leaves-extend :
      (nested queue : List TypeId)
      → All (λ m. IsLeaf (value (get a m))) nested
      → leaves (extend nested queue) ≡ extend nested (leaves queue)
  unfolding extend
  leaves-extend [] queue h = refl
  leaves-extend (id ∷ nested) queue h =
      leaves-extend nested (id ∷ queue) h.1
      ∙ unfold leaves in rw (leaves-leaf (value (get a id)) id (leaves queue) h.0) refl

  pub rounds-extend :
      (nested queue : List TypeId)
      → All (λ m. IsLeaf (value (get a m))) nested
      → rounds a (extend nested queue) ≡ length nested + rounds a queue
  unfolding extend
  rounds-extend [] queue h = omega arith
  rounds-extend (id ∷ nested) queue h = omega (arith, rounds-extend nested (id ∷ queue) h.1, popped)
    where
      popped : rounds a (id ∷ queue) ≡ suc (rounds a queue)
      popped = unfold rounds in omega (arith, cost-leaf (get a id) h.0)
