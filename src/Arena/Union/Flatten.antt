-- ===== src/Arena/Union/Flatten.antt =====
-- The loop of `alloc_union` ends, with the leaves that have distinct shapes.
use ts_rust.Prelude.{
  ℕ, zero, suc, ◌+◌, ◌<◌, ◌≡◌, refl, ◌∙◌, ap, Bool, true, false, List, [], ◌∷◌, ◌++◌, some, length,
  All, All-map, arith, if◌then◌else◌, Answers, any?-Answers,
}
use ts_rust.Types.{TypeId, Ty, union, never}
use ts_rust.Relation.View.{IsLeaf, IsFlat, ChildrenBelow}
use ts_rust.Relation.Structural.Total.{structurally_equal_total}
use ts_rust.Relation.Subtype.Unroll.{yes_only}
use ts_rust.Arena.{TypeArena}
use ts_rust.Arena.Read.{get}
use ts_rust.Arena.Read.Sound.{IsSound, value, get-Found}
use ts_rust.Arena.Read.Descends.{get-IsReadable}
use ts_rust.Arena.Union.{
  same_shape, already_present, extend, rounds, cost, round, next_round, flatten, flat_members,
}
use ts_rust.Arena.Union.Leaves.{
  leaves, leaves_at, add_leaf, add_leaves, leaves-extend, rounds-extend,
}

abbrev pub AllBelow : ℕ → List TypeId → Type 0
AllBelow n ids = All (λ i. i < n) ids

-- What the flattened list keeps.
abbrev pub AllLeaf : TypeArena → List TypeId → Type 0
AllLeaf a ids = All (λ i. IsLeaf (value (get a i))) ids

pub All-snoc {ℓ κ} :
    {A : Type ℓ} (P : A → Type κ) (xs : List A) (x : A) → All P xs → P x → All P (xs ++ x ∷ [])
All-snoc P [] x h p = (p, tt)
All-snoc P (y ∷ ys) x h p = (h.0, All-snoc P ys x h.1 p)

pub extend-All {κ} :
    (P : TypeId → Type κ) (xs ys : List TypeId) → All P xs → All P ys → All P (extend xs ys)
unfolding extend
extend-All P [] ys h k = k
extend-All P (x ∷ xs) ys h k = extend-All P xs (x ∷ ys) h.1 (h.0, k)

module _ (a : TypeArena) (sound : IsSound a) where
  abbrev size : ℕ
  size = length a.types

  pub present-Answers :
      (flat : List TypeId) (id : TypeId)
      → AllBelow size flat
      → id < size
      → Answers (already_present a flat id)
  unfolding already_present same_shape
  present-Answers flat id h k =
      any?-Answers (λ e. same_shape a e id) flat
        (All-map (λ e. e < size) _ flat
          (λ e p. structurally_equal_total (get a) size e id (get-IsReadable a sound) p k) h)

  -- A round for a leaf keeps it or drops it.
  leaf_round :
      (t : Ty) (flat : List TypeId) (id : TypeId) (queue : List TypeId)
      → IsLeaf t
      → Answers (already_present a flat id)
      → round a (some t) flat id queue ≡ some (add_leaf a flat id, queue)
  unfolding round add_leaf
  leaf_round (union ms) flat id queue (u, n) r = cc
  leaf_round never flat id queue (u, n) r = cc
  leaf_round t flat id queue l (true, e) = rw e refl
  leaf_round t flat id queue l (false, e) = rw e refl

  pub add_leaf-All {κ} :
      (P : TypeId → Type κ) (flat : List TypeId) (id : TypeId)
      → All P flat
      → P id
      → All P (add_leaf a flat id)
  unfolding add_leaf
  add_leaf-All P flat id h p = kept (yes_only (already_present a flat id))
    where
      kept : (b : Bool) → All P (if b then flat else flat ++ id ∷ [])
      kept true = h
      kept false = All-snoc P flat id h p

  abbrev Popped : ℕ → Type 0
  Popped fuel =
      (flat queue : List TypeId)
      → AllBelow size flat
      → AllBelow size queue
      → rounds a queue < fuel
      → flatten a fuel flat queue ≡ some (add_leaves a flat (leaves a queue))

  pop :
      (fuel : ℕ) (ty : Ty) (flat : List TypeId) (id : TypeId) (queue : List TypeId)
      → Popped fuel
      → ChildrenBelow size ty
      → IsFlat (λ m. value (get a m)) ty
      → AllBelow size flat
      → AllBelow size (id ∷ queue)
      → cost a (some ty) + rounds a queue < suc fuel
      → next_round a (flatten a fuel) (round a (some ty) flat id queue)
        ≡ some (add_leaves a flat (leaves_at a ty id (leaves a queue)))
  unfolding round
  pop fuel (union nested) flat id queue ih below isflat h k l =
      ih flat (extend nested queue) h (extend-All (λ i. i < size) nested queue below k.1)
        (omega (arith, rounds-extend a nested queue isflat.1))
      ∙ ap (λ ls. some (add_leaves a flat ls)) (leaves-extend a nested queue isflat.1)
  pop fuel never flat id queue ih below isflat h k l = ih flat queue h k.1 (omega arith)
  pop fuel ty flat id queue ih below isflat h k l =
      ap (next_round a (flatten a fuel))
        (leaf_round ty flat id queue (refl, refl) (present-Answers flat id h k.0))
      ∙ ih (add_leaf a flat id) queue (add_leaf-All (λ i. i < size) flat id h k.0) k.1 (omega arith)
      ∙ unfold add_leaves in refl

  flatten_eq : (fuel : ℕ) → Popped fuel
  unfolding flatten
  flatten_eq zero flat queue h k l = absurd (omega arith)
  flatten_eq (suc fuel) flat [] h k l = unfold leaves add_leaves in refl
  flatten_eq (suc fuel) flat (id ∷ queue) h k l =
      let (ty, e, w, c, f) = get-Found a sound id k.0 in
      rw e (
        pop fuel ty flat id queue (flatten_eq fuel) c f h k (unfold rounds in rw e at l)
        ∙ unfold leaves in rw e refl)

  -- On ids of a well-formed arena the loop ends, with the leaves of the members less those that have
  -- the shape of an earlier one.
  pub flat_members_eq :
      (members : List TypeId)
      → AllBelow size members
      → flat_members a members ≡ some (add_leaves a [] (leaves a (extend members [])))
  unfolding flat_members
  flat_members_eq members h =
      flatten_eq (suc (rounds a (extend members []))) [] (extend members []) tt
        (extend-All (λ i. i < size) members [] h tt) (omega arith)
