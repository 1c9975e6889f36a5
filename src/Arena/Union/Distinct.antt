-- ===== src/Arena/Union/Distinct.antt =====
-- Leaves of distinct shapes: nothing of the members is lost, nothing is added, nothing is kept twice.
use ts_rust.Prelude.{
  ◌<◌, ◌≡◌, refl, ap, Bool, true, false, List, [], ◌∷◌, ◌++◌, some, length, All, All-map, arith,
  any, any?, if◌then◌else◌, ◌==◌, Check, Answers, eq_refl, subst,
}
use ts_rust.Types.{TypeId, Ty, union, never}
use ts_rust.Relation.View.{IsLeaf, IsFlat, ChildrenBelow}
use ts_rust.Relation.Structural.{structurally_equal, structurally_equal_inner}
use ts_rust.Arena.{TypeArena}
use ts_rust.Arena.Read.{get}
use ts_rust.Arena.Read.Sound.{IsSound, value, get-Found}
use ts_rust.Arena.Union.{same_shape, already_present}
use ts_rust.Arena.Union.Leaves.{leaves, leaves_at, add_leaf, add_leaves}
use ts_rust.Arena.Union.Flatten.{AllBelow, AllLeaf, extend-All, add_leaf-All, present-Answers}

any?-append {ℓ} :
    {A : Type ℓ} (p : A → Check) (xs ys : List A)
    → any? p xs ≡ some true
    → any? p (xs ++ ys) ≡ some true
unfolding any?
any?-append p [] ys h = cc
any?-append p (x ∷ xs) ys h = ground (arith, any?-append p xs ys)

any?-snoc {ℓ} :
    {A : Type ℓ} (p : A → Check) (xs : List A) (y : A)
    → any? p xs ≡ some false
    → p y ≡ some true
    → any? p (xs ++ y ∷ []) ≡ some true
unfolding any?
any?-snoc p [] y h k = rw k refl
any?-snoc p (x ∷ xs) y h k = ground (arith, any?-snoc p xs y)

-- The id is in the list.
abbrev pub IsIn : List TypeId → TypeId → Type 0
IsIn ids m = any (λ i. i == m) ids ≡ true

module _ (a : TypeArena) where
  -- Some id of the list has the shape of `id`.
  abbrev pub IsPresent : List TypeId → TypeId → Type 0
  IsPresent flat id = already_present a flat id ≡ some true

  -- No id of `ids` has the shape of an earlier one, or of one of `before`.
  abbrev pub IsDistinct : List TypeId → List TypeId → Type 0
  IsDistinct before [] = Unit
  IsDistinct before (id ∷ ids) =
      (already_present a before id ≡ some false) × IsDistinct (before ++ id ∷ []) ids

  pub same_shape_self : (x : TypeId) → same_shape a x x ≡ some true
  unfolding same_shape structurally_equal structurally_equal_inner
  same_shape_self x = rw (eq_refl x) refl

  IsPresent-append :
      (flat more : List TypeId) (id : TypeId) → IsPresent flat id → IsPresent (flat ++ more) id
  unfolding already_present
  IsPresent-append flat more id h = any?-append (λ e. same_shape a e id) flat more h

  IsPresent-snoc :
      (flat : List TypeId) (id : TypeId)
      → already_present a flat id ≡ some false
      → IsPresent (flat ++ id ∷ []) id
  unfolding already_present
  IsPresent-snoc flat id h = any?-snoc (λ e. same_shape a e id) flat id h (same_shape_self id)

  add_leaf_cases :
      (flat : List TypeId) (id : TypeId) (b : Bool)
      → already_present a flat id ≡ some b
      → add_leaf a flat id ≡ (if b then flat else flat ++ id ∷ [])
  unfolding add_leaf
  add_leaf_cases flat id b h = rw h refl

  add_leaf-IsPresent :
      (flat : List TypeId) (id other : TypeId)
      → Answers (already_present a flat id)
      → IsPresent flat other
      → IsPresent (add_leaf a flat id) other
  add_leaf-IsPresent flat id other (true, e) h = rw (add_leaf_cases flat id true e) h
  add_leaf-IsPresent flat id other (false, e) h =
      rw (add_leaf_cases flat id false e) (IsPresent-append flat (id ∷ []) other h)

  add_leaf-IsPresent_self :
      (flat : List TypeId) (id : TypeId)
      → Answers (already_present a flat id)
      → IsPresent (add_leaf a flat id) id
  add_leaf-IsPresent_self flat id (true, e) = rw (add_leaf_cases flat id true e) e
  add_leaf-IsPresent_self flat id (false, e) =
      rw (add_leaf_cases flat id false e) (IsPresent-snoc flat id e)

  append_assoc :
      (xs : List TypeId) (y : TypeId) (ys : List TypeId) → (xs ++ y ∷ []) ++ ys ≡ xs ++ y ∷ ys
  append_assoc [] y ys = refl
  append_assoc (x ∷ xs) y ys = ap (λ zs. x ∷ zs) (append_assoc xs y ys)

  append_nil : (xs : List TypeId) → xs ++ [] ≡ xs
  append_nil [] = refl
  append_nil (x ∷ xs) = ap (λ zs. x ∷ zs) (append_nil xs)

  IsDistinct-snoc :
      (before ids : List TypeId) (id : TypeId)
      → IsDistinct before ids
      → already_present a (before ++ ids) id ≡ some false
      → IsDistinct before (ids ++ id ∷ [])
  IsDistinct-snoc before [] id h k = (rw (append_nil before) at k, tt)
  IsDistinct-snoc before (x ∷ ids) id h k =
      (h.0, IsDistinct-snoc (before ++ x ∷ []) ids id h.1 (rw (append_assoc before x ids) k))

  add_leaf-IsDistinct :
      (flat : List TypeId) (id : TypeId)
      → Answers (already_present a flat id)
      → IsDistinct [] flat
      → IsDistinct [] (add_leaf a flat id)
  add_leaf-IsDistinct flat id (true, e) h = rw (add_leaf_cases flat id true e) h
  add_leaf-IsDistinct flat id (false, e) h =
      rw (add_leaf_cases flat id false e) (IsDistinct-snoc [] flat id h e)

  module _ (sound : IsSound a) where
    -- The list that the loop builds, from `flat` on.
    pub add_leaves-All {κ} :
        (P : TypeId → Type κ) (flat ids : List TypeId)
        → All P flat
        → All P ids
        → All P (add_leaves a flat ids)
    unfolding add_leaves
    add_leaves-All P flat [] h k = h
    add_leaves-All P flat (id ∷ ids) h k =
        add_leaves-All P (add_leaf a flat id) ids (add_leaf-All a sound P flat id h k.0) k.1

    add_leaves-IsPresent :
        (flat ids : List TypeId) (other : TypeId)
        → AllBelow (length a.types) flat
        → AllBelow (length a.types) ids
        → IsPresent flat other
        → IsPresent (add_leaves a flat ids) other
    unfolding add_leaves
    add_leaves-IsPresent flat [] other h k p = p
    add_leaves-IsPresent flat (id ∷ ids) other h k p =
        add_leaves-IsPresent (add_leaf a flat id) ids other
          (add_leaf-All a sound (λ i. i < length a.types) flat id h k.0) k.1
          (add_leaf-IsPresent flat id other (present-Answers a sound flat id h k.0) p)

    pub add_leaves-All-IsPresent :
        (flat ids : List TypeId)
        → AllBelow (length a.types) flat
        → AllBelow (length a.types) ids
        → All (λ id. IsPresent (add_leaves a flat ids) id) ids
    unfolding add_leaves
    add_leaves-All-IsPresent flat [] h k = tt
    add_leaves-All-IsPresent flat (id ∷ ids) h k =
        let below = add_leaf-All a sound (λ i. i < length a.types) flat id h k.0 in
        (
          add_leaves-IsPresent (add_leaf a flat id) ids id below k.1
              (add_leaf-IsPresent_self flat id (present-Answers a sound flat id h k.0)),
          add_leaves-All-IsPresent (add_leaf a flat id) ids below k.1,
        )

    pub add_leaves-IsDistinct :
        (flat ids : List TypeId)
        → AllBelow (length a.types) flat
        → AllBelow (length a.types) ids
        → IsDistinct [] flat
        → IsDistinct [] (add_leaves a flat ids)
    unfolding add_leaves
    add_leaves-IsDistinct flat [] h k d = d
    add_leaves-IsDistinct flat (id ∷ ids) h k d =
        add_leaves-IsDistinct (add_leaf a flat id) ids
          (add_leaf-All a sound (λ i. i < length a.types) flat id h k.0) k.1
          (add_leaf-IsDistinct flat id (present-Answers a sound flat id h k.0) d)

    leaves_at-All {κ} :
        (P : TypeId → Type κ) (ty : Ty) (id : TypeId) (rest : List TypeId)
        → (IsLeaf ty → P id)
        → ((ms : List TypeId) → ty ≡ union ms → All P ms)
        → All P rest
        → All P (leaves_at a ty id rest)
    leaves_at-All P (union ms) id rest h k r = extend-All P ms rest (k ms refl) r
    leaves_at-All P never id rest h k r = r
    leaves_at-All P ty id rest h k r = (h (refl, refl), r)

    -- The leaves of ids of the arena are leaves, and ids of the arena.
    pub leaves-All :
        (queue : List TypeId)
        → AllBelow (length a.types) queue
        → All (λ i. (i < length a.types) × IsLeaf (value (get a i))) (leaves a queue)
    unfolding leaves
    leaves-All [] h = tt
    leaves-All (id ∷ queue) h =
        let (ty, e, w, c, f) = get-Found a sound id h.0 in
        rw e (
          leaves_at-All (λ i. (i < length a.types) × IsLeaf (value (get a i))) ty id
            (leaves a queue) (λ l. (h.0, rw e l))
            (λ ms same.
              union_leaves ms (subst (ChildrenBelow (length a.types)) same c)
                (subst (IsFlat (λ m. value (get a m))) same f).1)
            (leaves-All queue h.1))
      where
        union_leaves :
            (ms : List TypeId)
            → AllBelow (length a.types) ms
            → AllLeaf a ms
            → All (λ i. (i < length a.types) × IsLeaf (value (get a i))) ms
        union_leaves [] p q = tt
        union_leaves (m ∷ ms) p q = ((p.0, q.0), union_leaves ms p.1 q.1)

-- Every id of a list is in it.
IsIn-cons : (x : TypeId) (xs : List TypeId) (m : TypeId) → IsIn xs m → IsIn (x ∷ xs) m
IsIn-cons x xs m h = ground (arith, h)

pub IsIn-All : (xs : List TypeId) → All (λ m. IsIn xs m) xs
IsIn-All [] = tt
IsIn-All (x ∷ xs) = (
  ground (arith, eq_refl x),
  All-map (λ m. IsIn xs m) (λ m. IsIn (x ∷ xs) m) xs (IsIn-cons x xs) (IsIn-All xs),
)
