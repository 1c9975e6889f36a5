-- ===== src/Narrow/Members/Kept.antt =====
-- What the union of the members that are kept is.
use ts_rust.Prelude.{
  ℕ, ◌<◌, ◌^◌, ◌≡◌, refl, ◌∙◌, sym, subst, Bool, true, false, ◌||◌, List, [], ◌∷◌, Option, some,
  length, arith, if◌then◌else◌, ◌==◌, All, All-map, filter, any, any?, Bool-cases, inl, inr,
  eq_refl, lt-length_of_get_elem?,
}
use ts_rust.Types.{TypeId, Ty, union, never}
use ts_rust.Types.Fixed
use ts_rust.Relation.View.{IsLeaf, IsFlat, ChildrenBelow}
use ts_rust.Arena.{TypeArena}
use ts_rust.Arena.Read.{get}
use ts_rust.Arena.Read.Sound.{value, get-Found, get_total, IsFlat-at, closed-Found}
use ts_rust.Arena.Union.{extend, already_present, alloc_union}
use ts_rust.Arena.Union.Leaves.{leaves, leaves-extend}
use ts_rust.Arena.Union.Flatten.{AllBelow, AllLeaf}
use ts_rust.Arena.Union.Distinct.{IsIn, IsPresent, IsDistinct, same_shape_self}
use ts_rust.Arena.Union.Sound.{
  IsWell, Made, alternatives_at, alternatives-leaf, alloc_union_lem, Later-self, get-never,
}
use ts_rust.Narrow.Members.{filter_members, prepend_kept, narrow_members, narrow_read}

-- The alternatives of what is kept: each is one that is kept, each that is kept is present by
-- shape, and none stands twice.
abbrev pub IsKept : TypeArena → List TypeId → List TypeId → Type 0
IsKept a kept flat =
    All (λ m. IsIn kept m) flat × All (λ m. IsPresent a flat m) kept × IsDistinct a [] flat

-- The alternatives that an id has.
abbrev pub alternatives : TypeArena → TypeId → List TypeId
alternatives a id = alternatives_at (value (get a id)) id

-- What narrowing an id gives, whose alternatives are `ids`.
abbrev pub Narrowed : TypeArena → (Ty → Bool) → List TypeId → Option (TypeArena × TypeId) → Type 0
Narrowed a keep ids r =
    (flat : List TypeId) × Made a flat r × IsKept a (filter (λ m. keep (value (get a m))) ids) flat

All-extend :
    (P : TypeId → Type 0) (xs ys : List TypeId) → All P (extend xs ys) → All P xs × All P ys
unfolding extend
All-extend P [] ys h = (tt, h)
All-extend P (x ∷ xs) ys h = let (p, q) = All-extend P xs (x ∷ ys) h in ((q.0, p), q.1)

IsIn-extend :
    (xs ys : List TypeId) (m : TypeId)
    → IsIn (extend xs ys) m
    → any (λ i. i == m) xs || any (λ i. i == m) ys ≡ true
unfolding extend
IsIn-extend [] ys m h = h
IsIn-extend (x ∷ xs) ys m h = ground (arith, IsIn-extend xs (x ∷ ys) m h)

pub filter-All :
    (P : TypeId → Type 0) (p : TypeId → Bool) (xs : List TypeId) → All P xs → All P (filter p xs)
filter-All P p [] h = tt
filter-All P p (x ∷ xs) h = by_test (p x) (filter-All P p xs h.1)
  where
    by_test :
        (b : Bool)
        → All P (filter p xs)
        → All P (elim b [ true ↦ x ∷ filter p xs | false ↦ filter p xs ])
    by_test true rest = (h.0, rest)
    by_test false rest = rest

module _ (digest : List TypeId → ℕ) (a : TypeArena) (well : IsWell a)
    (room : length a.types < 2 ^ 32) where
  -- The union of members that are leaves.
  pub IsKept-union :
      (kept : List TypeId)
      → AllBelow (length a.types) kept
      → AllLeaf a kept
      → (flat : List TypeId) × Made a flat (alloc_union digest a kept) × IsKept a kept flat
  IsKept-union kept below isleaf =
      let (flat, made, (ins, present, distinct)) = alloc_union_lem digest a kept well room below in
      (
        flat,
        made,
        (
          All-map _ _ flat (λ m k. back m (subst (λ ids. IsIn ids m) turned k)) ins,
          (All-extend (λ m. IsPresent a flat m) kept []
              (subst (All (λ m. IsPresent a flat m)) turned present)).0,
          distinct,
        ),
      )
    where
      turned : leaves a (extend kept []) ≡ extend kept []
      turned = leaves-extend a kept [] isleaf ∙ unfold leaves in refl

      back : (m : TypeId) → IsIn (extend kept []) m → IsIn kept m
      back m k = ground (arith, IsIn-extend kept [] m k)

  pub filter_members_eq :
      (keep : Ty → Bool) (ms : List TypeId)
      → AllBelow (length a.types) ms
      → filter_members a keep ms ≡ some (filter (λ m. keep (value (get a m))) ms)
  unfolding filter_members
  filter_members_eq keep [] h = refl
  filter_members_eq keep (m ∷ ms) h =
      let (ty, e, w) = get_total a m well.sound h.0 in
      rw (e, filter_members_eq keep ms h.1) (by_answer ty)
    where
      by_answer :
          (ty : Ty)
          → prepend_kept a (keep ty) m (some (filter (λ i. keep (value (get a i))) ms))
            ≡ some (elim (keep ty) [
              | true ↦ m ∷ filter (λ i. keep (value (get a i))) ms
              | false ↦ filter (λ i. keep (value (get a i))) ms
            ])
      by_answer ty = elim (Bool-cases (keep ty)) [ inl e ↦ rw e refl | inr e ↦ rw e refl ]

  -- An id of `never`, of which nothing is kept.
  nothing :
      (id : TypeId)
      → get a id ≡ some never
      → id < length a.types
      → (flat : List TypeId) × Made a flat (some (a, id)) × IsKept a [] flat
  nothing id e h = ([], (a, id, refl, well, Later-self a, h, omega arith, rw e refl), (tt, tt, tt))

  lone :
      (id : TypeId) (keep : Ty → Bool)
      → id < length a.types
      → IsLeaf (value (get a id))
      → Narrowed a keep (id ∷ []) (some (a, if keep (value (get a id)) then id else Fixed.never))
  unfolding already_present any?
  lone id keep h l = elim (Bool-cases (keep (value (get a id)))) [
    | inl e ↦ rw e (
      id ∷ [],
      (a, id, refl, well, Later-self a, h, omega arith, alternatives-leaf (value (get a id)) id l),
      ((rw (eq_refl id) refl, tt), (rw (same_shape_self a id) refl, tt), (refl, tt)),
    )
    | inr e ↦ rw e (
        nothing Fixed.never (get-never a Fixed.never well.never_slot)
          (lt-length_of_get_elem? a.types Fixed.never well.never_slot))
  ]

  narrow_union :
      (id : TypeId) (keep : Ty → Bool) (ms : List TypeId)
      → get a id ≡ some (union ms)
      → id < length a.types
      → Narrowed a keep ms (narrow_read digest a id keep (some (union ms)))
  narrow_union id keep ms e h = rw (filter_members_eq keep ms below) (
      IsKept-union (filter (λ m. keep (value (get a m))) ms)
        (filter-All (λ i. i < length a.types) (λ m. keep (value (get a m))) ms below)
        (filter-All (λ i. IsLeaf (value (get a i))) (λ m. keep (value (get a m))) ms isleaf))
    where
      below : AllBelow (length a.types) ms
      below =
          subst (λ r. ChildrenBelow (length a.types) (value r)) e
            (closed-Found a well.sound (get a id) (get-Found a well.sound id h))

      isleaf : AllLeaf a ms
      isleaf =
          (subst (λ r. IsFlat (λ m. value (get a m)) (value r)) e (IsFlat-at a well.sound id)).1

  narrow_never :
      (id : TypeId) (keep : Ty → Bool)
      → get a id ≡ some never
      → id < length a.types
      → Narrowed a keep [] (some (a, if keep never then id else Fixed.never))
  narrow_never id keep e h = elim (Bool-cases (keep never)) [
    | inl k ↦ rw k (nothing id e h)
    | inr k ↦ rw k (
        nothing Fixed.never (get-never a Fixed.never well.never_slot)
          (lt-length_of_get_elem? a.types Fixed.never well.never_slot))
  ]

  narrow_leaf :
      (id : TypeId) (keep : Ty → Bool) (ty : Ty)
      → get a id ≡ some ty
      → id < length a.types
      → IsLeaf ty
      → Narrowed a keep (id ∷ []) (some (a, if keep ty then id else Fixed.never))
  narrow_leaf id keep ty e h l =
      subst (λ r. Narrowed a keep (id ∷ []) (some (a, if keep (value r) then id else Fixed.never)))
        e (lone id keep h (subst (λ r. IsLeaf (value r)) (sym e) l))

  narrow_read_lem :
      (id : TypeId) (keep : Ty → Bool) (ty : Ty)
      → get a id ≡ some ty
      → id < length a.types
      → Narrowed a keep (alternatives_at ty id) (narrow_read digest a id keep (some ty))
  narrow_read_lem id keep (union ms) e h = narrow_union id keep ms e h
  narrow_read_lem id keep never e h = narrow_never id keep e h
  narrow_read_lem id keep ty e h = narrow_leaf id keep ty e h (refl, refl)

  pub narrow_members_lem :
      (id : TypeId) (keep : Ty → Bool)
      → id < length a.types
      → Narrowed a keep (alternatives a id) (narrow_members digest a id keep)
  unfolding narrow_members
  narrow_members_lem id keep h =
      let (ty, e, w) = get_total a id well.sound h in rw e (narrow_read_lem id keep ty e h)
