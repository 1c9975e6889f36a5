-- ===== src/Narrow/Each/Gather.antt =====
-- The union of what is kept for each member.
use ts_rust.Prelude.{ℕ, ◌<◌, ◌^◌, ◌≡◌, refl, subst, List, [], ◌∷◌, ◌++◌, Option, some, length}
use ts_rust.Types.{TypeId, Ty, union}
use ts_rust.Relation.View.{ChildrenBelow}
use ts_rust.Arena.{TypeArena}
use ts_rust.Arena.Read.{get}
use ts_rust.Arena.Read.Sound.{value, get_total, get-Found, closed-Found}
use ts_rust.Arena.Union.Flatten.{AllBelow}
use ts_rust.Arena.Union.Sound.{IsWell, IsUnionOf, Made, alloc_union_lem}
use ts_rust.Narrow.Each.{keep_each, members_of, narrow_each_read}

abbrev pub gather : (TypeId → List TypeId) → List TypeId → List TypeId
gather g [] = []
gather g (m ∷ ms) = g m ++ gather g ms

-- The members of a type: those of a union, or the type itself.
abbrev pub members : TypeArena → TypeId → List TypeId
members a id = members_of (value (get a id)) id

-- A well-formed arena gives the union of what is kept.
abbrev pub Gathered : TypeArena → List TypeId → Option (TypeArena × TypeId) → Type 0
Gathered a kept r = (flat : List TypeId) × Made a flat r × IsUnionOf a kept flat

All-++ : (n : ℕ) (xs ys : List TypeId) → AllBelow n xs → AllBelow n ys → AllBelow n (xs ++ ys)
All-++ n [] ys h k = k
All-++ n (x ∷ xs) ys h k = (h.0, All-++ n xs ys h.1 k)

module _ (digest : List TypeId → ℕ) (a : TypeArena) (well : IsWell a)
    (room : length a.types < 2 ^ 32) (f : TypeId → Option (List TypeId)) (g : TypeId → List TypeId)
    (each : (m : TypeId)
      → m < length a.types
      → (f m ≡ some (g m)) × AllBelow (length a.types) (g m)) where
  keep_each_lem :
      (ms : List TypeId)
      → AllBelow (length a.types) ms
      → (keep_each f ms ≡ some (gather g ms)) × AllBelow (length a.types) (gather g ms)
  unfolding keep_each
  keep_each_lem [] h = (refl, tt)
  keep_each_lem (m ∷ ms) h =
      let (e, below) = each m h.0 in
      let (r, rest) = keep_each_lem ms h.1 in
      (rw (e, r) refl, All-++ (length a.types) (g m) (gather g ms) below rest)

  members-below :
      (id : TypeId) (ty : Ty)
      → id < length a.types
      → ChildrenBelow (length a.types) ty
      → AllBelow (length a.types) (members_of ty id)
  members-below id (union ms) h c = c
  members-below id ty h c = (h, tt)

  pub narrow_each_lem :
      (id : TypeId)
      → id < length a.types
      → Gathered a (gather g (members a id)) (narrow_each_read digest a id f (get a id))
  narrow_each_lem id h = let (ty, e, w) = get_total a id well.sound h in rw e (by_type ty e)
    where
      by_type :
          (ty : Ty)
          → get a id ≡ some ty
          → Gathered a (gather g (members_of ty id)) (narrow_each_read digest a id f (some ty))
      by_type ty e =
          let below = members-below id ty h (
            subst (λ r. ChildrenBelow (length a.types) (value r)) e
              (closed-Found a well.sound (get a id) (get-Found a well.sound id h))) in
          let (r, kept) = keep_each_lem (members_of ty id) below in
          let (flat, made, isunion) =
            alloc_union_lem digest a (gather g (members_of ty id)) well room kept in
          (flat, rw r made, isunion)
