-- ===== src/Arena/Union/Sound.antt =====
-- `alloc_union` is what makes a union: flat, with members of distinct shapes, in an arena that stays
-- well-formed.
use ts_rust.Prelude.{
  ℕ, suc, ◌<◌, ◌≤◌, ◌^◌, ◌≡◌, ◌≢◌, refl, ◌∙◌, sym, ap, true, List, [], ◌∷◌, ◌++◌, Option, none,
  some, length, get_elem?, get_elem?-lt, get_elem?-push, length-append, lt-length_of_get_elem?, All,
  All-map, arith, ◌==◌, Bool-cases, inl, inr, ==_iff,
}
use ts_rust.Types.{TypeId, Ty, union, never}
use ts_rust.Types.Fixed
use ts_rust.Types.Equality.{id_eq, list_eq-Decides}
use ts_rust.Relation.View.{IsLeaf}
use ts_rust.Arena.{TypeArena}
use ts_rust.Arena.Store.{lookup, insert, push, push_lem, lookup-insert_at, lookup-insert_ne}
use ts_rust.Arena.Read.{get, get_within, look_through}
use ts_rust.Arena.Read.Sound.{IsSound, value}
use ts_rust.Arena.Read.Later.{Later}
use ts_rust.Arena.Read.Grows.{push-IsSound, Later-push}
use ts_rust.Arena.Alloc.Interns.{IsTidy, some_inj}
use ts_rust.Arena.Alloc.{or_default}
use ts_rust.Arena.Union.{
  extend, is_union_of, intern_union, existing_union, add_union, finish_union, alloc_union,
}
use ts_rust.Arena.Union.Leaves.{leaves, add_leaves}
use ts_rust.Arena.Union.Flatten.{AllBelow, AllLeaf, flat_members_eq, extend-All}
use ts_rust.Arena.Union.Distinct.{
  IsIn, IsIn-All, IsPresent, IsDistinct, add_leaves-All, add_leaves-All-IsPresent,
  add_leaves-IsDistinct, leaves-All,
}

-- A well-formed arena whose tables all hold slots and whose slot for `never` has it.
pub record IsWell (a : TypeArena) : Type 0 where
  pub sound : IsSound a
  pub tidy : IsTidy a
  pub unions : (d : ℕ) (id : TypeId) → lookup d a.interned_unions ≡ some id → id < length a.types
  pub never_slot : get_elem? a.types Fixed.never ≡ some never

-- The alternatives that an id stands for: `never` has none.
abbrev pub alternatives_at : Ty → TypeId → List TypeId
alternatives_at (union members) id = members
alternatives_at never id = []
alternatives_at _ id = id ∷ []

pub alternatives-leaf : (t : Ty) (id : TypeId) → IsLeaf t → alternatives_at t id ≡ id ∷ []
alternatives-leaf (union ms) id (u, n) = cc
alternatives-leaf never id (u, n) = cc
alternatives-leaf t id l = refl

is_union_of_iff : (flat : List TypeId) (t : Ty) → is_union_of flat t ≡ true → t ≡ union flat
unfolding is_union_of
is_union_of_iff flat (union ms) h =
    ap union ((list_eq-Decides id_eq (λ x y. ==_iff x y) ms flat).0 h)
is_union_of_iff flat t h = cc

-- A slot that holds a union reads as it.
get-slot :
    (a : TypeArena) (id : TypeId) (ms : List TypeId)
    → get_elem? a.types id ≡ some (union ms)
    → get a id ≡ some (union ms)
unfolding get get_within look_through
get-slot a id ms e = rw e refl

pub get-never :
    (a : TypeArena) (id : TypeId) → get_elem? a.types id ≡ some never → get a id ≡ some never
unfolding get get_within look_through
get-never a id e = rw e refl

-- What `alloc_union` gives: an id of a well-formed arena that has grown by a slot at most, and its
-- alternatives.
abbrev pub Made : TypeArena → List TypeId → Option (TypeArena × TypeId) → Type 0
Made a flat r =
    (b : TypeArena) × (i : TypeId) × (r ≡ some (b, i))
    × IsWell b
    × Later a b
    × (i < length b.types)
    × (length b.types ≤ suc (length a.types))
    × (alternatives_at (value (get b i)) i ≡ flat)

pub Later-self : (a : TypeArena) → Later a a
Later-self a = record { slots = λ i ty e. e; decls = λ s d e. (d, e, inl refl) }

module _ (digest : List TypeId → ℕ) (a : TypeArena) (well : IsWell a) where
  -- The arena with the union pushed, entered in the table or not.
  module _ (flat : List TypeId) (filled : flat ≢ []) (below : AllBelow (length a.types) flat)
      (isleaf : AllLeaf a flat) (room : length a.types < 2 ^ 32) where
    abbrev pushed : List (ℕ × TypeId) → TypeArena
    pushed table = record a { types = a.types ++ union flat ∷ []; interned_unions = table }

    one_more : length (a.types ++ union flat ∷ []) ≡ suc (length a.types)
    one_more = length-append {0} a.types (union flat ∷ []) ∙ omega arith

    abbrev Slots : List (ℕ × TypeId) → Type 0
    Slots table =
        (d : ℕ) (id : TypeId) → lookup d table ≡ some id → id < length (a.types ++ union flat ∷ [])

    pushed-IsWell : (table : List (ℕ × TypeId)) → Slots table → IsWell (pushed table)
    pushed-IsWell table slots = record {
      sound =
          push-IsSound a (pushed table) (union flat) refl refl well.sound below (filled, isleaf)
            below;
      tidy = record {
        first = λ d id h. omega (arith, one_more, well.tidy.first d id h);
        others = λ d.
            All-map (λ i. i < length a.types) (λ i. i < length (a.types ++ union flat ∷ []))
              (or_default (lookup d a.collided)) (λ i k. omega (arith, one_more))
              (well.tidy.others d);
      };
      unions = slots;
      never_slot =
          (Later-push a (pushed table) (union flat) refl refl).slots Fixed.never never
            well.never_slot;
    }

    pushed-Made :
        (table : List (ℕ × TypeId)) (r : Option (TypeArena × TypeId))
        → Slots table
        → r ≡ some (pushed table, length a.types)
        → Made a flat r
    pushed-Made table r slots e = (
      pushed table,
      length a.types,
      e,
      pushed-IsWell table slots,
      Later-push a (pushed table) (union flat) refl refl,
      omega (arith, one_more),
      omega (arith, one_more),
      rw (get-slot (pushed table) (length a.types) flat (get_elem?-push a.types (union flat))) refl,
    )

    Slots-old : Slots a.interned_unions
    Slots-old d id h = omega (arith, one_more, well.unions d id h)

    Slots-new : Slots (insert (digest flat) (length a.types) a.interned_unions)
    Slots-new d id h = elim (Bool-cases (digest flat == d)) [
      | inl same ↦ at_end (
          some_inj
            (sym (lookup-insert_at (digest flat) d (length a.types) a.interned_unions same) ∙ h))
      | inr differ ↦
          Slots-old d id
            (sym (lookup-insert_ne (digest flat) d (length a.types) a.interned_unions differ) ∙ h)
    ]
      where
        at_end : length a.types ≡ id → id < length (a.types ++ union flat ∷ [])
        at_end e = omega (arith, one_more)

    existing-Made :
        (e : TypeId) (ty : Ty)
        → get_elem? a.types e ≡ some ty
        → Made a flat (existing_union digest a flat e (some ty))
    existing-Made e ty slot = elim (Bool-cases (is_union_of flat ty)) [
      | inl same ↦ rw same (
        a,
        e,
        refl,
        well,
        Later-self a,
        lt-length_of_get_elem? a.types e slot,
        omega arith,
        rw (get-slot a e flat (slot ∙ ap some (is_union_of_iff flat ty same))) refl,
      )
      | inr differ ↦ rw differ (
          pushed-Made a.interned_unions (some (push a (union flat))) Slots-old
            (ap some (push_lem a (union flat) room)))
    ]

    add_union_lem :
        add_union digest a flat
        ≡ (pushed (insert (digest flat) (length a.types) a.interned_unions), length a.types)
    add_union_lem = rw (push_lem a (union flat) room) refl

    intern_union-Made :
        (o : Option TypeId)
        → lookup (digest flat) a.interned_unions ≡ o
        → Made a flat (intern_union digest a flat o)
    unfolding intern_union
    intern_union-Made none l =
        pushed-Made (insert (digest flat) (length a.types) a.interned_unions)
          (some (add_union digest a flat)) Slots-new (ap some add_union_lem)
    intern_union-Made (some e) l =
        let (ty, slot) = get_elem?-lt a.types e (well.unions (digest flat) e l) in
        rw slot (existing-Made e ty slot)

  finish_union-Made :
      (flat : List TypeId)
      → AllBelow (length a.types) flat
      → AllLeaf a flat
      → length a.types < 2 ^ 32
      → Made a flat (finish_union digest a flat)
  unfolding finish_union
  finish_union-Made [] h l room = (
    a,
    Fixed.never,
    refl,
    well,
    Later-self a,
    lt-length_of_get_elem? a.types Fixed.never well.never_slot,
    omega arith,
    rw (get-never a Fixed.never well.never_slot) refl,
  )
  finish_union-Made (id ∷ []) h l room = (
    a,
    id,
    refl,
    well,
    Later-self a,
    h.0,
    omega arith,
    alternatives-leaf (value (get a id)) id l.0,
  )
  finish_union-Made (id ∷ other ∷ more) h l room =
      intern_union-Made (id ∷ other ∷ more) (λ e. cc) h l room
        (lookup (digest (id ∷ other ∷ more)) a.interned_unions) refl

-- The alternatives of a union that was built of `members`: leaves of these, each leaf of them
-- present by shape, and no shape twice.
abbrev pub IsUnionOf : TypeArena → List TypeId → List TypeId → Type 0
IsUnionOf a members flat =
    All (λ m. IsIn (leaves a (extend members [])) m) flat
    × All (λ leaf. IsPresent a flat leaf) (leaves a (extend members []))
    × IsDistinct a [] flat

-- On a well-formed arena with a slot free, `alloc_union` of ids of the arena returns without a panic,
-- keeps the arena well-formed and every slot as it was, and returns an id whose alternatives are
-- leaves of the members: for each leaf of them one of its shape, and no two of one shape.
pub alloc_union_lem :
    (digest : List TypeId → ℕ) (a : TypeArena) (members : List TypeId)
    → IsWell a
    → length a.types < 2 ^ 32
    → AllBelow (length a.types) members
    → (flat : List TypeId) × Made a flat (alloc_union digest a members) × IsUnionOf a members flat
unfolding alloc_union
alloc_union_lem digest a members well room h = (
  flat,
  rw (flat_members_eq a well.sound members h)
      (finish_union-Made digest a well flat below isleaf room),
  (
    add_leaves-All a well.sound (λ m. IsIn found m) [] found tt (IsIn-All found),
    add_leaves-All-IsPresent a well.sound [] found tt found_below,
    add_leaves-IsDistinct a well.sound [] found tt found_below tt,
  ),
)
  where
    queue_below : AllBelow (length a.types) (extend members [])
    queue_below = extend-All (λ i. i < length a.types) members [] h tt

    found : List TypeId
    found = leaves a (extend members [])

    both : All (λ i. (i < length a.types) × IsLeaf (value (get a i))) (leaves a (extend members []))
    both = leaves-All a well.sound (extend members []) queue_below

    found_below : AllBelow (length a.types) (leaves a (extend members []))
    found_below =
        All-map _ (λ i. i < length a.types) (leaves a (extend members [])) (λ i p. p.0) both

    found_leaf : AllLeaf a (leaves a (extend members []))
    found_leaf =
        All-map _ (λ i. IsLeaf (value (get a i))) (leaves a (extend members [])) (λ i p. p.1) both

    flat : List TypeId
    flat = add_leaves a [] (leaves a (extend members []))

    below : AllBelow (length a.types) (add_leaves a [] (leaves a (extend members [])))
    below = add_leaves-All a well.sound (λ i. i < length a.types) [] _ tt found_below

    isleaf : AllLeaf a (add_leaves a [] (leaves a (extend members [])))
    isleaf = add_leaves-All a well.sound (λ i. IsLeaf (value (get a i))) [] _ tt found_leaf
