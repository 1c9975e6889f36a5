-- ===== src/Narrow/Each/Literals.antt =====
-- Narrowing to literals: the side of an equality on which it holds.
use ts_rust.Prelude.{
  ℕ, ◌<◌, ◌^◌, ◌≡◌, refl, true, false, List, [], ◌∷◌, some, length, arith, All, All-map, filter,
  if◌then◌else◌, Bool-cases, inl, inr, eq_refl,
}
use ts_rust.Types.{TypeId, Ty, string, number, boolean, any, unknown, error, generic_parameter}
use ts_rust.Arena.{TypeArena}
use ts_rust.Arena.Read.{get}
use ts_rust.Arena.Read.Sound.{value, get_total}
use ts_rust.Arena.Union.Flatten.{AllBelow}
use ts_rust.Arena.Union.Sound.{IsWell}
use ts_rust.Narrow.Members.Kept.{filter-All, filter_members_eq}
use ts_rust.Narrow.Each.{
  contains, literal_widens_to, is_opaque, matching_kept, keep_matching, narrow_to_literals,
}
use ts_rust.Narrow.Each.Gather.{gather, members, Gathered, narrow_each_lem}

-- The literals that a wide type covers.
abbrev pub covered : TypeArena → List TypeId → Ty → List TypeId
covered a literals wide = filter (λ l. literal_widens_to wide (value (get a l))) literals

abbrev pub kept_at : TypeArena → List TypeId → TypeId → Ty → List TypeId
kept_at a literals m any = m ∷ []
kept_at a literals m error = m ∷ []
kept_at a literals m (generic_parameter _ _ _) = m ∷ []
kept_at a literals m unknown = literals
kept_at a literals m string = covered a literals string
kept_at a literals m number = covered a literals number
kept_at a literals m boolean = covered a literals boolean
kept_at a literals m _ = []

-- What is kept of a member.
abbrev pub literals_kept : TypeArena → List TypeId → TypeId → List TypeId
literals_kept a literals m =
    if contains literals m then m ∷ [] else kept_at a literals m (value (get a m))

contains-more :
    (id other : TypeId) (ids : List TypeId)
    → contains ids id ≡ true
    → contains (other ∷ ids) id ≡ true
contains-more id other ids h = ground (arith, h)

All-contains : (ids : List TypeId) → All (λ k. contains ids k ≡ true) ids
All-contains [] = tt
All-contains (k ∷ ids) = (
  ground (arith, eq_refl k),
  All-map _ (λ i. contains (k ∷ ids) i ≡ true) ids (λ i h. contains-more i k ids h)
      (All-contains ids),
)

module _ (a : TypeArena) (literals : List TypeId) where
  covered-literals : (wide : Ty) → All (λ k. contains literals k ≡ true) (covered a literals wide)
  covered-literals wide =
      filter-All (λ k. contains literals k ≡ true) (λ l. literal_widens_to wide (value (get a l)))
        literals (All-contains literals)

  kept_at-All :
      (P : TypeId → Type 0) (m : TypeId) (ty : Ty)
      → P m
      → All P literals
      → All P (kept_at a literals m ty)
  kept_at-All P m any p h = (p, tt)
  kept_at-All P m error p h = (p, tt)
  kept_at-All P m (generic_parameter _ _ _) p h = (p, tt)
  kept_at-All P m unknown p h = h
  kept_at-All P m string p h =
      filter-All P (λ l. literal_widens_to string (value (get a l))) literals h
  kept_at-All P m number p h =
      filter-All P (λ l. literal_widens_to number (value (get a l))) literals h
  kept_at-All P m boolean p h =
      filter-All P (λ l. literal_widens_to boolean (value (get a l))) literals h
  kept_at-All P m ty p h = tt

  kept_at-literals :
      (m : TypeId) (ty : Ty)
      → is_opaque ty ≡ false
      → All (λ k. contains literals k ≡ true) (kept_at a literals m ty)
  unfolding is_opaque
  kept_at-literals m any o = cc
  kept_at-literals m error o = cc
  kept_at-literals m (generic_parameter _ _ _) o = cc
  kept_at-literals m unknown o = All-contains literals
  kept_at-literals m string o = covered-literals string
  kept_at-literals m number o = covered-literals number
  kept_at-literals m boolean o = covered-literals boolean
  kept_at-literals m ty o = tt

  literals_kept-All :
      (m : TypeId)
      → is_opaque (value (get a m)) ≡ false
      → All (λ k. contains literals k ≡ true) (literals_kept a literals m)
  literals_kept-All m o = elim (Bool-cases (contains literals m)) [
    | inl e ↦ rw e (e, tt)
    | inr e ↦ rw e (kept_at-literals m (value (get a m)) o)
  ]

module _ (digest : List TypeId → ℕ) (a : TypeArena) (well : IsWell a)
    (room : length a.types < 2 ^ 32) (literals : List TypeId)
    (below : AllBelow (length a.types) literals) where
  matching_kept_eq :
      (m : TypeId) (ty : Ty) → matching_kept a literals m ty ≡ some (kept_at a literals m ty)
  unfolding matching_kept
  matching_kept_eq m any = refl
  matching_kept_eq m error = refl
  matching_kept_eq m (generic_parameter _ _ _) = refl
  matching_kept_eq m unknown = refl
  matching_kept_eq m string =
      filter_members_eq digest a well room (literal_widens_to string) literals below
  matching_kept_eq m number =
      filter_members_eq digest a well room (literal_widens_to number) literals below
  matching_kept_eq m boolean =
      filter_members_eq digest a well room (literal_widens_to boolean) literals below
  matching_kept_eq m ty = refl

  each_kept :
      (m : TypeId)
      → m < length a.types
      → (keep_matching a literals m ≡ some (literals_kept a literals m))
        × AllBelow (length a.types) (literals_kept a literals m)
  unfolding keep_matching
  each_kept m k =
      let (ty, e, w) = get_total a m well.sound k in
      elim (Bool-cases (contains literals m)) [
        | inl c ↦ rw c (refl, (k, tt))
        | inr c ↦
            rw (c, e)
              (matching_kept_eq m ty, kept_at-All a literals (λ i. i < length a.types) m ty k below)
      ]

-- On a well-formed arena with a slot free, narrowing an id of it to literals, ids of it too,
-- returns without a panic and keeps the arena well-formed and every slot as it was; it returns the
-- union of what is kept of the members. Of a member that is not `any`, the error type or a type
-- parameter, only literals of the list are kept.
pub narrow_to_literals_lem :
    (digest : List TypeId → ℕ) (a : TypeArena) (id : TypeId) (literals : List TypeId)
    → IsWell a
    → length a.types < 2 ^ 32
    → id < length a.types
    → AllBelow (length a.types) literals
    → Gathered a
        (gather (literals_kept a literals) (members a id))
        (narrow_to_literals digest a id literals)
      × ((m : TypeId)
          → is_opaque (value (get a m)) ≡ false
          → All (λ k. contains literals k ≡ true) (literals_kept a literals m))
unfolding narrow_to_literals
narrow_to_literals_lem digest a id literals well room h below = (
  narrow_each_lem digest a well room (keep_matching a literals) (literals_kept a literals)
      (each_kept digest a well room literals below) id h,
  literals_kept-All a literals,
)
