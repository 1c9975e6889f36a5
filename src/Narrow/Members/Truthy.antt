-- ===== src/Narrow/Members/Truthy.antt =====
-- Narrowing by what a value is in a condition, and by `null` and `undefined`.
use mathlib.Core.Path.{fun_ext}
use ts_rust.Prelude.{
  ℕ, ◌≡◌, ◌≢◌, refl, ap, subst, Bool, true, false, not, List, [], ◌∷◌, arith, All, filter, ◌==◌,
  ==_iff, Bool-cases, inl, inr, ◌⊎◌, Option,
}
use ts_rust.Types.Equality.{bool_eq}
use ts_rust.Types.{TypeId, Ty, null, void}
use ts_rust.Arena.{TypeArena}
use ts_rust.Arena.Read.{get}
use ts_rust.Arena.Read.Sound.{value}
use ts_rust.Arena.Union.Distinct.{IsIn, IsPresent, IsDistinct}
use ts_rust.Arena.Union.Sound.{Made}
use ts_rust.Narrow.Values.{Value, CanBe}
use ts_rust.Narrow.Members.{
  is_target, is_open, keeps_nullish, is_nullish, narrow_members, narrow_by_nullish,
  narrow_to_non_nullish,
}

-- What narrowing an id gives, whose alternatives are `ids`: a well-formed arena with every slot as it
-- was, and an id whose alternatives are some of `ids`, each as it may be; each of `ids` that must be
-- there is one of them by shape, and none stands twice.
abbrev pub NarrowedBy :
    TypeArena → (Ty → Type 0) → (Ty → Type 0) → List TypeId → Option (TypeArena × TypeId) → Type 0
NarrowedBy a Must May ids r =
    (flat : List TypeId) × Made a flat r
    × All (λ m. IsIn ids m × May (value (get a m))) flat
    × All (λ m. Must (value (get a m)) → IsPresent a flat m) ids
    × IsDistinct a [] flat

-- What may be kept where the test is to say `want`: a type that holds such a value. `void` is taken
-- as a type of which nothing is known.
abbrev pub MayBe : (Value → Bool) → Bool → Ty → Type 0
MayBe test want ty = (ty ≡ void) ⊎ CanBe test want ty

abbrev pub MustBe : (Value → Bool) → Bool → Ty → Type 0
MustBe test want ty = (ty ≢ void) × CanBe test want ty

module _ (p : TypeId → Bool) where
  -- The filter of a list with one more, by what the test says of it.
  abbrev one_more : Bool → TypeId → List TypeId → List TypeId
  one_more b x xs = elim b [ true ↦ x ∷ filter p xs | false ↦ filter p xs ]

  pub IsIn-filter : (xs : List TypeId) (m : TypeId) → IsIn (filter p xs) m → IsIn xs m
  IsIn-filter [] m h = h
  IsIn-filter (x ∷ xs) m h = by_test (p x) (IsIn-filter xs m) h
    where
      by_test :
          (b : Bool)
          → (IsIn (filter p xs) m → IsIn xs m)
          → IsIn (one_more b x xs) m
          → IsIn (x ∷ xs) m
      by_test true rest k = ground (arith, rest)
      by_test false rest k = ground (arith, rest)

  pub filter-kept : (xs : List TypeId) → All (λ m. p m ≡ true) (filter p xs)
  filter-kept [] = tt
  filter-kept (x ∷ xs) = by_test (p x) refl (filter-kept xs)
    where
      by_test :
          (b : Bool)
          → p x ≡ b
          → All (λ m. p m ≡ true) (filter p xs)
          → All (λ m. p m ≡ true) (one_more b x xs)
      by_test true e rest = (e, rest)
      by_test false e rest = rest

  pub filter-present :
      (Q : TypeId → Type 0) (xs : List TypeId)
      → All Q (filter p xs)
      → All (λ m. p m ≡ true → Q m) xs
  filter-present Q [] h = tt
  filter-present Q (x ∷ xs) h = by_test (p x) refl (filter-present Q xs) h
    where
      by_test :
          (b : Bool)
          → p x ≡ b
          → (All Q (filter p xs) → All (λ m. p m ≡ true → Q m) xs)
          → All Q (one_more b x xs)
          → All (λ m. p m ≡ true → Q m) (x ∷ xs)
      by_test true e rest k = (λ t. k.0, rest k.1)
      by_test false e rest k = (λ t. cc, rest k)

pub All-at : (P : TypeId → Type 0) (xs : List TypeId) (m : TypeId) → All P xs → IsIn xs m → P m
All-at P [] m h k = cc
All-at P (x ∷ xs) m h k = elim (Bool-cases (x == m)) [
  | inl e ↦ subst P ((==_iff x m).0 e) h.0
  | inr e ↦ All-at P xs m h.1 (rw e at k)
]

keeps-is_nullish :
    (is_null : Bool) (ty : Ty) → not (is_nullish ty) ≡ keeps_nullish is_null true false ty
unfolding is_nullish keeps_nullish is_open is_target bool_eq
keeps-is_nullish is_null null = refl
keeps-is_nullish is_null ty = refl

-- To take `null` and `undefined` out of a type is to narrow it by `!= null`, or `!= undefined`.
pub narrow_to_non_nullish_eq :
    (digest : List TypeId → ℕ) (a : TypeArena) (id : TypeId) (is_null : Bool)
    → narrow_to_non_nullish digest a id ≡ narrow_by_nullish digest a id is_null true false
unfolding narrow_to_non_nullish narrow_by_nullish
narrow_to_non_nullish_eq digest a id is_null =
    ap (narrow_members digest a id) (fun_ext (λ ty. keeps-is_nullish is_null ty))
