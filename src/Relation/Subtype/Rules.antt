-- ===== src/Relation/Subtype/Rules.antt =====
-- What `is_subtype` says of a union, an array and an intersection, each in terms of itself.
use ts_rust.Prelude.{
  ◌<◌, ◌≡◌, refl, ◌↔◌, ◌≢◌, Bool, true, false, List, some, arith, Check, all?, All, All-map,
  all?_iff, inl, inr, ◌⊎◌, subst,
}
use ts_rust.Types.{TypeId, Ty, ObjectType, union, array, intersection, object, unknown}
use ts_rust.Relation.View.{View, ChildrenBelow}
use ts_rust.Relation.Subtype.{is_trivial_subtype, is_subtype_uncached, arms, is_subtype}
use ts_rust.Relation.Subtype.Equation.{is_subtype-fix}

module _ (v : View) (rec : TypeId → TypeId → Check) (a b : TypeId) where
  arms-unknown : (s : Ty) → arms v rec s unknown a b ≡ some true
  unfolding arms
  arms-unknown s = refl

  arms-union :
      (ms : List TypeId) (t : Ty)
      → t ≢ unknown
      → arms v rec (union ms) t a b ≡ all? (λ m. rec m b) ms
  unfolding arms
  arms-union ms unknown h = absurd (h refl)
  arms-union ms t h = refl

abbrev pub is_unknown : Ty → Bool
is_unknown unknown = true
is_unknown _ = false

is_unknown-cases : (t : Ty) → (t ≡ unknown) ⊎ (t ≢ unknown)
is_unknown-cases unknown = inl refl
is_unknown-cases t = inr (λ e. cc)

module _ (v : View) where
  open v use {size, get, closed}

  -- The relation of a pair that is not trivial, from what the two types are.
  by_rules :
      (a b : TypeId) (s t : Ty)
      → a < size
      → b < size
      → is_trivial_subtype v a b ≡ false
      → get a ≡ s
      → get b ≡ t
      → is_subtype v a b ≡ arms v (is_subtype v) s t a b
  by_rules a b s t h k nt es et =
      unfold is_subtype_uncached in ground (arith, is_subtype-fix v a b h k)

  below_unknown :
      (a b : TypeId) → a < size → b < size → get b ≡ unknown → is_subtype v a b ≡ some true
  below_unknown a b h k e =
      unfold is_subtype_uncached in
      ground (arith, is_subtype-fix v a b h k, arms-unknown v (is_subtype v) a b (get a))

  members_below : (a : TypeId) (t : Ty) → get a ≡ t → a < size → ChildrenBelow size t
  members_below a t e h = subst (ChildrenBelow size) e (closed a h)

  -- For two ids of an arena that are not trivially related, the first a union: it is a subtype
  -- exactly when each of its members is.
  pub is_subtype-union :
      (a b : TypeId) (ms : List TypeId)
      → a < size
      → b < size
      → get a ≡ union ms
      → is_trivial_subtype v a b ≡ false
      → (is_subtype v a b ≡ some true) ↔ All (λ m. is_subtype v m b ≡ some true) ms
  is_subtype-union a b ms h k e nt = elim (is_unknown-cases (get b)) [
    | inl top ↦ (
      λ _.
          All-map (λ m. m < size) _ ms (λ m l. below_unknown m b l k top)
            (members_below a (union ms) e h),
      λ _. below_unknown a b h k top,
    )
    | inr other ↦
        rw
          (
            by_rules a b (union ms) (get b) h k nt e refl,
            arms-union v (is_subtype v) a b ms (get b) other,
          )
          (all?_iff (λ m. is_subtype v m b) ms)
  ]

  -- For two ids of an arena that are not trivially related, an object and an intersection: the
  -- object is a subtype exactly when it is one of each member.
  pub is_subtype-intersection :
      (a b : TypeId) (o : ObjectType) (ms : List TypeId)
      → a < size
      → b < size
      → get a ≡ object o
      → get b ≡ intersection ms
      → is_trivial_subtype v a b ≡ false
      → (is_subtype v a b ≡ some true) ↔ All (λ m. is_subtype v a m ≡ some true) ms
  unfolding arms
  is_subtype-intersection a b o ms h k e e' nt =
      rw (by_rules a b (object o) (intersection ms) h k nt e e')
        (all?_iff (λ m. is_subtype v a m) ms)

  -- For two different ids of an arena that are arrays, the answer is the one for their elements.
  pub is_subtype-array :
      (a b x y : TypeId)
      → a < size
      → b < size
      → get a ≡ array x
      → get b ≡ array y
      → a ≢ b
      → is_subtype v a b ≡ is_subtype v x y
  unfolding arms
  is_subtype-array a b x y h k e e' d =
      by_rules a b (array x) (array y) h k (unfold is_trivial_subtype in ground arith) e e'
