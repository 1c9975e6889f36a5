-- ===== src/Relation/Disjoint/Pairs.antt =====
-- The alternatives of a type, and the disjointness of two types neither of which is a union.
use ts_rust.Prelude.{
  ◌≡◌, refl, ap, ◌≢◌, Bool, true, false, ◌||◌, not, List, [], ◌∷◌, Option, some, ◌==◌,
  if◌then◌else◌, Check, all, All, all-eq_true, arith,
}
use ts_rust.Types.{TypeId, Ty, union, string_literal, number_literal, boolean_literal}
use ts_rust.Types.Number.{f64_eq_comm}
use ts_rust.Types.Names.{ids_eq_comm}
use ts_rust.Types.Equality.{bool_eq_comm}
use ts_rust.Relation.View.{View, is_never, is_union, IsLeaf}
use ts_rust.Relation.Disjoint.{
  primitive_domain, is_open, literals_differ, primitives_differ, members_disjoint, disjoint_step,
  PrimitiveDomain, domains_differ,
}

literals_differ_comm : (s t : Ty) → literals_differ s t ≡ literals_differ t s
unfolding literals_differ
literals_differ_comm (string_literal x) (string_literal y) = ap not (ids_eq_comm x y)
literals_differ_comm (number_literal x) (number_literal y) = ap not (f64_eq_comm x y)
literals_differ_comm (boolean_literal x) (boolean_literal y) = ap not (bool_eq_comm x y)
literals_differ_comm s t = ground arith

domains_differ_comm :
    (s t : Ty) (p q : Option PrimitiveDomain) → domains_differ s t p q ≡ domains_differ t s q p
domains_differ_comm s t p q = ground (arith, literals_differ_comm s t)

primitives_differ_comm : (s t : Ty) → primitives_differ s t ≡ primitives_differ t s
unfolding primitives_differ
primitives_differ_comm s t = domains_differ_comm s t (primitive_domain s) (primitive_domain t)

-- The members of a union, and any other type by itself.
abbrev pub alternatives_of : TypeId → Ty → List TypeId
alternatives_of a (union members) = members
alternatives_of a _ = a ∷ []

module _ (v : View) where
  -- Two types neither of which is a union are compared as primitives.
  pub members_leaves :
      (rec : TypeId → TypeId → Check) (a b : TypeId) (left right : Ty)
      → is_union left ≡ false
      → is_union right ≡ false
      → members_disjoint v rec a b left right ≡ some (primitives_differ left right)
  unfolding members_disjoint
  members_leaves rec a b (union ms) right p q = cc
  members_leaves rec a b left (union ms) p q = cc
  members_leaves rec a b left right p q = refl

  open v use {get, flat}

  -- Two types neither of which is a union.
  unfoldable pub leaves_disjoint : TypeId → TypeId → Bool
  unfolding primitives_differ
  leaves_disjoint a b =
      if a == b
      then is_never (get a)
      else if is_never (get a) || is_never (get b)
      then true
      else if is_open (get a) || is_open (get b)
      then false
      else primitives_differ (get a) (get b)

  abbrev pub alternatives : TypeId → List TypeId
  alternatives a = alternatives_of a (get a)

  abbrev pub all_disjoint : List TypeId → List TypeId → Bool
  all_disjoint xs ys = all (λ x. all (λ y. leaves_disjoint x y) ys) xs

  pub leaves_disjoint_comm : (a b : TypeId) → leaves_disjoint a b ≡ leaves_disjoint b a
  unfolding leaves_disjoint
  leaves_disjoint_comm a b =
      unfold leaves_disjoint in ground (arith, primitives_differ_comm (get a) (get b))

  pub step_leaves :
      (rec : TypeId → TypeId → Check) (a b : TypeId)
      → is_union (get a) ≡ false
      → is_union (get b) ≡ false
      → disjoint_step v rec a b ≡ some (leaves_disjoint a b)
  unfolding disjoint_step leaves_disjoint
  step_leaves rec a b p q = ground (arith, members_leaves rec a b (get a) (get b))

  -- A leaf against a leaf: comparing an open leaf, or `never`, with anything is decided early.
  pub leaf_open :
      (a b : TypeId)
      → IsLeaf (get a)
      → IsLeaf (get b)
      → is_open (get a) ≡ true
      → (leaves_disjoint a b ≡ false) × (leaves_disjoint b a ≡ false)
  unfolding leaves_disjoint
  leaf_open a b p q h = unfold leaves_disjoint in ground arith

  pub leaf_never : (a b : TypeId) → is_never (get a) ≡ true → leaves_disjoint a b ≡ true
  unfolding leaves_disjoint
  leaf_never a b h = unfold leaves_disjoint in ground arith

  pub all_never :
      (a : TypeId) (ns : List TypeId) → is_never (get a) ≡ true → all (leaves_disjoint a) ns ≡ true
  all_never a ns h = all-eq_true (leaves_disjoint a) ns (λ n. leaf_never a n h)

  pub all_open :
      (a : TypeId) (ns : List TypeId)
      → ns ≢ []
      → All (λ n. IsLeaf (get n)) ns
      → IsLeaf (get a)
      → is_open (get a) ≡ true
      → all (leaves_disjoint a) ns ≡ false
  all_open a [] h l p o = absurd (h refl)
  all_open a (n ∷ ns) h l p o = ground (arith, leaf_open a n p l.0 o)
