-- ===== src/Relation/Disjoint.antt =====
-- `is_disjoint` and `primitive_domain`. The recursion goes from a union to its members on either
-- side, so three levels of fuel are enough: see `Disjoint/Levels`.
pub mod Pairs
pub mod Levels
pub mod Sound
use ts_rust.Prelude.{
  ℕ, zero, suc, Bool, true, false, ◌||◌, not, List, Option, none, some, ◌==◌, if◌then◌else◌, Check,
  all?,
}
use ts_rust.Types.{
  TypeId, Ty, any, unknown, error, union, string_literal, number_literal, boolean_literal, void,
  generic_parameter,
}
use ts_rust.Types.Number.{f64_eq}
use ts_rust.Types.Names.{ids_eq}
use ts_rust.Types.Equality.{bool_eq}
use ts_rust.Relation.View.{View, is_never}

pub data PrimitiveDomain : Type 0 where
  string number boolean null undefined : PrimitiveDomain

abbrev pub primitive_domain : Ty → Option PrimitiveDomain
primitive_domain Ty.string = some PrimitiveDomain.string
primitive_domain (string_literal _) = some PrimitiveDomain.string
primitive_domain Ty.number = some PrimitiveDomain.number
primitive_domain (number_literal _) = some PrimitiveDomain.number
primitive_domain Ty.boolean = some PrimitiveDomain.boolean
primitive_domain (boolean_literal _) = some PrimitiveDomain.boolean
primitive_domain Ty.null = some PrimitiveDomain.null
primitive_domain Ty.undefined = some PrimitiveDomain.undefined
primitive_domain void = some PrimitiveDomain.undefined
primitive_domain _ = none

abbrev pub domain_eq : PrimitiveDomain → PrimitiveDomain → Bool
domain_eq PrimitiveDomain.string PrimitiveDomain.string = true
domain_eq PrimitiveDomain.number PrimitiveDomain.number = true
domain_eq PrimitiveDomain.boolean PrimitiveDomain.boolean = true
domain_eq PrimitiveDomain.null PrimitiveDomain.null = true
domain_eq PrimitiveDomain.undefined PrimitiveDomain.undefined = true
domain_eq _ _ = false

-- The types that may hold anything: never provably disjoint.
abbrev pub is_open : Ty → Bool
is_open any = true
is_open unknown = true
is_open error = true
is_open (generic_parameter _ _ _) = true
is_open _ = false

-- Two types of one domain: only literals with different values exclude each other.
unfoldable pub literals_differ : Ty → Ty → Bool
unfolding ids_eq f64_eq bool_eq
literals_differ (string_literal x) (string_literal y) = not (ids_eq x y)
literals_differ (number_literal x) (number_literal y) = not (f64_eq x y)
literals_differ (boolean_literal x) (boolean_literal y) = not (bool_eq x y)
literals_differ _ _ = false

abbrev pub domains_differ : Ty → Ty → Option PrimitiveDomain → Option PrimitiveDomain → Bool
domains_differ left right (some l) (some r) =
    if domain_eq l r then literals_differ left right else true
domains_differ left right _ _ = false

unfoldable pub primitives_differ : Ty → Ty → Bool
unfolding literals_differ
primitives_differ left right =
    domains_differ left right (primitive_domain left) (primitive_domain right)

module _ (v : View) where
  -- A union on the left, then one on the right, then primitives.
  unfoldable pub members_disjoint : (TypeId → TypeId → Check) → TypeId → TypeId → Ty → Ty → Check
  unfolding primitives_differ all?
  members_disjoint rec a b (union members) right = all? (λ m. rec m b) members
  members_disjoint rec a b left (union members) = all? (λ m. rec a m) members
  members_disjoint rec a b left right = some (primitives_differ left right)

  unfoldable pub disjoint_step : (TypeId → TypeId → Check) → TypeId → TypeId → Check
  unfolding members_disjoint
  disjoint_step rec a b =
      if a == b
      then some (is_never (v.get a))
      else if is_never (v.get a) || is_never (v.get b)
      then some true
      else if is_open (v.get a) || is_open (v.get b)
      then some false
      else members_disjoint rec a b (v.get a) (v.get b)

  unfoldable pub disjoint_within : ℕ → TypeId → TypeId → Check
  unfolding disjoint_step
  disjoint_within zero a b = none
  disjoint_within (suc fuel) a b = disjoint_step (disjoint_within fuel) a b

  unfoldable pub is_disjoint : TypeId → TypeId → Check
  unfolding disjoint_within
  is_disjoint a b = disjoint_within 3 a b
