-- ===== src/Relation/Disjoint/Sound.antt =====
-- What `is_disjoint` promises: two types that it calls disjoint have no value in common.
use ts_rust.Prelude.{
  ◌⊎◌, inl, inr, ℕ, ◌≡◌, Bool, true, List, [], Option, none, ◌∷◌, some, arith, all,
}
use ts_rust.Types.{Name, TypeId, Ty, string_literal, number_literal, boolean_literal, never, void}
use ts_rust.Types.Number.{f64_eq}
use ts_rust.Types.Names.{ids_eq, ids_eq_iff}
use ts_rust.Types.Equality.{bool_eq, bool_eq-Decides}
use ts_rust.Relation.View.{View, is_never}
use ts_rust.Relation.Disjoint.{
  primitives_differ, literals_differ, PrimitiveDomain, primitive_domain, is_disjoint,
}
use ts_rust.Relation.Disjoint.Pairs.{alternatives, leaves_disjoint, all_disjoint}
use ts_rust.Relation.Disjoint.Levels.{is_disjoint_lem}

-- The values of a program, as far as primitive types tell them apart.
pub data Value : Type 0 where
  string : Name → Value
  number : ℕ → Value
  boolean : Bool → Value
  null undefined : Value
  other : ℕ → Value

-- The values of a type that is no union. What the code cannot decide may hold anything.
abbrev pub Holds : Ty → Value → Type 0
Holds Ty.string (Value.string s) = Unit
Holds Ty.string _ = ⊥
Holds (string_literal t) (Value.string s) = t ≡ s
Holds (string_literal t) _ = ⊥
Holds Ty.number (Value.number n) = Unit
Holds Ty.number _ = ⊥
Holds (number_literal m) (Value.number n) = f64_eq m n ≡ true
Holds (number_literal m) _ = ⊥
Holds Ty.boolean (Value.boolean b) = Unit
Holds Ty.boolean _ = ⊥
Holds (boolean_literal c) (Value.boolean b) = c ≡ b
Holds (boolean_literal c) _ = ⊥
Holds Ty.null Value.null = Unit
Holds Ty.null _ = ⊥
Holds Ty.undefined Value.undefined = Unit
Holds Ty.undefined _ = ⊥
Holds void Value.undefined = Unit
Holds void _ = ⊥
Holds never _ = ⊥
Holds _ _ = Unit

-- Some alternative holds the value.
abbrev pub Some : (TypeId → Type 0) → List TypeId → Type 0
Some P [] = ⊥
Some P (x ∷ xs) = P x ⊎ Some P xs

abbrev pub Belongs : View → TypeId → Value → Type 0
Belongs v a w = Some (λ m. Holds (v.get m) w) (alternatives v a)

f64_eq_join : (x y n : ℕ) → f64_eq x n ≡ true → f64_eq y n ≡ true → f64_eq x y ≡ true
unfolding f64_eq
f64_eq_join x y n p q = ground arith

ids_eq_join : (x y n : Name) → x ≡ n → y ≡ n → ids_eq x y ≡ true
ids_eq_join x y n p q = (ids_eq_iff x y).1 (cc)

bool_eq_join : (x y n : Bool) → x ≡ n → y ≡ n → bool_eq x y ≡ true
bool_eq_join x y n p q = (bool_eq-Decides x y).1 (cc)

-- A primitive type that holds a value has the value's domain.
abbrev domain_of : Value → Option PrimitiveDomain
domain_of (Value.string _) = some PrimitiveDomain.string
domain_of (Value.number _) = some PrimitiveDomain.number
domain_of (Value.boolean _) = some PrimitiveDomain.boolean
domain_of Value.null = some PrimitiveDomain.null
domain_of Value.undefined = some PrimitiveDomain.undefined
domain_of (Value.other _) = none

primitive_domain-Holds :
    (t : Ty) (w : Value)
    → Holds t w
    → (primitive_domain t ≡ none) ⊎ (primitive_domain t ≡ domain_of w)
primitive_domain-Holds t w h = ground arith

literals_apart : (s t : Ty) (w : Value) → literals_differ s t ≡ true → Holds s w → Holds t w → ⊥
unfolding literals_differ
literals_apart (string_literal x) (string_literal y) (Value.string n) h p q =
    ground (arith, ids_eq_join x y n p q)
literals_apart (number_literal x) (number_literal y) (Value.number n) h p q =
    ground (arith, f64_eq_join x y n p q)
literals_apart (boolean_literal x) (boolean_literal y) (Value.boolean n) h p q =
    ground (arith, bool_eq_join x y n p q)
literals_apart (string_literal x) (string_literal y) w h p q = absurd p
literals_apart (number_literal x) (number_literal y) w h p q = absurd p
literals_apart (boolean_literal x) (boolean_literal y) w h p q = absurd p
literals_apart s t w h p q = cc

never-Holds : (t : Ty) (w : Value) → is_never t ≡ true → Holds t w → ⊥
never-Holds never w h p = p
never-Holds t w h p = cc

primitives_apart : (s t : Ty) (w : Value) → primitives_differ s t ≡ true → Holds s w → Holds t w → ⊥
unfolding primitives_differ
primitives_apart s t w h p q =
    ground (arith, primitive_domain-Holds s w p, primitive_domain-Holds t w q, literals_apart s t w)

module _ (v : View) (w : Value) where
  leaves_apart :
      (a b : TypeId) → leaves_disjoint v a b ≡ true → Holds (v.get a) w → Holds (v.get b) w → ⊥
  unfolding leaves_disjoint
  leaves_apart a b h p q = ground (
    arith,
    primitives_apart (v.get a) (v.get b) w,
    never-Holds (v.get a) w,
    never-Holds (v.get b) w,
  )

  row_apart :
      (a : TypeId) (ns : List TypeId)
      → all (leaves_disjoint v a) ns ≡ true
      → Holds (v.get a) w
      → Some (λ n. Holds (v.get n) w) ns
      → ⊥
  row_apart a [] h p q = q
  row_apart a (n ∷ ns) h p (inl here) = ground (arith, leaves_apart a n)
  row_apart a (n ∷ ns) h p (inr there) = ground (arith, row_apart a ns)

  all_apart :
      (ms ns : List TypeId)
      → all_disjoint v ms ns ≡ true
      → Some (λ m. Holds (v.get m) w) ms
      → Some (λ n. Holds (v.get n) w) ns
      → ⊥
  all_apart [] ns h p q = p
  all_apart (m ∷ ms) ns h (inl here) q = ground (arith, row_apart m ns)
  all_apart (m ∷ ms) ns h (inr there) q = ground (arith, all_apart ms ns)

-- If `is_disjoint` calls two types disjoint, a value of the one is no value of the other.
pub is_disjoint_sound :
    (v : View) (a b : TypeId) (w : Value)
    → is_disjoint v a b ≡ some true
    → Belongs v a w
    → ¬ Belongs v b w
is_disjoint_sound v a b w h =
    all_apart v w (alternatives v a) (alternatives v b) (cc (is_disjoint_lem v a b))
