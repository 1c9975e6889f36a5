-- ===== src/Relation/View.antt =====
-- What the relations need of an arena: how many ids there are and what `TypeArena::get` returns for
-- each, with the laws that construction keeps. Also `widen` of types.rs, and the questions about one
-- type that several relations ask.
use ts_rust.Prelude.{
  ℕ, ◌<◌, ◌≤◌, arith, All-map, ◌≡◌, ◌≢◌, Bool, true, false, List, [], Option, none, some, All,
}
use ts_rust.Types.Fixed
use ts_rust.Types.{
  TypeId, Param, PropertyEntry, Ty, function, object, array, union, generic_parameter, intersection,
  never, string_literal, number_literal, boolean_literal,
}

abbrev pub OptionBelow : ℕ → Option TypeId → Type 0
OptionBelow n none = Unit
OptionBelow n (some i) = i < n

abbrev pub ParamsBelow : ℕ → List Param → Type 0
ParamsBelow n ps = All (λ p. p.type_id < n) ps

abbrev pub PropertiesBelow : ℕ → List PropertyEntry → Type 0
PropertiesBelow n ps = All (λ p. p.type_id < n) ps

-- The ids that a relation follows out of a type are below `n`.
abbrev pub ChildrenBelow : ℕ → Ty → Type 0
ChildrenBelow n (function f) = ParamsBelow n f.params × (f.return_type < n)
ChildrenBelow n (object o) = PropertiesBelow n o.properties
ChildrenBelow n (array t) = t < n
ChildrenBelow n (union ms) = All (λ m. m < n) ms
ChildrenBelow n (generic_parameter _ _ bound) = OptionBelow n bound
ChildrenBelow n (intersection ms) = All (λ m. m < n) ms
ChildrenBelow n _ = Unit

abbrev pub is_union : Ty → Bool
is_union (union _) = true
is_union _ = false

abbrev pub is_never : Ty → Bool
is_never never = true
is_never _ = false

abbrev pub is_literal : Ty → Bool
is_literal (string_literal _) = true
is_literal (number_literal _) = true
is_literal (boolean_literal _) = true
is_literal _ = false

-- A member that `alloc_union` keeps.
abbrev pub IsLeaf : Ty → Type 0
IsLeaf t = (is_union t ≡ false) × (is_never t ≡ false)

-- A union has members, and none of them is a union or `never`.
abbrev pub IsFlat : (TypeId → Ty) → Ty → Type 0
IsFlat get (union ms) = (ms ≢ []) × All (λ m. IsLeaf (get m)) ms
IsFlat get _ = Unit

pub record View : Type 0 where
  pub size : ℕ
  pub get : TypeId → Ty
  pub closed : (i : TypeId) → i < size → ChildrenBelow size (get i)
  pub flat : (i : TypeId) → IsFlat get (get i)

module _ (v : View) where
  unfoldable pub widen : TypeId → TypeId
  widen type_id = elim (v.get type_id) [
    | string_literal _ ↦ Fixed.string
    | number_literal _ ↦ Fixed.number
    | boolean_literal _ ↦ Fixed.boolean
    | _ ↦ type_id
  ]

pub ChildrenBelow-mono : (i n : ℕ) (t : Ty) → i ≤ n → ChildrenBelow i t → ChildrenBelow n t
ChildrenBelow-mono i n (function f) l (ps, r) = (
  All-map (λ (p : Param). p.type_id < i) (λ p. p.type_id < n) f.params (λ p h. omega arith) ps,
  omega arith,
)
ChildrenBelow-mono i n (object o) l h =
    All-map (λ (p : PropertyEntry). p.type_id < i) (λ p. p.type_id < n) o.properties
      (λ p h. omega arith) h
ChildrenBelow-mono i n (array t) l h = omega arith
ChildrenBelow-mono i n (union ms) l h = All-map (λ m. m < i) (λ m. m < n) ms (λ m h. omega arith) h
ChildrenBelow-mono i n (generic_parameter _ _ none) l h = tt
ChildrenBelow-mono i n (generic_parameter _ _ (some b)) l h = omega arith
ChildrenBelow-mono i n (intersection ms) l h =
    All-map (λ m. m < i) (λ m. m < n) ms (λ m h. omega arith) h
ChildrenBelow-mono i n t l h = tt
