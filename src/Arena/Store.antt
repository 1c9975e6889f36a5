-- ===== src/Arena/Store.antt =====
-- The hash maps of the arena as association lists: the newest entry of a key is its value. And the
-- types' vector: `push`, and `new` with the ten primitives in their fixed slots.
use ts_rust.Prelude.{
  ℕ, ◌-◌, ◌%◌, ◌^◌, ◌<◌, ◌≡◌, refl, ◌∙◌, true, false, List, [], ◌∷◌, ◌++◌, Option, none, some, ◌==◌,
  if◌then◌else◌, arith, length, length-append,
}
use ts_rust.Types.{
  TypeId, Name, Ty, number, string, boolean, null, undefined, any, unknown, error, never, void,
}
use ts_rust.Types.Names.{ids_eq}
use ts_rust.Arena.{TypeArena}

-- `HashMap::get` and `HashMap::insert`.
module _ {ℓ} {V : Type ℓ} where
  unfoldable pub lookup : ℕ → List (ℕ × V) → Option V
  lookup k [] = none
  lookup k ((j, w) ∷ m) = if j == k then some w else lookup k m

  abbrev pub insert : ℕ → V → List (ℕ × V) → List (ℕ × V)
  insert k w m = (k, w) ∷ m

  unfoldable pub lookup_name : Name → List (Name × V) → Option V
  unfolding ids_eq
  lookup_name k [] = none
  lookup_name k ((j, w) ∷ m) = if ids_eq j k then some w else lookup_name k m

  pub lookup-insert :
      (k j : ℕ) (w : V) (m : List (ℕ × V))
      → lookup j (insert k w m) ≡ (if k == j then some w else lookup j m)
  unfolding lookup
  lookup-insert k j w m = refl

-- `as u32`.
abbrev pub as_u32 : ℕ → ℕ
as_u32 n = n % 2 ^ 32

unfoldable pub push : TypeArena → Ty → TypeArena × TypeId
push a ty =
    let types = a.types ++ ty ∷ [] in (record a { types = types }, as_u32 (length types - 1))

-- The state before the primitives are allocated.
abbrev pub blank : TypeArena
blank = record {
  types = [];
  builtin_slots = [];
  interned = [];
  collided = [];
  interned_unions = [];
  param_scan = [];
  equality_cache = [];
  empty_intersections = [];
  generation = 0;
  decls = [];
  enum_types = [];
}

-- `FIXED_SLOTS`.
abbrev pub fixed_slots : ℕ
fixed_slots = 10

unfoldable pub push_all : TypeArena → List Ty → TypeArena
unfolding push
push_all a [] = a
push_all a (ty ∷ tys) = push_all (push a ty).0 tys

-- The primitives take no part in interning, so each `alloc` of `new` is a push.
unfoldable pub new : TypeArena
unfolding push_all
new =
    push_all blank
      (number ∷ string ∷ boolean ∷ null ∷ undefined ∷ any ∷ unknown ∷ error ∷ never ∷ void ∷ [])

-- A pushed type gets the old length as its id, as long as that is a 32-bit number.
pub push_id : (a : TypeArena) (ty : Ty) → length a.types < 2 ^ 32 → (push a ty).1 ≡ length a.types
unfolding push
push_id a ty h = omega (arith, length-append {0} a.types (ty ∷ []))

-- And the arena has one slot more.
pub push_lem :
    (a : TypeArena) (ty : Ty)
    → length a.types < 2 ^ 32
    → push a ty ≡ (record a { types = a.types ++ ty ∷ [] }, length a.types)
unfolding push
push_lem a ty h = λ i. (record a { types = a.types ++ ty ∷ [] }, push_id a ty h i)

module _ {ℓ} {V : Type ℓ} (k j : ℕ) (w : V) (m : List (ℕ × V)) where
  pub lookup-insert_at : (k == j) ≡ true → lookup j (insert k w m) ≡ some w
  lookup-insert_at h = lookup-insert k j w m ∙ rw h

  pub lookup-insert_ne : (k == j) ≡ false → lookup j (insert k w m) ≡ lookup j m
  lookup-insert_ne h = lookup-insert k j w m ∙ rw h
