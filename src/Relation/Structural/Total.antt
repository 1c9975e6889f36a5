-- ===== src/Relation/Structural/Total.antt =====
-- `structurally_equal` answers on every arena, recursive types included.
use ts_rust.Prelude.{
  ℕ, zero, suc, ◌+◌, ◌*◌, ◌<◌, ◌≡◌, refl, Bool, true, false, List, [], ◌∷◌, Option, some, ◌==◌,
  Check, length, arith, Answers, &&?-Answers, all?-Answers, any?-Answers, if-Answers, All, All-map,
  Bool-cases, inl, inr,
}
use ts_rust.Types.{
  TypeId, Param, FunctionType, PropertyEntry, ObjectType, Ty, number, string, boolean, null,
  undefined, any, unknown, error, never, void, function, object, array, union, string_literal,
  number_literal, boolean_literal, generic_parameter, intersection,
}
use ts_rust.Relation.View.{ChildrenBelow, ParamsBelow, PropertiesBelow}
use ts_rust.Relation.Subtype.{Pair, contains_pair}
use ts_rust.Relation.Subtype.Fresh.{fresh, fresh_nil, fresh-lt}
use ts_rust.Relation.Structural.{
  same_params, same_properties, same_function, same_members, same_object, same_types, same_read,
  structurally_equal_inner, structurally_equal, deep_enough,
}

abbrev pub is_object_type : Ty → Bool
is_object_type (object _) = true
is_object_type _ = false

-- Each id below `size` has a type that names such ids, and smaller ones unless it is an object.
pub record IsReadable (look : TypeId → Option Ty) (size : ℕ) : Type 0 where
  pub read :
      (i : TypeId)
      → i < size
      → (ty : Ty) × (look i ≡ some ty)
        × ChildrenBelow size ty
        × (is_object_type ty ≡ false → ChildrenBelow i ty)

module _ (n m : ℕ) (rec : TypeId → TypeId → Check)
    (answers : (x y : TypeId) → x < n → y < m → Answers (rec x y)) where
  params-Answers :
      (ps qs : List Param) → ParamsBelow n ps → ParamsBelow m qs → Answers (same_params rec ps qs)
  unfolding same_params
  params-Answers [] qs h k = (true, refl)
  params-Answers (p ∷ ps) [] h k = (true, refl)
  params-Answers (p ∷ ps) (q ∷ qs) h k =
      &&?-Answers (_, refl)
        (&&?-Answers (answers p.type_id q.type_id h.0 k.0) (params-Answers ps qs h.1 k.1))

  properties-Answers :
      (ps qs : List PropertyEntry)
      → PropertiesBelow n ps
      → PropertiesBelow m qs
      → Answers (same_properties rec ps qs)
  unfolding same_properties
  properties-Answers [] qs h k = (true, refl)
  properties-Answers (p ∷ ps) [] h k = (true, refl)
  properties-Answers (p ∷ ps) (q ∷ qs) h k =
      &&?-Answers (_, refl)
        (&&?-Answers (answers p.type_id q.type_id h.0 k.0) (properties-Answers ps qs h.1 k.1))

  function-Answers :
      (f g : FunctionType)
      → ChildrenBelow n (function f)
      → ChildrenBelow m (function g)
      → Answers (same_function rec f g)
  unfolding same_function
  function-Answers f g h k =
      &&?-Answers (_, refl)
        (&&?-Answers (params-Answers f.params g.params h.0 k.0)
          (answers f.return_type g.return_type h.1 k.1))

  members-Answers :
      (xs ys : List TypeId)
      → All (λ x. x < n) xs
      → All (λ y. y < m) ys
      → Answers (same_members rec xs ys)
  unfolding same_members
  members-Answers xs ys h k =
      &&?-Answers (_, refl)
        (all?-Answers _ xs (
          All-map (λ x. x < n) _ xs
            (λ x p. any?-Answers _ ys (All-map (λ y. y < m) _ ys (λ y q. answers x y p q) k)) h))

module _ (size : ℕ) (rec inside : TypeId → TypeId → Check) (seen : List Pair) (a b : TypeId)
    (below : (x y : TypeId) → x < a → y < size → Answers (rec x y))
    (within : contains_pair seen a b ≡ false
      → (x y : TypeId) → x < size
      → y < size
      → Answers (inside x y)) where
  object-Answers :
      (s t : ObjectType)
      → PropertiesBelow size s.properties
      → PropertiesBelow size t.properties
      → Answers (same_object rec inside seen a b s t)
  unfolding same_object
  object-Answers s t h k =
      if-Answers (length s.properties == length t.properties)
        (elim (Bool-cases (contains_pair seen a b)) [
          | inl old ↦ rw old (true, refl)
          | inr new ↦
              rw new
                (properties-Answers size size inside (within new) s.properties t.properties h k)
        ])
        (false, refl)

  types-Answers :
      (s t : Ty)
      → ChildrenBelow size s
      → (is_object_type s ≡ false → ChildrenBelow a s)
      → ChildrenBelow size t
      → Answers (same_types rec inside seen a b s t)
  unfolding same_types
  types-Answers number number h d k = (true, refl)
  types-Answers string string h d k = (true, refl)
  types-Answers boolean boolean h d k = (true, refl)
  types-Answers null null h d k = (true, refl)
  types-Answers undefined undefined h d k = (true, refl)
  types-Answers any any h d k = (true, refl)
  types-Answers unknown unknown h d k = (true, refl)
  types-Answers error error h d k = (true, refl)
  types-Answers never never h d k = (true, refl)
  types-Answers void void h d k = (true, refl)
  types-Answers (string_literal p) (string_literal q) h d k = (_, refl)
  types-Answers (number_literal p) (number_literal q) h d k = (_, refl)
  types-Answers (boolean_literal p) (boolean_literal q) h d k = (_, refl)
  types-Answers (array p) (array q) h d k = below p q (d refl) k
  types-Answers (function f) (function g) h d k = function-Answers a size rec below f g (d refl) k
  types-Answers (object p) (object q) h d k = object-Answers p q h k
  types-Answers (union p) (union q) h d k = members-Answers a size rec below p q (d refl) k
  types-Answers (intersection p) (intersection q) h d k =
      members-Answers a size rec below p q (d refl) k
  types-Answers (generic_parameter p _ _) (generic_parameter q _ _) h d k = (_, refl)
  types-Answers _ _ h d k = (false, refl)

-- The measure falls: by a smaller id, or by a fresh pair less.
pair_falls :
    (f g size x a fuel : ℕ) → f < g → x < size → g * size + a < suc fuel → f * size + x < fuel
pair_falls f g size x a fuel l h k = grind arith

module _ (look : TypeId → Option Ty) (size : ℕ) (readable : IsReadable look size) where
  inner-Answers :
      (fuel : ℕ) (seen : List Pair) (a b : TypeId)
      → a < size
      → b < size
      → fresh seen size size * size + a < fuel
      → Answers (structurally_equal_inner look fuel seen a b)
  unfolding structurally_equal_inner same_read
  inner-Answers zero seen a b h k l = absurd (omega arith)
  inner-Answers (suc fuel) seen a b h k l =
      let (s, e, c, d) = readable.read a h in
      let (t, e', c', _) = readable.read b k in
      rw (e, e')
        (if-Answers (a == b) (true, refl)
          (types-Answers size (structurally_equal_inner look fuel seen)
            (structurally_equal_inner look fuel ((a, b) ∷ seen)) seen a b
            (λ x y p q. inner-Answers fuel seen x y (omega arith) q (omega arith))
            (λ new x y p q. inner-Answers fuel ((a, b) ∷ seen) x y p q (
              pair_falls (fresh ((a, b) ∷ seen) size size) (fresh seen size size) size x a fuel
                (fresh-lt seen a b size size k h new) p l))
            s t c d c'))

-- In an arena whose ids all read, and where only an object names an id that is not smaller,
-- `structurally_equal` terminates with an answer for any two ids.
pub structurally_equal_total :
    (look : TypeId → Option Ty) (size : ℕ) (a b : TypeId)
    → IsReadable look size
    → a < size
    → b < size
    → Answers (structurally_equal look size a b)
unfolding structurally_equal
structurally_equal_total look size a b readable h k =
    inner-Answers look size readable (deep_enough size) [] a b h k start
  where
    start : fresh [] size size * size + a < deep_enough size
    start = rw (fresh_nil size size) (omega arith)
