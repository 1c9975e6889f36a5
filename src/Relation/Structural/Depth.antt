-- ===== src/Relation/Structural/Depth.antt =====
-- The comparison by shape without its stack: unrolled to a depth, where below that depth everything
-- is the same. And: an answer carries over between two comparisons of the children.
use ts_rust.Prelude.{
  ℕ, zero, suc, ◌≡◌, refl, Bool, true, false, ◌||◌, List, [], ◌∷◌, Option, some, ◌==◌,
  if◌then◌else◌, Check, Follows, Follows-some, &&?-Follows, all?-Follows, any?-Follows, length,
  arith,
}
use ts_rust.Types.{
  TypeId, Param, FunctionType, PropertyEntry, ObjectType, Ty, number, string, boolean, null,
  undefined, any, unknown, error, never, void, function, object, array, union, string_literal,
  number_literal, boolean_literal, generic_parameter, intersection,
}
use ts_rust.Relation.Subtype.{Pair, contains_pair}
use ts_rust.Relation.Subtype.Unroll.{yes_only}
use ts_rust.Relation.Structural.{
  same_params, same_properties, same_function, same_members, same_object, same_types, same_read,
}

module _ (look : TypeId → Option Ty) where
  unfoldable pub same_to_depth : ℕ → TypeId → TypeId → Bool
  unfolding same_read
  same_to_depth zero a b = true
  same_to_depth (suc k) a b =
      let rel : TypeId → TypeId → Check = λ x y. some (same_to_depth k x y) in
      a == b || yes_only (same_read rel rel [] a b (look a) (look b))

module _ (b : Bool) (rec rel : TypeId → TypeId → Check)
    (follows : (x y : TypeId) → Follows b (rec x y) (rel x y)) where
  params-Follows : (ps qs : List Param) → Follows b (same_params rec ps qs) (same_params rel ps qs)
  unfolding same_params
  params-Follows [] qs = Follows-some b true
  params-Follows (p ∷ ps) [] = Follows-some b true
  params-Follows (p ∷ ps) (q ∷ qs) =
      &&?-Follows b _ _ _ _ (Follows-some b _)
        (&&?-Follows b _ _ _ _ (follows p.type_id q.type_id) (params-Follows ps qs))

  properties-Follows :
      (ps qs : List PropertyEntry)
      → Follows b (same_properties rec ps qs) (same_properties rel ps qs)
  unfolding same_properties
  properties-Follows [] qs = Follows-some b true
  properties-Follows (p ∷ ps) [] = Follows-some b true
  properties-Follows (p ∷ ps) (q ∷ qs) =
      &&?-Follows b _ _ _ _ (Follows-some b _)
        (&&?-Follows b _ _ _ _ (follows p.type_id q.type_id) (properties-Follows ps qs))

  function-Follows :
      (f g : FunctionType) → Follows b (same_function rec f g) (same_function rel f g)
  unfolding same_function
  function-Follows f g = &&?-Follows b _ _ _ _ (Follows-some b _) (
      &&?-Follows b _ _ _ _ (params-Follows f.params g.params)
        (follows f.return_type g.return_type))

  members-Follows :
      (xs ys : List TypeId) → Follows b (same_members rec xs ys) (same_members rel xs ys)
  unfolding same_members
  members-Follows xs ys =
      &&?-Follows b _ _ _ _ (Follows-some b _)
        (all?-Follows b _ _ xs (λ x. any?-Follows b _ _ ys (λ y. follows x y)))

module _ (b : Bool) (rec inside rel : TypeId → TypeId → Check) (seen : List Pair) (x y : TypeId)
    (outer : (x y : TypeId) → Follows b (rec x y) (rel x y))
    (inner : (x y : TypeId) → Follows b (inside x y) (rel x y))
    (old : contains_pair seen x y ≡ true → b ≡ false) where
  object-Follows :
      (s t : ObjectType)
      → Follows b (same_object rec inside seen x y s t) (same_object rel rel [] x y s t)
  unfolding same_object contains_pair
  object-Follows s t = by_length (length s.properties == length t.properties)
    where
      same :
          Follows b
            (same_properties inside s.properties t.properties)
            (same_properties rel s.properties t.properties)
      same = properties-Follows b inside rel inner s.properties t.properties

      on_stack :
          (m : Bool)
          → (m ≡ true → b ≡ false)
          → Follows b
              (if m then some true else same_properties inside s.properties t.properties)
              (same_properties rel s.properties t.properties)
      on_stack false k = same
      on_stack true k = (same.0, λ e. ground (arith, k refl))

      by_length :
          (test : Bool)
          → Follows b
              (if test
                then (if contains_pair seen x y
                    then some true
                    else same_properties inside s.properties t.properties)
                else some false)
              (if test then same_properties rel s.properties t.properties else some false)
      by_length true = on_stack (contains_pair seen x y) old
      by_length false = Follows-some b false

  pub types-Follows :
      (s t : Ty) → Follows b (same_types rec inside seen x y s t) (same_types rel rel [] x y s t)
  unfolding same_types
  types-Follows number number = Follows-some b true
  types-Follows string string = Follows-some b true
  types-Follows boolean boolean = Follows-some b true
  types-Follows null null = Follows-some b true
  types-Follows undefined undefined = Follows-some b true
  types-Follows any any = Follows-some b true
  types-Follows unknown unknown = Follows-some b true
  types-Follows error error = Follows-some b true
  types-Follows never never = Follows-some b true
  types-Follows void void = Follows-some b true
  types-Follows (string_literal p) (string_literal q) = Follows-some b _
  types-Follows (number_literal p) (number_literal q) = Follows-some b _
  types-Follows (boolean_literal p) (boolean_literal q) = Follows-some b _
  types-Follows (array p) (array q) = outer p q
  types-Follows (function f) (function g) = function-Follows b rec rel outer f g
  types-Follows (object p) (object q) = object-Follows p q
  types-Follows (union p) (union q) = members-Follows b rec rel outer p q
  types-Follows (intersection p) (intersection q) = members-Follows b rec rel outer p q
  types-Follows (generic_parameter p _ _) (generic_parameter q _ _) = Follows-some b _
  types-Follows _ _ = Follows-some b false
