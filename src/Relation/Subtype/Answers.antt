-- ===== src/Relation/Subtype/Answers.antt =====
-- The rules ask only about ids of the arena, and they answer when those questions are answered.
use Prim.Native.Nat.{Ordering, max}
use ts_rust.Prelude.{
  ℕ, zero, suc, ◌+◌, ◌<◌, ◌≡◌, refl, Bool, true, false, List, [], ◌∷◌, Option, none, some, Check,
  all?, any?, length, get_elem?, is_empty, arith, Option-cases, inl, inr, All, All-map, subst,
  Answers, &&?-Answers, ||?-Answers, all?-Answers, any?-Answers, if-Answers,
}
use ts_rust.Types.{
  Name, TypeId, Param, FunctionType, PropertyEntry, ObjectType, Ty, unknown, function, object,
  array, union, never, generic_parameter, intersection,
}
use ts_rust.Types.Names.{cmp}
use ts_rust.Relation.View.{View, ChildrenBelow, ParamsBelow, PropertiesBelow, OptionBelow}
use ts_rust.Relation.Empty.{find_property, intersection_reduces_to_never-Answers}
use ts_rust.Relation.Subtype.{
  last_rest, position_type, param_type_at, position_is_subtype, positions_are_subtypes,
  function_is_subtype_with, method_is_subtype, property_is_subtype, properties_are_subtypes,
  provided, provided_by, prepend, wanted_is_provided, intersection_satisfies_object,
  intersection_is_subtype, arms, is_subtype_uncached,
}

find_property-below :
    (n : ℕ) (name : Name) (ps : List PropertyEntry) (q : PropertyEntry)
    → PropertiesBelow n ps
    → find_property name ps ≡ some q
    → q.type_id < n
unfolding find_property
find_property-below n name [] q h e = cc
find_property-below n name (p ∷ ps) q h e =
    unfold find_property in ground (arith, find_property-below n name ps q h.1)

last_rest-below :
    (n : ℕ) (ps : List Param) (q : Param) → ParamsBelow n ps → last_rest ps ≡ some q → q.type_id < n
unfolding last_rest
last_rest-below n [] q h e = cc
last_rest-below n (p ∷ []) q h e = ground arith
last_rest-below n (p ∷ p' ∷ ps) q h e = last_rest-below n (p' ∷ ps) q h.1 e

get_elem?-below :
    (n : ℕ) (ps : List Param) (i : ℕ) (q : Param)
    → ParamsBelow n ps
    → get_elem? ps i ≡ some q
    → q.type_id < n
get_elem?-below n [] i q h e = cc
get_elem?-below n (p ∷ ps) zero q h e = ground arith
get_elem?-below n (p ∷ ps) (suc i) q h e = get_elem?-below n ps i q h.1 e

order-Answers :
    (o : Ordering) {c d e : Check}
    → Answers c
    → Answers d
    → Answers e
    → Answers (elim o [ Ordering.lt ↦ c | Ordering.eq ↦ d | Ordering.gt ↦ e ])
order-Answers Ordering.lt p q r = p
order-Answers Ordering.eq p q r = q
order-Answers Ordering.gt p q r = r

module _ (v : View) where
  open v use {size, get, closed}

  closed_at : (i : TypeId) (t : Ty) → get i ≡ t → i < size → ChildrenBelow size t
  closed_at i t e h = subst (ChildrenBelow size) e (closed i h)

  element_below :
      (i : TypeId) (t : Ty)
      → get i ≡ t
      → i < size
      → elim t [ array element ↦ element | _ ↦ i ] < size
  element_below i (array e) p h = closed_at i (array e) p h
  element_below i t p h = h

  position_type-below : (p : Param) → p.type_id < size → position_type v p < size
  unfolding position_type
  position_type-below p h = ground (arith, element_below p.type_id (get p.type_id) refl h)

  param_type_at-below :
      (ps : List Param) (i : ℕ) → ParamsBelow size ps → OptionBelow size (param_type_at v ps i)
  unfolding param_type_at
  param_type_at-below ps i h = elim (Option-cases (get_elem? ps i)) [
    | inr (q, e) ↦ rw (e, param_type_at) (position_type-below q (get_elem?-below size ps i q h e))
    | inl e ↦ elim (Option-cases (last_rest ps)) [
      | inr (q, r) ↦
          rw (e, r, param_type_at) (position_type-below q (last_rest-below size ps q h r))
      | inl r ↦ rw (e, r, param_type_at) tt
    ]
  ]

  prepend-below :
      (o : Option PropertyEntry) (found : List PropertyEntry)
      → ((p : PropertyEntry) → o ≡ some p → p.type_id < size)
      → PropertiesBelow size found
      → PropertiesBelow size (prepend o found)
  unfolding prepend
  prepend-below none found f h = h
  prepend-below (some p) found f h = (f p refl, h)

  provided_by-below :
      (t : Ty) (q : PropertyEntry) (found : List PropertyEntry)
      → ChildrenBelow size t
      → PropertiesBelow size found
      → PropertiesBelow size (provided_by t q found)
  unfolding provided_by
  provided_by-below (object o) q found c h =
      prepend-below (find_property q.name o.properties) found
        (λ p e. find_property-below size q.name o.properties p c e) h
  provided_by-below t q found c h = h

  provided-below :
      (ms : List TypeId) (q : PropertyEntry)
      → All (λ m. m < size) ms
      → PropertiesBelow size (provided v ms q)
  unfolding provided
  provided-below [] q h = tt
  provided-below (m ∷ ms) q h =
      provided_by-below (get m) q (provided v ms q) (closed m h.0) (provided-below ms q h.1)

  module _ (rec : TypeId → TypeId → Check)
      (answers : (x y : TypeId) → x < size → y < size → Answers (rec x y)) where
    position-Answers :
        (bivariant : Bool) (p q : Option TypeId)
        → OptionBelow size p
        → OptionBelow size q
        → Answers (position_is_subtype v rec bivariant p q)
    unfolding position_is_subtype
    position-Answers bivariant (some p) (some q) h k =
        ||?-Answers (answers q p k h) (&&?-Answers (bivariant, refl) (answers p q h k))
    position-Answers bivariant p q h k = (true, refl)

    positions-Answers :
        (bivariant : Bool) (ps qs : List Param) (left position : ℕ)
        → ParamsBelow size ps
        → ParamsBelow size qs
        → Answers (positions_are_subtypes v rec bivariant ps qs left position)
    unfolding positions_are_subtypes
    positions-Answers bivariant ps qs zero position h k = (true, refl)
    positions-Answers bivariant ps qs (suc left) position h k =
        &&?-Answers
          (position-Answers bivariant (param_type_at v ps position) (param_type_at v qs position)
            (param_type_at-below ps position h) (param_type_at-below qs position k))
          (positions-Answers bivariant ps qs left (position + 1) h k)

    function-Answers :
        (f g : FunctionType) (bivariant : Bool)
        → ChildrenBelow size (function f)
        → ChildrenBelow size (function g)
        → Answers (function_is_subtype_with v rec f g bivariant)
    unfolding function_is_subtype_with
    function-Answers f g bivariant h k =
        if-Answers _ (false, refl)
          (&&?-Answers
            (positions-Answers bivariant f.params g.params (max (length f.params) (length g.params))
              0 h.0 k.0)
            (answers f.return_type g.return_type h.1 k.1))

    method-Answers :
        (s t : Ty) (x y : TypeId)
        → ChildrenBelow size s
        → ChildrenBelow size t
        → x < size
        → y < size
        → Answers (method_is_subtype v rec s t x y)
    unfolding method_is_subtype
    method-Answers (function f) (function g) x y h k p q = function-Answers f g true h k
    method-Answers s t x y h k p q = answers x y p q

    property-Answers :
        (x : TypeId) (q : PropertyEntry)
        → x < size
        → q.type_id < size
        → Answers (property_is_subtype v rec x q)
    unfolding property_is_subtype
    property-Answers x q h k =
        if-Answers q.is_method
          (method-Answers (get x) (get q.type_id) x q.type_id (closed x h) (closed q.type_id k) h k)
          (answers x q.type_id h k)

    properties-Answers :
        (ps qs : List PropertyEntry)
        → PropertiesBelow size ps
        → PropertiesBelow size qs
        → Answers (properties_are_subtypes v rec ps qs)
    unfolding properties_are_subtypes
    properties-Answers ps [] h k = (true, refl)
    properties-Answers [] (q ∷ qs) h k =
        if-Answers q.optional (properties-Answers [] qs h k.1) (false, refl)
    properties-Answers (p ∷ ps) (q ∷ qs) h k =
        order-Answers (cmp p.name q.name) (properties-Answers ps (q ∷ qs) h.1 k)
          (if-Answers _ (false, refl)
            (&&?-Answers (property-Answers p.type_id q h.0 k.0) (properties-Answers ps qs h.1 k.1)))
          (if-Answers q.optional (properties-Answers (p ∷ ps) qs h k.1) (false, refl))

    wanted-Answers :
        (q : PropertyEntry) (found : List PropertyEntry)
        → q.type_id < size
        → PropertiesBelow size found
        → Answers (wanted_is_provided v rec q found)
    unfolding wanted_is_provided
    wanted-Answers q found h k =
        if-Answers (is_empty found) (q.optional, refl)
          (&&?-Answers (_, refl)
            (any?-Answers _ found (
              All-map (λ (p : PropertyEntry). p.type_id < size) _ found
                (λ p l. property-Answers p.type_id q l h) k)))

    satisfies-Answers :
        (ms : List TypeId) (o : ObjectType)
        → All (λ m. m < size) ms
        → PropertiesBelow size o.properties
        → Answers (intersection_satisfies_object v rec ms o)
    unfolding intersection_satisfies_object
    satisfies-Answers ms o h k = all?-Answers _ o.properties (
        All-map (λ (q : PropertyEntry). q.type_id < size) _ o.properties
          (λ q l. wanted-Answers q (provided v ms q) l (provided-below ms q h)) k)

    some-left :
        (ms : List TypeId) (y : TypeId)
        → All (λ m. m < size) ms
        → y < size
        → Answers (any? (λ m. rec m y) ms)
    some-left ms y h k = any?-Answers _ ms (All-map (λ m. m < size) _ ms (λ m l. answers m y l k) h)

    some-right :
        (x : TypeId) (ms : List TypeId)
        → x < size
        → All (λ m. m < size) ms
        → Answers (any? (λ m. rec x m) ms)
    some-right x ms k h =
        any?-Answers _ ms (All-map (λ m. m < size) _ ms (λ m l. answers x m k l) h)

    every-right :
        (x : TypeId) (ms : List TypeId)
        → x < size
        → All (λ m. m < size) ms
        → Answers (all? (λ m. rec x m) ms)
    every-right x ms k h =
        all?-Answers _ ms (All-map (λ m. m < size) _ ms (λ m l. answers x m k l) h)

    intersection-Answers :
        (ms : List TypeId) (t : Ty) (x y : TypeId)
        → All (λ m. m < size) ms
        → ChildrenBelow size t
        → x < size
        → y < size
        → Answers (intersection_is_subtype v rec ms t x y)
    unfolding intersection_is_subtype
    intersection-Answers ms (intersection sups) x y h k p q = every-right x sups p k
    intersection-Answers ms (union sups) x y h k p q =
        ||?-Answers (some-right x sups p k) (some-left ms y h q)
    intersection-Answers ms (object o) x y h k p q =
        ||?-Answers (some-left ms y h q) (satisfies-Answers ms o h k)
    intersection-Answers ms t x y h k p q = some-left ms y h q

    arms-Answers :
        (s t : Ty) (x y : TypeId)
        → ChildrenBelow size s
        → ChildrenBelow size t
        → x < size
        → y < size
        → Answers (arms v rec s t x y)
    unfolding arms
    arms-Answers _ unknown x y h k p q = (true, refl)
    arms-Answers (intersection ms) t x y h k p q =
        ||?-Answers (intersection_reduces_to_never-Answers v x)
          (intersection-Answers ms t x y h k p q)
    arms-Answers (generic_parameter _ _ (some bound)) t x y h k p q = answers bound y h q
    arms-Answers (union ms) t x y h k p q =
        all?-Answers _ ms (All-map (λ m. m < size) _ ms (λ m l. answers m y l q) h)
    arms-Answers never t x y h k p q = (true, refl)
    arms-Answers s (intersection ms) x y h k p q = every-right x ms p k
    arms-Answers s (union ms) x y h k p q = some-right x ms p k
    arms-Answers (function f) (function g) x y h k p q = function-Answers f g false h k
    arms-Answers (array e) (array e') x y h k p q = answers e e' h k
    arms-Answers (object o) (object o') x y h k p q =
        properties-Answers o.properties o'.properties h k
    arms-Answers s t x y h k p q = (_, refl)

    -- The rules answer for two ids of the arena.
    pub uncached-Answers :
        (x y : TypeId) → x < size → y < size → Answers (is_subtype_uncached v rec x y)
    unfolding is_subtype_uncached
    uncached-Answers x y h k = arms-Answers (get x) (get y) x y (closed x h) (closed y k) h k
