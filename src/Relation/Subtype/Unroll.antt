-- ===== src/Relation/Subtype/Unroll.antt =====
-- The relation that `is_subtype` computes, without its stack: the rules of `is_subtype_uncached`
-- unrolled to a depth, where below that depth everything is related. Types are related when they are
-- at every depth, the greatest relation that the rules allow. Also: the rules only ever ask for more
-- pairs to be related, so an answer carries over between two relations (`Follows`).
use Prim.Native.Nat.{Ordering, max}
use ts_rust.Prelude.{
  ℕ, zero, suc, ◌+◌, Bool, true, false, ◌||◌, List, [], ◌∷◌, Option, none, some, Check, ◌&&?◌,
  length, is_empty, Follows, Follows-some, &&?-Follows, ||?-Follows, all?-Follows, any?-Follows,
  if-Follows,
}
use ts_rust.Types.{
  TypeId, Param, FunctionType, PropertyEntry, ObjectType, Ty, unknown, function, object, array,
  union, never, generic_parameter, intersection,
}
use ts_rust.Types.Names.{cmp}
use ts_rust.Relation.View.{View}
use ts_rust.Relation.Empty.{intersection_reduces_to_never-Answers}
use ts_rust.Relation.Subtype.{
  is_trivial_subtype, param_type_at, position_is_subtype, positions_are_subtypes,
  function_is_subtype_with, method_is_subtype, property_is_subtype, properties_are_subtypes,
  provided, wanted_is_provided, intersection_satisfies_object, intersection_is_subtype, arms,
  is_subtype_uncached,
}

order-Follows :
    (b : Bool) (o : Ordering) (c c' d d' e e' : Check)
    → Follows b c c'
    → Follows b d d'
    → Follows b e e'
    → Follows b
        (elim o [ Ordering.lt ↦ c | Ordering.eq ↦ d | Ordering.gt ↦ e ])
        (elim o [ Ordering.lt ↦ c' | Ordering.eq ↦ d' | Ordering.gt ↦ e' ])
order-Follows b Ordering.lt c c' d d' e e' p q r = p
order-Follows b Ordering.eq c c' d d' e e' p q r = q
order-Follows b Ordering.gt c c' d d' e e' p q r = r

module _ (v : View) (b : Bool) (rec rel : TypeId → TypeId → Check)
    (follows : (x y : TypeId) → Follows b (rec x y) (rel x y)) where
  position-Follows :
      (bivariant : Bool) (p q : Option TypeId)
      → Follows b
          (position_is_subtype v rec bivariant p q)
          (position_is_subtype v rel bivariant p q)
  unfolding position_is_subtype
  position-Follows bivariant (some p) (some q) =
      ||?-Follows b (rec q p) (rel q p) (some bivariant &&? rec p q) (some bivariant &&? rel p q)
        (follows q p)
        (&&?-Follows b (some bivariant) (some bivariant) (rec p q) (rel p q)
          (Follows-some b bivariant) (follows p q))
  position-Follows bivariant p q = Follows-some b true

  positions-Follows :
      (bivariant : Bool) (ps qs : List Param) (left position : ℕ)
      → Follows b
          (positions_are_subtypes v rec bivariant ps qs left position)
          (positions_are_subtypes v rel bivariant ps qs left position)
  unfolding positions_are_subtypes
  positions-Follows bivariant ps qs zero position = Follows-some b true
  positions-Follows bivariant ps qs (suc left) position =
      &&?-Follows b _ _ _ _
        (position-Follows bivariant (param_type_at v ps position) (param_type_at v qs position))
        (positions-Follows bivariant ps qs left (position + 1))

  function-Follows :
      (f g : FunctionType) (bivariant : Bool)
      → Follows b
          (function_is_subtype_with v rec f g bivariant)
          (function_is_subtype_with v rel f g bivariant)
  unfolding function_is_subtype_with
  function-Follows f g bivariant = if-Follows b _ _ _ _ _ (Follows-some b false) (
      &&?-Follows b _ _ _ _
        (positions-Follows bivariant f.params g.params (max (length f.params) (length g.params)) 0)
        (follows f.return_type g.return_type))

  method-Follows :
      (s t : Ty) (x y : TypeId)
      → Follows b (method_is_subtype v rec s t x y) (method_is_subtype v rel s t x y)
  unfolding method_is_subtype
  method-Follows (function f) (function g) x y = function-Follows f g true
  method-Follows s t x y = follows x y

  property-Follows :
      (x : TypeId) (q : PropertyEntry)
      → Follows b (property_is_subtype v rec x q) (property_is_subtype v rel x q)
  unfolding property_is_subtype
  property-Follows x q =
      if-Follows b q.is_method _ _ _ _ (method-Follows (v.get x) (v.get q.type_id) x q.type_id)
        (follows x q.type_id)

  properties-Follows :
      (ps qs : List PropertyEntry)
      → Follows b (properties_are_subtypes v rec ps qs) (properties_are_subtypes v rel ps qs)
  unfolding properties_are_subtypes
  properties-Follows ps [] = Follows-some b true
  properties-Follows [] (q ∷ qs) =
      if-Follows b q.optional _ _ _ _ (properties-Follows [] qs) (Follows-some b false)
  properties-Follows (p ∷ ps) (q ∷ qs) =
      order-Follows b (cmp p.name q.name) _ _ _ _ _ _ (properties-Follows ps (q ∷ qs))
        (if-Follows b _ _ _ _ _ (Follows-some b false)
          (&&?-Follows b _ _ _ _ (property-Follows p.type_id q) (properties-Follows ps qs)))
        (if-Follows b q.optional _ _ _ _ (properties-Follows (p ∷ ps) qs) (Follows-some b false))

  wanted-Follows :
      (q : PropertyEntry) (found : List PropertyEntry)
      → Follows b (wanted_is_provided v rec q found) (wanted_is_provided v rel q found)
  unfolding wanted_is_provided
  wanted-Follows q found = if-Follows b (is_empty found) _ _ _ _ (Follows-some b q.optional) (
      &&?-Follows b _ _ _ _ (Follows-some b _)
        (any?-Follows b _ _ found (λ p. property-Follows p.type_id q)))

  satisfies-Follows :
      (ms : List TypeId) (o : ObjectType)
      → Follows b
          (intersection_satisfies_object v rec ms o)
          (intersection_satisfies_object v rel ms o)
  unfolding intersection_satisfies_object
  satisfies-Follows ms o = all?-Follows b _ _ o.properties (λ q. wanted-Follows q (provided v ms q))

  intersection-Follows :
      (ms : List TypeId) (t : Ty) (x y : TypeId)
      → Follows b (intersection_is_subtype v rec ms t x y) (intersection_is_subtype v rel ms t x y)
  unfolding intersection_is_subtype
  intersection-Follows ms (intersection sups) x y = all?-Follows b _ _ sups (λ m. follows x m)
  intersection-Follows ms (union sups) x y =
      ||?-Follows b _ _ _ _ (any?-Follows b _ _ sups (λ m. follows x m))
        (any?-Follows b _ _ ms (λ m. follows m y))
  intersection-Follows ms (object o) x y =
      ||?-Follows b _ _ _ _ (any?-Follows b _ _ ms (λ m. follows m y)) (satisfies-Follows ms o)
  intersection-Follows ms t x y = any?-Follows b _ _ ms (λ m. follows m y)

  arms-Follows : (s t : Ty) (x y : TypeId) → Follows b (arms v rec s t x y) (arms v rel s t x y)
  unfolding arms
  arms-Follows _ unknown x y = Follows-some b true
  arms-Follows (intersection ms) t x y =
      ||?-Follows b _ _ _ _ (intersection_reduces_to_never-Answers v x, λ e. e)
        (intersection-Follows ms t x y)
  arms-Follows (generic_parameter _ _ (some bound)) t x y = follows bound y
  arms-Follows (union ms) t x y = all?-Follows b _ _ ms (λ m. follows m y)
  arms-Follows never t x y = Follows-some b true
  arms-Follows s (intersection ms) x y = all?-Follows b _ _ ms (λ m. follows x m)
  arms-Follows s (union ms) x y = any?-Follows b _ _ ms (λ m. follows x m)
  arms-Follows (function f) (function g) x y = function-Follows f g false
  arms-Follows (array e) (array e') x y = follows e e'
  arms-Follows (object o) (object o') x y = properties-Follows o.properties o'.properties
  arms-Follows s t x y = Follows-some b _

  -- Where `rel` follows `rec`, so do the rules over them.
  pub uncached-Follows :
      (x y : TypeId) → Follows b (is_subtype_uncached v rec x y) (is_subtype_uncached v rel x y)
  unfolding is_subtype_uncached
  uncached-Follows x y = arms-Follows (v.get x) (v.get y) x y

-- A question that the rules leave open counts as no. (They leave none: see `Answers`.)
abbrev pub yes_only : Check → Bool
yes_only (some x) = x
yes_only none = false

-- Related to a depth.
unfoldable pub unroll : View → ℕ → TypeId → TypeId → Bool
unfolding is_trivial_subtype is_subtype_uncached
unroll v zero sub sup = true
unroll v (suc depth) sub sup =
    is_trivial_subtype v sub sup
    || yes_only (is_subtype_uncached v (λ x y. some (unroll v depth x y)) sub sup)
