-- ===== src/Narrow/Members/Sides.antt =====
-- What the narrowings by truth and by `null` and `undefined` keep is what a value can be there.
use ts_rust.Prelude.{◌≡◌, ◌≢◌, refl, Bool, true, false, [], ◌∷◌, arith, Bool-cases, inl, inr, ◌⊎◌}
use ts_rust.Types.{
  Ty, string_literal, number_literal, boolean_literal, never, void, array, intersection, ref, named,
  app, union, generic_parameter,
}
use ts_rust.Types.Number.{is_zero}
use ts_rust.Types.Equality.{bool_eq}
use ts_rust.Relation.View.{IsLeaf}
use ts_rust.Narrow.Values.{Value, Holds, CanBe, truth, compares, is_nothing}
use ts_rust.Narrow.Members.{
  is_definitely_falsy, is_definitely_truthy, may_be, is_target, is_open, keeps_nullish,
}

pub truth-may_be : (ty : Ty) (w : Value) → Holds ty w → may_be (truth w) ty ≡ true
unfolding may_be is_definitely_falsy is_definitely_truthy
truth-may_be ty w h = ground arith

pub may_be-CanBe :
    (want : Bool) (ty : Ty) → IsLeaf ty → may_be want ty ≡ true → (ty ≡ void) ⊎ CanBe truth want ty
unfolding may_be is_definitely_falsy is_definitely_truthy is_zero
may_be-CanBe want void l h = inl refl
may_be-CanBe want never l h = cc
may_be-CanBe true Ty.string l h = inr (Value.string (0 ∷ []), tt, refl)
may_be-CanBe false Ty.string l h = inr (Value.string [], tt, refl)
may_be-CanBe true Ty.number l h = inr (Value.number 1, tt, refl)
may_be-CanBe false Ty.number l h = inr (Value.number 0, tt, refl)
may_be-CanBe want Ty.boolean l h = inr (Value.boolean want, tt, refl)
may_be-CanBe true (string_literal s) l h = inr (Value.string s, refl, h)
may_be-CanBe false (string_literal s) l h = inr (Value.string s, refl, ground arith)
may_be-CanBe true (number_literal s) l h = inr (Value.number s, refl, h)
may_be-CanBe false (number_literal s) l h = inr (Value.number s, refl, ground arith)
may_be-CanBe true (boolean_literal s) l h = inr (Value.boolean s, refl, ground arith)
may_be-CanBe false (boolean_literal s) l h = inr (Value.boolean s, refl, ground arith)
may_be-CanBe true Ty.null l h = cc
may_be-CanBe false Ty.null l h = inr (Value.null, tt, refl)
may_be-CanBe true Ty.undefined l h = cc
may_be-CanBe false Ty.undefined l h = inr (Value.undefined, tt, refl)
may_be-CanBe true (Ty.object o) l h = inr (Value.object, tt, refl)
may_be-CanBe false (Ty.object o) l h = cc
may_be-CanBe true (array t) l h = inr (Value.object, tt, refl)
may_be-CanBe false (array t) l h = cc
may_be-CanBe true (Ty.function f) l h = inr (Value.function, tt, refl)
may_be-CanBe false (Ty.function f) l h = cc
may_be-CanBe want (intersection ms) l h = inr (Value.boolean want, refl, refl)
may_be-CanBe want (ref s) l h = inr (Value.boolean want, refl, refl)
may_be-CanBe want (named s t) l h = inr (Value.boolean want, refl, refl)
may_be-CanBe want (app s ts t) l h = inr (Value.boolean want, refl, refl)
may_be-CanBe want ty l h = inr (Value.boolean want, tt, refl)

module _ (is_null is_loose : Bool) where
  pub compares-keeps_nullish :
      (ty : Ty) (w : Value)
      → IsLeaf ty
      → ty ≢ void
      → Holds ty w
      → keeps_nullish is_null is_loose (compares is_null is_loose w) ty ≡ true
  unfolding keeps_nullish is_target is_open bool_eq
  compares-keeps_nullish ty w l v h = ground arith

  differs : (w : Value) → is_nothing w ≡ false → compares is_null is_loose w ≡ false
  differs w h = ground arith

  -- A type that may hold anything holds a value on either side.
  any_can : (want : Bool) → CanBe (compares is_null is_loose) want Ty.unknown
  any_can false = (Value.symbol, tt, differs Value.symbol refl)
  any_can true = elim (Bool-cases is_null) [
    | inl e ↦ (Value.null, tt, ground arith)
    | inr e ↦ (Value.undefined, tt, ground arith)
  ]

  -- A value that is neither `null` nor `undefined` is on the side of what differs.
  other_can :
      (want : Bool) (ty : Ty) (w : Value)
      → is_open ty ≡ false
      → is_target is_null is_loose ty ≡ false
      → is_nothing w ≡ false
      → Holds ty w
      → keeps_nullish is_null is_loose want ty ≡ true
      → (ty ≡ void) ⊎ CanBe (compares is_null is_loose) want ty
  unfolding keeps_nullish bool_eq
  other_can true ty w o t n p h = ground arith
  other_can false ty w o t n p h = inr (w, p, differs w n)

  pub keeps_nullish-CanBe :
      (want : Bool) (ty : Ty)
      → IsLeaf ty
      → keeps_nullish is_null is_loose want ty ≡ true
      → (ty ≡ void) ⊎ CanBe (compares is_null is_loose) want ty
  unfolding is_target is_open
  keeps_nullish-CanBe want void l h = inl refl
  keeps_nullish-CanBe want never l h = cc
  keeps_nullish-CanBe want (union ms) l h = cc
  keeps_nullish-CanBe want Ty.any l h = inr (any_can want)
  keeps_nullish-CanBe want Ty.unknown l h = inr (any_can want)
  keeps_nullish-CanBe want Ty.error l h = inr (any_can want)
  keeps_nullish-CanBe want (generic_parameter i n b) l h = inr (any_can want)
  keeps_nullish-CanBe want Ty.null l h =
      inr (Value.null, tt, unfold keeps_nullish bool_eq in ground arith)
  keeps_nullish-CanBe want Ty.undefined l h =
      inr (Value.undefined, tt, unfold keeps_nullish bool_eq in ground arith)
  keeps_nullish-CanBe want Ty.string l h =
      other_can want Ty.string (Value.string []) refl refl refl tt h
  keeps_nullish-CanBe want Ty.number l h = other_can want Ty.number Value.nan refl refl refl tt h
  keeps_nullish-CanBe want Ty.boolean l h =
      other_can want Ty.boolean (Value.boolean true) refl refl refl tt h
  keeps_nullish-CanBe want (string_literal s) l h =
      other_can want (string_literal s) (Value.string s) refl refl refl refl h
  keeps_nullish-CanBe want (number_literal n) l h =
      other_can want (number_literal n) (Value.number n) refl refl refl refl h
  keeps_nullish-CanBe want (boolean_literal b) l h =
      other_can want (boolean_literal b) (Value.boolean b) refl refl refl refl h
  keeps_nullish-CanBe want (Ty.object o) l h =
      other_can want (Ty.object o) Value.object refl refl refl tt h
  keeps_nullish-CanBe want (array t) l h = other_can want (array t) Value.object refl refl refl tt h
  keeps_nullish-CanBe want (Ty.function f) l h =
      other_can want (Ty.function f) Value.function refl refl refl tt h
  keeps_nullish-CanBe want (intersection ms) l h =
      other_can want (intersection ms) Value.symbol refl refl refl refl h
  keeps_nullish-CanBe want (ref s) l h = other_can want (ref s) Value.symbol refl refl refl refl h
  keeps_nullish-CanBe want (named s t) l h =
      other_can want (named s t) Value.symbol refl refl refl refl h
  keeps_nullish-CanBe want (app s ts t) l h =
      other_can want (app s ts t) Value.symbol refl refl refl refl h
