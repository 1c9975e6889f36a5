-- ===== src/Narrow/Each/Tagged.antt =====
-- What `narrow_by_typeof` keeps of a member, on the values of its type.
use ts_rust.Prelude.{
  ◌≡◌, refl, Bool, true, false, ◌||◌, List, [], ◌∷◌, none, some, arith, get_elem?, All,
  if◌then◌else◌, inl, inr, ◌⊎◌, subst, sym, Bool-cases,
}
use ts_rust.Types.{
  TypeId, Name, Ty, string_literal, number_literal, boolean_literal, generic_parameter, void, array,
  union, intersection, ref, named, app,
}
use ts_rust.Types.Fixed
use ts_rust.Types.Names.{ids_eq, ids_eq_iff}
use ts_rust.Types.Equality.{bool_eq, bool_eq-Decides}
use ts_rust.Relation.View.{is_never}
use ts_rust.Relation.Disjoint.Sound.{Some}
use ts_rust.Arena.{TypeArena}
use ts_rust.Arena.Read.{get, get_within, look_through}
use ts_rust.Arena.Read.Sound.{value}
use ts_rust.Narrow.Values.{Value, Holds, CanBe, typeof}
use ts_rust.Narrow.Members.{is_open}
use ts_rust.Narrow.Each.{
  typeof_kept, primitive_for_tag, unwrap_or, matches_typeof_tag, is_opaque, is_unknown,
}

-- What is kept of a member.
abbrev pub kept_of : TypeArena → Name → Bool → TypeId → List TypeId
kept_of a tag want m = typeof_kept tag want m (value (get a m))

-- A type whose values the test does not follow: its alternatives are dropped on the side of a match
-- and kept on the other.
abbrev pub is_untold : Ty → Bool
is_untold void = true
is_untold (intersection _) = true
is_untold (ref _) = true
is_untold (named _ _) = true
is_untold (app _ _ _) = true
is_untold (union _) = true
is_untold _ = false

-- `typeof w === tag`.
abbrev pub has_tag : Name → Value → Bool
has_tag tag w = ids_eq tag (typeof w)

-- The slots of these primitives have them, as `new` gives them.
pub record HasPrimitives (a : TypeArena) : Type 0 where
  pub string_slot : get_elem? a.types Fixed.string ≡ some Ty.string
  pub number_slot : get_elem? a.types Fixed.number ≡ some Ty.number
  pub boolean_slot : get_elem? a.types Fixed.boolean ≡ some Ty.boolean
  pub undefined_slot : get_elem? a.types Fixed.undefined ≡ some Ty.undefined

-- What is kept of a member holds each value of it that the test tells so, and nothing is kept of it
-- that does not hold such a value.
abbrev pub KeepsTagged : TypeArena → Name → Bool → TypeId → Type 0
KeepsTagged a tag want m =
    ((w : Value)
      → is_untold (value (get a m)) ≡ false
      → Holds (value (get a m)) w
      → has_tag tag w ≡ want
      → Some (λ k. Holds (value (get a k)) w) (kept_of a tag want m))
    × (is_untold (value (get a m)) || is_open (value (get a m)) ≡ false
        → is_never (value (get a m)) ≡ false
        → All (λ k. CanBe (has_tag tag) want (value (get a k))) (kept_of a tag want m))

-- A value that the type holds.
some_value : (ty : Ty) → is_untold ty ≡ false → is_never ty ≡ false → (w : Value) × Holds ty w
some_value Ty.string h n = (Value.string [], tt)
some_value Ty.number h n = (Value.nan, tt)
some_value Ty.boolean h n = (Value.boolean true, tt)
some_value (string_literal s) h n = (Value.string s, refl)
some_value (number_literal m) h n = (Value.number m, refl)
some_value (boolean_literal b) h n = (Value.boolean b, refl)
some_value Ty.null h n = (Value.null, tt)
some_value Ty.undefined h n = (Value.undefined, tt)
some_value (Ty.object o) h n = (Value.object, tt)
some_value (array t) h n = (Value.object, tt)
some_value (Ty.function f) h n = (Value.function, tt)
some_value Ty.any h n = (Value.null, tt)
some_value Ty.unknown h n = (Value.null, tt)
some_value Ty.error h n = (Value.null, tt)
some_value (generic_parameter i s b) h n = (Value.null, tt)
some_value ty h n = cc

module _ (tag : Name) where
  -- A type that is told has one tag.
  matches-has_tag :
      (ty : Ty) (w : Value)
      → is_untold ty || is_open ty ≡ false
      → Holds ty w
      → matches_typeof_tag ty tag ≡ has_tag tag w
  unfolding matches_typeof_tag is_open
  matches-has_tag ty w h k = ground arith

  kept-told :
      (want : Bool) (m : TypeId) (ty : Ty)
      → is_untold ty || is_open ty ≡ false
      → typeof_kept tag want m ty
        ≡ (if bool_eq (matches_typeof_tag ty tag) want then m ∷ [] else [])
  unfolding typeof_kept is_opaque is_unknown is_open
  kept-told want m ty h = ground arith

  kept-any :
      (want : Bool) (m : TypeId) (ty : Ty)
      → is_open ty ≡ true
      → (typeof_kept tag want m ty ≡ m ∷ [])
        ⊎ ((want ≡ true)
            × (ty ≡ Ty.unknown)
            × (typeof_kept tag want m ty ≡ unwrap_or (primitive_for_tag tag) m ∷ []))
  unfolding typeof_kept is_opaque is_unknown is_open
  kept-any want m ty h = ground arith

module _ (a : TypeArena) (slots : HasPrimitives a) where
  get-primitive :
      (i : TypeId) (ty : Ty)
      → get_elem? a.types i ≡ some ty
      → look_through a (λ j. none) (some ty) ≡ some ty
      → get a i ≡ some ty
  unfolding get get_within look_through
  get-primitive i ty e k = rw e (ground arith)

  -- A value of a type is one of the primitive that its tag stands for.
  primitive-Holds :
      (m : TypeId) (w : Value)
      → Holds (value (get a m)) w
      → Holds (value (get a (unwrap_or (primitive_for_tag (typeof w)) m))) w
  unfolding primitive_for_tag ids_eq look_through
  primitive-Holds m (Value.string s) h =
      rw (get-primitive Fixed.string Ty.string slots.string_slot refl) tt
  primitive-Holds m (Value.number n) h =
      rw (get-primitive Fixed.number Ty.number slots.number_slot refl) tt
  primitive-Holds m Value.nan h =
      rw (get-primitive Fixed.number Ty.number slots.number_slot refl) tt
  primitive-Holds m (Value.boolean b) h =
      rw (get-primitive Fixed.boolean Ty.boolean slots.boolean_slot refl) tt
  primitive-Holds m Value.undefined h =
      rw (get-primitive Fixed.undefined Ty.undefined slots.undefined_slot refl) tt
  primitive-Holds m w h = h

  only :
      (tag : Name) (m : TypeId) (w : Value) (kept : List TypeId)
      → Holds (value (get a m)) w
      → has_tag tag w ≡ true
      → kept ≡ unwrap_or (primitive_for_tag tag) m ∷ []
      → Some (λ k. Holds (value (get a k)) w) kept
  only tag m w kept h t e = rw e (
      inl (
        subst (λ s. Holds (value (get a (unwrap_or (primitive_for_tag s) m))) w)
          (sym ((ids_eq_iff tag (typeof w)).0 t)) (primitive-Holds m w h)))

  pub keeps_values :
      (tag : Name) (want : Bool) (m : TypeId) (w : Value)
      → is_untold (value (get a m)) ≡ false
      → Holds (value (get a m)) w
      → has_tag tag w ≡ want
      → Some (λ k. Holds (value (get a k)) w) (kept_of a tag want m)
  keeps_values tag want m w u h t = elim (Bool-cases (is_open (value (get a m)))) [
    | inl o ↦ elim (kept-any tag want m (value (get a m)) o) [
      | inl e ↦ rw e (inl h)
      | inr (t', n, e) ↦ only tag m w (kept_of a tag want m) h (cc) e
    ]
    | inr o ↦
        let told = told_of o in
        rw
          (
            kept-told tag want m (value (get a m)) told,
            matches-has_tag tag (value (get a m)) w told h,
            t,
            (bool_eq-Decides want want).1 refl,
          )
          (inl h)
  ]
    where
      told_of :
          is_open (value (get a m)) ≡ false
          → is_untold (value (get a m)) || is_open (value (get a m)) ≡ false
      told_of o = ground arith

  pub keeps_only :
      (tag : Name) (want : Bool) (m : TypeId)
      → is_untold (value (get a m)) || is_open (value (get a m)) ≡ false
      → is_never (value (get a m)) ≡ false
      → All (λ k. CanBe (has_tag tag) want (value (get a k))) (kept_of a tag want m)
  keeps_only tag want m u n =
      let (w, h) = some_value (value (get a m)) (ground arith) n in
      elim (Bool-cases (bool_eq (has_tag tag w) want)) [
        | inl e ↦
            rw
              (
                kept-told tag want m (value (get a m)) u,
                matches-has_tag tag (value (get a m)) w u h,
                e,
              )
              ((w, h, (bool_eq-Decides (has_tag tag w) want).0 e), tt)
        | inr e ↦
            rw
              (
                kept-told tag want m (value (get a m)) u,
                matches-has_tag tag (value (get a m)) w u h,
                e,
              )
              tt
      ]
