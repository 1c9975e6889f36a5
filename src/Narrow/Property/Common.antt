-- ===== src/Narrow/Property/Common.antt =====
-- What a comparison of a property with literals can tell, on values.
use ts_rust.Prelude.{
  ◌≡◌, refl, Bool, true, false, List, [], ◌∷◌, none, some, arith, All, ◌==◌, ==_iff, if◌then◌else◌,
  Bool-cases, inl, inr, ◌⊎◌, Check, any?, subst, Answers, sym, ap, ◌∙◌, ◌<◌, length,
}
use ts_rust.Types.{TypeId, Ty, string_literal, number_literal, boolean_literal}
use ts_rust.Relation.Disjoint.Sound.{Some}
use ts_rust.Arena.{TypeArena}
use ts_rust.Arena.Read.{get}
use ts_rust.Arena.Read.Sound.{value, get_total}
use ts_rust.Arena.Union.Sound.{IsWell}
use ts_rust.Narrow.Values.{Value, Holds}
use ts_rust.Narrow.Members.{is_open}
use ts_rust.Narrow.Each.{contains, literal_widens_to}
use ts_rust.Narrow.Each.Tagged.{is_untold}
use ts_rust.Narrow.Property.{may_equal, property_may_equal}

-- The types of literals.
abbrev pub is_literal : Ty → Bool
is_literal (string_literal _) = true
is_literal (number_literal _) = true
is_literal (boolean_literal _) = true
is_literal _ = false

-- The two types have a value in common.
abbrev pub Meet : Ty → Ty → Type 0
Meet s t = (w : Value) × Holds s w × Holds t w

-- A candidate for the type of a property that is the literal, or that has its value without being a
-- literal.
abbrev pub MustEqual : TypeArena → TypeId → TypeId → Type 0
MustEqual a c l =
    (c ≡ l)
    ⊎ ((is_literal (value (get a c)) ≡ false)
        × (is_untold (value (get a c)) ≡ false)
        × (is_literal (value (get a l)) ≡ true)
        × Meet (value (get a c)) (value (get a l)))

-- A candidate that is the literal, has its value, or may hold anything.
abbrev pub MayEqual : TypeArena → TypeId → TypeId → Type 0
MayEqual a c l =
    (c ≡ l) ⊎ (is_open (value (get a c)) ≡ true) ⊎ Meet (value (get a c)) (value (get a l))

meet-may_equal :
    (s t : Ty) (w : Value)
    → is_literal s ≡ false
    → is_untold s ≡ false
    → is_literal t ≡ true
    → Holds s w
    → Holds t w
    → may_equal s t ≡ true
unfolding may_equal is_open literal_widens_to
meet-may_equal s t w h u l p q = ground arith

may_equal-Meet : (s t : Ty) → may_equal s t ≡ true → (is_open s ≡ true) ⊎ Meet s t
unfolding may_equal is_open literal_widens_to
may_equal-Meet Ty.string (string_literal n) h = inr (Value.string n, tt, refl)
may_equal-Meet Ty.number (number_literal n) h = inr (Value.number n, tt, refl)
may_equal-Meet Ty.boolean (boolean_literal n) h = inr (Value.boolean n, tt, refl)
may_equal-Meet s t h = ground arith

-- What the candidates for a property's type must be for the member to stay, if the property is to be
-- one of the literals; or if it is to be none of them.
abbrev pub CandidatesMust : TypeArena → List TypeId → Bool → List TypeId → Type 0
CandidatesMust a literals true cs = Some (λ c. Some (λ l. MustEqual a c l) literals) cs
CandidatesMust a literals false cs =
    Some
      (λ c.
        (w : Value) × Holds (value (get a c)) w × All (λ l. Holds (value (get a l)) w → ⊥) literals)
      cs

-- What they can be where the member stays.
abbrev pub CandidatesMay : TypeArena → List TypeId → Bool → List TypeId → Type 0
CandidatesMay a literals true cs = Some (λ c. Some (λ l. MayEqual a c l) literals) cs
CandidatesMay a literals false cs = (c : TypeId) → cs ≡ c ∷ [] → contains literals c ≡ false

pub Some-map :
    (P Q R : TypeId → Type 0) (xs : List TypeId)
    → ((x : TypeId) → R x → P x → Q x)
    → All R xs
    → Some P xs
    → Some Q xs
Some-map P Q R [] f r h = h
Some-map P Q R (x ∷ xs) f r (inl h) = inl (f x r.0 h)
Some-map P Q R (x ∷ xs) f r (inr h) = inr (Some-map P Q R xs f r.1 h)

pub any?-Some :
    (p : TypeId → Check) (xs : List TypeId) → any? p xs ≡ some true → Some (λ x. p x ≡ some true) xs
unfolding any?
any?-Some p [] h = cc
any?-Some p (x ∷ xs) h = elim (Check-cases (p x)) [
  | inl (inl e) ↦ inl e
  | inl (inr e) ↦ inr (any?-Some p xs (rw e at h))
  | inr e ↦ absurd (ground (arith, (rw e at h)))
]
  where
    Check-cases : (c : Check) → ((c ≡ some true) ⊎ (c ≡ some false)) ⊎ (c ≡ none)
    Check-cases (some true) = inl (inl refl)
    Check-cases (some false) = inl (inr refl)
    Check-cases none = inr refl

pub Some-any? :
    (p : TypeId → Check) (xs : List TypeId)
    → All (λ x. Answers (p x)) xs
    → Some (λ x. p x ≡ some true) xs
    → any? p xs ≡ some true
unfolding any?
Some-any? p [] r h = absurd h
Some-any? p (x ∷ xs) r (inl e) = rw e refl
Some-any? p (x ∷ xs) ((true, e), r) (inr h) = rw e refl
Some-any? p (x ∷ xs) ((false, e), r) (inr h) = rw (e, Some-any? p xs r h) refl

pub contains-Holds :
    (a : TypeArena) (literals : List TypeId) (c : TypeId) (w : Value)
    → contains literals c ≡ true
    → Holds (value (get a c)) w
    → All (λ l. Holds (value (get a l)) w → ⊥) literals
    → ⊥
contains-Holds a [] c w h k none_of = cc
contains-Holds a (l ∷ literals) c w h k none_of = elim (Bool-cases (l == c)) [
  | inl e ↦ none_of.0 (subst (λ i. Holds (value (get a i)) w) (sym ((==_iff l c).0 e)) k)
  | inr e ↦ contains-Holds a literals c w (rw e at h) k none_of.1
]

module _ (a : TypeArena) (well : IsWell a) where
  pub property_may_equal_eq :
      (c l : TypeId)
      → c < length a.types
      → l < length a.types
      → property_may_equal a c l
        ≡ some (if c == l then true else may_equal (value (get a c)) (value (get a l)))
  unfolding property_may_equal
  property_may_equal_eq c l h k =
      let (ty, e, w) = get_total a c well.sound h in
      let (ty', e', w') = get_total a l well.sound k in rw (e, e') (by_test (c == l) ty ty')
    where
      by_test :
          (b : Bool) (s t : Ty)
          → (if b then some true else some (may_equal s t))
            ≡ some (if b then true else may_equal s t)
      by_test true s t = refl
      by_test false s t = refl

  pub must_equal :
      (c l : TypeId)
      → c < length a.types
      → l < length a.types
      → MustEqual a c l
      → property_may_equal a c l ≡ some true
  must_equal c l h k (inl e) = property_may_equal_eq c l h k ∙ rw ((==_iff c l).1 e) refl
  must_equal c l h k (inr (n, u, t, (w, p, q))) =
      property_may_equal_eq c l h k
      ∙ ap some
          (either_way (c == l) (meet-may_equal (value (get a c)) (value (get a l)) w n u t p q))
    where
      either_way : (b : Bool) {d : Bool} → d ≡ true → (if b then true else d) ≡ true
      either_way true e = refl
      either_way false e = e

  pub may_be_equal :
      (c l : TypeId)
      → c < length a.types
      → l < length a.types
      → property_may_equal a c l ≡ some true
      → MayEqual a c l
  may_be_equal c l h k e = elim (Bool-cases (c == l)) [
    | inl s ↦ inl ((==_iff c l).0 s)
    | inr d ↦ inr (may_equal-Meet (value (get a c)) (value (get a l)) (told d))
  ]
    where
      told : (c == l) ≡ false → may_equal (value (get a c)) (value (get a l)) ≡ true
      told d = ground (arith, property_may_equal_eq c l h k)
