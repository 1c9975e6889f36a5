-- ===== src/Narrow/Property/Keeps.antt =====
-- Narrowing by a property answers, and what it keeps.
use ts_rust.Prelude.{
  ℕ, ◌<◌, ◌^◌, ◌≡◌, refl, ◌∙◌, sym, ap, subst, Bool, true, false, List, [], ◌∷◌, Option, none, some,
  length, All, All-map, if◌then◌else◌, ◌==◌, Check, Answers, any?-Answers, if-Answers, filter,
}
use ts_rust.Types.{TypeId, Name, PropertyEntry, Ty, object, union}
use ts_rust.Relation.View.{ChildrenBelow, PropertiesBelow, OptionBelow, IsFlat, IsLeaf}
use ts_rust.Relation.Empty.{find_property}
use ts_rust.Relation.Subtype.Unroll.{yes_only}
use ts_rust.Arena.{TypeArena}
use ts_rust.Arena.Read.{get}
use ts_rust.Arena.Read.Sound.{value, get_total, get-Found, closed-Found, IsFlat-at}
use ts_rust.Arena.Union.Flatten.{AllBelow, AllLeaf}
use ts_rust.Arena.Union.Sound.{IsWell, Made}
use ts_rust.Narrow.Members.Kept.{IsKept, filter-All, IsKept-union}
use ts_rust.Types.Names.{ids_eq}
use ts_rust.Narrow.Members.{may_be}
use ts_rust.Narrow.Each.{members_of}
use ts_rust.Narrow.Property.{
  property_type, type_id_of, keep_property, keep_member, keep_members, narrow_union,
  candidate_may_be, candidates_may_be, candidates_match, property_may_equal, may_equal,
  narrow_by_property_literals, narrow_by_property_truthiness,
}

filter_at :
    (p : TypeId → Bool) (x : TypeId) (xs : List TypeId)
    → filter p (x ∷ xs) ≡ (if p x then x ∷ filter p xs else filter p xs)
filter_at p x xs = by_test (p x)
  where
    by_test :
        (b : Bool)
        → (elim b [ true ↦ x ∷ filter p xs | false ↦ filter p xs ])
          ≡ (if b then x ∷ filter p xs else filter p xs)
    by_test true = refl
    by_test false = refl

keep_members_eq :
    (a : TypeArena) (keep : TypeId → Check) (ms : List TypeId)
    → All (λ m. Answers (keep m)) ms
    → keep_members a keep ms ≡ some (filter (λ m. yes_only (keep m)) ms)
keep_members_eq a keep [] h = unfold keep_members in refl
keep_members_eq a keep (m ∷ ms) ((b, e), h) =
    kept (keep_members_eq a keep ms h)
    ∙ ap some (sym (filter_at (λ i. yes_only (keep i)) m ms ∙ ap by_answer e))
  where
    by_answer : Check → List TypeId
    by_answer c =
        if yes_only c
        then m ∷ filter (λ i. yes_only (keep i)) ms
        else filter (λ i. yes_only (keep i)) ms

    kept :
        keep_members a keep ms ≡ some (filter (λ i. yes_only (keep i)) ms)
        → keep_members a keep (m ∷ ms) ≡ some (by_answer (some b))
    kept rest = unfold keep_members in rw (e, rest) refl

find-below :
    (n : ℕ) (property : Name) (ps : List PropertyEntry)
    → PropertiesBelow n ps
    → OptionBelow n (type_id_of (find_property property ps))
unfolding find_property
find-below n property [] h = tt
find-below n property (p ∷ ps) h = by_test (ids_eq p.name property) (find-below n property ps h.1)
  where
    by_test :
        (b : Bool)
        → OptionBelow n (type_id_of (find_property property ps))
        → OptionBelow n (type_id_of (elim b [ true ↦ some p | false ↦ find_property property ps ]))
    by_test true rest = h.0
    by_test false rest = rest

pub property_type-below :
    (n : ℕ) (property : Name) (ty : Ty)
    → ChildrenBelow n ty
    → OptionBelow n (property_type property ty)
unfolding property_type
property_type-below n property (object o) h = find-below n property o.properties h
property_type-below n property ty h = tt

pub members_of-below :
    (n : ℕ) (id : TypeId) (ty : Ty) → id < n → ChildrenBelow n ty → AllBelow n (members_of ty id)
members_of-below n id (union ms) h c = c
members_of-below n id ty h c = (h, tt)

module _ (digest : List TypeId → ℕ) (a : TypeArena) (well : IsWell a)
    (room : length a.types < 2 ^ 32) where
  pub closed-at :
      (i : TypeId) (ty : Ty)
      → i < length a.types
      → get a i ≡ some ty
      → ChildrenBelow (length a.types) ty
  closed-at i ty h e =
      subst (λ r. ChildrenBelow (length a.types) (value r)) e
        (closed-Found a well.sound (get a i) (get-Found a well.sound i h))

  -- A question on the candidates for a property's type that answers on ids of the arena.
  module _ (property : Name) (question : List TypeId → Check)
      (answers : (ids : List TypeId) → AllBelow (length a.types) ids → Answers (question ids)) where
    keep_property-Answers :
        (o : Option TypeId) → OptionBelow (length a.types) o → Answers (keep_property a question o)
    keep_property-Answers none h = (true, refl)
    keep_property-Answers (some i) h =
        let (ty, e, w) = get_total a i well.sound h in
        rw e (
          answers (members_of ty i) (members_of-below (length a.types) i ty h (closed-at i ty h e)))

    keep_member-Answers :
        (m : TypeId) → m < length a.types → Answers (keep_member a property question m)
    unfolding keep_member
    keep_member-Answers m h =
        let (ty, e, w) = get_total a m well.sound h in
        rw e (
          keep_property-Answers (property_type property ty)
            (property_type-below (length a.types) property ty (closed-at m ty h e)))

    pub narrow_union_lem :
        (id : TypeId) (ms : List TypeId)
        → get a id ≡ some (union ms)
        → id < length a.types
        → (flat : List TypeId) × Made a flat
            (narrow_union digest a id (keep_member a property question) (get a id))
          × IsKept a (filter (λ m. yes_only (keep_member a property question m)) ms) flat
    narrow_union_lem id ms e h =
        rw
          (
            e,
            keep_members_eq a (keep_member a property question) ms
                (All-map (λ i. i < length a.types) _ ms keep_member-Answers below),
          )
          (IsKept-union digest a well room
            (filter (λ m. yes_only (keep_member a property question m)) ms)
            (filter-All (λ i. i < length a.types)
              (λ m. yes_only (keep_member a property question m)) ms below)
            (filter-All (λ i. IsLeaf (value (get a i)))
              (λ m. yes_only (keep_member a property question m)) ms isleaf))
      where
        below : AllBelow (length a.types) ms
        below = closed-at id (union ms) h e

        isleaf : AllLeaf a ms
        isleaf =
            (subst (λ r. IsFlat (λ m. value (get a m)) (value r)) e (IsFlat-at a well.sound id)).1

  property_may_equal-Answers :
      (c l : TypeId) → c < length a.types → l < length a.types → Answers (property_may_equal a c l)
  unfolding property_may_equal
  property_may_equal-Answers c l h k =
      let (ty, e, w) = get_total a c well.sound h in
      let (ty', e', w') = get_total a l well.sound k in
      if-Answers (c == l) (true, refl) (rw (e, e') (may_equal ty ty', refl))

  candidate_may_be-Answers :
      (want : Bool) (c : TypeId) → c < length a.types → Answers (candidate_may_be a want c)
  unfolding candidate_may_be
  candidate_may_be-Answers want c h =
      let (ty, e, w) = get_total a c well.sound h in rw e (may_be want ty, refl)

  candidates_match-Answers :
      (literals : List TypeId) (want : Bool) (ids : List TypeId)
      → AllBelow (length a.types) literals
      → AllBelow (length a.types) ids
      → Answers (candidates_match a literals want ids)
  candidates_match-Answers literals false ids below h = (_, refl)
  candidates_match-Answers literals true ids below h = any?-Answers _ ids (
      All-map (λ i. i < length a.types) _ ids
        (λ c k.
          any?-Answers (λ l. property_may_equal a c l) literals
            (All-map (λ i. i < length a.types) _ literals
              (λ l j. property_may_equal-Answers c l k j) below))
        h)

-- On a well-formed arena with a slot free, narrowing a union of it by what literals, ids of it, a
-- property of its members may equal returns without a panic, on either side, and keeps the arena
-- well-formed and every slot as it was. The alternatives of what it returns are, by shape and without
-- a repetition, the members for which `keep_member` says yes.
pub narrow_by_property_literals-IsKept :
    (digest : List TypeId → ℕ) (a : TypeArena) (id : TypeId) (ms : List TypeId) (property : Name)
    (literals : List TypeId) (want : Bool)
    → IsWell a
    → length a.types < 2 ^ 32
    → id < length a.types
    → get a id ≡ some (union ms)
    → AllBelow (length a.types) literals
    → (flat : List TypeId) × Made a flat
        (narrow_by_property_literals digest a id property literals want)
      × IsKept a
          (filter (λ m. yes_only (keep_member a property (candidates_match a literals want) m)) ms)
          flat
unfolding narrow_by_property_literals
narrow_by_property_literals-IsKept digest a id ms property literals want well room h e below =
    narrow_union_lem digest a well room property (candidates_match a literals want)
      (λ ids k. candidates_match-Answers digest a well room literals want ids below k) id ms e h

-- On a well-formed arena with a slot free, narrowing a union of it by the truth of a property of its
-- members returns without a panic, in either branch, and keeps the arena well-formed and every slot
-- as it was. The alternatives of what it returns are, by shape and without a repetition, the members
-- for which `keep_member` says yes.
pub narrow_by_property_truthiness_lem :
    (digest : List TypeId → ℕ) (a : TypeArena) (id : TypeId) (ms : List TypeId) (property : Name)
    (want : Bool)
    → IsWell a
    → length a.types < 2 ^ 32
    → id < length a.types
    → get a id ≡ some (union ms)
    → (flat : List TypeId) × Made a flat (narrow_by_property_truthiness digest a id property want)
      × IsKept a
          (filter (λ m. yes_only (keep_member a property (candidates_may_be a want) m)) ms)
          flat
unfolding narrow_by_property_truthiness
narrow_by_property_truthiness_lem digest a id ms property want well room h e =
    narrow_union_lem digest a well room property (candidates_may_be a want)
      (λ ids k. any?-Answers (candidate_may_be a want) ids (
        All-map (λ i. i < length a.types) _ ids
          (λ c j. candidate_may_be-Answers digest a well room want c j) k))
      id ms e h
