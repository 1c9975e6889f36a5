-- ===== src/Relation/Subtype/Join.antt =====
-- The merge-join over two sorted property lists is a lookup by name for each wanted property.
use Prim.Native.Nat.{Ordering}
use ts_rust.Prelude.{
  ◌≡◌, refl, ap, ◌∙◌, sym, subst, false, ◌&&◌, not, List, [], ◌∷◌, Option, none, some,
  if◌then◌else◌, arith, Check, all?, all?-congr, All, All-map, inl, inr,
}
use ts_rust.Types.{Name, TypeId, PropertyEntry}
use ts_rust.Types.Names.{
  cmp, cmp-eq→eq, cmp_trans, cmp_flip, ids_eq, ids_eq_refl, Ordering-cases, ids_eq_comm,
}
use ts_rust.Relation.View.{View}
use ts_rust.Relation.Empty.{find_property}
use ts_rust.Relation.Subtype.{property_is_subtype, properties_are_subtypes}

-- Sorted by name with no name twice, as `ObjectType::new` leaves the members of a declaration.
abbrev pub IsStrict : List PropertyEntry → Type 0
IsStrict [] = Unit
IsStrict (p ∷ ps) = All (λ q. cmp p.name q.name ≡ Ordering.lt) ps × IsStrict ps

-- Two names in strict order differ.
ids_eq_of_lt : (a b : Name) → cmp a b ≡ Ordering.lt → ids_eq a b ≡ false
unfolding cmp ids_eq
ids_eq_of_lt [] [] h = cc
ids_eq_of_lt (a ∷ as') [] h = cc
ids_eq_of_lt [] (b ∷ bs) h = refl
ids_eq_of_lt (a ∷ as') (b ∷ bs) h = ground (arith, ids_eq_of_lt as' bs)

-- A property whose name comes first is passed over.
find_property-skip :
    (p : PropertyEntry) (ps : List PropertyEntry) (name : Name)
    → cmp p.name name ≡ Ordering.lt
    → find_property name (p ∷ ps) ≡ find_property name ps
unfolding find_property
find_property-skip p ps name h = ground (arith, ids_eq_of_lt p.name name h)

find_property-hit :
    (p : PropertyEntry) (ps : List PropertyEntry) (name : Name)
    → cmp p.name name ≡ Ordering.eq
    → find_property name (p ∷ ps) ≡ some p
unfolding find_property
find_property-hit p ps name h = rw (cmp-eq→eq p.name name h) (ground (arith, ids_eq_refl name))

-- No property has a name that comes before all of theirs.
find_property-none :
    (ps : List PropertyEntry) (name : Name)
    → All (λ q. cmp name q.name ≡ Ordering.lt) ps
    → find_property name ps ≡ none
unfolding find_property
find_property-none [] name h = refl
find_property-none (p ∷ ps) name h =
    ground
      (arith, ids_eq_comm p.name name, ids_eq_of_lt name p.name h.0, find_property-none ps name h.1)

module _ (v : View) (rec : TypeId → TypeId → Check) where
  -- What is asked of the source's property of a wanted name.
  abbrev pub fits : Option PropertyEntry → PropertyEntry → Check
  fits none wanted = some wanted.optional
  fits (some p) wanted =
      if p.optional && not wanted.optional
      then some false
      else property_is_subtype v rec p.type_id wanted

  abbrev pub by_lookup : List PropertyEntry → List PropertyEntry → Check
  by_lookup ps qs = all? (λ q. fits (find_property q.name ps) q) qs

  -- Properties before every wanted one change nothing.
  by_lookup-skip :
      (p : PropertyEntry) (ps qs : List PropertyEntry)
      → All (λ q. cmp p.name q.name ≡ Ordering.lt) qs
      → by_lookup (p ∷ ps) qs ≡ by_lookup ps qs
  by_lookup-skip p ps qs h = all?-congr _ _ qs (
      All-map (λ (q : PropertyEntry). cmp p.name q.name ≡ Ordering.lt) _ qs
        (λ q l. ap (λ o. fits o q) (find_property-skip p ps q.name l)) h)

  above_trans :
      (name : Name) (q : PropertyEntry) (qs : List PropertyEntry)
      → cmp name q.name ≡ Ordering.lt
      → All (λ r. cmp q.name r.name ≡ Ordering.lt) qs
      → All (λ r. cmp name r.name ≡ Ordering.lt) qs
  above_trans name q qs h k =
      All-map (λ (r : PropertyEntry). cmp q.name r.name ≡ Ordering.lt) _ qs
        (λ r l. cmp_trans name q.name r.name h l) k

  -- On lists sorted by name with no name twice, the merge-join asks of each wanted property what a
  -- lookup by its name finds.
  pub properties_are_subtypes_lem :
      (ps qs : List PropertyEntry)
      → IsStrict ps
      → IsStrict qs
      → properties_are_subtypes v rec ps qs ≡ by_lookup ps qs
  unfolding properties_are_subtypes all?
  properties_are_subtypes_lem ps [] h k = refl
  properties_are_subtypes_lem [] (q ∷ qs) h k =
      ground (arith, find_property-none [] q.name tt, properties_are_subtypes_lem [] qs tt k.1)
  properties_are_subtypes_lem (p ∷ ps) (q ∷ qs) h k = elim (Ordering-cases (cmp p.name q.name)) [
    | inl (inl less) ↦
        rw (less, properties_are_subtypes)
          (properties_are_subtypes_lem ps (q ∷ qs) h.1 k
            ∙ sym (by_lookup-skip p ps (q ∷ qs) (less, above_trans p.name q qs less k.0)))
    | inl (inr same) ↦ ground (
      arith,
      find_property-hit p ps q.name same,
      properties_are_subtypes_lem ps qs h.1 k.1,
      by_lookup-skip p ps qs (
          subst (λ n. All (λ r. cmp n r.name ≡ Ordering.lt) qs) (sym (cmp-eq→eq p.name q.name same))
            k.0),
    )
    | inr more ↦ ground (
      arith,
      find_property-none (p ∷ ps) q.name
          (cmp_flip p.name q.name more, above_trans q.name p ps (cmp_flip p.name q.name more) h.0),
      properties_are_subtypes_lem (p ∷ ps) qs h k.1,
    )
  ]
