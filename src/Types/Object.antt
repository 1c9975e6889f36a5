-- ===== src/Types/Object.antt =====
-- `ObjectType::new`: the properties are sorted by name with the stable `sort_by`, which is an
-- insertion that puts a property before those of its own name that come later.
use Prim.Native.Nat.{Ordering}
use ts_rust.Prelude.{◌≡◌, refl, ◌≢◌, ◌∙◌, List, [], ◌∷◌, arith, filter}
use ts_rust.Types.{Name, PropertyEntry, ObjectType}
use ts_rust.Types.Names.{cmp, cmp_flip, cmp_refl, ids_eq, ids_eq→eq}

insert : PropertyEntry → List PropertyEntry → List PropertyEntry
insert p [] = p ∷ []
insert p (q ∷ qs) =
    let later = q ∷ insert p qs in elim (cmp p.name q.name) [ Ordering.gt ↦ later | _ ↦ p ∷ q ∷ qs ]

unfoldable pub sort_by_name : List PropertyEntry → List PropertyEntry
unfolding insert cmp
sort_by_name [] = []
sort_by_name (p ∷ ps) = insert p (sort_by_name ps)

unfoldable pub new : List PropertyEntry → ObjectType
unfolding sort_by_name
new properties = record { properties = sort_by_name properties }

-- `a.name <= b.name`.
abbrev pub NameLe : PropertyEntry → PropertyEntry → Type 0
NameLe p q = cmp p.name q.name ≢ Ordering.gt

-- `subtyping::is_sorted_by_name`: neighbours are in order.
abbrev pub IsSortedByName : List PropertyEntry → Type 0
IsSortedByName [] = Unit
IsSortedByName (p ∷ []) = Unit
IsSortedByName (p ∷ q ∷ qs) = NameLe p q × IsSortedByName (q ∷ qs)

insert-IsSorted :
    (p : PropertyEntry) (qs : List PropertyEntry) → IsSortedByName qs → IsSortedByName (insert p qs)
unfolding insert
insert-IsSorted p [] h = tt
insert-IsSorted p (q ∷ []) h = ground (arith, cmp_flip p.name q.name)
insert-IsSorted p (q ∷ r ∷ rs) h =
    ground (arith, cmp_flip p.name q.name, insert-IsSorted p (r ∷ rs) h.1)

sort_by_name-IsSorted : (ps : List PropertyEntry) → IsSortedByName (sort_by_name ps)
unfolding sort_by_name
sort_by_name-IsSorted [] = tt
sort_by_name-IsSorted (p ∷ ps) =
    unfold sort_by_name in insert-IsSorted p (sort_by_name ps) (sort_by_name-IsSorted ps)

-- The properties of one name, in their order.
abbrev pub of_name : Name → List PropertyEntry → List PropertyEntry
of_name name ps = filter (λ (p : PropertyEntry). ids_eq p.name name) ps

of_name-insert :
    (name : Name) (p : PropertyEntry) (qs : List PropertyEntry)
    → of_name name (insert p qs) ≡ of_name name (p ∷ qs)
unfolding insert
of_name-insert name p [] = refl
of_name-insert name p (q ∷ qs) =
    ground
      (arith, of_name-insert name p qs, ids_eq→eq p.name name, ids_eq→eq q.name name, cmp_refl name)

of_name-cons :
    (name : Name) (p : PropertyEntry) (ps qs : List PropertyEntry)
    → of_name name ps ≡ of_name name qs
    → of_name name (p ∷ ps) ≡ of_name name (p ∷ qs)
of_name-cons name p ps qs h = ground (arith, h)

of_name-sort :
    (name : Name) (ps : List PropertyEntry) → of_name name (sort_by_name ps) ≡ of_name name ps
unfolding sort_by_name
of_name-sort name [] = refl
of_name-sort name (p ∷ ps) =
    of_name-insert name p (sort_by_name ps)
    ∙ of_name-cons name p (sort_by_name ps) ps (of_name-sort name ps)

-- `ObjectType::new` sorts the properties by name and keeps, for every name, the properties of that
-- name in the order they were given, none lost and none added.
pub new_lem :
    (ps : List PropertyEntry)
    → IsSortedByName (new ps).properties
      × ((name : Name) → of_name name (new ps).properties ≡ of_name name ps)
unfolding new
new_lem ps = (sort_by_name-IsSorted ps, λ name. of_name-sort name ps)
