-- ===== src/Arena/Alloc/Interns.antt =====
-- Hash-consing: equal content has one id and different content has different ids, whatever the
-- digest, colliding or not.
use mathlib.Core.Path.{ap₂}
use ts_rust.Prelude.{
  ℕ, ◌<◌, ◌^◌, ◌≡◌, refl, ◌∙◌, sym, ap, true, false, List, [], ◌∷◌, ◌++◌, Option, none, some,
  length, get_elem?, arith, All, lt-length_of_get_elem?, get_elem?-lt, get_elem?-append,
  get_elem?-push, Option-cases, inl, inr, Answers, Check,
}
use ts_rust.Types.{TypeId, Ty}
use ts_rust.Types.Equality.{type_eq, type_eq_iff}
use ts_rust.Arena.{TypeArena}
use ts_rust.Arena.Store.{lookup, insert, push_lem}
use ts_rust.Arena.Alloc.{
  is_internable, holds, slot_eq, or_later, find_slot, or_default, add_collided, from_collided,
  add_first, from_existing, from_table, alloc,
}

-- The ids of the intern tables are slots of the arena.
pub record IsTidy (a : TypeArena) : Type 0 where
  pub first : (d : ℕ) (id : TypeId) → lookup d a.interned ≡ some id → id < length a.types
  pub others : (d : ℕ) → All (λ id. id < length a.types) (or_default (lookup d a.collided))

pub some_inj {ℓ} : {A : Type ℓ} {x y : A} → some x ≡ some y → x ≡ y
some_inj e = cc

-- The four ways through `alloc` for a type that is interned.
pub data Outcome (digest : Ty → ℕ) (a : TypeArena) (ty : Ty) (r : TypeArena × TypeId) : Type 0 where
  hit_first :
      (e : TypeId)
      → lookup (digest ty) a.interned ≡ some e
      → holds a.types ty e ≡ some true
      → (a, e) ≡ r
      → Outcome digest a ty r
  hit_other :
      (e found : TypeId)
      → lookup (digest ty) a.interned ≡ some e
      → holds a.types ty e ≡ some false
      → find_slot a.types ty (or_default (lookup (digest ty) a.collided)) ≡ some (some found)
      → (a, found) ≡ r
      → Outcome digest a ty r
  miss_first :
      lookup (digest ty) a.interned ≡ none → add_first digest a ty ≡ r → Outcome digest a ty r
  miss_other :
      (e : TypeId)
      → lookup (digest ty) a.interned ≡ some e
      → holds a.types ty e ≡ some false
      → find_slot a.types ty (or_default (lookup (digest ty) a.collided)) ≡ some none
      → add_collided digest a ty ≡ r
      → Outcome digest a ty r

pub holds-slot :
    (types : List Ty) (s : Ty) (id : TypeId)
    → holds types s id ≡ some true
    → get_elem? types id ≡ some s
unfolding holds
holds-slot types s id h = elim (Option-cases (get_elem? types id)) [
  | inl e ↦ absurd (unread e)
  | inr (t, e) ↦ e ∙ ap some ((type_eq_iff t s).0 (some_inj (sym (ap (slot_eq s) e) ∙ h)))
]
  where
    unread : get_elem? types id ≡ none → ⊥
    unread e = ground arith

pub holds-Answers :
    (types : List Ty) (s : Ty) (id : TypeId) → id < length types → Answers (holds types s id)
unfolding holds
holds-Answers types s id h = let (t, e) = get_elem?-lt types id h in rw e (type_eq t s, refl)

pub holds-push :
    (types : List Ty) (ty s : Ty) (id : TypeId)
    → id < length types
    → holds (types ++ ty ∷ []) s id ≡ holds types s id
unfolding holds
holds-push types ty s id h = rw (get_elem?-append types (ty ∷ []) id h)

pub holds_new : (types : List Ty) (ty : Ty) → holds (types ++ ty ∷ []) ty (length types) ≡ some true
unfolding holds
holds_new types ty = rw (get_elem?-push types ty) (ap some ((type_eq_iff ty ty).1 refl))

pub find_slot-push :
    (types : List Ty) (ty s : Ty) (ids : List TypeId)
    → All (λ id. id < length types) ids
    → find_slot (types ++ ty ∷ []) s ids ≡ find_slot types s ids
unfolding find_slot
find_slot-push types ty s [] h = refl
find_slot-push types ty s (id ∷ ids) h =
    ap₂ (λ c r. or_later c id r) (holds-push types ty s id h.0) (find_slot-push types ty s ids h.1)

pub find_slot_total :
    (types : List Ty) (s : Ty) (ids : List TypeId)
    → All (λ id. id < length types) ids
    → (r : Option TypeId) × (find_slot types s ids ≡ some r)
unfolding find_slot
find_slot_total types s [] h = (none, refl)
find_slot_total types s (id ∷ ids) h =
    found (holds-Answers types s id h.0) (find_slot_total types s ids h.1)
  where
    found :
        {c : Check} {l : Option (Option TypeId)}
        → Answers c
        → (r : Option TypeId) × (l ≡ some r)
        → (r : Option TypeId) × (or_later c id l ≡ some r)
    found (true, e) (r, p) = (some id, rw e)
    found (false, e) (r, p) = (r, rw e p)

find_slot-slot :
    (types : List Ty) (s : Ty) (ids : List TypeId) (id : TypeId)
    → find_slot types s ids ≡ some (some id)
    → holds types s id ≡ some true
unfolding find_slot
find_slot-slot types s [] id h = cc
find_slot-slot types s (i ∷ ids) id h = ground (arith, find_slot-slot types s ids id)

pub find_slot-append :
    (types : List Ty) (s : Ty) (ids : List TypeId) (x id : TypeId)
    → find_slot types s ids ≡ some (some id)
    → find_slot types s (ids ++ x ∷ []) ≡ some (some id)
unfolding find_slot
find_slot-append types s [] x id h = cc
find_slot-append types s (i ∷ ids) x id h = ground (arith, find_slot-append types s ids x id)

pub find_slot-last :
    (types : List Ty) (s : Ty) (ids : List TypeId) (x : TypeId)
    → find_slot types s ids ≡ some none
    → holds types s x ≡ some true
    → find_slot types s (ids ++ x ∷ []) ≡ some (some x)
unfolding find_slot
find_slot-last types s [] x h k = ap (λ c. or_later c x (some none)) k
find_slot-last types s (i ∷ ids) x h k = ground (arith, find_slot-last types s ids x)

module _ (digest : Ty → ℕ) (a : TypeArena) (ty : Ty) (r : TypeArena × TypeId) where
  collided_cases :
      (e : TypeId) (o : Option (Option TypeId))
      → lookup (digest ty) a.interned ≡ some e
      → holds a.types ty e ≡ some false
      → find_slot a.types ty (or_default (lookup (digest ty) a.collided)) ≡ o
      → from_collided digest a ty o ≡ some r
      → Outcome digest a ty r
  unfolding from_collided
  collided_cases e none l h f q = cc
  collided_cases e (some (some found)) l h f q = hit_other e found l h f (some_inj q)
  collided_cases e (some none) l h f q = miss_other e l h f (some_inj q)

  existing_cases :
      (e : TypeId) (c : Check)
      → lookup (digest ty) a.interned ≡ some e
      → holds a.types ty e ≡ c
      → from_existing digest a ty e c ≡ some r
      → Outcome digest a ty r
  unfolding from_existing
  existing_cases e none l h q = cc
  existing_cases e (some true) l h q = hit_first e l h (some_inj q)
  existing_cases e (some false) l h q = collided_cases e _ l h refl q

  table_cases :
      (o : Option TypeId)
      → lookup (digest ty) a.interned ≡ o
      → from_table digest a ty o ≡ some r
      → Outcome digest a ty r
  unfolding from_table
  table_cases none l q = miss_first l (some_inj q)
  table_cases (some e) l q = existing_cases e _ l refl q

  pub alloc-internable :
      is_internable ty ≡ true
      → alloc digest a ty ≡ from_table digest a ty (lookup (digest ty) a.interned)
  unfolding alloc
  alloc-internable i = rw i

  pub alloc_cases : is_internable ty ≡ true → alloc digest a ty ≡ some r → Outcome digest a ty r
  alloc_cases i h = table_cases _ refl (sym (alloc-internable i) ∙ h)

-- What the two ways of adding a slot leave.
module _ (digest : Ty → ℕ) (a : TypeArena) (ty : Ty) (room : length a.types < 2 ^ 32) where
  pub add_first_lem : add_first digest a ty ≡ (
    record a {
      types = a.types ++ ty ∷ [];
      interned = insert (digest ty) (length a.types) a.interned;
    },
    length a.types,
  )
  unfolding add_first
  add_first_lem = rw (push_lem a ty room)

  pub add_collided_lem : add_collided digest a ty ≡ (
    record a {
      types = a.types ++ ty ∷ [];
      collided =
          insert
            (digest ty)
            (or_default (lookup (digest ty) a.collided) ++ length a.types ∷ [])
            a.collided;
    },
    length a.types,
  )
  unfolding add_collided
  add_collided_lem = rw (push_lem a ty room)

  -- The id that `alloc` returns holds the type.
  pub alloc_slot :
      (r : TypeArena × TypeId)
      → is_internable ty ≡ true
      → alloc digest a ty ≡ some r
      → get_elem? r.0.types r.1 ≡ some ty
  alloc_slot r i h = slot (alloc_cases digest a ty r i h)
    where
      slot : Outcome digest a ty r → get_elem? r.0.types r.1 ≡ some ty
      slot (hit_first e l k q) = rw (← q) (holds-slot a.types ty e k)
      slot (hit_other e found l k f q) =
          rw (← q) (holds-slot a.types ty found (find_slot-slot a.types ty _ found f))
      slot (miss_first l q) = rw (← q, add_first_lem) (get_elem?-push a.types ty)
      slot (miss_other e l k f q) = rw (← q, add_collided_lem) (get_elem?-push a.types ty)

  -- Slots that were there before keep their types.
  pub alloc_extends :
      (r : TypeArena × TypeId) (i : TypeId) (s : Ty)
      → is_internable ty ≡ true
      → alloc digest a ty ≡ some r
      → get_elem? a.types i ≡ some s
      → get_elem? r.0.types i ≡ some s
  alloc_extends r i s p h e = kept (alloc_cases digest a ty r p h)
    where
      pushed : get_elem? (a.types ++ ty ∷ []) i ≡ some s
      pushed = get_elem?-append a.types (ty ∷ []) i (lt-length_of_get_elem? a.types i e) ∙ e

      kept : Outcome digest a ty r → get_elem? r.0.types i ≡ some s
      kept (hit_first x l k q) = rw (← q) e
      kept (hit_other x found l k f q) = rw (← q) e
      kept (miss_first l q) = rw (← q, add_first_lem) pushed
      kept (miss_other x l k f q) = rw (← q, add_collided_lem) pushed
