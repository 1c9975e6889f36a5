-- ===== src/Arena/Alloc/Keeps.antt =====
-- `alloc` never panics on a well-formed arena, and leaves it well-formed.
use ts_rust.Prelude.{
  ℕ, suc, ◌<◌, ◌^◌, ◌≡◌, refl, ◌∙◌, sym, Bool, true, false, List, [], ◌∷◌, ◌++◌, Option, none, some,
  length, get_elem?, arith, All, All-map, length-append, Bool-cases, inl, inr, ◌==◌,
}
use ts_rust.Types.{TypeId, Ty, named, app, union}
use ts_rust.Relation.View.{ChildrenBelow, IsFlat}
use ts_rust.Arena.{TypeArena}
use ts_rust.Arena.Read.Sound.{IsSound, SlotBelow}
use ts_rust.Arena.Read.Grows.{push-IsSound}
use ts_rust.Arena.Store.{lookup, insert, lookup-insert_at, lookup-insert_ne}
use ts_rust.Arena.Alloc.{
  is_internable, or_default, add_collided, add_first, from_collided, from_existing, from_table,
  alloc,
}
use ts_rust.Arena.Alloc.Interns.{
  IsTidy, Outcome, hit_first, hit_other, miss_first, miss_other, holds-Answers, find_slot_total,
  alloc-internable, alloc_cases, add_first_lem, add_collided_lem, alloc_slot, some_inj,
}

All-append {ℓ κ} :
    {A : Type ℓ} (P : A → Type κ) (xs : List A) (x : A) → All P xs → P x → All P (xs ++ x ∷ [])
All-append P [] x h p = (p, tt)
All-append P (y ∷ ys) x h p = (h.0, All-append P ys x h.1 p)

-- Interned types are no unions, and their ids are the relations' too unless they are wrappers.
internable-IsFlat : (g : TypeId → Ty) (ty : Ty) → is_internable ty ≡ true → IsFlat g ty
unfolding is_internable
internable-IsFlat g (union ms) h = cc
internable-IsFlat g ty h = tt

SlotBelow-children : (n i : ℕ) (ty : Ty) → SlotBelow n i ty → ChildrenBelow i ty
SlotBelow-children n i (Ty.ref s) h = tt
SlotBelow-children n i (named s inner) h = tt
SlotBelow-children n i (app s args body) h = tt
SlotBelow-children n i ty h = h

module _ (digest : Ty → ℕ) (a : TypeArena) (ty : Ty) (tidy : IsTidy a) where
  from_collided_total :
      (o : Option TypeId) → (r : TypeArena × TypeId) × (from_collided digest a ty (some o) ≡ some r)
  unfolding from_collided
  from_collided_total none = (add_collided digest a ty, refl)
  from_collided_total (some i) = ((a, i), refl)

  from_existing_total :
      (e : TypeId) (b : Bool)
      → (r : TypeArena × TypeId) × (from_existing digest a ty e (some b) ≡ some r)
  unfolding from_existing
  from_existing_total e true = ((a, e), refl)
  from_existing_total e false =
      let (o, f) =
        find_slot_total a.types ty (or_default (lookup (digest ty) a.collided))
          (tidy.others (digest ty)) in
      rw f (from_collided_total o)

  from_table_total :
      (o : Option TypeId)
      → lookup (digest ty) a.interned ≡ o
      → (r : TypeArena × TypeId) × (from_table digest a ty o ≡ some r)
  unfolding from_table
  from_table_total none l = (add_first digest a ty, refl)
  from_table_total (some e) l =
      let (b, h) = holds-Answers a.types ty e (tidy.first (digest ty) e l) in
      rw h (from_existing_total e b)

  alloc_answers : is_internable ty ≡ true → (r : TypeArena × TypeId) × (alloc digest a ty ≡ some r)
  alloc_answers i =
      let (r, h) = from_table_total (lookup (digest ty) a.interned) refl in
      (r, alloc-internable digest a ty r i ∙ h)

module _ (digest : Ty → ℕ) (a : TypeArena) (ty : Ty) (room : length a.types < 2 ^ 32) where
  one_more : length (a.types ++ ty ∷ []) ≡ suc (length a.types)
  one_more = length-append {0} a.types (ty ∷ []) ∙ omega arith

  below_more :
      (ids : List TypeId)
      → All (λ i. i < length a.types) ids
      → All (λ i. i < length (a.types ++ ty ∷ [])) ids
  below_more ids h =
      All-map (λ i. i < length a.types) (λ i. i < length (a.types ++ ty ∷ [])) ids
        (λ i k. omega (arith, one_more)) h

  abbrev first_after : TypeArena
  first_after = record a {
    types = a.types ++ ty ∷ [];
    interned = insert (digest ty) (length a.types) a.interned;
  }

  abbrev other_after : TypeArena
  other_after = record a {
    types = a.types ++ ty ∷ [];
    collided =
        insert (digest ty) (or_default (lookup (digest ty) a.collided) ++ length a.types ∷ [])
          a.collided;
  }

  first_after-IsTidy : IsTidy a → IsTidy first_after
  first_after-IsTidy tidy = record {
    first = λ d id h. elim (Bool-cases (digest ty == d)) [
      | inl same ↦
          at_end
            (some_inj (sym (lookup-insert_at (digest ty) d (length a.types) a.interned same) ∙ h))
      | inr differ ↦ omega (
        arith,
        one_more,
        tidy.first d id
            (sym (lookup-insert_ne (digest ty) d (length a.types) a.interned differ) ∙ h),
      )
    ];
    others = λ d. below_more (or_default (lookup d a.collided)) (tidy.others d);
  }
    where
      at_end : {id : TypeId} → length a.types ≡ id → id < length (a.types ++ ty ∷ [])
      at_end e = omega (arith, one_more)

  other_after-IsTidy : IsTidy a → IsTidy other_after
  other_after-IsTidy tidy = record {
    first = λ d id h. omega (arith, one_more, tidy.first d id h);
    others = λ d. elim (Bool-cases (digest ty == d)) [
      | inl same ↦ rw (lookup-insert_at (digest ty) d ids a.collided same) (
          All-append (λ i. i < length (a.types ++ ty ∷ []))
            (or_default (lookup (digest ty) a.collided)) (length a.types)
            (below_more (or_default (lookup (digest ty) a.collided)) (tidy.others (digest ty)))
            (omega (arith, one_more)))
      | inr differ ↦
          rw (lookup-insert_ne (digest ty) d ids a.collided differ)
            (below_more (or_default (lookup d a.collided)) (tidy.others d))
    ];
  }
    where
      ids : List TypeId
      ids = or_default (lookup (digest ty) a.collided) ++ length a.types ∷ []

  -- What a new slot does to an arena.
  abbrev Keeps : TypeArena → Type 0
  Keeps b = IsSound b × IsTidy b

  module _ (sound : IsSound a) (tidy : IsTidy a) (internable : is_internable ty ≡ true)
      (below : SlotBelow (length a.decls) (length a.types) ty) where
    Outcome-Keeps : (r : TypeArena × TypeId) → Outcome digest a ty r → Keeps r.0
    Outcome-Keeps r (hit_first e l k q) = rw (← q) (sound, tidy)
    Outcome-Keeps r (hit_other e found l k f q) = rw (← q) (sound, tidy)
    Outcome-Keeps r (miss_first l q) =
        rw (← q, add_first_lem digest a ty room)
          (
            push-IsSound a first_after ty refl refl sound below (internable-IsFlat _ ty internable)
                (SlotBelow-children (length a.decls) (length a.types) ty below),
            first_after-IsTidy tidy,
          )
    Outcome-Keeps r (miss_other e l k f q) =
        rw (← q, add_collided_lem digest a ty room)
          (
            push-IsSound a other_after ty refl refl sound below (internable-IsFlat _ ty internable)
                (SlotBelow-children (length a.decls) (length a.types) ty below),
            other_after-IsTidy tidy,
          )

-- If `alloc` returns, for a type that is interned and names only ids of the arena, then a well-
-- formed arena with a slot free, and its tables, are well-formed again.
pub alloc-keeps :
    (digest : Ty → ℕ) (a b : TypeArena) (ty : Ty) (i : TypeId)
    → IsSound a
    → IsTidy a
    → length a.types < 2 ^ 32
    → is_internable ty ≡ true
    → SlotBelow (length a.decls) (length a.types) ty
    → alloc digest a ty ≡ some (b, i)
    → IsSound b × IsTidy b
alloc-keeps digest a b ty i sound tidy room internable below h =
    Outcome-Keeps digest a ty room sound tidy internable below (b, i)
      (alloc_cases digest a ty (b, i) internable h)

-- On a well-formed arena with a slot free, and for a type that is interned and names only ids of the
-- arena, `alloc` returns without a panic; the id it returns holds the type, and the arena and its
-- tables are well-formed again.
pub alloc_total :
    (digest : Ty → ℕ) (a : TypeArena) (ty : Ty)
    → IsSound a
    → IsTidy a
    → length a.types < 2 ^ 32
    → is_internable ty ≡ true
    → SlotBelow (length a.decls) (length a.types) ty
    → (b : TypeArena) × (i : TypeId) × (alloc digest a ty ≡ some (b, i))
      × (get_elem? b.types i ≡ some ty)
      × IsSound b
      × IsTidy b
alloc_total digest a ty sound tidy room internable below =
    let (r, h) = alloc_answers digest a ty tidy internable in
    let (s, t) =
      Outcome-Keeps digest a ty room sound tidy internable below r
        (alloc_cases digest a ty r internable h) in
    (r.0, r.1, h, alloc_slot digest a ty room r internable h, s, t)
