-- ===== src/Arena/Alloc/Unique.antt =====
-- What `alloc` returns for a type it will return for that type ever after, and for no other.
use ts_rust.Prelude.{
  ℕ, ◌<◌, ◌^◌, ◌≡◌, ◌↔◌, ◌∙◌, sym, ap, Bool, true, false, List, [], ◌∷◌, ◌++◌, Option, none, some,
  length, get_elem?, Bool-cases, inl, inr, eq_refl, ◌==◌, ==_iff,
}
use ts_rust.Types.{TypeId, Ty}
use ts_rust.Arena.{TypeArena}
use ts_rust.Arena.Store.{lookup, insert, lookup-insert_at, lookup-insert_ne}
use ts_rust.Arena.Alloc.{
  is_internable, holds, find_slot, or_default, add_collided, add_first, from_collided,
  from_existing, from_table, alloc,
}
use ts_rust.Arena.Alloc.Interns.{
  IsTidy, Outcome, hit_first, hit_other, miss_first, miss_other, holds-push, holds_new,
  find_slot-push, find_slot-append, find_slot-last, alloc-internable, alloc_cases, add_first_lem,
  add_collided_lem, alloc_slot, alloc_extends, some_inj,
}

-- The tables lead from the type to the id.
data Hit (digest : Ty → ℕ) (a : TypeArena) (s : Ty) (i : TypeId) : Type 0 where
  first : lookup (digest s) a.interned ≡ some i → holds a.types s i ≡ some true → Hit digest a s i
  other :
      (e : TypeId)
      → lookup (digest s) a.interned ≡ some e
      → holds a.types s e ≡ some false
      → find_slot a.types s (or_default (lookup (digest s) a.collided)) ≡ some (some i)
      → Hit digest a s i

module _ (digest : Ty → ℕ) (a : TypeArena) (s : Ty) (i : TypeId) where
  Hit-alloc : is_internable s ≡ true → Hit digest a s i → alloc digest a s ≡ some (a, i)
  unfolding from_table from_existing from_collided
  Hit-alloc p (first l h) = alloc-internable digest a s (a, i) p ∙ rw (l, from_table, h)
  Hit-alloc p (other e l h f) =
      alloc-internable digest a s (a, i) p ∙ rw (l, from_table, h, from_existing, f)

module _ (digest : Ty → ℕ) (a : TypeArena) (t : Ty) (tidy : IsTidy a)
    (room : length a.types < 2 ^ 32) where
  -- The slots of a digest in the other table, with a new one added for `t`.
  abbrev collided_after : List (ℕ × List TypeId)
  collided_after =
      insert (digest t) (or_default (lookup (digest t) a.collided) ++ length a.types ∷ [])
        a.collided

  found_after :
      (s : Ty) (i : TypeId)
      → find_slot a.types s (or_default (lookup (digest s) a.collided)) ≡ some (some i)
      → find_slot (a.types ++ t ∷ []) s (or_default (lookup (digest s) collided_after))
        ≡ some (some i)
  found_after s i f = elim (Bool-cases (digest t == digest s)) [
    | inl same ↦
        rw
          (lookup-insert_at (digest t) (digest s)
            (or_default (lookup (digest t) a.collided) ++ length a.types ∷ []) a.collided same)
          (rw ((==_iff (digest t) (digest s)).0 same) (
            find_slot-append (a.types ++ t ∷ []) s (or_default (lookup (digest s) a.collided))
              (length a.types) i now))
    | inr differ ↦
        rw
          (lookup-insert_ne (digest t) (digest s)
            (or_default (lookup (digest t) a.collided) ++ length a.types ∷ []) a.collided differ)
          now
  ]
    where
      now :
          find_slot (a.types ++ t ∷ []) s (or_default (lookup (digest s) a.collided))
          ≡ some (some i)
      now =
          find_slot-push a.types t s (or_default (lookup (digest s) a.collided))
            (tidy.others (digest s))
          ∙ f

  holds_after :
      (s : Ty) (e : TypeId) (b : Bool)
      → lookup (digest s) a.interned ≡ some e
      → holds a.types s e ≡ some b
      → holds (a.types ++ t ∷ []) s e ≡ some b
  holds_after s e b l h = holds-push a.types t s e (tidy.first (digest s) e l) ∙ h

  -- A digest with a type is not the one that had none.
  interned_after :
      (s : Ty) (e : TypeId)
      → lookup (digest t) a.interned ≡ none
      → lookup (digest s) a.interned ≡ some e
      → lookup (digest s) (insert (digest t) (length a.types) a.interned) ≡ some e
  interned_after s e l h = elim (Bool-cases (digest t == digest s)) [
    | inl same ↦
        absurd (
          none≢ (sym l ∙ ap (λ d. lookup d a.interned) ((==_iff (digest t) (digest s)).0 same) ∙ h))
    | inr differ ↦ lookup-insert_ne (digest t) (digest s) (length a.types) a.interned differ ∙ h
  ]
    where
      none≢ : none ≡ some e → ⊥
      none≢ p = cc

  -- A type that was found is found after another one has been added.
  kept_first :
      (s : Ty) (i : TypeId)
      → lookup (digest t) a.interned ≡ none
      → Hit digest a s i
      → Hit digest (add_first digest a t).0 s i
  kept_first s i n (first l h) =
      rw (add_first_lem digest a t room) (first (interned_after s i n l) (holds_after s i true l h))
  kept_first s i n (other e l h f) = rw (add_first_lem digest a t room) (
      other e (interned_after s e n l) (holds_after s e false l h) (
        find_slot-push a.types t s (or_default (lookup (digest s) a.collided))
          (tidy.others (digest s))
        ∙ f))

  kept_other : (s : Ty) (i : TypeId) → Hit digest a s i → Hit digest (add_collided digest a t).0 s i
  kept_other s i (first l h) =
      rw (add_collided_lem digest a t room) (first l (holds_after s i true l h))
  kept_other s i (other e l h f) =
      rw (add_collided_lem digest a t room)
        (other e l (holds_after s e false l h) (found_after s i f))

  Hit-kept :
      (s : Ty) (i : TypeId) (r : TypeArena × TypeId)
      → Hit digest a s i
      → Outcome digest a t r
      → Hit digest r.0 s i
  Hit-kept s i r h (hit_first e l k q) = rw (← q) h
  Hit-kept s i r h (hit_other e found l k f q) = rw (← q) h
  Hit-kept s i r h (miss_first l q) = rw (← q) (kept_first s i l h)
  Hit-kept s i r h (miss_other e l k f q) = rw (← q) (kept_other s i h)

  -- The type that was allocated is found.
  Hit-new : (r : TypeArena × TypeId) → Outcome digest a t r → Hit digest r.0 t r.1
  Hit-new r (hit_first e l k q) = rw (← q) (first l k)
  Hit-new r (hit_other e found l k f q) = rw (← q) (other e l k f)
  Hit-new r (miss_first l q) =
      rw (← q, add_first_lem digest a t room)
        (first
          (lookup-insert_at (digest t) (digest t) (length a.types) a.interned (eq_refl (digest t)))
          (holds_new a.types t))
  Hit-new r (miss_other e l k f q) =
      rw (← q, add_collided_lem digest a t room)
        (other e l (holds_after t e false l k) (
          rw
            (lookup-insert_at (digest t) (digest t)
              (or_default (lookup (digest t) a.collided) ++ length a.types ∷ []) a.collided
              (eq_refl (digest t)))
            (find_slot-last (a.types ++ t ∷ []) t (or_default (lookup (digest t) a.collided))
              (length a.types)
              (find_slot-push a.types t t (or_default (lookup (digest t) a.collided))
                  (tidy.others (digest t))
                ∙ f)
              (holds_new a.types t))))

-- Let `s` and then `t`, types that are interned, be allocated in arenas that have a slot free and
-- whose tables hold ids of the arena. To allocate `s` once more then changes nothing and returns
-- the same id, and the ids of `s` and `t` are equal exactly when the types are.
pub alloc_unique :
    (digest : Ty → ℕ) (a b c : TypeArena) (s t : Ty) (i j : TypeId)
    → IsTidy a
    → IsTidy b
    → length a.types < 2 ^ 32
    → length b.types < 2 ^ 32
    → is_internable s ≡ true
    → is_internable t ≡ true
    → alloc digest a s ≡ some (b, i)
    → alloc digest b t ≡ some (c, j)
    → (alloc digest c s ≡ some (c, i)) × ((i ≡ j) ↔ (s ≡ t))
alloc_unique digest a b c s t i j ta tb ra rb ps pt hs ht =
    (again, (same_type, λ e. some_inj_snd (sym again_b ∙ ap (alloc digest b) e ∙ ht)))
  where
    hit_b : Hit digest b s i
    hit_b = Hit-new digest a s ta ra (b, i) (alloc_cases digest a s (b, i) ps hs)

    again_b : alloc digest b s ≡ some (b, i)
    again_b = Hit-alloc digest b s i ps hit_b

    again : alloc digest c s ≡ some (c, i)
    again =
        Hit-alloc digest c s i ps
          (Hit-kept digest b t tb rb s i (c, j) hit_b (alloc_cases digest b t (c, j) pt ht))

    some_inj_snd : ◌≡◌ {A = Option (TypeArena × TypeId)} (some (b, i)) (some (c, j)) → i ≡ j
    some_inj_snd e = ap (λ (p : TypeArena × TypeId). p.1) (some_inj e)

    same_type : i ≡ j → s ≡ t
    same_type e = some_inj (
        sym (alloc_extends digest b t rb (c, j) i s pt ht (alloc_slot digest a s ra (b, i) ps hs))
        ∙ ap (get_elem? c.types) e
        ∙ alloc_slot digest b t rb (c, j) pt ht)
