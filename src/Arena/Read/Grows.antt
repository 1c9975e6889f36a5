-- ===== src/Arena/Read/Grows.antt =====
-- When an arena stays well-formed as it grows.
use ts_rust.Prelude.{
  ℕ, zero, suc, ◌≤◌, ◌≡◌, refl, ◌∙◌, ap, subst, List, [], ◌∷◌, ◌++◌, some, length, get_elem?, arith,
  lt-length_of_get_elem?, get_elem?-append, length-append, inl, inr, ◌⊎◌,
}
use ts_rust.Types.{TypeId, DeclSlot, Ty, ObjectType, object, ref, named, app, union}
use ts_rust.Relation.View.{ChildrenBelow, ChildrenBelow-mono, IsFlat}
use ts_rust.Arena.{TypeArena, DeclInfo, resolved}
use ts_rust.Arena.Read.{get}
use ts_rust.Arena.Read.Sound.{IsSound, SlotBelow, value}
use ts_rust.Arena.Read.Later.{Later, IsFlat-later}

pub SlotBelow-mono : (n m : ℕ) (i : TypeId) (ty : Ty) → n ≤ m → SlotBelow n i ty → SlotBelow m i ty
SlotBelow-mono n m i (ref s) l h = omega arith
SlotBelow-mono n m i (named s inner) l h = h
SlotBelow-mono n m i (app s args body) l h = h
SlotBelow-mono n m i ty l h = h

pub get_elem?-snoc {ℓ} :
    {A : Type ℓ} (xs : List A) (x y : A) (i : ℕ)
    → get_elem? (xs ++ x ∷ []) i ≡ some y
    → (get_elem? xs i ≡ some y) ⊎ ((i ≡ length xs) × (x ≡ y))
get_elem?-snoc [] x y zero h = inr (refl, cc)
get_elem?-snoc [] x y (suc i) h = cc
get_elem?-snoc (z ∷ xs) x y zero h = inl h
get_elem?-snoc (z ∷ xs) x y (suc i) h = elim (get_elem?-snoc xs x y i h) [
  | inl e ↦ inl e
  | inr (e, p) ↦ inr (ap suc e, p)
]

-- A slot that is new has ids below it, and is flat if it is a union.
abbrev pub GoodSlot : TypeArena → TypeId → Ty → Type 0
GoodSlot a i ty = SlotBelow (length a.decls) i ty × IsFlat (λ m. value (get a m)) ty

abbrev pub GoodBodies : TypeArena → Type 0
GoodBodies a =
    (s : DeclSlot) (d : DeclInfo) (body : TypeId)
    → get_elem? a.decls s ≡ some d
    → d.state ≡ resolved body
    → (o : ObjectType) × (get_elem? a.types body ≡ some (object o))

module _ (a a' : TypeArena) (sound : IsSound a) (later : Later a a')
    (grows : length a.types ≤ length a'.types) (more : length a.decls ≤ length a'.decls) where
  -- It is enough that its new slots and its declarations are.
  pub IsSound-later :
      ((i : TypeId) (ty : Ty)
        → get_elem? a'.types i ≡ some ty
        → (get_elem? a.types i ≡ some ty) ⊎ GoodSlot a' i ty)
      → GoodBodies a'
      → IsSound a'
  IsSound-later new bodies = record {
    slots = λ i ty e. slot i ty (new i ty e);
    bodies = bodies;
    unions = λ i ms e. flat i ms (new i (union ms) e);
  }
    where
      slot :
          (i : TypeId) (ty : Ty)
          → (get_elem? a.types i ≡ some ty) ⊎ GoodSlot a' i ty
          → SlotBelow (length a'.decls) i ty
      slot i ty (inl e) =
          SlotBelow-mono (length a.decls) (length a'.decls) i ty more (sound.slots i ty e)
      slot i ty (inr g) = g.0

      flat :
          (i : TypeId) (ms : List TypeId)
          → (get_elem? a.types i ≡ some (union ms)) ⊎ GoodSlot a' i (union ms)
          → IsFlat (λ m. value (get a' m)) (union ms)
      flat i ms (inl e) =
          IsFlat-later a a' sound later grows (union ms)
            (ChildrenBelow-mono i (length a.types) (union ms)
              (omega (arith, lt-length_of_get_elem? a.types i e)) (sound.slots i (union ms) e))
            (sound.unions i ms e)
      flat i ms (inr g) = g.1

-- The same arena with one more type: the other fields may change, save the declarations.
module _ (a a' : TypeArena) (ty : Ty) (types : a'.types ≡ a.types ++ ty ∷ [])
    (decls : a'.decls ≡ a.decls) where
  pub Later-push : Later a a'
  Later-push = record {
    slots = λ i t e.
        rw types (get_elem?-append a.types (ty ∷ []) i (lt-length_of_get_elem? a.types i e) ∙ e);
    decls = λ s d e. (d, rw decls e, inl refl);
  }

  one_more : length a'.types ≡ suc (length a.types)
  one_more = rw types (length-append {0} a.types (ty ∷ []) ∙ omega arith)

  pub push-IsSound :
      IsSound a
      → SlotBelow (length a.decls) (length a.types) ty
      → IsFlat (λ m. value (get a m)) ty
      → ChildrenBelow (length a.types) ty
      → IsSound a'
  push-IsSound sound below flat children =
      IsSound-later a a' sound Later-push grows (rw decls (omega arith)) new (λ s d body e r.
        let (o, t) = sound.bodies s d body (rw decls at e) r in
        (o, Later-push.slots body (object o) t))
    where
      grows : length a.types ≤ length a'.types
      grows = omega (arith, one_more)

      new :
          (i : TypeId) (t : Ty)
          → get_elem? a'.types i ≡ some t
          → (get_elem? a.types i ≡ some t) ⊎ GoodSlot a' i t
      new i t e = elim (get_elem?-snoc a.types ty t i (rw types at e)) [
        | inl old ↦ inl old
        | inr (at_end, same) ↦ inr (
            subst (λ u. GoodSlot a' i u) same
              (rw (decls, at_end) below, IsFlat-later a a' sound Later-push grows ty children flat))
      ]
