-- ===== src/Arena/Read/Later.antt =====
-- How reading changes as the arena grows: slots are never rewritten, and a declaration changes only by
-- getting a body. So an id keeps its type, or comes to read as an object.
use ts_rust.Prelude.{
  ℕ, zero, suc, ◌<◌, ◌≤◌, ◌≡◌, refl, ◌∙◌, sym, subst, List, [], ◌∷◌, Option, none, some, length,
  get_elem?, arith, All, Option-cases, inl, inr, ◌⊎◌,
}
use ts_rust.Types.{TypeId, DeclSlot, Ty, ObjectType, object, ref, named, app, union}
use ts_rust.Relation.View.{ChildrenBelow, IsLeaf, IsFlat}
use ts_rust.Arena.{TypeArena, DeclInfo, DeclState, resolved}
use ts_rust.Arena.Read.{read_state, read_decl, look_through, get_within, get}
use ts_rust.Arena.Read.Sound.{IsSound, value, Found-within, get_total}

-- A declaration as it was, or with a body.
abbrev pub StateLater : TypeArena → DeclState → DeclState → Type 0
StateLater a' st st' =
    (st' ≡ st)
    ⊎ ((b : TypeId) × (o : ObjectType) × (st' ≡ resolved b)
        × (get_elem? a'.types b ≡ some (object o)))

pub record Later (a a' : TypeArena) : Type 0 where
  pub slots :
      (i : TypeId) (ty : Ty) → get_elem? a.types i ≡ some ty → get_elem? a'.types i ≡ some ty
  pub decls :
      (s : DeclSlot) (d : DeclInfo)
      → get_elem? a.decls s ≡ some d
      → (d' : DeclInfo) × (get_elem? a'.decls s ≡ some d') × StateLater a' d.state d'.state

-- The type that was read, or an object.
abbrev pub Reads : Option Ty → Ty → Type 0
Reads r ty = (r ≡ some ty) ⊎ ((o : ObjectType) × (r ≡ some (object o)))

module _ (a a' : TypeArena) (later : Later a a') where
  state_later :
      (f f' : ℕ) (st st' : DeclState) (ty : Ty)
      → ((i : TypeId) (t : Ty) → get_within a f i ≡ some t → Reads (get_within a' (suc f') i) t)
      → StateLater a' st st'
      → read_state (get_within a f) st ≡ some ty
      → Reads (read_state (get_within a' (suc f')) st') ty
  unfolding read_state
  state_later f f' (resolved b) st' ty h (inl e) r = rw e (h b ty r)
  state_later f f' st st' ty h (inl e) r = rw e (inl r)
  state_later f f' st st' ty h (inr (b, o, e, t)) r =
      inr (o, rw e (unfold get_within look_through in rw t))

  decl_later :
      (f g : ℕ) (s : DeclSlot) (ty : Ty)
      → ((i : TypeId) (t : Ty) → get_within a f i ≡ some t → Reads (get_within a' (suc g) i) t)
      → read_decl (get_within a f) (get_elem? a.decls s) ≡ some ty
      → Reads (read_decl (get_within a' (suc g)) (get_elem? a'.decls s)) ty
  unfolding read_decl
  decl_later f g s ty h r = elim (Option-cases (get_elem? a.decls s)) [
    | inl e ↦ absurd (missing e r)
    | inr (d, e) ↦
        let (d', e', st) = later.decls s d e in
        rw e' (state_later f g d.state d'.state ty h st (rw e at r))
  ]
    where
      missing :
          get_elem? a.decls s ≡ none
          → read_decl (get_within a f) (get_elem? a.decls s) ≡ some ty
          → ⊥
      missing e r = ground arith

  type_later :
      (f g : ℕ) (t ty : Ty)
      → ((i : TypeId) (t : Ty) → get_within a f i ≡ some t → Reads (get_within a' (suc g) i) t)
      → look_through a (get_within a f) (some t) ≡ some ty
      → Reads (look_through a' (get_within a' (suc g)) (some t)) ty
  unfolding look_through
  type_later f g (ref s) ty h r = decl_later f g s ty h r
  type_later f g (named s inner) ty h r = h inner ty r
  type_later f g (app s args body) ty h r = h body ty r
  type_later f g t ty h r = inl r

  within_suc :
      (f : ℕ) (i : TypeId)
      → get_within a (suc f) i ≡ look_through a (get_within a f) (get_elem? a.types i)
  unfolding get_within
  within_suc f i = refl

  within_later :
      (f f' : ℕ) (i : TypeId) (ty : Ty)
      → f < f'
      → get_within a f i ≡ some ty
      → Reads (get_within a' f' i) ty
  unfolding get_within
  within_later zero f' i ty l h = cc
  within_later (suc f) zero i ty l h = absurd (omega arith)
  within_later (suc f) (suc zero) i ty l h = absurd (omega arith)
  within_later (suc f) (suc (suc g)) i ty l h = elim (Option-cases (get_elem? a.types i)) [
    | inl e ↦ absurd (unread e)
    | inr (t, e) ↦
        rw (later.slots i t e)
          (type_later f g t ty (λ j u. within_later f (suc g) j u (omega arith)) (rw e at h))
  ]
    where
      unread : get_elem? a.types i ≡ none → ⊥
      unread e = unfold look_through in ground arith

some_inj {ℓ} : {A : Type ℓ} {x y : A} → some x ≡ some y → x ≡ y
some_inj e = cc

-- More fuel never changes what is read.
module _ (a : TypeArena) (rec rec' : TypeId → Option Ty)
    (more : (i : TypeId) (t : Ty) → rec i ≡ some t → rec' i ≡ some t) where
  state_more :
      (st : DeclState) (ty : Ty) → read_state rec st ≡ some ty → read_state rec' st ≡ some ty
  unfolding read_state
  state_more (resolved b) ty h = more b ty h
  state_more st ty h = h

  decl_more :
      (d : Option DeclInfo) (ty : Ty) → read_decl rec d ≡ some ty → read_decl rec' d ≡ some ty
  unfolding read_decl
  decl_more none ty h = cc
  decl_more (some d) ty h = state_more d.state ty h

  look_more :
      (r : Option Ty) (ty : Ty) → look_through a rec r ≡ some ty → look_through a rec' r ≡ some ty
  unfolding look_through
  look_more none ty h = cc
  look_more (some (ref s)) ty h = decl_more (get_elem? a.decls s) ty h
  look_more (some (named s inner)) ty h = more inner ty h
  look_more (some (app s args body)) ty h = more body ty h
  look_more (some t) ty h = h

within_more :
    (a : TypeArena) (f f' : ℕ) (i : TypeId) (ty : Ty)
    → f ≤ f'
    → get_within a f i ≡ some ty
    → get_within a f' i ≡ some ty
unfolding get_within
within_more a zero f' i ty l h = cc
within_more a (suc f) zero i ty l h = absurd (omega arith)
within_more a (suc f) (suc f') i ty l h =
    look_more a (get_within a f) (get_within a f') (λ j t e. within_more a f f' j t (omega arith) e)
      (get_elem? a.types i) ty h

-- The types that stay leaves of a union.
Reads-IsLeaf : (r : Option Ty) (ty : Ty) → IsLeaf ty → Reads r ty → IsLeaf (value r)
Reads-IsLeaf r ty l (inl e) = rw e l
Reads-IsLeaf r ty l (inr (o, e)) = rw e (refl, refl)

module _ (a a' : TypeArena) (sound : IsSound a) (later : Later a a')
    (grows : length a.types ≤ length a'.types) where
  -- When a well-formed arena has become one that kept its slots and whose declarations are as they
  -- were or have got an object as their body, an id of it reads as it did, or as an object.
  pub get_later :
      (i : TypeId) (ty : Ty) → i < length a.types → get a i ≡ some ty → Reads (get a' i) ty
  get_later i ty h e =
      let (t, found, _, _, _) = Found-within a sound i i (omega arith) h in
      let same : get a i ≡ some t =
        unfold get in
        within_more a (suc (suc i)) (suc (suc (length a.types))) i t (omega arith) found in
      let now : Reads (get a' i) t =
        unfold get in
        within_later a a' later (suc (suc i)) (suc (suc (length a'.types))) i t (omega arith)
          found in
      subst (Reads (get a' i)) (some_inj (sym same ∙ e)) now

  -- So a leaf of a union stays one.
  pub IsLeaf-later :
      (i : TypeId) → i < length a.types → IsLeaf (value (get a i)) → IsLeaf (value (get a' i))
  IsLeaf-later i h l =
      let (ty, e, _) = get_total a i sound h in
      Reads-IsLeaf (get a' i) ty (rw e at l) (get_later i ty h e)

  pub IsFlat-later :
      (ty : Ty)
      → ChildrenBelow (length a.types) ty
      → IsFlat (λ m. value (get a m)) ty
      → IsFlat (λ m. value (get a' m)) ty
  IsFlat-later (union ms) c h = (h.0, leaves ms c h.1)
    where
      leaves :
          (ms : List TypeId)
          → All (λ m. m < length a.types) ms
          → All (λ m. IsLeaf (value (get a m))) ms
          → All (λ m. IsLeaf (value (get a' m))) ms
      leaves [] c h = tt
      leaves (m ∷ ms) c h = (IsLeaf-later m c.0 h.0, leaves ms c.1 h.1)
  IsFlat-later ty c h = tt
