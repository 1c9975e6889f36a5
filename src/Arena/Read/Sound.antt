-- ===== src/Arena/Read/Sound.antt =====
-- A well-formed arena: every id in a slot was there before the slot, and a declaration's body is an
-- object. `get` then reads every id without a panic and ends, and such an arena is a `View`.
use ts_rust.Prelude.{
  ℕ, zero, suc, ◌<◌, ◌≤◌, ◌≡◌, refl, Bool, true, false, List, Option, none, some, length, get_elem?,
  arith, lt-length_of_get_elem?, get_elem?-lt, Option-cases, inl, inr,
}
use ts_rust.Types.{TypeId, DeclSlot, Ty, ObjectType, object, ref, named, app, union, error}
use ts_rust.Relation.View.{View, ChildrenBelow, ChildrenBelow-mono, IsFlat}
use ts_rust.Arena.{TypeArena, DeclInfo, DeclState, resolved}
use ts_rust.Arena.Read.{empty_object, read_state, read_decl, look_through, get_within, get}

-- The ids that slot `i` names are below `i`, and its declaration is one of the `n`.
abbrev pub SlotBelow : ℕ → TypeId → Ty → Type 0
SlotBelow n i (ref slot) = slot < n
SlotBelow n i (named slot inner) = inner < i
SlotBelow n i (app slot args body) = body < i
SlotBelow n i ty = ChildrenBelow i ty

abbrev pub is_object : Ty → Bool
is_object (object _) = true
is_object _ = false

abbrev pub is_wrapper : Ty → Bool
is_wrapper (ref _) = true
is_wrapper (named _ _) = true
is_wrapper (app _ _ _) = true
is_wrapper _ = false

-- What `get` gives, for the relations: an id past the arena's is never asked for.
abbrev pub value : Option Ty → Ty
value none = error
value (some ty) = ty

pub record IsSound (a : TypeArena) : Type 0 where
  pub slots :
      (i : TypeId) (ty : Ty) → get_elem? a.types i ≡ some ty → SlotBelow (length a.decls) i ty
  pub bodies :
      (s : DeclSlot) (d : DeclInfo) (body : TypeId)
      → get_elem? a.decls s ≡ some d
      → d.state ≡ resolved body
      → (o : ObjectType) × (get_elem? a.types body ≡ some (object o))
  pub unions :
      (i : TypeId) (ms : List TypeId)
      → get_elem? a.types i ≡ some (union ms)
      → IsFlat (λ m. value (get a m)) (union ms)

-- The body of a declaration is read in one round.
module _ (a : TypeArena) (sound : IsSound a) where
  read_object :
      (f : ℕ) (b : TypeId) (o : ObjectType)
      → get_elem? a.types b ≡ some (object o)
      → get_within a (suc f) b ≡ some (object o)
  unfolding get_within
  read_object f b o e = rw e

  -- What `get` finds: no wrapper, with its children in the arena, and flat if it is a union.
  abbrev pub Found : Option Ty → Type 0
  Found r =
      (ty : Ty) × (r ≡ some ty)
      × (is_wrapper ty ≡ false)
      × ChildrenBelow (length a.types) ty
      × IsFlat (λ m. value (get a m)) ty

  object_children :
      (b : TypeId) (o : ObjectType)
      → get_elem? a.types b ≡ some (object o)
      → ChildrenBelow (length a.types) (object o)
  object_children b o e =
      ChildrenBelow-mono b (length a.types) (object o)
        (omega (arith, lt-length_of_get_elem? a.types b e)) (sound.slots b (object o) e)

  Found-state :
      (f : ℕ) (st : DeclState)
      → ((body : TypeId)
          → st ≡ resolved body
          → (o : ObjectType) × (get_elem? a.types body ≡ some (object o)))
      → Found (read_state (get_within a (suc f)) st)
  unfolding read_state
  Found-state f (resolved body) h =
      let (o, e) = h body refl in
      (object o, read_object f body o e, refl, object_children body o e, tt)
  Found-state f st h = (empty_object, refl, refl, tt, tt)

  Found-decl :
      (f : ℕ) (s : DeclSlot)
      → s < length a.decls
      → Found (read_decl (get_within a (suc f)) (get_elem? a.decls s))
  unfolding read_decl
  Found-decl f s h =
      let (d, e) = get_elem?-lt a.decls s h in
      rw e (Found-state f d.state (λ body r. sound.bodies s d body e r))

  Found-type :
      (f : ℕ) (i : TypeId) (ty : Ty)
      → get_elem? a.types i ≡ some ty
      → ((j : TypeId) → j < i → Found (get_within a (suc f) j))
      → Found (look_through a (get_within a (suc f)) (some ty))
  unfolding look_through
  Found-type f i (ref s) e h = Found-decl f s (sound.slots i (ref s) e)
  Found-type f i (named s inner) e h = h inner (sound.slots i (named s inner) e)
  Found-type f i (app s args body) e h = h body (sound.slots i (app s args body) e)
  Found-type f i (union ms) e h = (
    union ms,
    refl,
    refl,
    ChildrenBelow-mono i (length a.types) (union ms)
        (omega (arith, lt-length_of_get_elem? a.types i e)) (sound.slots i (union ms) e),
    sound.unions i ms e,
  )
  Found-type f i ty e h = (
    ty,
    refl,
    refl,
    ChildrenBelow-mono i (length a.types) ty (omega (arith, lt-length_of_get_elem? a.types i e))
        (sound.slots i ty e),
    tt,
  )

  pub Found-within :
      (f : ℕ) (i : TypeId) → i ≤ f → i < length a.types → Found (get_within a (suc (suc f)) i)
  unfolding get_within
  Found-within zero i l h =
      let (ty, e) = get_elem?-lt a.types i h in
      rw e (Found-type zero i ty e (λ j k. absurd (omega arith)))
  Found-within (suc f) i l h =
      let (ty, e) = get_elem?-lt a.types i h in
      rw e (Found-type (suc f) i ty e (λ j k. Found-within f j (omega arith) (omega arith)))

  pub get-Found : (i : TypeId) → i < length a.types → Found (get a i)
  unfolding get
  get-Found i h = Found-within (length a.types) i (omega arith) h

  look_past : (rec : TypeId → Option Ty) → look_through a rec none ≡ none
  unfolding look_through
  look_past rec = refl

  get_past : (i : TypeId) → get_elem? a.types i ≡ none → get a i ≡ none
  unfolding get get_within look_through
  get_past i e = rw e

  IsFlat-Found : (r : Option Ty) → Found r → IsFlat (λ m. value (get a m)) (value r)
  IsFlat-Found r (ty, e, w, c, f) = rw e f

  pub IsFlat-at : (i : TypeId) → IsFlat (λ m. value (get a m)) (value (get a i))
  IsFlat-at i = elim (Option-cases (get_elem? a.types i)) [
    | inl e ↦ rw (get_past i e) tt
    | inr (ty, e) ↦ IsFlat-Found (get a i) (get-Found i (lt-length_of_get_elem? a.types i e))
  ]

  pub closed-Found : (r : Option Ty) → Found r → ChildrenBelow (length a.types) (value r)
  closed-Found r (ty, e, w, c, f) = rw e c

-- In a well-formed arena `get` ends without a panic on every id of it, and returns no wrapper.
pub get_total :
    (a : TypeArena) (i : TypeId)
    → IsSound a
    → i < length a.types
    → (ty : Ty) × (get a i ≡ some ty) × (is_wrapper ty ≡ false)
get_total a i s h = let (ty, e, w, _, _) = get-Found a s i h in (ty, e, w)

-- A well-formed arena as the relations see it.
unfoldable pub view : (a : TypeArena) → IsSound a → View
view a s = record {
  size = length a.types;
  get = λ i. value (get a i);
  closed = λ i h. closed-Found a s (get a i) (get-Found a s i h);
  flat = λ i. IsFlat-at a s i;
}

-- The view of a well-formed arena shows for each id of it the type that `get` returns.
pub view-get :
    (a : TypeArena) (s : IsSound a) (i : TypeId)
    → i < length a.types
    → get a i ≡ some ((view a s).get i)
unfolding view
view-get a s i h = let (ty, e, _) = get_total a i s h in rw e
