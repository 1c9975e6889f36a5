-- ===== src/Arena/Read/Descends.antt =====
-- In a well-formed arena only an object names an id that is not smaller than its own: the arena is
-- one on which `structurally_equal` answers.
use ts_rust.Prelude.{
  ℕ, zero, suc, ◌≡◌, refl, true, false, subst, none, some, length, get_elem?, arith, Option-cases,
  inl, inr,
}
use ts_rust.Types.{TypeId, DeclSlot, Ty, ObjectType, object, ref, named, app}
use ts_rust.Relation.View.{ChildrenBelow, ChildrenBelow-mono}
use ts_rust.Relation.Structural.Total.{is_object_type, IsReadable}
use ts_rust.Arena.{TypeArena, DeclState, resolved}
use ts_rust.Arena.Read.{read_state, read_decl, look_through, get_within, get}
use ts_rust.Arena.Read.Sound.{IsSound, get-Found}

some_inj {ℓ} : {A : Type ℓ} {x y : A} → some x ≡ some y → x ≡ y
some_inj e = cc

module _ (a : TypeArena) (sound : IsSound a) where
  read_body :
      (f : ℕ) (b : TypeId) (o : ObjectType) (ty : Ty)
      → get_elem? a.types b ≡ some (object o)
      → get_within a f b ≡ some ty
      → is_object_type ty ≡ true
  unfolding get_within look_through
  read_body zero b o ty e h = cc
  read_body (suc f) b o ty e h = subst (λ t. is_object_type t ≡ true) (some_inj (rw e at h)) refl

  state_object :
      (f : ℕ) (st : DeclState) (ty : Ty)
      → ((body : TypeId)
          → st ≡ resolved body
          → (o : ObjectType) × (get_elem? a.types body ≡ some (object o)))
      → read_state (get_within a f) st ≡ some ty
      → is_object_type ty ≡ true
  unfolding read_state
  state_object f (resolved body) ty k h = let (o, e) = k body refl in read_body f body o ty e h
  state_object f st ty k h = subst (λ t. is_object_type t ≡ true) (some_inj h) refl

  decl_object :
      (f : ℕ) (s : DeclSlot) (ty : Ty)
      → read_decl (get_within a f) (get_elem? a.decls s) ≡ some ty
      → is_object_type ty ≡ true
  unfolding read_decl
  decl_object f s ty h = elim (Option-cases (get_elem? a.decls s)) [
    | inl e ↦ absurd (missing (rw e at h))
    | inr (d, e) ↦ state_object f d.state ty (λ body r. sound.bodies s d body e r) (rw e at h)
  ]
    where
      missing : none ≡ some ty → ⊥
      missing p = cc

  Descends-type :
      (f : ℕ) (i : TypeId) (t ty : Ty)
      → get_elem? a.types i ≡ some t
      → ((j : TypeId) → get_within a f j ≡ some ty → is_object_type ty ≡ false → ChildrenBelow j ty)
      → look_through a (get_within a f) (some t) ≡ some ty
      → is_object_type ty ≡ false
      → ChildrenBelow i ty
  unfolding look_through
  Descends-type f i (ref s) ty e ih h n = absurd (both (decl_object f s ty h))
    where
      both : is_object_type ty ≡ true → ⊥
      both p = cc
  Descends-type f i (named s inner) ty e ih h n =
      ChildrenBelow-mono inner i ty (omega (arith, sound.slots i (named s inner) e)) (ih inner h n)
  Descends-type f i (app s args body) ty e ih h n =
      ChildrenBelow-mono body i ty (omega (arith, sound.slots i (app s args body) e)) (ih body h n)
  Descends-type f i t ty e ih h n = subst (ChildrenBelow i) (some_inj h) (sound.slots i t e)

  Descends-within :
      (f : ℕ) (i : TypeId) (ty : Ty)
      → get_within a f i ≡ some ty
      → is_object_type ty ≡ false
      → ChildrenBelow i ty
  unfolding get_within
  Descends-within zero i ty h n = cc
  Descends-within (suc f) i ty h n = elim (Option-cases (get_elem? a.types i)) [
    | inl e ↦ absurd (missing e)
    | inr (t, e) ↦ Descends-type f i t ty e (λ j k m. Descends-within f j ty k m) (rw e at h) n
  ]
    where
      missing : get_elem? a.types i ≡ none → ⊥
      missing e = unfold look_through in ground arith

  -- So every id of it reads, as the comparison by shape needs.
  pub get-IsReadable : IsReadable (get a) (length a.types)
  unfolding get
  get-IsReadable = record {
    read = λ i h.
        let (ty, e, _, c, _) = get-Found a sound i h in
        (ty, e, c, λ n. Descends-within (suc (suc (length a.types))) i ty e n);
  }
