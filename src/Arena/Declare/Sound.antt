-- ===== src/Arena/Declare/Sound.antt =====
-- Declarations keep the arena well-formed, and `resolve_ref` is what gives a `Ref` its body.
use ts_rust.Prelude.{
  ℕ, zero, suc, ◌<◌, ◌^◌, ◌%◌, ◌≡◌, refl, ◌∙◌, ap, List, [], ◌∷◌, ◌++◌, none, some, length,
  get_elem?, set, arith, lt-length_of_get_elem?, get_elem?-append, length-append, get_elem?-push,
  inl, inr, ◌⊎◌,
}
use ts_rust.Types.{TypeId, ref}
use ts_rust.Arena.{TypeArena, DeclInfo, resolving, resolved}
use ts_rust.Arena.Store.{push, push_lem}
use ts_rust.Arena.Read.{get, get_within, look_through, read_decl, read_state, empty_object}
use ts_rust.Arena.Read.Sound.{IsSound}
use ts_rust.Arena.Read.Grows.{IsSound-later, get_elem?-snoc, push-IsSound}
use ts_rust.Arena.Declare.{alloc_ref, push_decl}

-- What a written slot may hold, and what the others keep.
pub set_cases {ℓ} :
    {A : Type ℓ} (xs : List A) (i : ℕ) (v : A) (j : ℕ) (y : A)
    → get_elem? (set xs i v) j ≡ some y
    → (get_elem? xs j ≡ some y) ⊎ (v ≡ y)
set_cases [] i v j y h = cc
set_cases (x ∷ xs) zero v zero y h = inr cc
set_cases (x ∷ xs) zero v (suc j) y h = inl h
set_cases (x ∷ xs) (suc i) v zero y h = inl h
set_cases (x ∷ xs) (suc i) v (suc j) y h = set_cases xs i v j y h

pub set_kept {ℓ} :
    {A : Type ℓ} (xs : List A) (i : ℕ) (v : A) (j : ℕ) (y : A)
    → get_elem? xs j ≡ some y
    → (get_elem? (set xs i v) j ≡ some y) ⊎ (get_elem? (set xs i v) j ≡ some v)
set_kept [] i v j y h = cc
set_kept (x ∷ xs) zero v zero y h = inr refl
set_kept (x ∷ xs) zero v (suc j) y h = inl h
set_kept (x ∷ xs) (suc i) v zero y h = inl h
set_kept (x ∷ xs) (suc i) v (suc j) y h = set_kept xs i v j y h

-- A declaration is added, without a body.
module _ (a : TypeArena) (sound : IsSound a) where
  one_more : length (push_decl a resolving none).decls ≡ suc (length a.decls)
  one_more = length-append {0} a.decls _ ∙ omega arith

  push_decl-IsSound : IsSound (push_decl a resolving none)
  push_decl-IsSound =
      IsSound-later a (push_decl a resolving none) sound
        (record {
          slots = λ i ty e. e;
          decls = λ s d e.
              (d, get_elem?-append a.decls _ s (lt-length_of_get_elem? a.decls s e) ∙ e, inl refl);
        })
        (omega arith) (omega (arith, one_more)) (λ i ty e. inl e)
        (λ s d body e r. elim (get_elem?-snoc a.decls _ d s e) [
          | inl old ↦ sound.bodies s d body old r
          | inr (_, new) ↦ absurd (open_decl (ap (λ (x : DeclInfo). x.state) new ∙ r))
        ])
    where
      open_decl : {body : TypeId} → resolving ≡ resolved body → ⊥
      open_decl p = cc

  abbrev pub fresh_ref : TypeArena
  fresh_ref = record (push_decl a resolving none) { types = a.types ++ ref (length a.decls) ∷ [] }

  pub fresh_ref-IsSound : IsSound fresh_ref
  fresh_ref-IsSound =
      push-IsSound (push_decl a resolving none) fresh_ref (ref (length a.decls)) refl refl
        push_decl-IsSound (omega (arith, one_more)) tt tt

  fresh_ref-get : get fresh_ref (length a.types) ≡ some empty_object
  unfolding get get_within look_through read_decl read_state
  fresh_ref-get =
      rw (get_elem?-push a.types (ref (length a.decls))) (rw (get_elem?-push a.decls _) refl)

  -- In a well-formed arena with a slot and a declaration free, `alloc_ref` adds one of each and
  -- keeps the arena well-formed, and its id reads as an empty object.
  pub alloc_ref_lem :
      length a.types < 2 ^ 32
      → length a.decls < 2 ^ 32
      → (alloc_ref a ≡ (fresh_ref, length a.types))
        × IsSound (alloc_ref a).0
        × (get (alloc_ref a).0 (alloc_ref a).1 ≡ some empty_object)
  unfolding alloc_ref
  alloc_ref_lem h k = (same, rw same fresh_ref-IsSound, rw same fresh_ref-get)
    where
      cut : length a.decls % 2 ^ 32 ≡ length a.decls
      cut = omega arith

      same :
          ◌≡◌ {A = TypeArena × TypeId}
            (push (push_decl a resolving none) (ref (length a.decls % 2 ^ 32)))
            (fresh_ref, length a.types)
      same = rw cut (push_lem (push_decl a resolving none) (ref (length a.decls)) h)
