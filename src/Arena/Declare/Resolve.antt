-- ===== src/Arena/Declare/Resolve.antt =====
-- `resolve_ref`: the declaration behind a `Ref` gets its body.
use ts_rust.Prelude.{
  ℕ, ◌<◌, ◌^◌, ◌≡◌, refl, ◌≢◌, ◌∙◌, ap, subst, some, length, get_elem?, set, arith, get_elem?-lt,
  length-set, get_elem?-set_self, inl, inr,
}
use ts_rust.Types.{TypeId, DeclSlot, Ty, ObjectType, object, ref}
use ts_rust.Arena.{TypeArena, DeclInfo, resolved}
use ts_rust.Arena.Read.{get, slot_of, get_within, look_through, read_decl, read_state}
use ts_rust.Arena.Read.Sound.{IsSound}
use ts_rust.Arena.Read.Later.{Later, Reads, get_later}
use ts_rust.Arena.Read.Grows.{IsSound-later}
use ts_rust.Arena.Declare.{resolve_ref, resolve_at, invalidate, next_generation}
use ts_rust.Arena.Declare.Sound.{set_cases, set_kept}

-- A generation is never followed by itself.
pub next_generation-ne : (g : ℕ) → g < 2 ^ 64 → next_generation g ≢ g
next_generation-ne g h e = omega arith

module _ (a : TypeArena) (sound : IsSound a) (reference body : TypeId) (slot : DeclSlot)
    (o : ObjectType) (is_ref : get_elem? a.types reference ≡ some (ref slot))
    (is_body : get_elem? a.types body ≡ some (object o)) where
  slot_below : slot < length a.decls
  slot_below = sound.slots reference (ref slot) is_ref

  abbrev with_body : DeclInfo → DeclInfo
  with_body d = record d { state = resolved body }

  abbrev after : DeclInfo → TypeArena
  after d = invalidate a (set a.decls slot (with_body d))

  resolve_ref_eq :
      (d : DeclInfo)
      → get_elem? a.decls slot ≡ some d
      → resolve_ref a reference body ≡ some (after d)
  unfolding resolve_ref slot_of
  resolve_ref_eq d e = rw (is_ref, resolve_ref, slot_of) (rw (e, resolve_at) refl)

  Later-after : (d : DeclInfo) → Later a (after d)
  Later-after d = record {
    slots = λ i ty e. e;
    decls = λ s c e. elim (set_kept a.decls slot (with_body d) s c e) [
      | inl kept ↦ (c, kept, inl refl)
      | inr new ↦ (with_body d, new, inr (body, o, refl, is_body))
    ];
  }

  after-IsSound : (d : DeclInfo) → IsSound (after d)
  after-IsSound d =
      IsSound-later a (after d) sound (Later-after d) (omega arith)
        (omega (arith, length-set a.decls slot (with_body d))) (λ i ty e. inl e)
        (λ s c b e r. elim (set_cases a.decls slot (with_body d) s c e) [
          | inl old ↦ sound.bodies s c b old r
          | inr new ↦ (
            o,
            subst (λ x. get_elem? a.types x ≡ some (object o))
                (same_body (ap (λ (x : DeclInfo). x.state) new ∙ r)) is_body,
          )
        ])
    where
      same_body : {b : TypeId} → resolved body ≡ resolved b → body ≡ b
      same_body p = cc

  after-get : (d : DeclInfo) → get (after d) reference ≡ some (object o)
  unfolding get get_within look_through read_decl read_state
  after-get d =
      rw is_ref (rw (get_elem?-set_self a.decls slot (with_body d) slot_below) (rw is_body refl))

-- In a well-formed arena with a 64-bit generation, to resolve a `Ref` with an id that holds an
-- object as its body succeeds, leaves the arena well-formed and every slot as it was, and makes
-- the `Ref` read as that object. Every id reads as before or as an object, and the generation
-- changes.
pub resolve_ref_lem :
    (a : TypeArena) (reference body : TypeId) (slot : DeclSlot) (o : ObjectType)
    → IsSound a
    → a.generation < 2 ^ 64
    → get_elem? a.types reference ≡ some (ref slot)
    → get_elem? a.types body ≡ some (object o)
    → (b : TypeArena) × (resolve_ref a reference body ≡ some b)
      × IsSound b
      × (b.types ≡ a.types)
      × (get b reference ≡ some (object o))
      × ((i : TypeId) (ty : Ty) → i < length a.types → get a i ≡ some ty → Reads (get b i) ty)
      × (b.generation ≢ a.generation)
resolve_ref_lem a reference body slot o sound g is_ref is_body =
    let (d, e) =
      get_elem?-lt a.decls slot (slot_below a sound reference body slot o is_ref is_body) in
    (
      after a sound reference body slot o is_ref is_body d,
      resolve_ref_eq a sound reference body slot o is_ref is_body d e,
      after-IsSound a sound reference body slot o is_ref is_body d,
      refl,
      after-get a sound reference body slot o is_ref is_body d,
      get_later a (after a sound reference body slot o is_ref is_body d) sound
          (Later-after a sound reference body slot o is_ref is_body d) (omega arith),
      next_generation-ne a.generation g,
    )
