-- ===== src/Queries/Session.antt =====
-- The cache over the life of an arena: what was answered before a declaration was resolved is not
-- answered after.
use ts_rust.Prelude.{ℕ, ◌<◌, ◌^◌, ◌≡◌, refl, sym, ◌∙◌, true, some, length, get_elem?, ◌==◌, arith}
use ts_rust.Types.{TypeId, DeclSlot, ObjectType, ref, object}
use ts_rust.Arena.{TypeArena}
use ts_rust.Arena.Read.Sound.{IsSound, view}
use ts_rust.Arena.Declare.{resolve_ref}
use ts_rust.Arena.Declare.Resolve.{resolve_ref_lem}
use ts_rust.Relation.Subtype
use ts_rust.Relation.Disjoint
use ts_rust.Queries.{RelationCache, prepare, is_subtype, is_disjoint}
use ts_rust.Queries.Memo.{IsCoherent, Asked, is_subtype_memo, is_disjoint_memo, prepare_lem}

-- What the two questions give on an arena, once the cache is prepared for its generation.
abbrev pub Prepared : (a : TypeArena) → IsSound a → RelationCache → Type 0
Prepared a sound c =
    ((x y : TypeId)
      → x < length a.types
      → y < length a.types
      → Asked (view a sound) (prepare c a.generation) (Subtype.is_subtype (view a sound) x y)
          (is_subtype (view a sound) (prepare c a.generation) x y))
    × ((x y : TypeId)
        → Asked (view a sound) (prepare c a.generation) (Disjoint.is_disjoint (view a sound) x y)
            (is_disjoint (view a sound) (prepare c a.generation) x y))

prepared :
    (a : TypeArena) (sound : IsSound a) (c : RelationCache)
    → (c.generation ≡ a.generation → IsCoherent (view a sound) c)
    → Prepared a sound c
unfolding view
prepared a sound c h =
    let (coherent, same) = prepare_lem (view a sound) c a.generation h in
    (
      λ x y p q. is_subtype_memo (view a sound) (prepare c a.generation) x y coherent p q,
      λ x y. is_disjoint_memo (view a sound) (prepare c a.generation) x y coherent,
    )

-- While the generation stands, nothing is forgotten.
prepare_same :
    (c : RelationCache) (generation : ℕ) → c.generation ≡ generation → prepare c generation ≡ c
unfolding prepare
prepare_same c generation e = rw (same e) refl
  where
    same : c.generation ≡ generation → (c.generation == generation) ≡ true
    same e = ground arith

-- Let a cache have the arena's generation, a 64-bit number, and right answers on the arena. As long as
-- the arena is not changed, `prepare` keeps the whole cache. A `Ref` can then be resolved with an id
-- that holds an object; and on the new arena, to prepare the cache and to ask `is_subtype` of two ids
-- of it, or `is_disjoint`, gives the answer that the relation has on the new arena, not the old one.
pub prepare-resolve_ref :
    (a : TypeArena) (sound : IsSound a) (c : RelationCache) (reference body : TypeId)
    (slot : DeclSlot) (o : ObjectType)
    → a.generation < 2 ^ 64
    → get_elem? a.types reference ≡ some (ref slot)
    → get_elem? a.types body ≡ some (object o)
    → c.generation ≡ a.generation
    → IsCoherent (view a sound) c
    → (prepare c a.generation ≡ c)
      × ((b : TypeArena) × (resolve_ref a reference body ≡ some b)
          × ((sound' : IsSound b) × Prepared b sound' c))
prepare-resolve_ref a sound c reference body slot o g is_ref is_body same coherent =
    let (b, r, sound', types, read, others, moved) =
      resolve_ref_lem a reference body slot o sound g is_ref is_body in
    (
      prepare_same c a.generation same,
      (b, r, (sound', prepared b sound' c (λ e. absurd (moved (sym e ∙ same))))),
    )
