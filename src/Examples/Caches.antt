-- ===== src/Examples/Caches.antt =====
-- The theorems on the cache of answers, applied.
use ts_rust.Prelude.{◌≡◌, refl, true, false, none, some, arith}
use ts_rust.Relation.Subtype
use ts_rust.Relation.Disjoint
use ts_rust.Queries.{
  subtype, disjoint, Key, RelationCache, empty_cache, find_value, insert, prepare, is_subtype,
  is_disjoint,
}
use ts_rust.Queries.Memo.{IsCoherent, Asked, insert-IsCoherent, is_subtype_memo, is_disjoint_memo}
use ts_rust.Queries.Session.{Prepared, prepare-resolve_ref}
use ts_rust.Relation.View.{View}
use ts_rust.Arena.{TypeArena}
use ts_rust.Arena.Declare.{resolve_ref}
use ts_rust.Arena.Read.{get, get_within, look_through, read_decl, read_state}
use ts_rust.Arena.Read.Sound.{IsSound, view}
use ts_rust.Examples.Sample.{sample}
use ts_rust.Examples.Arenas.{with_body, with_body-IsSound, body_type}

abbrev asked_pair : Key
asked_pair = record { relation = disjoint; first = 10; second = 11 }

abbrev unresolved : Key
unresolved = record { relation = subtype; first = 11; second = 12 }

empty-IsCoherent : (v : View) → IsCoherent v empty_cache
unfolding find_value
empty-IsCoherent v k b h = absurd (nothing h)
  where
    nothing : none ≡ some b → ⊥
    nothing e = cc

abbrev warm : RelationCache
warm = insert empty_cache asked_pair true

warm-IsCoherent : IsCoherent sample warm
unfolding Disjoint.is_disjoint Disjoint.disjoint_within
warm-IsCoherent =
    insert-IsCoherent sample empty_cache (empty-IsCoherent sample) asked_pair true refl

is_subtype_memo_example :
    Asked sample warm (Subtype.is_subtype sample 15 16) (is_subtype sample warm 15 16)
is_subtype_memo_example =
    is_subtype_memo sample warm 15 16 warm-IsCoherent (omega arith) (omega arith)

is_disjoint_memo_example :
    Asked sample warm (Disjoint.is_disjoint sample 11 10) (is_disjoint sample warm 11 10)
is_disjoint_memo_example = is_disjoint_memo sample warm 11 10 warm-IsCoherent

-- While slot 11 is not resolved it is an empty object, and no subtype of the object in slot 12.
abbrev early : RelationCache
early = insert empty_cache unresolved false

no_subtype : Subtype.is_subtype (view with_body with_body-IsSound) 11 12 ≡ some false
unfolding Subtype.is_subtype view get get_within look_through read_decl read_state
    Subtype.is_subtype_inner Subtype.is_subtype_uncached Subtype.arms Subtype.is_trivial_subtype
    Subtype.object_is_subtype Subtype.properties_are_subtypes Subtype.contains_pair
    Subtype.is_universally_compatible
no_subtype = refl

early-IsCoherent : IsCoherent (view with_body with_body-IsSound) early
early-IsCoherent =
    insert-IsCoherent (view with_body with_body-IsSound) empty_cache
      (empty-IsCoherent (view with_body with_body-IsSound)) unresolved false no_subtype

prepare-resolve_ref_example :
    (prepare early 0 ≡ early)
    × ((b : TypeArena) × (resolve_ref with_body 11 12 ≡ some b)
        × ((sound : IsSound b) × Prepared b sound early))
unfolding insert
prepare-resolve_ref_example =
    prepare-resolve_ref with_body with_body-IsSound early 11 12 0 body_type (omega arith) refl refl
      refl early-IsCoherent
