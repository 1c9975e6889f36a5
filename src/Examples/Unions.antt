-- ===== src/Examples/Unions.antt =====
-- Unions and narrowing, on an arena that holds the literals "a" and "b" and their union.
use ts_rust.Prelude.{
  ℕ, ◌<◌, ◌^◌, ◌≡◌, ◌↔◌, refl, ◌∙◌, sym, ap, subst, true, List, [], ◌∷◌, ◌++◌, Option, some, arith,
  length, any?,
}
use ts_rust.Types.{TypeId, Name, Ty, union, string_literal}
use ts_rust.Types.Equality.{type_eq, list_eq}
use ts_rust.Arena.{TypeArena}
use ts_rust.Arena.Store.{blank, new, push, push_all, lookup}
use ts_rust.Arena.Read.{get, get_within, look_through}
use ts_rust.Arena.Read.Sound.{IsSound}
use ts_rust.Arena.Read.Descends.{get-IsReadable}
use ts_rust.Arena.Alloc.{
  is_internable, holds, find_slot, add_first, add_collided, from_collided, from_existing,
  from_table, alloc,
}
use ts_rust.Arena.Alloc.Interns.{IsTidy, some_inj}
use ts_rust.Arena.Alloc.Keeps.{alloc-keeps}
use ts_rust.Arena.Declare.Clear.{new-IsSound, new-IsTidy, new-types, primitives}
use ts_rust.Arena.Union.{
  alloc_union, flat_members, finish_union, intern_union, is_union_of, flatten, round, rounds,
  extend, already_present, same_shape,
}
use ts_rust.Arena.Union.Sound.{IsWell, IsUnionOf, Made, alloc_union_lem}
use ts_rust.Relation.Structural.{structurally_equal, structurally_equal_inner, same_read}
use ts_rust.Relation.Structural.Depth.{same_to_depth}
use ts_rust.Relation.Structural.Decides.{structurally_equal_decides}
use ts_rust.Examples.Sample.{name_a, name_b}

abbrev pub digest : Ty → ℕ
digest ty = 0

abbrev pub members_digest : List TypeId → ℕ
members_digest members = length members

abbrev word : TypeArena
word = record blank { types = primitives ++ string_literal name_a ∷ []; interned = (0, 10) ∷ [] }

abbrev pub words : TypeArena
words = record word {
  types = word.types ++ string_literal name_b ∷ [];
  collided = (0, 11 ∷ []) ∷ [];
}

room : length new.types < 2 ^ 32
room = rw new-types (omega arith)

internable : (n : Name) → is_internable (string_literal n) ≡ true
unfolding is_internable
internable n = refl

alloc_word :
    ◌≡◌ {A = Option (TypeArena × TypeId)}
      (alloc digest new (string_literal name_a))
      (some (word, 10))
unfolding alloc from_table add_first new push_all push is_internable lookup
alloc_word = refl

alloc_words :
    ◌≡◌ {A = Option (TypeArena × TypeId)}
      (alloc digest word (string_literal name_b))
      (some (words, 11))
unfolding alloc from_table from_existing from_collided add_collided push is_internable lookup holds
    find_slot type_eq
alloc_words = refl

word-keeps : IsSound word × IsTidy word
word-keeps =
    alloc-keeps digest new word (string_literal name_a) 10 new-IsSound new-IsTidy room
      (internable name_a) tt alloc_word

pub words-IsWell : IsWell words
unfolding lookup
words-IsWell =
    let (sound, tidy) =
      alloc-keeps digest word words (string_literal name_b) 11 word-keeps.0 word-keeps.1
        (omega arith) (internable name_b) tt alloc_words in
    record { sound = sound; tidy = tidy; unions = λ d id h. cc; never_slot = refl }

abbrev pub either : TypeArena
either = record words {
  types = words.types ++ union (11 ∷ 10 ∷ []) ∷ [];
  interned_unions = (2, 12) ∷ [];
}

alloc_either :
    ◌≡◌ {A = Option (TypeArena × TypeId)}
      (alloc_union members_digest words (10 ∷ 11 ∷ []))
      (some (either, 12))
unfolding alloc_union flat_members finish_union intern_union flatten round rounds extend
    already_present same_shape structurally_equal structurally_equal_inner same_read push lookup get
    get_within look_through any?
alloc_either = refl

-- What was made is well-formed.
pub Made-IsWell :
    (a b : TypeArena) (i : TypeId) (flat : List TypeId) (r : Option (TypeArena × TypeId))
    → Made a flat r
    → r ≡ some (b, i)
    → IsWell b
Made-IsWell a b i flat r (c, j, e, well, _, _, _, _) k =
    subst IsWell (ap (λ p. p.0) (some_inj (sym e ∙ k))) well

pub either-IsWell : IsWell either
either-IsWell =
    let (flat, made, rest) =
      alloc_union_lem members_digest words (10 ∷ 11 ∷ []) words-IsWell (omega arith)
        (omega arith, (omega arith, tt)) in
    Made-IsWell words either 12 flat (alloc_union members_digest words (10 ∷ 11 ∷ [])) made
      alloc_either

-- The union of a union's own members has them the other way round, so it has an id of its own.
abbrev turned : TypeArena
turned = record either { types = either.types ++ union (10 ∷ 11 ∷ []) ∷ [] }

alloc_turned :
    ◌≡◌ {A = Option (TypeArena × TypeId)}
      (alloc_union members_digest either (11 ∷ 10 ∷ []))
      (some (turned, 13))
unfolding alloc_union flat_members finish_union intern_union is_union_of list_eq flatten round
    rounds extend already_present same_shape structurally_equal structurally_equal_inner same_read
    push lookup get get_within look_through any?
alloc_turned = refl

alloc_union_lem_example :
    (flat : List TypeId) × Made either flat (alloc_union members_digest either (12 ∷ 8 ∷ 10 ∷ []))
    × IsUnionOf either (12 ∷ 8 ∷ 10 ∷ []) flat
alloc_union_lem_example =
    alloc_union_lem members_digest either (12 ∷ 8 ∷ 10 ∷ []) either-IsWell (omega arith)
      (omega arith, (omega arith, (omega arith, tt)))

structurally_equal_decides_example :
    (structurally_equal (get either) 13 10 12 ≡ some true)
    ↔ ((k : ℕ) → same_to_depth (get either) k 10 12 ≡ true)
structurally_equal_decides_example =
    structurally_equal_decides (get either) 13 10 12 (get-IsReadable either either-IsWell.sound)
      (omega arith) (omega arith)
