-- ===== src/Examples/Relations.antt =====
-- The theorems on the relations, applied to the sample.
use ts_rust.Prelude.{
  ℕ, false, ◌≡◌, refl, ◌↔◌, true, List, [], ◌∷◌, some, inl, if◌then◌else◌, arith, Answers,
}
use ts_rust.Types.{PropertyEntry}
use ts_rust.Types.Names.{cmp}
use ts_rust.Relation.Subtype.{
  is_subtype, is_trivial_subtype, is_subtype_uncached, properties_are_subtypes,
}
use ts_rust.Relation.Subtype.Unroll.{unroll}
use ts_rust.Relation.Subtype.Decides.{is_subtype_total, is_subtype_decides}
use ts_rust.Relation.Subtype.Equation.{is_subtype-fix}
use ts_rust.Relation.Subtype.Join.{properties_are_subtypes_lem, by_lookup}
use ts_rust.Relation.Disjoint.{is_disjoint, disjoint_within}
use ts_rust.Relation.Disjoint.Pairs.{alternatives, all_disjoint}
use ts_rust.Relation.Disjoint.Levels.{is_disjoint_lem, is_disjoint_comm}
use ts_rust.Relation.Disjoint.Sound.{Value, Belongs, is_disjoint_sound}
use ts_rust.Examples.Sample.{sample, property, name_a, name_b}

is_subtype_decides_example :
    (is_subtype sample 15 16 ≡ some true) ↔ ((k : ℕ) → unroll sample k 15 16 ≡ true)
is_subtype_decides_example = is_subtype_decides sample 15 16 (omega arith) (omega arith)

is_subtype-fix_example : is_subtype sample 13 14 ≡ (
    if is_trivial_subtype sample 13 14
    then some true
    else is_subtype_uncached sample (is_subtype sample) 13 14)
is_subtype-fix_example = is_subtype-fix sample 13 14 (omega arith) (omega arith)

is_subtype_total_example : Answers (is_subtype sample 17 13)
is_subtype_total_example = is_subtype_total sample 17 13 (omega arith) (omega arith)

is_disjoint_sound_example : ¬ Belongs sample 11 (Value.string name_a)
unfolding is_disjoint disjoint_within
is_disjoint_sound_example = is_disjoint_sound sample 10 11 (Value.string name_a) refl (inl refl)

is_disjoint_lem_example :
    is_disjoint sample 12 0
    ≡ some (all_disjoint sample (alternatives sample 12) (alternatives sample 0))
is_disjoint_lem_example = is_disjoint_lem sample 12 0

is_disjoint_comm_example : is_disjoint sample 12 10 ≡ is_disjoint sample 10 12
is_disjoint_comm_example = is_disjoint_comm sample 12 10

abbrev given : List PropertyEntry
given = property name_a 10 ∷ property name_b 0 ∷ []

abbrev wanted : List PropertyEntry
wanted = property name_a 12 ∷ []

properties_are_subtypes_lem_example :
    properties_are_subtypes sample (is_subtype sample) given wanted
    ≡ by_lookup sample (is_subtype sample) given wanted
unfolding cmp
properties_are_subtypes_lem_example =
    properties_are_subtypes_lem sample (is_subtype sample) given wanted ((refl, tt), (tt, tt))
      (tt, tt)

-- Runs: ("a")[] against ("a" | "b")[], and the other way round; and an object against an
-- intersection one member of which it does not satisfy.
array_run : is_subtype sample 15 16 ≡ some true
unfolding is_subtype
array_run = refl

wider_run : is_subtype sample 16 15 ≡ some false
unfolding is_subtype
wider_run = refl

intersection_run : is_subtype sample 14 17 ≡ some false
unfolding is_subtype
intersection_run = refl

disjoint_run : is_disjoint sample 10 12 ≡ some false
unfolding is_disjoint
disjoint_run = refl
