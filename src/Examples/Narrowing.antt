-- ===== src/Examples/Narrowing.antt =====
-- The theorems on narrowing, applied to small states whose symbols are numbers and to the arena of
-- `Examples.Unions`.
use ts_rust.Prelude.{
  ℕ, ◌≡◌, ◌↔◌, refl, Bool, true, false, not, [], ◌∷◌, none, some, arith, All, if◌then◌else◌, ◌==◌,
  ==_iff,
}
use ts_rust.Types.{TypeId}
use ts_rust.Types.Equality.{Decides}
use ts_rust.Arena.{TypeArena}
use ts_rust.Arena.Read.{get}
use ts_rust.Arena.Read.Sound.{value}
use ts_rust.Arena.Read.Later.{Later}
use ts_rust.Arena.Union.Sound.{IsWell}
use ts_rust.Assoc.{IsUnique, or_first, find_value}
use ts_rust.Narrow.{
  PropertyPath, NarrowState, starts_with, extend, mentions, is_known, remove, remove_path_prefix,
  same_as,
}
use ts_rust.Narrow
use ts_rust.Narrow.State.{IsState, extend_lem}
use ts_rust.Narrow.Removal.{remove_lem}
use ts_rust.Narrow.Compare.{same_as_iff}
use ts_rust.Narrow.Join.{join_states}
use ts_rust.Narrow.Join.Both.{Meets, join_states_lem}
use ts_rust.Narrow.Each.{narrow_to_literals, contains, is_opaque}
use ts_rust.Narrow.Each.Tag
use ts_rust.Narrow.Each.Gather.{gather, members, Gathered}
use ts_rust.Narrow.Each.Literals.{literals_kept, narrow_to_literals_lem}
use ts_rust.Examples.Sample.{name_a}
use ts_rust.Examples.Unions.{either, either-IsWell, members_digest}

same : ℕ → ℕ → Bool
same x y = x == y

law : Decides same
unfolding same
law x y = ==_iff x y

-- The variable 0 is "a", and its property `a` is "b".
abbrev first : NarrowState ℕ
first = record {
  symbols = (0, 10) ∷ [];
  paths = (record { symbol_id = 0; path = name_a ∷ [] }, 11) ∷ [];
}

-- The variable 0 is "b", and so is 1.
abbrev second : NarrowState ℕ
second = record { symbols = (0, 11) ∷ (1, 11) ∷ []; paths = [] }

first-IsState : IsState same first
unfolding IsUnique find_value
first-IsState = ((refl, tt), (refl, tt))

second-IsState : IsState same second
unfolding IsUnique find_value same
second-IsState = ((refl, (refl, tt)), tt)

extend_lem_example :
    ((y : ℕ)
      → Narrow.get same (extend same first second) y
        ≡ or_first same (Narrow.get same first y) (Narrow.get same second y))
    × ((y : ℕ) (path : PropertyPath)
        → Narrow.get_path same (extend same first second) y path
          ≡ or_first same (Narrow.get_path same first y path) (Narrow.get_path same second y path))
    × (IsState same first → IsState same (extend same first second))
extend_lem_example = extend_lem same law first second second-IsState

remove_lem_example :
    (mentions same (remove same first 0) 0 ≡ false)
    × ((y : ℕ)
        → Narrow.get same (remove same first 0) y
          ≡ (if not (same y 0) then Narrow.get same first y else none))
    × ((y : ℕ) (path : PropertyPath)
        → Narrow.get_path same (remove same first 0) y path
          ≡ (if not (same y 0) then Narrow.get_path same first y path else none))
    × (IsState same first → IsState same (remove same first 0))
remove_lem_example = remove_lem same law first 0

same_as_iff_example : (same_as same first second ≡ true) ↔ (
    ((x : ℕ) → Narrow.get same first x ≡ Narrow.get same second x)
    × ((x : ℕ) (path : PropertyPath)
        → Narrow.get_path same first x path ≡ Narrow.get_path same second x path))
same_as_iff_example = same_as_iff same law first second first-IsState second-IsState

join_states_lem_example :
    (c : TypeArena) × (j : NarrowState ℕ) × (join_states members_digest same first second either
      ≡ some (c, j))
    × IsWell c
    × Later either c
    × IsState same j
    × ((x : ℕ)
        → Meets members_digest either c
            (Narrow.get same first x)
            (Narrow.get same second x)
            (Narrow.get same j x))
    × ((x : ℕ) (path : PropertyPath)
        → Meets members_digest either c
            (Narrow.get_path same first x path)
            (Narrow.get_path same second x path)
            (Narrow.get_path same j x path))
join_states_lem_example =
    join_states_lem same law members_digest first second either either-IsWell first-IsState
      (omega arith) (omega arith, tt) (omega arith, tt) (omega arith, (omega arith, tt)) tt

narrow_to_literals_lem_example :
    Gathered either
      (gather (literals_kept either (10 ∷ [])) (members either 12))
      (narrow_to_literals members_digest either 12 (10 ∷ []))
    × ((m : TypeId)
        → is_opaque (value (get either m)) ≡ false
        → All (λ k. contains (10 ∷ []) k ≡ true) (literals_kept either (10 ∷ []) m))
narrow_to_literals_lem_example =
    narrow_to_literals_lem members_digest either 12 (10 ∷ []) either-IsWell (omega arith)
      (omega arith) (omega arith, tt)
