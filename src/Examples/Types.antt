-- ===== src/Examples/Types.antt =====
-- The theorems on types and on the map of bindings, applied.
use ts_rust.Prelude.{arith, ◌≡◌, ◌↔◌, true, List, [], ◌∷◌, some, ◌==◌, if◌then◌else◌}
use ts_rust.Types.{Name, PropertyEntry, array}
use ts_rust.Types.Equality.{type_eq, type_eq_iff}
use ts_rust.Types.Object.{new, new_lem, of_name, IsSortedByName}
use ts_rust.SymbolMap
use ts_rust.LineIndex
use ts_rust.Examples.Sample.{name_a, name_b, property}

abbrev two_members : List PropertyEntry
two_members = property name_b 0 ∷ property name_a 1 ∷ []

type_eq_iff_example : (type_eq (array 3) (array 4) ≡ true) ↔ (array 3 ≡ array 4)
type_eq_iff_example = type_eq_iff (array 3) (array 4)

new_lem_example :
    IsSortedByName (new two_members).properties
    × ((name : Name) → of_name name (new two_members).properties ≡ of_name name two_members)
new_lem_example = new_lem two_members

get-declare_example :
    SymbolMap.get (λ i. i) (SymbolMap.declare (λ i. i) SymbolMap.new 2 7) 2
    ≡ (if 2 == 2 then some 7 else SymbolMap.get (λ i. i) SymbolMap.new 2)
get-declare_example = SymbolMap.get-declare (λ i. i) SymbolMap.new 2 2 7

line_of-new_example :
    LineIndex.line_of (LineIndex.new (97 ∷ 10 ∷ 98 ∷ [])) 2
    ≡ LineIndex.newlines (LineIndex.take 2 (97 ∷ 10 ∷ 98 ∷ []))
line_of-new_example = LineIndex.line_of-new (97 ∷ 10 ∷ 98 ∷ []) 2 (omega arith)
