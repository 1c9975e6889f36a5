-- ===== src/Narrow/Values.antt =====
-- What the tests that src/bridge/narrow.rs narrows by give at run time, on the values of a program:
-- the truth of a value, its comparison with `null` and `undefined`, and its `typeof`.
use ts_rust.Prelude.{ℕ, ◌≡◌, Bool, true, false, ◌&&◌, ◌||◌, not, [], ◌∷◌, is_empty, if◌then◌else◌}
use ts_rust.Types.{
  Name, Ty, string_literal, number_literal, boolean_literal, never, void, array, intersection, ref,
  named, app,
}
use ts_rust.Types.Number.{is_zero}
use ts_rust.Narrow.Each.Tag

-- The values of a program, as far as the tests tell them apart. A number is its bit pattern, and the
-- NaN, which no literal has, stands apart.
pub data Value : Type 0 where
  string : Name → Value
  number : ℕ → Value
  nan : Value
  boolean : Bool → Value
  null undefined object function symbol : Value

-- `null` and `undefined`.
abbrev pub is_nothing : Value → Bool
is_nothing Value.null = true
is_nothing Value.undefined = true
is_nothing _ = false

-- The values of a type that is no union. `any`, `unknown`, the error type and a type parameter hold
-- all; an intersection, and a declared type, all but `null` and `undefined`.
abbrev pub Holds : Ty → Value → Type 0
Holds Ty.string (Value.string s) = Unit
Holds Ty.string _ = ⊥
Holds (string_literal t) (Value.string s) = t ≡ s
Holds (string_literal t) _ = ⊥
Holds Ty.number (Value.number n) = Unit
Holds Ty.number Value.nan = Unit
Holds Ty.number _ = ⊥
Holds (number_literal m) (Value.number n) = m ≡ n
Holds (number_literal m) _ = ⊥
Holds Ty.boolean (Value.boolean b) = Unit
Holds Ty.boolean _ = ⊥
Holds (boolean_literal c) (Value.boolean b) = c ≡ b
Holds (boolean_literal c) _ = ⊥
Holds Ty.null Value.null = Unit
Holds Ty.null _ = ⊥
Holds Ty.undefined Value.undefined = Unit
Holds Ty.undefined _ = ⊥
Holds void Value.undefined = Unit
Holds void _ = ⊥
Holds (Ty.object _) Value.object = Unit
Holds (Ty.object _) _ = ⊥
Holds (array _) Value.object = Unit
Holds (array _) _ = ⊥
Holds (Ty.function _) Value.function = Unit
Holds (Ty.function _) _ = ⊥
Holds never _ = ⊥
Holds (intersection _) w = is_nothing w ≡ false
Holds (ref _) w = is_nothing w ≡ false
Holds (named _ _) w = is_nothing w ≡ false
Holds (app _ _ _) w = is_nothing w ≡ false
Holds _ _ = Unit

-- Whether a value counts as true: the empty text, the zeros, NaN, `false`, `null` and `undefined` do
-- not.
abbrev pub truth : Value → Bool
truth (Value.string s) = not (is_empty s)
truth (Value.number n) = not (is_zero n)
truth Value.nan = false
truth (Value.boolean b) = b
truth Value.null = false
truth Value.undefined = false
truth _ = true

-- `w === t` and `w == t`, where `t` is `null` or `undefined`.
abbrev pub is_strictly : Value → Value → Bool
is_strictly Value.null Value.null = true
is_strictly Value.undefined Value.undefined = true
is_strictly _ _ = false

abbrev pub is_loosely : Value → Value → Bool
is_loosely w t = is_strictly w t || is_nothing w && is_nothing t

-- A comparison with `null`, or else with `undefined`, by `==` if it is loose.
abbrev pub compares : Bool → Bool → Value → Bool
compares is_null is_loose w =
    let target = if is_null then Value.null else Value.undefined in
    if is_loose then is_loosely w target else is_strictly w target

abbrev pub symbol_tag : Name
symbol_tag = 115 ∷ 121 ∷ 109 ∷ 98 ∷ 111 ∷ 108 ∷ []

-- `typeof w`.
abbrev pub typeof : Value → Name
typeof (Value.string _) = Tag.string
typeof (Value.number _) = Tag.number
typeof Value.nan = Tag.number
typeof (Value.boolean _) = Tag.boolean
typeof Value.undefined = Tag.undefined
typeof Value.null = Tag.object
typeof Value.object = Tag.object
typeof Value.function = Tag.function
typeof Value.symbol = symbol_tag

-- The type holds a value of which the test says so.
abbrev pub CanBe : (Value → Bool) → Bool → Ty → Type 0
CanBe test want ty = (w : Value) × Holds ty w × (test w ≡ want)
