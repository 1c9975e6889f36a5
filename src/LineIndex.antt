-- ===== src/LineIndex.antt =====
-- src/line_index.rs: where the lines of a source start, and the line and column of a byte offset. A
-- source is its UTF-8 bytes. `none` is the panic of a slice out of range or off a character boundary.
use ts_rust.Prelude.{
  ℕ, zero, suc, ◌+◌, ◌-◌, ◌/◌, ◌%◌, ◌^◌, ◌<◌, ◌≤◌, ◌≡◌, refl, ◌∙◌, ap, Bool, true, ◌&&◌, not, List,
  [], ◌∷◌, Option, none, some, length, get_elem?, ◌==◌, leb, if◌then◌else◌, arith, Bool-cases, inl,
  inr,
}

pub record LineIndex : Type 0 where
  pub line_starts : List ℕ

abbrev newline : ℕ
newline = 10

-- The start after each newline, from byte `i` on: `i as u32 + 1`.
unfoldable pub starts_from : ℕ → List ℕ → List ℕ
starts_from i [] = []
starts_from i (b ∷ bs) =
    let later = starts_from (suc i) bs in
    if b == newline then (i % 2 ^ 32 + 1) % 2 ^ 32 ∷ later else later

unfoldable pub new : List ℕ → LineIndex
unfolding starts_from
new source = record { line_starts = 0 ∷ starts_from 0 source }

-- `partition_point(|&start| start <= byte_offset)`: how many starts come before the first that fails.
unfoldable pub partition_point : ℕ → List ℕ → ℕ
partition_point offset [] = 0
partition_point offset (s ∷ ss) =
    let rest = partition_point offset ss in if leb s offset then suc rest else 0

unfoldable pub line_of : LineIndex → ℕ → ℕ
line_of index offset = partition_point offset index.line_starts - 1

-- A byte that begins a character.
abbrev pub is_boundary : ℕ → Bool
is_boundary b = not (b / 64 == 2)

abbrev pub starts_character : Option ℕ → Bool
starts_character none = true
starts_character (some b) = is_boundary b

unfoldable pub drop : ℕ → List ℕ → List ℕ
drop zero bs = bs
drop (suc n) [] = []
drop (suc n) (b ∷ bs) = drop n bs

unfoldable pub take : ℕ → List ℕ → List ℕ
take zero bs = []
take (suc n) [] = []
take (suc n) (b ∷ bs) = b ∷ take n bs

-- `source[first..last]`.
unfoldable pub slice : List ℕ → ℕ → ℕ → Option (List ℕ)
slice source first last =
    if leb first last
      && leb last (length source)
      && starts_character (get_elem? source first)
      && starts_character (get_elem? source last)
    then some (take (last - first) (drop first source))
    else none

-- `chars().count()`.
unfoldable pub chars : List ℕ → ℕ
chars [] = 0
chars (b ∷ bs) = let rest = chars bs in if is_boundary b then suc rest else rest

-- `encode_utf16().count()`: a character of four bytes is two units.
unfoldable pub utf16_units : List ℕ → ℕ
utf16_units [] = 0
utf16_units (b ∷ bs) =
    let rest = utf16_units bs in
    if is_boundary b then (if leb 240 b then suc (suc rest) else suc rest) else rest

abbrev pub as_u32 : ℕ → ℕ
as_u32 n = n % 2 ^ 32

abbrev pub position : ℕ → (List ℕ → ℕ) → Option (List ℕ) → Option (ℕ × ℕ)
position line count none = none
position line count (some text) =
    some ((as_u32 line + 1) % 2 ^ 32, (as_u32 (count text) + 1) % 2 ^ 32)

abbrev pub line_col : (List ℕ → ℕ) → LineIndex → ℕ → List ℕ → ℕ → Option ℕ → Option (ℕ × ℕ)
line_col count index offset source line none = none
line_col count index offset source line (some start) =
    position line count (slice source start offset)

unfoldable pub line_col_utf8 : LineIndex → ℕ → List ℕ → Option (ℕ × ℕ)
unfolding line_of
line_col_utf8 index offset source =
    line_col chars index offset source (line_of index offset)
      (get_elem? index.line_starts (line_of index offset))

unfoldable pub line_col_utf16 : LineIndex → ℕ → List ℕ → Option (ℕ × ℕ)
unfolding line_of
line_col_utf16 index offset source =
    line_col utf16_units index offset source (line_of index offset)
      (get_elem? index.line_starts (line_of index offset))

-- How many of the bytes are newlines.
unfoldable pub newlines : List ℕ → ℕ
newlines [] = 0
newlines (b ∷ bs) = let rest = newlines bs in if b == newline then suc rest else rest

-- The starts from byte `i` on are beyond an offset that is not.
none_before :
    (source : List ℕ) (i offset : ℕ)
    → offset ≤ i
    → i + length source < 2 ^ 32
    → partition_point offset (starts_from i source) ≡ 0
unfolding starts_from partition_point
none_before [] i offset h r = refl
none_before (b ∷ bs) i offset h r = elim (Bool-cases (b == newline)) [
  | inl line ↦ rw line (beyond (omega arith))
  | inr other ↦ rw other (none_before bs (suc i) offset (omega arith) (omega arith))
]
  where
    beyond :
        (i % 2 ^ 32 + 1) % 2 ^ 32 ≡ suc i
        → (if leb ((i % 2 ^ 32 + 1) % 2 ^ 32) offset
            then suc (partition_point offset (starts_from (suc i) bs))
            else 0)
          ≡ 0
    beyond e = rw e (ground arith)

passed :
    (offset i : ℕ) (starts : List ℕ)
    → suc i ≤ offset
    → i < 2 ^ 32 - 1
    → partition_point offset ((i % 2 ^ 32 + 1) % 2 ^ 32 ∷ starts)
      ≡ suc (partition_point offset starts)
unfolding partition_point
passed offset i starts h r = rw cut (ground arith)
  where
    cut : (i % 2 ^ 32 + 1) % 2 ^ 32 ≡ suc i
    cut = omega arith

starts_before :
    (source : List ℕ) (i k offset : ℕ)
    → offset ≡ i + k
    → i + length source < 2 ^ 32
    → partition_point offset (starts_from i source) ≡ newlines (take k source)
unfolding starts_from newlines take
starts_before [] i zero offset h r = unfold partition_point in refl
starts_before [] i (suc k) offset h r = unfold partition_point in refl
starts_before (b ∷ bs) i zero offset h r = none_before (b ∷ bs) i offset (omega arith) r
starts_before (b ∷ bs) i (suc k) offset h r = elim (Bool-cases (b == newline)) [
  | inl line ↦ rw line (
      passed offset i (starts_from (suc i) bs) (omega arith) (omega arith)
      ∙ ap suc (starts_before bs (suc i) k offset (omega arith) (omega arith)))
  | inr other ↦ rw other (starts_before bs (suc i) k offset (omega arith) (omega arith))
]

-- In a source of less than 2^32 bytes, the line of an offset is the number of newlines before it.
pub line_of-new :
    (source : List ℕ) (offset : ℕ)
    → length source < 2 ^ 32
    → line_of (new source) offset ≡ newlines (take offset source)
unfolding line_of new partition_point
line_of-new source offset h =
    ground (arith, starts_before source 0 offset offset (omega arith) (omega arith))
