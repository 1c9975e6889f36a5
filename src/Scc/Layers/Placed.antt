-- ===== src/Scc/Layers/Placed.antt =====
-- The members of a component are put into their layer.
use ts_rust.Prelude.{
  ap, true, false, ◌∙◌, ==_iff, eq_refl, ℕ, zero, suc, ◌+◌, ◌%◌, ◌^◌, ◌<◌, ◌≤◌, ◌≡◌, refl, List, [],
  ◌∷◌, ◌++◌, some, length, arith, get_elem?, ◌==◌, leb, if◌then◌else◌, Bool-cases, inl, inr,
}
use ts_rust.Scc.Times.{times, times-append, times-sort}
use ts_rust.Scc.Linked.{or_empty}
use ts_rust.Scc.Keeps.{Ascends, sort-Ascends}
use ts_rust.Scc.Layers.{resize_with, extend, with_level, sort_all}

abbrev pub layer : List (List ℕ) → ℕ → List ℕ
layer layers i = or_empty (get_elem? layers i)

-- Two vectors have the same members in each layer.
resize_with_same :
    (layers : List (List ℕ)) (size n i : ℕ)
    → times n (layer (resize_with layers size) i) ≡ times n (layer layers i)
unfolding resize_with
resize_with_same layers zero n i = refl
resize_with_same [] (suc size) n zero = refl
resize_with_same [] (suc size) n (suc i) = resize_with_same [] size n i
resize_with_same (l ∷ layers) (suc size) n zero = refl
resize_with_same (l ∷ layers) (suc size) n (suc i) = resize_with_same layers size n i

length-resize_with : (layers : List (List ℕ)) (size : ℕ) → size ≤ length (resize_with layers size)
unfolding resize_with
length-resize_with layers zero = omega arith
length-resize_with [] (suc size) = omega (arith, length-resize_with [] size)
length-resize_with (l ∷ layers) (suc size) = omega (arith, length-resize_with layers size)

-- The members are added in one layer.
abbrev pub Puts : List (List ℕ) → ℕ → List ℕ → List (List ℕ) → Type 0
Puts layers level members result =
    (n i : ℕ)
    → times n (layer result i)
      ≡ times n (layer layers i) + (if i == level then times n members else 0)

-- The members are appended to one layer.
pub extend_shape :
    (layers : List (List ℕ)) (level : ℕ) (members : List ℕ)
    → level < length layers
    → (result : List (List ℕ)) × (extend layers level members ≡ some result)
      × (length result ≡ length layers)
      × ((i : ℕ)
          → layer result i ≡ (if i == level then layer layers i ++ members else layer layers i))
unfolding extend
extend_shape [] level members h = absurd (omega arith)
extend_shape (l ∷ layers) zero members h = ((l ++ members) ∷ layers, refl, refl, put)
  where
    apart : (i : ℕ) → (suc i == 0) ≡ false
    apart i = ground arith

    put :
        (i : ℕ)
        → layer ((l ++ members) ∷ layers) i
          ≡ (if i == 0 then layer (l ∷ layers) i ++ members else layer (l ∷ layers) i)
    put zero = refl
    put (suc i) = rw (apart i) refl
extend_shape (l ∷ layers) (suc level) members h =
    let (rest, e, same, f) = extend_shape layers level members (omega arith) in
    rw e (l ∷ rest, refl, ap suc same, put rest f)
  where
    apart : (0 == suc level) ≡ false
    apart = ground arith

    differ : (i : ℕ) → (i == level) ≡ false → (suc i == suc level) ≡ false
    differ i q = ground arith

    same_test :
        (i : ℕ)
        → (if i == level then layer layers i ++ members else layer layers i)
          ≡ (if suc i == suc level then layer layers i ++ members else layer layers i)
    same_test i = elim (Bool-cases (i == level)) [
      | inl q ↦ rw ((==_iff i level).0 q, eq_refl level, eq_refl (suc level)) refl
      | inr q ↦ rw (q, differ i q) refl
    ]

    put :
        (rest : List (List ℕ))
        → ((i : ℕ)
            → layer rest i ≡ (if i == level then layer layers i ++ members else layer layers i))
        → (i : ℕ)
        → layer (l ∷ rest) i
          ≡ (if i == suc level then layer (l ∷ layers) i ++ members else layer (l ∷ layers) i)
    put rest f zero = rw apart refl
    put rest f (suc i) = f i ∙ same_test i

pub shape-Puts :
    (layers result : List (List ℕ)) (level : ℕ) (members : List ℕ)
    → ((i : ℕ)
        → layer result i ≡ (if i == level then layer layers i ++ members else layer layers i))
    → Puts layers level members result
shape-Puts layers result level members f n i = elim (Bool-cases (i == level)) [
  | inl q ↦ rw q (ap (times n) (f i ∙ by_true q) ∙ times-append n (layer layers i) members)
  | inr q ↦ rw q (omega (arith, ap (times n) (f i ∙ by_false q)))
]
  where
    by_true :
        (i == level) ≡ true
        → (if i == level then layer layers i ++ members else layer layers i)
          ≡ layer layers i ++ members
    by_true q = rw q refl

    by_false :
        (i == level) ≡ false
        → (if i == level then layer layers i ++ members else layer layers i) ≡ layer layers i
    by_false q = rw q refl

extend_lem :
    (layers : List (List ℕ)) (level : ℕ) (members : List ℕ)
    → level < length layers
    → (result : List (List ℕ)) × (extend layers level members ≡ some result)
      × Puts layers level members result
extend_lem layers level members h =
    let (result, e, same, f) = extend_shape layers level members h in
    (result, e, shape-Puts layers result level members f)

pub with_level_lem :
    (layers : List (List ℕ)) (level : ℕ) (members : List ℕ)
    → level < 2 ^ 32
    → (result : List (List ℕ)) × (with_level layers level members ≡ some result)
      × Puts layers level members result
with_level_lem layers level members small = elim (Bool-cases (leb (length layers) level)) [
  | inl q ↦
      let (result, e, f) =
        extend_lem (resize_with layers (suc level)) level members
          (omega (arith, length-resize_with layers (suc level))) in
      rw (q, no_wrap)
        (result, e, λ n i. omega (arith, f n i, resize_with_same layers (suc level) n i))
  | inr q ↦ rw q (extend_lem layers level members (ground arith))
]
  where
    no_wrap : (level + 1) % 2 ^ 64 ≡ suc level
    no_wrap = omega arith

-- Sorting keeps the members of each layer.
pub sort_all_lem :
    (layers : List (List ℕ)) (i : ℕ)
    → Ascends (layer (sort_all layers) i)
      × ((n : ℕ) → times n (layer (sort_all layers) i) ≡ times n (layer layers i))
sort_all_lem [] i = (tt, λ n. refl)
sort_all_lem (l ∷ layers) zero = (sort-Ascends l, λ n. times-sort n l)
sort_all_lem (l ∷ layers) (suc i) = sort_all_lem layers i
