-- ===== src/Modules/Linked.antt =====
-- The dependencies and the dependents are each other's reverse.
use ts_rust.Prelude.{
  ℕ, suc, ◌+◌, ◌-◌, ◌^◌, ◌<◌, ◌≤◌, ◌≡◌, refl, ◌∙◌, sym, subst, true, List, [], ◌∷◌, ◌++◌, some,
  length, arith, ltb, leb, ◌==◌, ◌&&◌, map, if◌then◌else◌, Bool-cases, inl, inr, ==_iff, eq_refl,
}
use ts_rust.Scc.Times.{times, times-append}
use ts_rust.Scc.Keeps.{Ascends}
use ts_rust.Scc.Layers.{extend}
use ts_rust.Scc.Layers.Placed.{layer, extend_shape, shape-Puts}
use ts_rust.Modules.{ModuleEdge, targets_of, push_all, link}

append-Ascends :
    (l : List ℕ) (p : ℕ) → Ascends l → ((n : ℕ) → 0 < times n l → n ≤ p) → Ascends (l ++ p ∷ [])
append-Ascends [] p a h = ((λ y k. absurd (omega arith)), tt)
append-Ascends (x ∷ l) p (below, a) h = (
  (λ y k. ground (arith, below y, h x, eq_refl x, times-append y l (p ∷ []))),
  append-Ascends l p a (λ n k. h n (ground arith)),
)

-- What stands in the rows is in order, and no larger than `p`.
abbrev pub RowsUpTo : ℕ → List (List ℕ) → Type 0
RowsUpTo p rows = (i : ℕ) → Ascends (layer rows i) × ((n : ℕ) → 0 < times n (layer rows i) → n ≤ p)

push_one :
    (p target : ℕ) (rows : List (List ℕ))
    → target < length rows
    → RowsUpTo p rows
    → (result : List (List ℕ)) × (extend rows target (p ∷ []) ≡ some result)
      × (length result ≡ length rows)
      × ((n i : ℕ)
          → times n (layer result i)
            ≡ times n (layer rows i) + (if p == n && i == target then 1 else 0))
      × RowsUpTo p result
push_one p target rows h up =
    let (result, e, same, f) = extend_shape rows target (p ∷ []) h in
    let put = shape-Puts rows result target (p ∷ []) f in
    (
      result,
      e,
      same,
      (λ n i. ground (arith, put n i)),
      λ i. (
        subst Ascends (sym (f i)) (elim (Bool-cases (i == target)) [
          | inl q ↦ rw q (append-Ascends (layer rows i) p (up i).0 (up i).1)
          | inr q ↦ rw q (up i).0
        ]),
        λ n k. ground (arith, put n i, (up i).1 n),
      ),
    )

push_all_lem :
    (p : ℕ) (targets : List ℕ) (rows : List (List ℕ))
    → p < 2 ^ 32
    → ((t : ℕ) → 0 < times t targets → t < length rows)
    → RowsUpTo p rows
    → (result : List (List ℕ)) × (push_all p targets rows ≡ some result)
      × (length result ≡ length rows)
      × ((n i : ℕ)
          → times n (layer result i)
            ≡ times n (layer rows i) + (if p == n then times i targets else 0))
      × RowsUpTo p result
unfolding push_all
push_all_lem p [] rows small inside up = (rows, refl, refl, (λ n i. ground arith), up)
push_all_lem p (t ∷ targets) rows small inside up =
    let (one, e, same, f, up1) = push_one p t rows (inside t (rw (eq_refl t) (omega arith))) up in
    let (result, g, same', k, up') =
      push_all_lem p targets one small (λ x h. omega (arith, same, inside x (ground arith))) up1 in
    rw (fits, e) (result, g, same' ∙ same, (λ n i. ground (arith, f n i, k n i, ==_iff i t)), up')
  where
    fits : ltb p (2 ^ 32) ≡ true
    fits = ground arith

pub link_lem :
    (p : ℕ) (edges : List (List ModuleEdge)) (rows : List (List ℕ))
    → p + length edges ≤ 2 ^ 32
    → ((x t : ℕ) → 0 < times t (layer (map targets_of edges) x) → t < length rows)
    → RowsUpTo p rows
    → (result : List (List ℕ)) × (link p edges rows ≡ some (map targets_of edges, result))
      × (length result ≡ length rows)
      × ((x y : ℕ)
          → times x (layer result y)
            ≡ times x (layer rows y)
              + (if leb p x then times y (layer (map targets_of edges) (x - p)) else 0))
      × ((y : ℕ) → Ascends (layer result y))
unfolding link
link_lem p [] rows small inside up = (rows, refl, refl, (λ x y. ground arith), λ y. (up y).0)
link_lem p (e ∷ edges) rows small inside up =
    let (pushed, f, same, g, up1) =
      push_all_lem p (targets_of e) rows (omega arith) (λ t h. inside 0 t h) up in
    let (result, h, same', k, a) =
      link_lem (suc p) edges pushed (omega arith) (λ x t m. omega (arith, same, inside (suc x) t m))
        (λ i. ((up1 i).0, λ n m. omega (arith, (up1 i).1 n m))) in
    rw (f, h)
      (
        result,
        refl,
        same' ∙ same,
        (λ x y.
            row_eq x y (times x (layer pushed y)) (times x (layer result y))
              (times x (layer rows y)) (g x y) (k x y)),
        a,
      )
  where
    row_eq :
        (x y one many old : ℕ)
        → one ≡ old + (if p == x then times y (targets_of e) else 0)
        → many
          ≡ one + (if leb (suc p) x then times y (layer (map targets_of edges) (x - suc p)) else 0)
        → many ≡ old + (if leb p x then times y (layer (map targets_of (e ∷ edges)) (x - p)) else 0)
    row_eq x y one many old u v = elim (Bool-cases (p == x)) [
      | inl q ↦ rw (here q) (ground (arith, ==_iff p x))
      | inr q ↦ elim (Bool-cases (leb (suc p) x)) [
        | inl r ↦ rw (there r) (ground arith)
        | inr r ↦ ground arith
      ]
    ]
      where
        here : (p == x) ≡ true → x - p ≡ 0
        here q = ground arith

        there : leb (suc p) x ≡ true → x - p ≡ suc (x - suc p)
        there r = ground arith
