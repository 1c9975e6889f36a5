-- ===== src/Modules/Sorted.antt =====
-- The targets of the edges of a file, once each and in order.
use ts_rust.Prelude.{
  ℕ, ◌<◌, ◌≡◌, refl, ◌∙◌, ap, List, [], ◌∷◌, arith, ltb, ◌==◌, if◌then◌else◌, Bool-cases, inl, inr,
  ==_iff, eq_refl,
}
use ts_rust.Scc.{sort}
use ts_rust.Scc.Times.{times, times-sort}
use ts_rust.Scc.Keeps.{Ascends, sort-Ascends}
use ts_rust.Modules.{ModuleEdge, resolved, dedup_after, dedup, targets_of}

Ascends-absent : (n x : ℕ) (xs : List ℕ) → Ascends (x ∷ xs) → n < x → times n xs ≡ 0
Ascends-absent n x xs (below, a) h = ground (arith, below n)

dedup_after_lem :
    (last : ℕ) (xs : List ℕ)
    → Ascends (last ∷ xs)
    → (n : ℕ)
    → times n (dedup_after last xs) ≡ (if n == last then 0 else if ltb 0 (times n xs) then 1 else 0)
unfolding dedup_after
dedup_after_lem last [] a n = ground arith
dedup_after_lem last (x ∷ xs) (below, a) n =
    ground (arith, dedup_after_lem x xs a n, below n, below x, Ascends-absent n x xs a, eq_refl x)

dedup_after-Ascends : (last : ℕ) (xs : List ℕ) → Ascends (last ∷ xs) → Ascends (dedup_after last xs)
unfolding dedup_after
dedup_after-Ascends last [] a = tt
dedup_after-Ascends last (x ∷ xs) (below, a) = elim (Bool-cases (x == last)) [
  | inl q ↦ rw q (dedup_after-Ascends x xs a)
  | inr q ↦
      rw q ((λ y h. a.0 y (ground (arith, dedup_after_lem x xs a y))), dedup_after-Ascends x xs a)
]

pub dedup_lem :
    (xs : List ℕ)
    → Ascends xs
    → Ascends (dedup xs) × ((n : ℕ) → times n (dedup xs) ≡ (if ltb 0 (times n xs) then 1 else 0))
unfolding dedup
dedup_lem [] a = (tt, λ n. refl)
dedup_lem (x ∷ xs) a = (
  ((λ y h. a.0 y (ground (arith, dedup_after_lem x xs a y))), dedup_after-Ascends x xs a),
  λ n. ground (arith, dedup_after_lem x xs a n, ==_iff n x, ==_iff x n),
)

pub targets_of_lem :
    (edges : List ModuleEdge)
    → Ascends (targets_of edges)
      × ((n : ℕ) → times n (targets_of edges) ≡ (if ltb 0 (times n (resolved edges)) then 1 else 0))
unfolding targets_of
targets_of_lem edges =
    let (a, t) = dedup_lem (sort (resolved edges)) (sort-Ascends (resolved edges)) in
    (a, λ n. t n ∙ ap (λ k. if ltb 0 k then 1 else 0) (times-sort n (resolved edges)))
