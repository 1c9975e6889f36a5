-- ===== src/Scc/Unseen.antt =====
-- What is left to visit, weighed.
use ts_rust.Prelude.{
  ℕ, zero, suc, ◌+◌, ◌<◌, ◌≤◌, ◌≡◌, ◌≢◌, refl, ap, true, false, arith, ◌==◌, if◌then◌else◌,
  Bool-cases, inl, inr, ==_iff, eq_refl,
}
use ts_rust.Scc.{update, unvisited}

-- The weights of the nodes below `n` that are not visited.
unfoldable pub unseen : (ℕ → ℕ) → (ℕ → ℕ) → ℕ → ℕ
unseen weight order zero = 0
unseen weight order (suc n) = (if order n == unvisited then weight n else 0) + unseen weight order n

unseen-past :
    (weight order : ℕ → ℕ) (i v n : ℕ)
    → n ≤ i
    → unseen weight (update order i v) n ≡ unseen weight order n
unfolding unseen
unseen-past weight order i v zero h = refl
unseen-past weight order i v (suc n) h = elim (Bool-cases (n == i)) [
  | inl q ↦ absurd (omega (arith, (==_iff n i).0 q))
  | inr q ↦ rw q (
      ap (λ k. (if order n == unvisited then weight n else 0) + k)
        (unseen-past weight order i v n (omega arith)))
]

ne : (n i : ℕ) → (n == i) ≡ false → n ≢ i
ne n i q = ground arith

-- A visit takes the node's weight off.
pub unseen-update :
    (weight order : ℕ → ℕ) (i v n : ℕ)
    → i < n
    → (order i == unvisited) ≡ true
    → (v == unvisited) ≡ false
    → unseen weight order n ≡ weight i + unseen weight (update order i v) n
unfolding unseen
unseen-update weight order i v zero h o w = absurd (omega arith)
unseen-update weight order i v (suc n) h o w = elim (Bool-cases (n == i)) [
  | inl q ↦
      rw ((==_iff n i).0 q, eq_refl i, o, w)
        (omega (arith, unseen-past weight order i v i (omega arith)))
  | inr q ↦ rw q (omega (arith, unseen-update weight order i v n (omega (arith, ne n i q)) o w))
]
