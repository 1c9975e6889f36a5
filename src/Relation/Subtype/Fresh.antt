-- ===== src/Relation/Subtype/Fresh.antt =====
-- How many pairs of ids below `n` are not on the stack: the measure of the recursion.
use ts_rust.Prelude.{
  ℕ, zero, suc, ◌+◌, ◌*◌, ◌≤◌, ◌<◌, ◌≡◌, refl, false, List, [], ◌∷◌, if◌then◌else◌, arith,
}
use ts_rust.Types.{TypeId}
use ts_rust.Relation.Subtype.{Pair, contains_pair}

-- The fresh pairs `(a, i)` with `i < m`.
fresh_row : List Pair → TypeId → ℕ → ℕ
fresh_row seen a zero = 0
fresh_row seen a (suc m) = (if contains_pair seen a m then 0 else 1) + fresh_row seen a m

pub fresh : List Pair → ℕ → ℕ → ℕ
fresh seen n zero = 0
fresh seen n (suc k) = fresh_row seen k n + fresh seen n k

fresh_row_nil : (a : TypeId) (m : ℕ) → fresh_row [] a m ≡ m
unfolding fresh_row contains_pair
fresh_row_nil a zero = refl
fresh_row_nil a (suc m) = omega (arith, fresh_row_nil a m)

pub fresh_nil : (n k : ℕ) → fresh [] n k ≡ k * n
unfolding fresh
fresh_nil n zero = omega arith
fresh_nil n (suc k) = grind (arith, fresh_nil n k, fresh_row_nil k n)

module _ (seen : List Pair) (a b : TypeId) where
  fresh_row-le : (c : TypeId) (m : ℕ) → fresh_row ((a, b) ∷ seen) c m ≤ fresh_row seen c m
  unfolding fresh_row contains_pair
  fresh_row-le c zero = omega arith
  fresh_row-le c (suc m) = ground (arith, fresh_row-le c m)

  fresh_row-lt :
      (m : ℕ)
      → b < m
      → contains_pair seen a b ≡ false
      → fresh_row ((a, b) ∷ seen) a m < fresh_row seen a m
  unfolding fresh_row contains_pair
  fresh_row-lt zero h new = absurd (omega arith)
  fresh_row-lt (suc m) h new = ground (arith, fresh_row-le a m, fresh_row-lt m)

  fresh-le : (n k : ℕ) → fresh ((a, b) ∷ seen) n k ≤ fresh seen n k
  unfolding fresh
  fresh-le n zero = omega arith
  fresh-le n (suc k) = omega (arith, fresh-le n k, fresh_row-le k n)

  -- To push a pair that is not on the stack makes the measure fall.
  pub fresh-lt :
      (n k : ℕ)
      → b < n
      → a < k
      → contains_pair seen a b ≡ false
      → fresh ((a, b) ∷ seen) n k < fresh seen n k
  unfolding fresh
  fresh-lt n zero h l new = absurd (omega arith)
  fresh-lt n (suc k) h l new =
      ground (arith, fresh_row-lt n h new, fresh-le n k, fresh_row-le k n, fresh-lt n k h)
