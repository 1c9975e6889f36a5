-- ===== src/Types/Number.antt =====
-- The `f64` comparison that the relations use on number literals, on bit patterns: `==` of IEEE 754,
-- under which a NaN equals nothing and the two zeros are equal.
use ts_rust.Prelude.{ℕ, ◌%◌, ◌^◌, ◌≡◌, Bool, not, ◌&&◌, ◌||◌, arith, ltb, ◌==◌}

-- The bits below the sign are past those of infinity.
unfoldable pub is_nan : ℕ → Bool
is_nan bits = ltb 0x7ff0000000000000 (bits % 2 ^ 63)

unfoldable pub is_zero : ℕ → Bool
is_zero bits = bits % 2 ^ 63 == 0

unfoldable pub f64_eq : ℕ → ℕ → Bool
f64_eq x y = not (is_nan x) && not (is_nan y) && (x == y || is_zero x && is_zero y)

pub f64_eq_comm : (x y : ℕ) → f64_eq x y ≡ f64_eq y x
unfolding f64_eq
f64_eq_comm x y = ground arith
