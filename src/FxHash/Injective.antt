-- ===== src/FxHash/Injective.antt =====
-- Different words give different hashes.
use Prim.Native.Nat.{bit_xor, bit_xor-bitwise, differ, digits}
use ts_rust.Prelude.{
  List, [], ◌∷◌, ◌++◌, All, ◌≢◌, ℕ, zero, suc, ◌+◌, ◌*◌, ◌/◌, ◌%◌, ◌^◌, ◌<◌, ◌≤◌, ◌≡◌, refl, ◌∙◌,
  sym, ap, arith,
}
use ts_rust.FxHash.{FxHasher, seed, rotate_left_5, add_to_hash, finish, write_words}

mul_seed_inj :
    (a b : ℕ) → a < 2 ^ 64 → b < 2 ^ 64 → (a * seed) % 2 ^ 64 ≡ (b * seed) % 2 ^ 64 → a ≡ b
mul_seed_inj a b ha hb e = omega arith

rotate_inj : (a b : ℕ) → a < 2 ^ 64 → b < 2 ^ 64 → rotate_left_5 a ≡ rotate_left_5 b → a ≡ b
rotate_inj a b ha hb e = omega arith

rotate-lt : (a : ℕ) → a < 2 ^ 64 → rotate_left_5 a < 2 ^ 64
rotate-lt a h = omega arith

-- The digits of an exclusive or, counted down from any number that is large enough.
xor_count :
    (n m a b : ℕ) → a ≤ n → a ≤ m → digits (λ y. y) differ n a b ≡ digits (λ y. y) differ m a b
xor_count n m zero b p q = no_digits n b ∙ sym (no_digits m b)
  where
    no_digits : (k y : ℕ) → digits (λ y. y) differ k 0 y ≡ y
    no_digits zero y = refl
    no_digits (suc k) y = refl
xor_count zero m (suc a) b p q = absurd (omega arith)
xor_count (suc n) zero (suc a) b p q = absurd (omega arith)
xor_count (suc n) (suc m) (suc a) b p q =
    ap (λ k. k * 2 + differ (suc a % 2) (b % 2))
      (xor_count n m (suc a / 2) (b / 2) (omega arith) (omega arith))

xor_first : (a b : ℕ) → bit_xor a b ≡ bit_xor (a / 2) (b / 2) * 2 + differ (a % 2) (b % 2)
xor_first zero b =
    omega (arith, bit_xor-bitwise 0 b, bit_xor-bitwise 0 (b / 2), differ_zero (b % 2))
  where
    differ_zero : (y : ℕ) → differ (0 % 2) y ≡ y
    differ_zero y = refl
xor_first (suc a) b =
    (λ i. bit_xor-bitwise (suc a) b i)
    ∙ ap (λ k. k * 2 + differ (suc a % 2) (b % 2))
        (xor_count a (suc a / 2) (suc a / 2) (b / 2) (omega arith) (omega arith)
          ∙ sym (λ i. bit_xor-bitwise (suc a / 2) (b / 2) i))

differ-lt : (x y : ℕ) → x < 2 → y < 2 → differ x y < 2
differ-lt zero y p q = q
differ-lt (suc zero) zero p q = omega arith
differ-lt (suc zero) (suc zero) p q = omega arith
differ-lt (suc zero) (suc (suc y)) p q = absurd (omega arith)
differ-lt (suc (suc x)) y p q = absurd (omega arith)

differ_comm : (x y : ℕ) → differ x y ≡ differ y x
differ_comm zero zero = refl
differ_comm zero (suc y) = refl
differ_comm (suc x) zero = refl
differ_comm (suc x) (suc y) = differ_comm x y

differ_inj : (x y z : ℕ) → x < 2 → y < 2 → z < 2 → differ x y ≡ differ x z → y ≡ z
differ_inj zero y z p q r e = e
differ_inj (suc (suc x)) y z p q r e = absurd (omega arith)
differ_inj (suc zero) zero zero p q r e = refl
differ_inj (suc zero) zero (suc z) p q r e = absurd (omega arith)
differ_inj (suc zero) (suc y) zero p q r e = absurd (omega arith)
differ_inj (suc zero) (suc zero) (suc zero) p q r e = refl
differ_inj (suc zero) (suc (suc y)) (suc z) p q r e = absurd (omega arith)
differ_inj (suc zero) (suc zero) (suc (suc z)) p q r e = absurd (omega arith)

-- The digits but the first, and the first digit.
split_two : (x y d e : ℕ) → d < 2 → e < 2 → x * 2 + d ≡ y * 2 + e → (x ≡ y) × (d ≡ e)
split_two x y d e p q h = (omega arith, omega arith)

xor_inj : (n a b c : ℕ) → b ≤ n → c ≤ n → bit_xor a b ≡ bit_xor a c → b ≡ c
xor_inj zero a b c p q h = omega arith
xor_inj (suc n) a b c p q h =
    let (high, low) =
      split_two (bit_xor (a / 2) (b / 2)) (bit_xor (a / 2) (c / 2)) (differ (a % 2) (b % 2))
        (differ (a % 2) (c % 2)) (differ-lt (a % 2) (b % 2) (omega arith) (omega arith))
        (differ-lt (a % 2) (c % 2) (omega arith) (omega arith))
        (sym (xor_first a b) ∙ h ∙ xor_first a c) in
    omega (
      arith,
      xor_inj n (a / 2) (b / 2) (c / 2) (omega arith) (omega arith) high,
      differ_inj (a % 2) (b % 2) (c % 2) (omega arith) (omega arith) (omega arith) low,
    )

xor_comm : (n a b : ℕ) → a ≤ n → b ≤ n → bit_xor a b ≡ bit_xor b a
xor_comm zero zero zero p q = refl
xor_comm zero (suc a) b p q = absurd (omega arith)
xor_comm zero zero (suc b) p q = absurd (omega arith)
xor_comm (suc n) a b p q = omega (
  arith,
  xor_first a b,
  xor_first b a,
  xor_comm n (a / 2) (b / 2) (omega arith) (omega arith),
  differ_comm (a % 2) (b % 2),
)

abbrev power : ℕ → ℕ
power zero = 1
power (suc k) = 2 * power k

xor-lt : (k a b : ℕ) → a < power k → b < power k → bit_xor a b < power k
xor-lt zero a b p q = omega (arith, xor_none a b (omega arith) (omega arith))
  where
    xor_none : (a b : ℕ) → a ≡ 0 → b ≡ 0 → bit_xor a b ≡ 0
    xor_none a b e d = rw (e, d) refl
xor-lt (suc k) a b p q = omega (
  arith,
  xor_first a b,
  xor-lt k (a / 2) (b / 2) (omega arith) (omega arith),
  differ-lt (a % 2) (b % 2) (omega arith) (omega arith),
)

abbrev pub IsWord : ℕ → Type 0
IsWord n = n < 2 ^ 64

combine-lt : (h w : ℕ) → IsWord h → IsWord w → IsWord (bit_xor (rotate_left_5 h) w)
combine-lt h w p q = xor-lt 64 (rotate_left_5 h) w (rotate-lt h p) q

-- A hash that takes one more word.
add_word_inj :
    (s : FxHasher) (w v : ℕ)
    → IsWord s.hash
    → IsWord w
    → IsWord v
    → finish (add_to_hash s w) ≡ finish (add_to_hash s v)
    → w ≡ v
unfolding add_to_hash
add_word_inj s w v h p q e =
    xor_inj (w + v) (rotate_left_5 s.hash) w v (omega arith) (omega arith) (
      mul_seed_inj (bit_xor (rotate_left_5 s.hash) w) (bit_xor (rotate_left_5 s.hash) v)
        (combine-lt s.hash w h p) (combine-lt s.hash v h q) e)

add_state_inj :
    (s t : FxHasher) (w : ℕ)
    → IsWord s.hash
    → IsWord t.hash
    → IsWord w
    → finish (add_to_hash s w) ≡ finish (add_to_hash t w)
    → s.hash ≡ t.hash
unfolding add_to_hash
add_state_inj s t w p q h e =
    let r = rotate_left_5 s.hash in
    let u = rotate_left_5 t.hash in
    rotate_inj s.hash t.hash p q (
      xor_inj (r + u) w r u (omega arith) (omega arith) (
        xor_comm (w + r) w r (omega arith) (omega arith)
        ∙ mul_seed_inj (bit_xor r w) (bit_xor u w) (combine-lt s.hash w p h)
            (combine-lt t.hash w q h) e
        ∙ xor_comm (w + u) u w (omega arith) (omega arith)))

add-IsWord : (s : FxHasher) (w : ℕ) → IsWord (finish (add_to_hash s w))
unfolding add_to_hash
add-IsWord s w = omega arith

write_words_inj :
    (s t : FxHasher) (words : List ℕ)
    → IsWord s.hash
    → IsWord t.hash
    → All IsWord words
    → finish (write_words s words) ≡ finish (write_words t words)
    → s.hash ≡ t.hash
unfolding write_words
write_words_inj s t [] p q all e = e
write_words_inj s t (w ∷ words) p q (h, all) e = add_state_inj s t w p q h (
    write_words_inj (add_to_hash s w) (add_to_hash t w) words (add-IsWord s w) (add-IsWord t w) all
      e)

write_words_one :
    (s : FxHasher) (before after : List ℕ) (w v : ℕ)
    → IsWord s.hash
    → All IsWord after
    → IsWord w
    → IsWord v
    → finish (write_words s (before ++ w ∷ after)) ≡ finish (write_words s (before ++ v ∷ after))
    → w ≡ v
unfolding write_words
write_words_one s [] after w v h all p q e = add_word_inj s w v h p q (
    write_words_inj (add_to_hash s w) (add_to_hash s v) after (add-IsWord s w) (add-IsWord s v) all
      e)
write_words_one s (x ∷ before) after w v h all p q e =
    write_words_one (add_to_hash s x) before after w v (add-IsWord s x) all p q e

-- From one 64-bit state, two keys that are written as 64-bit words, and that differ in one word only,
-- have different hashes.
pub write_words-differ :
    (s : FxHasher) (before after : List ℕ) (w v : ℕ)
    → IsWord s.hash
    → All IsWord after
    → IsWord w
    → IsWord v
    → w ≢ v
    → finish (write_words s (before ++ w ∷ after)) ≢ finish (write_words s (before ++ v ∷ after))
write_words-differ s before after w v h all p q ne e =
    ne (write_words_one s before after w v h all p q e)
