-- ===== src/Relation/Subtype/Equation.antt =====
-- The stack of pairs never changes an answer: `is_subtype` satisfies its rules with itself in the
-- place of every recursive call. What the rules say of each kind of type follows.
use ts_rust.Prelude.{
  ℕ, zero, suc, ◌<◌, ◌≡◌, refl, ap, true, false, [], some, if◌then◌else◌, arith, Bool-cases, inl,
  inr, Answers, Follows,
}
use ts_rust.Types.{TypeId}
use ts_rust.Relation.View.{View}
use ts_rust.Relation.Subtype.{
  contains_pair, is_trivial_subtype, is_subtype_uncached, is_subtype, enough,
}
use ts_rust.Relation.Subtype.Unroll.{unroll, uncached-Follows}
use ts_rust.Relation.Subtype.Answers.{uncached-Answers}
use ts_rust.Relation.Subtype.Decides.{
  inner_sound, inner_complete, at_depth, unroll-suc, is_subtype_total, is_subtype_decides,
}

module _ (v : View) where
  open v use {size}

  sound_at : (k : ℕ) (x y : TypeId) → Follows true (is_subtype v x y) (at_depth v k x y)
  unfolding is_subtype
  sound_at k x y = (
    (unroll v k x y, refl),
    λ e. ap some (inner_sound v k (enough v) [] x y (λ c d m. unfold contains_pair in cc) e),
  )

  complete_at : (x y : TypeId) → Follows false (is_subtype v x y) (at_depth v (enough v) x y)
  unfolding is_subtype
  complete_at x y =
      ((unroll v (enough v) x y, refl), λ e. ap some (inner_complete v (enough v) [] x y e))

  module _ (a b : TypeId) (ha : a < size) (hb : b < size) where
    rules_answer : Answers (is_subtype_uncached v (is_subtype v) a b)
    rules_answer = uncached-Answers v (is_subtype v) (λ x y. is_subtype_total v x y) a b ha hb

    rules_hold :
        is_trivial_subtype v a b ≡ false
        → is_subtype v a b ≡ some true
        → is_subtype_uncached v (is_subtype v) a b ≡ some true
    rules_hold nt h = ground (
      arith,
      rules_answer,
      unroll-suc v (enough v) a b,
      (is_subtype_decides v a b ha hb).0 h (suc (enough v)),
      (uncached-Follows v false (is_subtype v) (at_depth v (enough v)) complete_at a b).1,
    )

    rules_suffice :
        is_subtype_uncached v (is_subtype v) a b ≡ some true → is_subtype v a b ≡ some true
    rules_suffice h = (is_subtype_decides v a b ha hb).1 at_each
      where
        at_each : (k : ℕ) → unroll v k a b ≡ true
        at_each zero = unfold unroll in refl
        at_each (suc k) = ground (
          arith,
          unroll-suc v k a b,
          (uncached-Follows v true (is_subtype v) (at_depth v k) (sound_at k) a b).1 h,
        )

    trivially : is_trivial_subtype v a b ≡ true → is_subtype v a b ≡ some true
    trivially h = (is_subtype_decides v a b ha hb).1 at_each
      where
        at_each : (k : ℕ) → unroll v k a b ≡ true
        at_each zero = unfold unroll in refl
        at_each (suc k) = ground (arith, unroll-suc v k a b)

-- For two ids of an arena, `is_subtype` is yes on a trivial pair, and on any other it is what the
-- rules give with `is_subtype` itself for each recursive call.
pub is_subtype-fix :
    (v : View) (a b : TypeId)
    → a < v.size
    → b < v.size
    → is_subtype v a b
      ≡ (if is_trivial_subtype v a b then some true else is_subtype_uncached v (is_subtype v) a b)
is_subtype-fix v a b h k = elim (Bool-cases (is_trivial_subtype v a b)) [
  | inl easy ↦ rw (easy, trivially v a b h k easy)
  | inr hard ↦ ground (
    arith,
    is_subtype_total v a b h k,
    rules_answer v a b h k,
    rules_hold v a b h k hard,
    rules_suffice v a b h k,
  )
]
