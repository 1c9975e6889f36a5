-- ===== src/Relation/Subtype/Decides.antt =====
-- `is_subtype` terminates on every arena, recursive types included, and what it computes is the
-- greatest relation that its rules allow.
use ts_rust.Prelude.{
  ℕ, zero, suc, ◌<◌, ◌≡◌, refl, ap, ◌↔◌, true, false, ◌||◌, List, [], ◌∷◌, some, if◌then◌else◌,
  arith, Bool-cases, inl, inr, Answers, Check,
}
use ts_rust.Types.{TypeId}
use ts_rust.Relation.View.{View}
use ts_rust.Relation.Subtype.{
  Pair, contains_pair, is_trivial_subtype, is_subtype_uncached, is_subtype_inner, is_subtype,
  enough,
}
use ts_rust.Relation.Subtype.Unroll.{unroll, uncached-Follows, yes_only}
use ts_rust.Relation.Subtype.Answers.{uncached-Answers}
use ts_rust.Relation.Subtype.Fresh.{fresh, fresh_nil, fresh-lt}

pub some_inj {ℓ} : {A : Type ℓ} {a b : A} → some a ≡ some b → a ≡ b
some_inj e = cc

module _ (v : View) where
  open v use {size}

  inner-Answers :
      (fuel : ℕ) (seen : List Pair) (a b : TypeId)
      → a < size
      → b < size
      → fresh seen size size < fuel
      → Answers (is_subtype_inner v fuel seen a b)
  unfolding is_subtype_inner
  inner-Answers zero seen a b h k l = absurd (omega arith)
  inner-Answers (suc fuel) seen a b h k l = elim (Bool-cases (is_trivial_subtype v a b)) [
    | inl same ↦ (true, rw same)
    | inr other ↦ elim (Bool-cases (contains_pair seen a b)) [
      | inl old ↦ (true, rw (other, old))
      | inr new ↦
          rw (other, new)
            (uncached-Answers v (is_subtype_inner v fuel ((a, b) ∷ seen))
              (λ x y p q.
                inner-Answers fuel ((a, b) ∷ seen) x y p q
                  (omega (arith, fresh-lt seen a b size size k h new)))
              a b h k)
    ]
  ]

  -- The relation at a depth, as answers.
  abbrev pub at_depth : ℕ → TypeId → TypeId → Check
  at_depth depth x y = some (unroll v depth x y)

  pub unroll-suc :
      (k : ℕ) (a b : TypeId)
      → unroll v (suc k) a b
        ≡ is_trivial_subtype v a b || yes_only (is_subtype_uncached v (at_depth k) a b)
  unfolding unroll
  unroll-suc k a b = refl

  -- Related to a depth is related to each lesser one.
  unroll_less : (k : ℕ) (a b : TypeId) → unroll v (suc k) a b ≡ true → unroll v k a b ≡ true
  unroll_less zero a b h = unfold unroll in refl
  unroll_less (suc k) a b h = ground (
    arith,
    unroll-suc (suc k) a b,
    unroll-suc k a b,
    (uncached-Follows v true (at_depth (suc k)) (at_depth k)
        (λ x y. ((unroll v k x y, refl), λ e. ap some (unroll_less k x y (some_inj e)))) a b).1,
  )

  inner-suc :
      (fuel : ℕ) (seen : List Pair) (a b : TypeId)
      → is_subtype_inner v (suc fuel) seen a b ≡ (
          if is_trivial_subtype v a b
          then some true
          else if contains_pair seen a b
          then some true
          else is_subtype_uncached v (is_subtype_inner v fuel ((a, b) ∷ seen)) a b)
  unfolding is_subtype_inner
  inner-suc fuel seen a b = refl

  abbrev pub AllSeen : ℕ → List Pair → Type 0
  AllSeen k seen = (c d : TypeId) → contains_pair seen c d ≡ true → unroll v k c d ≡ true

  AllSeen-less : (k : ℕ) (seen : List Pair) → AllSeen (suc k) seen → AllSeen k seen
  AllSeen-less k seen s c d m = unroll_less k c d (s c d m)

  AllSeen-push :
      (k : ℕ) (seen : List Pair) (a b : TypeId)
      → AllSeen k seen
      → unroll v k a b ≡ true
      → AllSeen k ((a, b) ∷ seen)
  AllSeen-push k seen a b s h c d m = unfold contains_pair in ground (arith, s c d)

  -- A yes holds at each depth at which the pairs on the stack are related.
  pub inner_sound :
      (k fuel : ℕ) (seen : List Pair) (a b : TypeId)
      → AllSeen k seen
      → is_subtype_inner v fuel seen a b ≡ some true
      → unroll v k a b ≡ true
  inner_sound zero fuel seen a b s h = unfold unroll in refl
  inner_sound (suc k) zero seen a b s h = unfold is_subtype_inner in cc
  inner_sound (suc k) (suc fuel) seen a b s h = ground (
    arith,
    unroll-suc k a b,
    inner-suc fuel seen a b,
    s a b,
    (uncached-Follows v true (is_subtype_inner v fuel ((a, b) ∷ seen)) (at_depth k)
        (λ x y. (
          (unroll v k x y, refl),
          λ e. ap some (
              inner_sound k fuel ((a, b) ∷ seen) x y
                (AllSeen-push k seen a b (AllSeen-less k seen s)
                  (inner_sound k (suc fuel) seen a b (AllSeen-less k seen s) h))
                e),
        ))
        a b).1,
  )

  -- A no is found by depth `fuel`.
  pub inner_complete :
      (fuel : ℕ) (seen : List Pair) (a b : TypeId)
      → is_subtype_inner v fuel seen a b ≡ some false
      → unroll v fuel a b ≡ false
  inner_complete zero seen a b h = unfold is_subtype_inner in cc
  inner_complete (suc fuel) seen a b h = ground (
    arith,
    unroll-suc fuel a b,
    inner-suc fuel seen a b,
    (uncached-Follows v false (is_subtype_inner v fuel ((a, b) ∷ seen)) (at_depth fuel)
        (λ x y.
          ((unroll v fuel x y, refl), λ e. ap some (inner_complete fuel ((a, b) ∷ seen) x y e)))
        a b).1,
  )

-- For two ids of an arena, `is_subtype` terminates with an answer.
pub is_subtype_total :
    (v : View) (a b : TypeId) → a < v.size → b < v.size → Answers (is_subtype v a b)
unfolding is_subtype
is_subtype_total v a b h k =
    inner-Answers v (enough v) [] a b h k (omega (arith, fresh_nil v.size v.size))

-- For two ids of an arena, `is_subtype` says yes exactly when its rules relate them at every depth.
pub is_subtype_decides :
    (v : View) (a b : TypeId)
    → a < v.size
    → b < v.size
    → (is_subtype v a b ≡ some true) ↔ ((k : ℕ) → unroll v k a b ≡ true)
unfolding is_subtype
is_subtype_decides v a b h k = (
  λ e depth. inner_sound v depth (enough v) [] a b (λ c d m. unfold contains_pair in cc) e,
  λ all. decided (is_subtype_total v a b h k) all,
)
  where
    decided :
        Answers (is_subtype v a b)
        → ((k : ℕ) → unroll v k a b ≡ true)
        → is_subtype v a b ≡ some true
    decided (true, e) all = e
    decided (false, e) all = ground (arith, inner_complete v (enough v) [] a b e, all (enough v))
