-- ===== src/Relation/Structural/Decides.antt =====
-- What `structurally_equal` computes is sameness at every depth.
use ts_rust.Prelude.{
  ℕ, zero, suc, ◌<◌, ◌≡◌, refl, ap, ◌↔◌, Bool, true, false, ◌||◌, List, [], ◌∷◌, Option, none, some,
  ◌==◌, if◌then◌else◌, Check, arith, Answers, Bool-cases, inl, inr, Follows,
}
use ts_rust.Types.{TypeId, Ty}
use ts_rust.Relation.Subtype.{Pair, contains_pair}
use ts_rust.Relation.Subtype.Unroll.{yes_only}
use ts_rust.Relation.Structural.{
  same_read, structurally_equal_inner, structurally_equal, deep_enough,
}
use ts_rust.Relation.Structural.Depth.{same_to_depth, types-Follows}
use ts_rust.Relation.Structural.Total.{IsReadable, structurally_equal_total}

some_inj {ℓ} : {A : Type ℓ} {a b : A} → some a ≡ some b → a ≡ b
some_inj e = cc

module _ (look : TypeId → Option Ty) where
  abbrev at_depth : ℕ → TypeId → TypeId → Check
  at_depth k x y = some (same_to_depth look k x y)

  depth-suc :
      (k : ℕ) (a b : TypeId)
      → same_to_depth look (suc k) a b
        ≡ a == b || yes_only (same_read (at_depth k) (at_depth k) [] a b (look a) (look b))
  unfolding same_to_depth
  depth-suc k a b = refl

  inner-suc :
      (fuel : ℕ) (seen : List Pair) (a b : TypeId)
      → structurally_equal_inner look (suc fuel) seen a b ≡ (
          if a == b
          then some true
          else same_read
              (structurally_equal_inner look fuel seen)
              (structurally_equal_inner look fuel ((a, b) ∷ seen))
              seen
              a
              b
              (look a)
              (look b))
  unfolding structurally_equal_inner
  inner-suc fuel seen a b = refl

  nil_contains : (x y : TypeId) (c : Bool) → contains_pair [] x y ≡ true → c ≡ false
  unfolding contains_pair
  nil_contains x y c h = cc

  read-Follows :
      (c : Bool) (rec inside rel : TypeId → TypeId → Check) (seen : List Pair) (x y : TypeId)
      → ((x y : TypeId) → Follows c (rec x y) (rel x y))
      → ((x y : TypeId) → Follows c (inside x y) (rel x y))
      → (contains_pair seen x y ≡ true → c ≡ false)
      → (r q : Option Ty) → same_read rec inside seen x y r q ≡ some c
      → same_read rel rel [] x y r q ≡ some c
  unfolding same_read
  read-Follows c rec inside rel seen x y f g old (some s) (some t) h =
      (types-Follows c rec inside rel seen x y f g old s t).1 h
  read-Follows c rec inside rel seen x y f g old none q h = cc
  read-Follows c rec inside rel seen x y f g old (some s) none h = cc

  depth_less :
      (k : ℕ) (a b : TypeId)
      → same_to_depth look (suc k) a b ≡ true
      → same_to_depth look k a b ≡ true
  depth_less zero a b h = unfold same_to_depth in refl
  depth_less (suc k) a b h = ground (
    arith,
    depth-suc (suc k) a b,
    depth-suc k a b,
    read-Follows true (at_depth (suc k)) (at_depth (suc k)) (at_depth k) [] a b
        (λ x y. ((same_to_depth look k x y, refl), λ e. ap some (depth_less k x y (some_inj e))))
        (λ x y. ((same_to_depth look k x y, refl), λ e. ap some (depth_less k x y (some_inj e))))
        (nil_contains a b true) (look a) (look b),
  )

  abbrev AllSame : ℕ → List Pair → Type 0
  AllSame k seen = (c d : TypeId) → contains_pair seen c d ≡ true → same_to_depth look k c d ≡ true

  AllSame-less : (k : ℕ) (seen : List Pair) → AllSame (suc k) seen → AllSame k seen
  AllSame-less k seen s c d m = depth_less k c d (s c d m)

  AllSame-push :
      (k : ℕ) (seen : List Pair) (a b : TypeId)
      → AllSame k seen
      → same_to_depth look k a b ≡ true
      → AllSame k ((a, b) ∷ seen)
  AllSame-push k seen a b s h c d m = unfold contains_pair in ground (arith, s c d)

  inner_sound :
      (k fuel : ℕ) (seen : List Pair) (a b : TypeId)
      → AllSame k seen
      → structurally_equal_inner look fuel seen a b ≡ some true
      → same_to_depth look k a b ≡ true
  inner_sound zero fuel seen a b s h = unfold same_to_depth in refl
  inner_sound (suc k) zero seen a b s h = unfold structurally_equal_inner in cc
  inner_sound (suc k) (suc fuel) seen a b s h = elim (Bool-cases (contains_pair seen a b)) [
    | inl old ↦ s a b old
    | inr new ↦ ground (
      arith,
      depth-suc k a b,
      inner-suc fuel seen a b,
      read-Follows true (structurally_equal_inner look fuel seen)
          (structurally_equal_inner look fuel ((a, b) ∷ seen)) (at_depth k) seen a b
          (λ x y. (
            (same_to_depth look k x y, refl),
            λ e. ap some (inner_sound k fuel seen x y (AllSame-less k seen s) e),
          ))
          (λ x y. (
            (same_to_depth look k x y, refl),
            λ e. ap some (
                inner_sound k fuel ((a, b) ∷ seen) x y
                  (AllSame-push k seen a b (AllSame-less k seen s)
                    (inner_sound k (suc fuel) seen a b (AllSame-less k seen s) h))
                  e),
          ))
          (λ old. cc (old, new)) (look a) (look b),
    )
  ]

  inner_complete :
      (fuel : ℕ) (seen : List Pair) (a b : TypeId)
      → structurally_equal_inner look fuel seen a b ≡ some false
      → same_to_depth look fuel a b ≡ false
  inner_complete zero seen a b h = unfold structurally_equal_inner in cc
  inner_complete (suc fuel) seen a b h = ground (
    arith,
    depth-suc fuel a b,
    inner-suc fuel seen a b,
    read-Follows false (structurally_equal_inner look fuel seen)
        (structurally_equal_inner look fuel ((a, b) ∷ seen)) (at_depth fuel) seen a b
        (λ x y.
          ((same_to_depth look fuel x y, refl), λ e. ap some (inner_complete fuel seen x y e)))
        (λ x y. (
          (same_to_depth look fuel x y, refl),
          λ e. ap some (inner_complete fuel ((a, b) ∷ seen) x y e),
        ))
        (λ old. refl) (look a) (look b),
  )

-- In an arena whose ids all read, and where only an object names an id that is not smaller,
-- `structurally_equal` says yes of two ids of it exactly when they are the same to every depth.
pub structurally_equal_decides :
    (look : TypeId → Option Ty) (size : ℕ) (a b : TypeId)
    → IsReadable look size
    → a < size
    → b < size
    → (structurally_equal look size a b ≡ some true) ↔ ((k : ℕ) → same_to_depth look k a b ≡ true)
unfolding structurally_equal
structurally_equal_decides look size a b readable h k = (
  λ e depth.
      inner_sound look depth (deep_enough size) [] a b (λ c d m. unfold contains_pair in cc) e,
  λ all. decided (structurally_equal_total look size a b readable h k) all,
)
  where
    decided :
        Answers (structurally_equal look size a b)
        → ((k : ℕ) → same_to_depth look k a b ≡ true)
        → structurally_equal look size a b ≡ some true
    decided (true, e) all = e
    decided (false, e) all =
        ground (arith, inner_complete look (deep_enough size) [] a b e, all (deep_enough size))
