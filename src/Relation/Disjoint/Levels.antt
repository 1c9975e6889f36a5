-- ===== src/Relation/Disjoint/Levels.antt =====
-- `is_disjoint` answers, and its answer is that of every pair of alternatives of the two types: so it
-- is symmetric, which the relation cache relies on.
use mathlib.Core.Path.{fun_ext}
use ts_rust.Prelude.{
  ℕ, suc, ◌≡◌, refl, ap, sym, ◌∙◌, ◌≢◌, true, false, List, [], ◌∷◌, some, ◌==◌, Check, all?, all,
  All, all-eq_true, all?-eq, All-map, all-swap, subst, arith, ==_iff, eq_refl, Bool-cases, inl, inr,
}
use ts_rust.Types.{TypeId, Ty, union}
use ts_rust.Relation.View.{View, is_never, is_union, IsLeaf, IsFlat}
use ts_rust.Relation.Disjoint.{
  is_open, members_disjoint, disjoint_step, disjoint_within, is_disjoint,
}
use ts_rust.Relation.Disjoint.Pairs.{
  alternatives_of, alternatives, leaves_disjoint, all_disjoint, leaves_disjoint_comm, step_leaves,
  leaf_open, leaf_never, all_never, all_open,
}

module _ (v : View) where
  open v use {get, flat}

  members_right :
      (rec : TypeId → TypeId → Check) (a b : TypeId) (left : Ty) (ns : List TypeId)
      → is_union left ≡ false
      → members_disjoint v rec a b left (union ns) ≡ all? (λ n. rec a n) ns
  unfolding members_disjoint
  members_right rec a b (union ms) ns p = cc
  members_right rec a b left ns p = refl

  IsFlat-at : (b : TypeId) (ns : List TypeId) → get b ≡ union ns → IsFlat get (union ns)
  IsFlat-at b ns e = subst (IsFlat get) e (flat b)

  differ : (a b : TypeId) → is_union (get a) ≡ false → is_union (get b) ≡ true → (a == b) ≡ false
  differ a b p q = ground arith

  -- A type that is no union against a union, where the calls for the members answer.
  step_right :
      (rec : TypeId → TypeId → Check) (a b : TypeId) (ns : List TypeId)
      → is_union (get a) ≡ false
      → get b ≡ union ns
      → All (λ n. rec a n ≡ some (leaves_disjoint v a n)) ns
      → disjoint_step v rec a b ≡ some (all (leaves_disjoint v a) ns)
  unfolding disjoint_step
  step_right rec a b ns p e ih = rw e (
      rw (differ a b p (rw e)) (
        ground (
          arith,
          all_never v a ns,
          all_open v a ns (IsFlat-at b ns e).0 (IsFlat-at b ns e).1,
          members_right rec a b (get a) ns p,
          all?-eq (λ n. rec a n) (leaves_disjoint v a) ns ih,
        )))

  never_all :
      (b : TypeId) (ms : List TypeId) (ns : List TypeId)
      → ns ≡ b ∷ []
      → is_never (get b) ≡ true
      → all_disjoint v ms ns ≡ true
  never_all b ms ns e h =
      all-eq_true (λ m. all (leaves_disjoint v m) ns) ms
        (λ m. rw e (ground (arith, leaf_never v b m h, leaves_disjoint_comm v m b)))

  open-All :
      (b : TypeId) (ms : List TypeId)
      → ms ≢ []
      → All (λ m. IsLeaf (get m)) ms
      → is_union (get b) ≡ false
      → is_never (get b) ≡ false
      → is_open (get b) ≡ true
      → all_disjoint v ms (b ∷ []) ≡ false
  open-All b [] h l p q o = absurd (h refl)
  open-All b (m ∷ ms) h l p q o = ground (arith, leaf_open v b m (p, q) l.0 o)

  -- A union with itself.
  same-All :
      (ms : List TypeId) → ms ≢ [] → All (λ m. IsLeaf (get m)) ms → all_disjoint v ms ms ≡ false
  unfolding leaves_disjoint
  same-All [] h l = absurd (h refl)
  same-All (m ∷ ms) h l = unfold leaves_disjoint in ground (arith, l.0)

  step_left_other :
      (rec : TypeId → TypeId → Check) (a b : TypeId) (ms : List TypeId) (right : Ty)
      → get a ≡ union ms
      → get b ≡ right
      → (a == b) ≡ false
      → All (λ m. rec m b ≡ some (all (leaves_disjoint v m) (alternatives_of b right))) ms
      → disjoint_step v rec a b ≡ some (all_disjoint v ms (alternatives_of b right))
  unfolding disjoint_step members_disjoint
  step_left_other rec a b ms right e eb d ih = ground (
    arith,
    never_all b ms (b ∷ []) refl,
    open-All b ms (IsFlat-at a ms e).0 (IsFlat-at a ms e).1,
    all?-eq (λ m. rec m b) (λ m. all (leaves_disjoint v m) (alternatives_of b right)) ms ih,
  )

  step_left_same :
      (a b : TypeId) (rec : TypeId → TypeId → Check) (ms : List TypeId)
      → get a ≡ union ms
      → a ≡ b
      → disjoint_step v rec a b ≡ some (all_disjoint v ms (alternatives v b))
  unfolding disjoint_step
  step_left_same a b rec ms e same =
      rw (← same, eq_refl a, e)
        (ground (arith, same-All ms (IsFlat-at a ms e).0 (IsFlat-at a ms e).1))

  -- A union on the left, where the calls for its members answer.
  step_left :
      (rec : TypeId → TypeId → Check) (a b : TypeId) (ms : List TypeId)
      → get a ≡ union ms
      → All (λ m. rec m b ≡ some (all (leaves_disjoint v m) (alternatives v b))) ms
      → disjoint_step v rec a b ≡ some (all_disjoint v ms (alternatives v b))
  step_left rec a b ms e ih = elim (Bool-cases (a == b)) [
    | inl same ↦ step_left_same a b rec ms e ((==_iff a b).0 same)
    | inr other ↦ step_left_other rec a b ms (get b) e refl other ih
  ]

  within_right :
      (f : ℕ) (a b : TypeId) (right : Ty)
      → is_union (get a) ≡ false
      → get b ≡ right
      → disjoint_within v (suc (suc f)) a b
        ≡ some (all (leaves_disjoint v a) (alternatives_of b right))
  unfolding disjoint_within
  within_right f a b (union ns) p e = step_right (disjoint_within v (suc f)) a b ns p e (
      All-map (λ n. IsLeaf (get n)) _ ns (λ n l. step_leaves v (disjoint_within v f) a n p l.0)
        (IsFlat-at b ns e).1)
  within_right f a b right p e = ground (arith, step_leaves v (disjoint_within v (suc f)) a b p)

  within_left :
      (a b : TypeId) (left : Ty)
      → get a ≡ left
      → is_disjoint v a b ≡ some (all_disjoint v (alternatives_of a left) (alternatives v b))
  unfolding is_disjoint
  within_left a b (union ms) e = step_left (disjoint_within v 2) a b ms e (
      All-map (λ m. IsLeaf (get m)) _ ms (λ m l. within_right 0 m b (get b) l.0 refl)
        (IsFlat-at a ms e).1)
  within_left a b left e = ground (arith, within_right 1 a b (get b) (rw e) refl)

-- Three levels of calls are enough, and the answer is that every alternative of the first type is
-- disjoint from every alternative of the second, where a union's alternatives are its members.
pub is_disjoint_lem :
    (v : View) (a b : TypeId)
    → is_disjoint v a b ≡ some (all_disjoint v (alternatives v a) (alternatives v b))
is_disjoint_lem v a b = within_left v a b (v.get a) refl

-- `is_disjoint` is symmetric.
pub is_disjoint_comm : (v : View) (a b : TypeId) → is_disjoint v a b ≡ is_disjoint v b a
is_disjoint_comm v a b =
    is_disjoint_lem v a b
    ∙ ap some (all-swap (leaves_disjoint v) (alternatives v a) (alternatives v b))
    ∙ ap (λ f. some (all (λ y. all (λ x. f x y) (alternatives v a)) (alternatives v b)))
        (fun_ext (λ x. fun_ext (λ y. leaves_disjoint_comm v x y)))
    ∙ sym (is_disjoint_lem v b a)
