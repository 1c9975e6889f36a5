-- ===== src/Types/Names.antt =====
-- Texts as byte lists: equality and the order of `str::cmp`.
use Prim.Native.Nat.{compare, Ordering}
use ts_rust.Prelude.{
  ◌⊎◌, inl, inr, ℕ, ◌≡◌, refl, ◌↔◌, Bool, true, false, ◌&&◌, List, [], ◌∷◌, arith, ◌==◌,
}
use ts_rust.Types.{Name}

unfoldable pub ids_eq : List ℕ → List ℕ → Bool
ids_eq [] [] = true
ids_eq (a ∷ as') (b ∷ bs) = a == b && ids_eq as' bs
ids_eq _ _ = false

pub ids_eq_refl : (a : List ℕ) → ids_eq a a ≡ true
unfolding ids_eq
ids_eq_refl [] = refl
ids_eq_refl (x ∷ xs) = ground (arith, ids_eq_refl xs)

pub ids_eq→eq : (a b : List ℕ) → ids_eq a b ≡ true → a ≡ b
unfolding ids_eq
ids_eq→eq [] [] h = refl
ids_eq→eq (a ∷ as') (b ∷ bs) h = ground (arith, ids_eq→eq as' bs)
ids_eq→eq a b h = cc

pub ids_eq_iff : (a b : List ℕ) → (ids_eq a b ≡ true) ↔ (a ≡ b)
ids_eq_iff a b = (ids_eq→eq a b, λ e. subst_right e)
  where
    subst_right : a ≡ b → ids_eq a b ≡ true
    subst_right e = ground (arith, ids_eq_refl a)

-- `str::cmp`.
unfoldable pub cmp : Name → Name → Ordering
cmp [] [] = Ordering.eq
cmp [] (b ∷ bs) = Ordering.lt
cmp (a ∷ as') [] = Ordering.gt
cmp (a ∷ as') (b ∷ bs) =
    let rest = cmp as' bs in
    elim (compare a b) [
      | Ordering.lt ↦ Ordering.lt
      | Ordering.gt ↦ Ordering.gt
      | Ordering.eq ↦ rest
    ]

pub cmp_refl : (a : Name) → cmp a a ≡ Ordering.eq
unfolding cmp
cmp_refl [] = refl
cmp_refl (x ∷ xs) = ground (arith, cmp_refl xs)

pub cmp-eq→eq : (a b : Name) → cmp a b ≡ Ordering.eq → a ≡ b
unfolding cmp
cmp-eq→eq [] [] h = refl
cmp-eq→eq (a ∷ as') (b ∷ bs) h = ground (arith, cmp-eq→eq as' bs)
cmp-eq→eq a b h = cc

pub cmp_flip : (a b : Name) → cmp a b ≡ Ordering.gt → cmp b a ≡ Ordering.lt
unfolding cmp
cmp_flip [] [] h = cc
cmp_flip (a ∷ as') [] h = refl
cmp_flip [] (b ∷ bs) h = cc
cmp_flip (a ∷ as') (b ∷ bs) h = ground (arith, cmp_flip as' bs)

pub cmp_trans :
    (a b c : Name) → cmp a b ≡ Ordering.lt → cmp b c ≡ Ordering.lt → cmp a c ≡ Ordering.lt
unfolding cmp
cmp_trans [] [] c h k = cc
cmp_trans [] (b ∷ bs) [] h k = cc
cmp_trans [] (b ∷ bs) (c ∷ cs) h k = refl
cmp_trans (a ∷ as') [] c h k = cc
cmp_trans (a ∷ as') (b ∷ bs) [] h k = cc
cmp_trans (a ∷ as') (b ∷ bs) (c ∷ cs) h k = ground (arith, cmp_trans as' bs cs)

pub ids_eq_comm : (a b : List ℕ) → ids_eq a b ≡ ids_eq b a
unfolding ids_eq
ids_eq_comm [] [] = refl
ids_eq_comm (a ∷ as') [] = refl
ids_eq_comm [] (b ∷ bs) = refl
ids_eq_comm (a ∷ as') (b ∷ bs) = ground (arith, ids_eq_comm as' bs)

pub Ordering-cases : (o : Ordering) → ((o ≡ Ordering.lt) ⊎ (o ≡ Ordering.eq)) ⊎ (o ≡ Ordering.gt)
Ordering-cases Ordering.lt = inl (inl refl)
Ordering-cases Ordering.eq = inl (inr refl)
Ordering-cases Ordering.gt = inr refl
