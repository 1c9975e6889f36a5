-- ===== src/Modules/Slices.antt =====
-- Lists of slices: what stands in them, and their order.
use ts_rust.Prelude.{
  ℕ, ◌<◌, ◌≡◌, ◌↔◌, refl, sym, ap, subst, true, false, List, [], ◌∷◌, some, arith, Bool-cases, inl,
  inr, ◌⊎◌, ⊎_elim,
}
use ts_rust.Scc.Times.{times}
use ts_rust.Scc.Keeps.{Ordered}
use ts_rust.Modules.{is_cycle, keep_cycles, slice_le, insert_slice, sort_slices}

abbrev pub Stands : List ℕ → List (List ℕ) → Type 0
Stands c [] = ⊥
Stands c (d ∷ ds) = (d ≡ c) ⊎ Stands c ds

-- No slice is larger than the next.
abbrev pub Rises : List (List ℕ) → Type 0
Rises [] = Unit
Rises (c ∷ []) = Unit
Rises (c ∷ d ∷ ds) = (slice_le c d ≡ true) × Rises (d ∷ ds)

slice_total : (xs ys : List ℕ) → slice_le xs ys ≡ false → slice_le ys xs ≡ true
slice_total [] ys h = absurd (clash h)
  where
    clash : true ≡ false → ⊥
    clash h = cc
slice_total (x ∷ xs) [] h = refl
slice_total (x ∷ xs) (y ∷ ys) h = ground (arith, slice_total xs ys)

insert_slice-Rises : (x : List ℕ) (ys : List (List ℕ)) → Rises ys → Rises (insert_slice x ys)
unfolding insert_slice
insert_slice-Rises x [] r = tt
insert_slice-Rises x (y ∷ []) r = elim (Bool-cases (slice_le x y)) [
  | inl q ↦ rw q (q, tt)
  | inr q ↦ rw q (slice_total x y q, tt)
]
insert_slice-Rises x (y ∷ z ∷ ys) (le, r) = elim (Bool-cases (slice_le x y)) [
  | inl q ↦ rw q (q, (le, r))
  | inr q ↦
      let rest = insert_slice-Rises x (z ∷ ys) r in
      elim (Bool-cases (slice_le x z)) [
        | inl p ↦ rw (q, p) (slice_total x y q, (p, r))
        | inr p ↦ rw (q, p) (le, (rw p at rest))
      ]
]

pub sort_slices-Rises : (xs : List (List ℕ)) → Rises (sort_slices xs)
unfolding sort_slices
sort_slices-Rises [] = tt
sort_slices-Rises (x ∷ xs) = insert_slice-Rises x (sort_slices xs) (sort_slices-Rises xs)

insert_slice-Stands :
    (c x : List ℕ) (ys : List (List ℕ)) → Stands c (insert_slice x ys) ↔ Stands c (x ∷ ys)
unfolding insert_slice
insert_slice-Stands c x [] = ((λ h. h), λ h. h)
insert_slice-Stands c x (y ∷ ys) =
    let both = insert_slice-Stands c x ys in
    elim (Bool-cases (slice_le x y)) [
      | inl q ↦ rw q ((λ h. h), λ h. h)
      | inr q ↦ rw q (
        (λ h. ⊎_elim (λ e. inr (inl e)) (λ k. ⊎_elim (λ e. inl e) (λ m. inr (inr m)) (both.0 k)) h),
        λ h.
            ⊎_elim (λ e. inr (both.1 (inl e)))
              (λ k. ⊎_elim (λ e. inl e) (λ m. inr (both.1 (inr m))) k) h,
      )
    ]

pub sort_slices-Stands : (c : List ℕ) (xs : List (List ℕ)) → Stands c (sort_slices xs) ↔ Stands c xs
unfolding sort_slices
sort_slices-Stands c [] = ((λ h. h), λ h. h)
sort_slices-Stands c (x ∷ xs) =
    let first = insert_slice-Stands c x (sort_slices xs) in
    let rest = sort_slices-Stands c xs in
    (
      (λ h. ⊎_elim (λ e. inl e) (λ m. inr (rest.0 m)) (first.0 h)),
      λ h. first.1 (⊎_elim (λ e. inl e) (λ m. inr (rest.1 m)) h),
    )

module _ (dependencies : List (List ℕ)) where
  abbrev pub IsCycle : List ℕ → Type 0
  IsCycle c = is_cycle dependencies c ≡ some true

  answers :
      (c : List ℕ) (n : ℕ) → 0 < times n c → IsCycle c ⊎ (is_cycle dependencies c ≡ some false)
  answers [] n h = absurd (omega arith)
  answers (x ∷ []) n h = ⊎_elim (λ e. inl (ap some e)) (λ e. inr (ap some e)) (Bool-cases _)
  answers (x ∷ y ∷ c) n h = inl refl

  one_more :
      (c d : List ℕ) (cs kept : List (List ℕ))
      → IsCycle c
      → Stands d kept ↔ (Stands d cs × IsCycle d)
      → Stands d (c ∷ kept) ↔ (Stands d (c ∷ cs) × IsCycle d)
  one_more c d cs kept q f = (
    (λ h. ⊎_elim (λ e. (inl e, subst IsCycle e q)) (λ k. let (s, t) = f.0 k in (inr s, t)) h),
    λ (h, t). ⊎_elim (λ e. inl e) (λ s. inr (f.1 (s, t))) h,
  )

  no_more :
      (c d : List ℕ) (cs kept : List (List ℕ))
      → is_cycle dependencies c ≡ some false
      → Stands d kept ↔ (Stands d cs × IsCycle d)
      → Stands d kept ↔ (Stands d (c ∷ cs) × IsCycle d)
  no_more c d cs kept q f = (
    (λ k. let (s, t) = f.0 k in (inr s, t)),
    λ (h, t). ⊎_elim (λ e. absurd (clash (subst IsCycle (sym e) t))) (λ s. f.1 (s, t)) h,
  )
    where
      clash : IsCycle c → ⊥
      clash t = cc

  -- The components that are cycles are kept, when each component has members.
  pub keep_cycles_lem :
      (cs : List (List ℕ))
      → Ordered cs
      → (kept : List (List ℕ)) × (keep_cycles dependencies cs ≡ some kept)
        × ((c : List ℕ) → Stands c kept ↔ (Stands c cs × IsCycle c))
  unfolding keep_cycles
  keep_cycles_lem [] o = ([], refl, λ c. ((λ h. absurd h), λ (h, e). h))
  keep_cycles_lem (c ∷ cs) (a, (n, b), o) =
      let (kept, e, f) = keep_cycles_lem cs o in
      elim (answers c n b) [
        | inl q ↦ rw (q, e) (c ∷ kept, refl, λ d. one_more c d cs kept q (f d))
        | inr q ↦ rw (q, e) (kept, refl, λ d. no_more c d cs kept q (f d))
      ]
