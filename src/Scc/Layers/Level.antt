-- ===== src/Scc/Layers/Level.antt =====
-- The level that a component gets.
use ts_rust.Prelude.{
  ℕ, zero, suc, ◌+◌, ◌%◌, ◌^◌, ◌<◌, ◌≤◌, ◌≡◌, refl, ◌∙◌, sym, subst, true, false, ◌&&◌, ◌||◌, List,
  [], ◌∷◌, none, some, length, arith, get_elem?, get_elem?-lt, ◌⊎◌, ◌==◌, ltb, Bool-cases, inl, inr,
  ⊎_elim, ==_iff, eq_refl,
}
use ts_rust.Scc.{Graph}
use ts_rust.Scc.Times.{times}
use ts_rust.Scc.Linked.{or_empty, IsTarget}
use ts_rust.Scc.Keeps.{InRange}
use ts_rust.Scc.Layers.{raised, raise, level_of}

each_cons :
    (P : ℕ → Type 0) {t : ℕ}
    → P t
    → (targets : List ℕ) → ((k d : ℕ) → get_elem? targets k ≡ some d → P d)
    → (k d : ℕ) → get_elem? (t ∷ targets) k ≡ some d
    → P d
each_cons P p targets each zero d h = subst P (same h) p
  where
    same : {a b : ℕ} → some a ≡ some b → a ≡ b
    same h = cc
each_cons P p targets each (suc k) d h = each k d h

-- What is shown of the level of the component at `place`.
module _ (of depth : ℕ → ℕ) (place : ℕ) where
  -- The level is above the dependency, if that is in another component.
  abbrev pub IsAbove : ℕ → ℕ → Type 0
  IsAbove l d = (of d ≡ place) ⊎ (depth (of d) < l)

  -- The level is the one before, or one more than that of a dependency in an earlier component.
  abbrev pub IsReason : (ℕ → ℕ → Type 0) → ℕ → Type 0
  IsReason At l = (k d : ℕ) × At k d × (of d < place) × (l ≡ suc (depth (of d)))

  module _ (dependencies : Graph) where
    -- The dependency of a member.
    abbrev pub IsMemberTarget : List ℕ → ℕ → ℕ → ℕ → Type 0
    IsMemberTarget members x k d = (0 < times x members) × IsTarget dependencies x k d

    abbrev pub Levels : List ℕ → ℕ → ℕ → Type 0
    Levels members level l =
        (level ≤ l)
        × (l ≤ place)
        × ((x k d : ℕ) → IsMemberTarget members x k d → IsAbove l d)
        × ((l ≡ level) ⊎ ((x : ℕ) × IsReason (IsMemberTarget members x) l))

module _ (of depth : ℕ → ℕ) (place count size : ℕ) (inside : place < size) (few : size ≤ 2 ^ 32)
    (small : (p : ℕ) → p < place → depth p ≤ p) where
  -- A dependency is a node of this component or of an earlier one.
  abbrev IsFine : ℕ → Type 0
  IsFine d = (d < count) × (of d ≤ place)

  raised_lem :
      (level d : ℕ)
      → IsFine d
      → level ≤ place
      → (level ≤ raised of depth place level d)
        × (raised of depth place level d ≤ place)
        × IsAbove of depth place (raised of depth place level d) d
        × ((raised of depth place level d ≡ level)
            ⊎ ((of d < place) × (raised of depth place level d ≡ suc (depth (of d)))))
  raised_lem level d (hd, le) low = elim (Bool-cases (of d == place)) [
    | inl q ↦ rw q (omega arith, low, inl ((==_iff (of d) place).0 q), inl refl)
    | inr q ↦ elim (Bool-cases (ltb level (depth (of d) + 1))) [
      | inl m ↦
          rw (q, no_wrap q, m)
            (
              ground arith,
              omega (arith, earlier q, small (of d) (earlier q)),
              inr (omega arith),
              inr (earlier q, omega arith),
            )
      | inr m ↦ rw (q, no_wrap q, m) (omega arith, low, inr (ground arith), inl refl)
    ]
  ]
    where
      earlier : (of d == place) ≡ false → of d < place
      earlier q = ground arith

      no_wrap : (of d == place) ≡ false → (depth (of d) + 1) % 2 ^ 64 ≡ depth (of d) + 1
      no_wrap q = omega (arith, small (of d) (earlier q), earlier q)

  IsAbove-le :
      {l l' : ℕ} → l ≤ l' → (d : ℕ) → IsAbove of depth place l d → IsAbove of depth place l' d
  IsAbove-le le d above = ⊎_elim (λ a. inl a) (λ b. inr (omega arith)) above

  raise_lem :
      (targets : List ℕ) (level : ℕ)
      → ((k d : ℕ) → get_elem? targets k ≡ some d → IsFine d)
      → level ≤ place
      → (l : ℕ) × (raise of depth place count size targets level ≡ some l)
        × (level ≤ l)
        × (l ≤ place)
        × ((k d : ℕ) → get_elem? targets k ≡ some d → IsAbove of depth place l d)
        × ((l ≡ level) ⊎ IsReason of depth place (λ k d. get_elem? targets k ≡ some d) l)
  unfolding raise
  raise_lem [] level fine low = (level, refl, omega arith, low, λ k d h. absurd (clash h), inl refl)
    where
      clash : {d : ℕ} → none ≡ some d → ⊥
      clash h = cc
  raise_lem (t ∷ targets) level fine low =
      let f = fine 0 t refl in
      let (le, top, above, why) = raised_lem level t f low in
      let (l, e, le2, top2, above2, why2) =
        raise_lem targets (raised of depth place level t) (λ k d h. fine (suc k) d h) top in
      rw (ok f) (
        l,
        e,
        omega arith,
        top2,
        each_cons (IsAbove of depth place l) (IsAbove-le le2 t above) targets above2,
        ⊎_elim (λ a. ⊎_elim (λ b. inl (a ∙ b)) (λ (b, c). inr (0, t, refl, b, a ∙ c)) why)
            (λ (k, d, h, b, c). inr (suc k, d, h, b, c)) why2,
      )
    where
      ok : IsFine t → (ltb t count && (of t == place || ltb (of t) size)) ≡ true
      ok (a, b) = ground arith

  module _ (dependencies : Graph) (counted : length dependencies ≡ count)
      (closed : InRange dependencies)
      (up : (x k y : ℕ) → x < count → IsTarget dependencies x k y → of y ≤ of x) where
    target-IsFine :
        (m : ℕ) → m < count → of m ≡ place → (k d : ℕ) → IsTarget dependencies m k d → IsFine d
    target-IsFine m h e k d target =
        (omega (arith, counted, closed m k d target), omega (arith, up m k d h target))

    pub level_of_lem :
        (members : List ℕ) (level : ℕ)
        → ((m : ℕ) → 0 < times m members → (m < count) × (of m ≡ place))
        → level ≤ place
        → (l : ℕ) × (level_of of depth place dependencies size members level ≡ some l)
          × Levels of depth place dependencies members level l
    unfolding level_of
    level_of_lem [] level here low =
        (level, refl, (omega arith, low, (λ x k d (h, t). absurd (omega arith)), inl refl))
    level_of_lem (m ∷ members) level here low =
        let (hm, em) = here m (rw (eq_refl m) (omega arith)) in
        let (targets, known) = get_elem?-lt dependencies m (omega (arith, counted)) in
        let (l1, e1, le1, top1, above1, why1) =
          raise_lem targets level (λ k d h. target-IsFine m hm em k d (rw known h)) low in
        let (l, e, (le, top, above, why)) =
          level_of_lem members l1 (λ x h. here x (ground arith)) top1 in
        rw (known, counted, e1)
          (
            l,
            e,
            (
              omega arith,
              top,
              (λ x k d (h, t). elim (Bool-cases (m == x)) [
                | inl q ↦
                    IsAbove-le le d (above1 k d (from_first m targets known ((==_iff m x).0 q) k t))
                | inr q ↦ above x k d (rw q at h, t)
              ]),
              ⊎_elim
                  (λ a.
                    ⊎_elim (λ b. inl (a ∙ b))
                      (λ (k, d, h, b, c).
                        inr (m, (k, d, (rw (eq_refl m) (omega arith), rw known h), b, a ∙ c)))
                      why1)
                  (λ (x, (k, d, (h, t), b, c)). inr (x, (k, d, (ground arith, t), b, c))) why,
            ),
          )
      where
        from_first :
            (m : ℕ) (targets : List ℕ)
            → get_elem? dependencies m ≡ some targets
            → {x : ℕ} → m ≡ x
            → (k : ℕ) {d : ℕ} → IsTarget dependencies x k d
            → get_elem? targets k ≡ some d
        from_first m targets known {x} same k {d} t =
            subst (λ ts. get_elem? (or_empty ts) k ≡ some d) known
              (subst (λ z. IsTarget dependencies z k d) (sym same) t)
