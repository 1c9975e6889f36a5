-- ===== src/Scc/Layers/Fill.antt =====
-- The loop of `layers` over the components.
use ts_rust.Prelude.{
  ℕ, suc, ◌+◌, ◌^◌, ◌<◌, ◌≤◌, ◌≡◌, refl, ◌∙◌, sym, ap, subst, false, ◌&&◌, List, [], ◌∷◌, some,
  length, arith, ◌⊎◌, ◌==◌, ltb, if◌then◌else◌, Bool-cases, inl, inr, ⊎_elim, ==_iff, eq_refl,
}
use ts_rust.Scc.{Graph, update}
use ts_rust.Scc.Times.{times}
use ts_rust.Scc.Linked.{IsTarget}
use ts_rust.Scc.Keeps.{InRange}
use ts_rust.Scc.Layers.{fill}
use ts_rust.Scc.Layers.Ordering.{IsNumbered}
use ts_rust.Scc.Layers.Level.{Levels, level_of_lem}
use ts_rust.Scc.Layers.Placed.{layer, Puts, with_level_lem}

module _ (dependencies : Graph) (of : ℕ → ℕ) (closed : InRange dependencies) where
  abbrev count : ℕ
  count = length dependencies

  -- The components before `place` have their levels, and their members stand in those layers.
  pub record Filled (place : ℕ) (depth : ℕ → ℕ) (result : List (List ℕ)) : Type 0 where
    pub stands :
        (n i : ℕ)
        → times n (layer result i)
          ≡ (if ltb n count && (ltb (of n) place && depth (of n) == i) then 1 else 0)
    pub small : (p : ℕ) → p < place → depth p ≤ p
    pub above :
        (x k y : ℕ)
        → x < count
        → of x < place
        → IsTarget dependencies x k y
        → (of y ≡ of x) ⊎ (depth (of y) < depth (of x))
    pub reason :
        (p : ℕ)
        → p < place
        → (depth p ≡ 0)
          ⊎ ((x : ℕ) × (k : ℕ) × (y : ℕ) × (x < count)
              × (of x ≡ p)
              × IsTarget dependencies x k y
              × (depth p ≡ suc (depth (of y))))

  module _ (up : (x k y : ℕ) → x < count → IsTarget dependencies x k y → of y ≤ of x) (size : ℕ)
      (few : size ≤ 2 ^ 32) where
    member :
        (place : ℕ) (c : List ℕ)
        → ((n : ℕ) → times n c ≡ (if ltb n count && of n == place then 1 else 0))
        → (x : ℕ) → 0 < times x c
        → (x < count) × (of x ≡ place)
    member place c mine x h = ground (arith, mine x)

    -- One more component gets its level.
    module _ (place : ℕ) (c : List ℕ) (depth : ℕ → ℕ) (result result' : List (List ℕ)) (l : ℕ)
        (mine : (n : ℕ) → times n c ≡ (if ltb n count && of n == place then 1 else 0))
        (filled : Filled place depth result) (levels : Levels of depth place dependencies c 0 l)
        (put : Puts result l c result') where
      abbrev deeper : ℕ → ℕ
      deeper = update depth place l

      at_place : (p : ℕ) → p ≡ place → deeper p ≡ l
      at_place p e = rw (e, eq_refl place) refl

      before : (p : ℕ) → p < place → deeper p ≡ depth p
      before p h = ground arith

      below : (p : ℕ) → p < suc place → (p == place) ≡ false → p < place
      below p h q = ground arith

      later : (p p' : ℕ) → depth p < l → p ≤ place → p' ≡ place → (p ≡ p') ⊎ (deeper p < deeper p')
      later p p' m le e = elim (Bool-cases (p == place)) [
        | inl q ↦ inl ((==_iff p place).0 q ∙ sym e)
        | inr q ↦ inr (omega (arith, before p (below p (omega arith) q), at_place p' e))
      ]

      -- Why the component at `p` has its level.
      abbrev IsDeep : (ℕ → ℕ) → ℕ → Type 0
      IsDeep deep p =
          (deep p ≡ 0)
          ⊎ ((x : ℕ) × (k : ℕ) × (y : ℕ) × (x < count)
              × (of x ≡ p)
              × IsTarget dependencies x k y
              × (deep p ≡ suc (deep (of y))))

      fill_reason : (p : ℕ) → p < suc place → IsDeep deeper p
      fill_reason p h = elim (Bool-cases (p == place)) [
        | inl q ↦
            let e = (==_iff p place).0 q in
            ⊎_elim (λ z. inl (at_place p e ∙ z))
              (λ (x, (k, d, (hx, t), lt, f)).
                let (inside, at) = member place c mine x hx in
                inr (
                  x,
                  k,
                  d,
                  inside,
                  at ∙ sym e,
                  t,
                  at_place p e ∙ f ∙ ap suc (sym (before (of d) lt)),
                ))
              levels.3
        | inr q ↦
            let earlier = below p h q in
            ⊎_elim (λ z. inl (before p earlier ∙ z))
              (λ (x, k, y, inside, at, t, f). inr (
                x,
                k,
                y,
                inside,
                at,
                t,
                before p earlier
                    ∙ f
                    ∙ ap suc (sym (before (of y) (omega (arith, up x k y inside t)))),
              ))
              (filled.reason p earlier)
      ]

      fill_above :
          (x k y : ℕ)
          → x < count
          → of x < suc place
          → IsTarget dependencies x k y
          → (of y ≡ of x) ⊎ (deeper (of y) < deeper (of x))
      fill_above x k y h lt target = elim (Bool-cases (of x == place)) [
        | inl q ↦
            let e = (==_iff (of x) place).0 q in
            ⊎_elim (λ m. inl (m ∙ sym e))
              (λ m. later (of y) (of x) m (omega (arith, up x k y h target)) e)
              (levels.2 x k y (ground (arith, mine x), target))
        | inr q ↦
            let earlier = below (of x) lt q in
            ⊎_elim (λ m. inl m)
              (λ m. inr (
                omega
                  (arith, before (of x) earlier, before (of y) (omega (arith, up x k y h target)))))
              (filled.above x k y h earlier target)
      ]

      fill_step : Filled (suc place) deeper result'
      fill_step = record {
        stands = λ n i. ground (arith, put n i, filled.stands n i, mine n);
        small = λ p h. elim (Bool-cases (p == place)) [
          | inl q ↦ rw q (ground (arith, levels.1))
          | inr q ↦ rw q (filled.small p (ground arith))
        ];
        above = fill_above;
        reason = fill_reason;
      }

    pub fill_lem :
        (place : ℕ) (cs : List (List ℕ)) (depth : ℕ → ℕ) (result : List (List ℕ))
        → place + length cs ≡ size
        → IsNumbered count of place cs
        → Filled place depth result
        → (depth' : ℕ → ℕ) × (result' : List (List ℕ)) × (fill dependencies of size place cs depth
              result
            ≡ some result')
          × Filled size depth' result'
    unfolding fill
    fill_lem place [] depth result at numbered filled =
        (depth, result, refl, subst (λ p. Filled p depth result) (omega (arith, at)) filled)
    fill_lem place (c ∷ cs) depth result at (mine, numbered) filled =
        let (l, e, levels) =
          level_of_lem of depth place count size (omega arith) few filled.small dependencies refl
            closed up c 0 (member place c mine) (omega arith) in
        let (result', f, put) = with_level_lem result l c (omega (arith, levels.1)) in
        rw (e, f)
          (fill_lem (suc place) cs (update depth place l) result' (omega arith) numbered
            (fill_step place c depth result result' l mine filled levels put))
