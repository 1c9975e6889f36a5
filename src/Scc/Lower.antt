-- ===== src/Scc/Lower.antt =====
-- A link that is lowered to the number of a dependency, and a dependency in an earlier component.
use ts_rust.Prelude.{
  ℕ, ◌≤◌, ◌≡◌, refl, ◌∙◌, sym, ap, false, arith, ◌⊎◌, inl, inr, ⊎_elim, ◌==◌, ltb, Bool-cases,
  ==_iff, eq_refl,
}
use ts_rust.Scc.{Graph, Search, lower}
use ts_rust.Scc.Counted.{HasNode, OnStack, IsVisited}
use ts_rust.Scc.Linked.{Reaches, LowUpTo, Linked, Edges, Nothing}

module _ (s : Search) (node bound : ℕ) where
  lower-le : (x : ℕ) → (lower s node bound).low_link x ≤ s.low_link x
  lower-le x = elim (Bool-cases (x == node)) [
    | inl q ↦ rw q (ground (arith, ap s.low_link ((==_iff x node).0 q)))
    | inr q ↦ rw q (omega arith)
  ]

  lower-bound : (lower s node bound).low_link node ≤ bound
  lower-bound = rw (eq_refl node) (ground arith)

  -- The link of a node is as before, or the bound.
  lower_cases :
      (x : ℕ)
      → ((lower s node bound).low_link x ≡ s.low_link x)
        ⊎ ((x ≡ node) × ((lower s node bound).low_link x ≡ bound))
  lower_cases x = elim (Bool-cases (x == node)) [
    | inl q ↦ elim (Bool-cases (ltb bound (s.low_link node))) [
      | inl m ↦ inr ((==_iff x node).0 q, rw (q, m) refl)
      | inr m ↦ inl (rw (q, m) (ap s.low_link (sym ((==_iff x node).0 q))))
    ]
    | inr q ↦ inl (rw q refl)
  ]

  low-lower : (g w : ℕ) → LowUpTo s g w → LowUpTo (lower s node bound) g w
  low-lower g w (f, hf, a, b) = (f, hf, a, omega (arith, lower-le f))

  module _ (dependencies : Graph) (framed : HasNode s.frames node) where
    pub lower-Linked :
        (y : ℕ)
        → OnStack s y
        → s.order y ≡ bound
        → Reaches dependencies node y
        → Linked dependencies s
        → Linked dependencies (lower s node bound)
    lower-Linked y oy ey r l = record {
      back = λ x h. elim (lower_cases x) [
        | inl e ↦ let (z, oz, ez, q) = l.back x h in (z, oz, ez ∙ sym e, q)
        | inr (d, e) ↦ (y, oy, ey ∙ sym e, rw d r)
      ];
      done = λ x h. ⊎_elim (λ k. inl k) (λ k. inr (omega (arith, lower-le x, k))) (l.done x h);
      down = l.down;
      least = λ g x hg h k. elim (lower_cases x) [
        | inl e ↦ rw e (low-lower g (s.low_link x) (l.least g x hg h k))
        | inr (d, e) ↦ (
          node,
          framed,
          omega (arith, k, ap s.order d),
          omega (arith, ap (lower s node bound).low_link d),
        )
      ];
    }

    pub lower-Edges :
        (Excused : ℕ → ℕ → Type 0)
        → Edges dependencies Excused s
        → ((x y : ℕ) → Excused x y → (x ≡ node) × IsVisited s y × (bound ≤ s.order y))
        → Edges dependencies (Nothing dependencies) (lower s node bound)
    lower-Edges Excused e only x k y h target = elim (e x k y h target) [
      | inl pending ↦ inl pending
      | inr (inl excused) ↦
          let (d, visited, le) = only x y excused in
          inr (
            inr (
              visited,
              λ hy g hg j.
                  (node, framed, omega (arith, j, ap s.order d), omega (arith, lower-bound, le)),
            ))
      | inr (inr (visited, known)) ↦
          inr (inr (visited, λ hy g hg j. low-lower g (s.order y) (known hy g hg j)))
    ]

pub skip-Edges :
    (dependencies : Graph) (s : Search) (Excused : ℕ → ℕ → Type 0)
    → Edges dependencies Excused s
    → ((x y : ℕ) → Excused x y → IsVisited s y × (s.on_stack y ≡ false))
    → Edges dependencies (Nothing dependencies) s
skip-Edges dependencies s Excused e only x k y h target = elim (e x k y h target) [
  | inl pending ↦ inl pending
  | inr (inl excused) ↦
      let (visited, off) = only x y excused in
      inr (inr (visited, λ hy g hg j. absurd (clash off hy)))
  | inr (inr known) ↦ inr (inr known)
]
  where
    clash : s.on_stack y ≡ false → OnStack s y → ⊥
    clash p q = cc
