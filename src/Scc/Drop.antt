-- ===== src/Scc/Drop.antt =====
-- The frame of a node is taken off, and its link goes to its parent.
use ts_rust.Prelude.{
  ℕ, ◌<◌, ◌≤◌, ◌≡◌, refl, ◌∙◌, sym, ap, subst, List, [], ◌∷◌, arith, ◌⊎◌, inl, inr, ⊎_elim, ◌==◌,
  ltb, Bool-cases, ==_iff, eq_refl,
}
use ts_rust.Scc.{Graph, Search, Frame, lowered, drop_frame}
use ts_rust.Scc.Counted.{HasNode, FramesFall, OnStack}
use ts_rust.Scc.Linked.{IsTarget, Reaches-trans, IsFrame, LowUpTo, Linked, Edges, Nothing}

pub lowered-le :
    (low : ℕ → ℕ) (node : ℕ) (rest : List Frame) (x : ℕ) → lowered low node rest x ≤ low x
lowered-le low node [] x = omega arith
lowered-le low node ((p, j) ∷ rest) x = elim (Bool-cases (x == p)) [
  | inl q ↦ rw q (ground (arith, ap low ((==_iff x p).0 q)))
  | inr q ↦ rw q (omega arith)
]

-- The link of a node is as before, or it is the parent's, and the node's.
pub lowered_cases :
    (low : ℕ → ℕ) (node : ℕ) (rest : List Frame) (x : ℕ)
    → (lowered low node rest x ≡ low x) ⊎ (HasNode rest x × (lowered low node rest x ≡ low node))
lowered_cases low node [] x = inl refl
lowered_cases low node ((p, j) ∷ rest) x = elim (Bool-cases (x == p)) [
  | inl q ↦ elim (Bool-cases (ltb (low node) (low p))) [
    | inl m ↦ inr (inl (sym ((==_iff x p).0 q)), rw (q, m) refl)
    | inr m ↦ inl (rw (q, m) (ap low (sym ((==_iff x p).0 q))))
  ]
  | inr q ↦ inl (rw q refl)
]

-- The last frame that is left.
parent_of :
    (order low : ℕ → ℕ) (node : ℕ) (rest : List Frame) (g : ℕ)
    → FramesFall order rest
    → HasNode rest g
    → (p : ℕ) × HasNode rest p × (order g ≤ order p) × (lowered low node rest p ≤ low node)
parent_of order low node [] g fall h = elim h [ ]
parent_of order low node ((p, j) ∷ rest) g (below, fall) h = (
  p,
  inl refl,
  ⊎_elim (λ e. omega (arith, ap order e)) (λ k. omega (arith, below g k)) h,
  rw (eq_refl p) (ground arith),
)

-- What is known of the frames before a node is finished.
module _ (dependencies : Graph) (s : Search) (node i : ℕ) (rest : List Frame)
    (framed : s.frames ≡ (node, i) ∷ rest) where
  pub to_rest : (f : ℕ) → HasNode s.frames f → (node ≡ f) ⊎ HasNode rest f
  to_rest f h = subst (λ fs. HasNode fs f) framed h

  pub from_rest : (f : ℕ) → HasNode rest f → HasNode s.frames f
  from_rest f h = subst (λ fs. HasNode fs f) (sym framed) (inr h)

  pub from_node : HasNode s.frames node
  from_node = subst (λ fs. HasNode fs node) (sym framed) (inl refl)

  module _ (l : Linked dependencies s) (on : OnStack s node)
      (fall : ((f : ℕ) → HasNode rest f → s.order f < s.order node) × FramesFall s.order rest) where
    abbrev dropped : Search
    dropped = drop_frame s node rest

    lowered-node : dropped.low_link node ≡ s.low_link node
    lowered-node = ⊎_elim (λ e. e) (λ (h, e). e) (lowered_cases s.low_link node rest node)

    low-dropped : (g w : ℕ) → HasNode rest g → LowUpTo s g w → LowUpTo dropped g w
    low-dropped g w hg (f, hf, a, b) = elim (to_rest f hf) [
      | inl e ↦
          let (p, hp, c, d) = parent_of s.order s.low_link node rest g fall.1 hg in
          (p, hp, c, omega (arith, d, b, ap s.low_link e))
      | inr k ↦ (f, k, a, omega (arith, b, lowered-le s.low_link node rest f))
    ]

    -- The node has a link to a smaller number.
    pub drop-Linked : s.low_link node < s.order node → Linked dependencies dropped
    drop-Linked smaller = record {
      back = λ x h. elim (lowered_cases s.low_link node rest x) [
        | inl e ↦ let (y, oy, ey, r) = l.back x h in (y, oy, ey ∙ sym e, r)
        | inr (k, e) ↦
            let (y, oy, ey, r) = l.back node on in
            (
              y,
              oy,
              ey ∙ sym e,
              Reaches-trans dependencies
                  (l.down x node (from_rest x k) on (omega (arith, fall.0 x k))) r,
            )
      ];
      done = λ x h. elim (l.done x h) [
        | inl k ↦
            ⊎_elim
              (λ e. inr (
                subst (λ z. dropped.low_link z < s.order z) e
                  (omega (arith, lowered-node, smaller))))
              (λ m. inl m) (to_rest x k)
        | inr k ↦ inr (omega (arith, k, lowered-le s.low_link node rest x))
      ];
      down = λ f x hf h k. l.down f x (from_rest f hf) h k;
      least = λ g x hg h k. elim (lowered_cases s.low_link node rest x) [
        | inl e ↦ rw e (low-dropped g (s.low_link x) hg (l.least g x (from_rest g hg) h k))
        | inr (m, e) ↦ (x, m, k, omega arith)
      ];
    }

    pub drop-Edges :
        ((k y : ℕ) → IsTarget dependencies node k y → i ≤ k → ⊥)
        → Edges dependencies (Nothing dependencies) s
        → Edges dependencies (Nothing dependencies) dropped
    drop-Edges over e x k y h target = elim (e x k y h target) [
      | inl (n, fr, le) ↦ elim (subst (λ fs. IsFrame fs x n) framed fr) [
        | inl (d, m) ↦
            absurd
              (over k y (subst (λ z. IsTarget dependencies z k y) (sym d) target) (omega arith))
        | inr q ↦ inl (n, q, le)
      ]
      | inr (inl excused) ↦ absurd excused
      | inr (inr (visited, known)) ↦
          inr (
            inr
              (visited, λ hy g hg j. low-dropped g (s.order y) hg (known hy g (from_rest g hg) j)))
    ]
