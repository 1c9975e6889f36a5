-- ===== src/Scc/Visit.antt =====
-- A first visit keeps the links and the known dependencies.
use ts_rust.Prelude.{
  ℕ, ◌<◌, ◌≤◌, ◌≡◌, refl, ◌∙◌, sym, ap, subst, true, false, ◌∷◌, arith, ◌⊎◌, inl, inr, ⊎_elim, ◌==◌,
  Bool-cases, ==_iff, eq_refl,
}
use ts_rust.Scc.{Graph, Search, visit, unvisited}
use ts_rust.Scc.Counted.{
  Counted, HasNode, OnStack, IsVisited, visit-other, OnStack-times, OnStack-IsVisited, visit-room,
}
use ts_rust.Scc.Linked.{Reaches, here, IsFrame, LowUpTo, Linked, IsKnown, Edges, Nothing}

-- The state `t` is `s` with the node visited.
pub record Visits (s t : Search) (node : ℕ) : Type 0 where
  pub order_old : (x : ℕ) → OnStack s x → t.order x ≡ s.order x
  pub low_old : (x : ℕ) → OnStack s x → t.low_link x ≡ s.low_link x
  pub order_new : t.order node ≡ s.next_order
  pub low_new : t.low_link node ≡ s.next_order
  pub on : (x : ℕ) → OnStack t x → (x ≡ node) ⊎ OnStack s x
  pub on_old : (x : ℕ) → OnStack s x → OnStack t x
  pub on_new : OnStack t node
  pub framed : t.frames ≡ (node, 0) ∷ s.frames
  pub visited_old : (y : ℕ) → IsVisited s y → IsVisited t y
  pub visited_new : IsVisited t node
  pub below : (x : ℕ) → OnStack s x → s.order x < s.next_order
  pub low : (x : ℕ) → OnStack s x → s.low_link x ≤ s.order x
  pub nodes : (f : ℕ) → HasNode s.frames f → OnStack s f

module _ (dependencies : Graph) (s t : Search) (node : ℕ) (v : Visits s t node) where
  to_old : (f : ℕ) → HasNode t.frames f → (node ≡ f) ⊎ HasNode s.frames f
  to_old f h = subst (λ fs. HasNode fs f) v.framed h

  from_old : (f : ℕ) → HasNode s.frames f → HasNode t.frames f
  from_old f h = subst (λ fs. HasNode fs f) (sym v.framed) (inr h)

  from_new : HasNode t.frames node
  from_new = subst (λ fs. HasNode fs node) (sym v.framed) (inl refl)

  module _ (l : Linked dependencies s)
      (reach : (f : ℕ) → HasNode s.frames f → Reaches dependencies f node) where
    back' :
        (x : ℕ)
        → OnStack t x
        → (y : ℕ) × OnStack t y × (t.order y ≡ t.low_link x) × Reaches dependencies x y
    back' x h = elim (v.on x h) [
      | inl e ↦ rw e (node, v.on_new, v.order_new ∙ sym v.low_new, here)
      | inr o ↦
          let (y, oy, ey, r) = l.back x o in
          (y, v.on_old y oy, omega (arith, v.order_old y oy, v.low_old x o, ey), r)
    ]

    done' : (x : ℕ) → OnStack t x → HasNode t.frames x ⊎ (t.low_link x < t.order x)
    done' x h = elim (v.on x h) [
      | inl e ↦ rw e (inl from_new)
      | inr o ↦
          ⊎_elim (λ k. inl (from_old x k))
            (λ k. inr (omega (arith, k, v.order_old x o, v.low_old x o))) (l.done x o)
    ]

    down' :
        (f x : ℕ)
        → HasNode t.frames f
        → OnStack t x
        → t.order f ≤ t.order x
        → Reaches dependencies f x
    down' f x hf hx h = elim (to_old f hf) [
      | inl e ↦ elim (v.on x hx) [
        | inl d ↦ rw (d, ← e) here
        | inr o ↦ absurd (omega (arith, ap t.order e, v.order_new, v.order_old x o, v.below x o))
      ]
      | inr k ↦ elim (v.on x hx) [
        | inl d ↦ rw d (reach f k)
        | inr o ↦ l.down f x k o (omega (arith, v.order_old x o, v.order_old f (v.nodes f k)))
      ]
    ]

    -- What a frame knew it knows, and the new number is larger than all links.
    pub low-later : (g w w' : ℕ) → HasNode s.frames g → LowUpTo s g w → w ≤ w' → LowUpTo t g w'
    low-later g w w' k (f, hf, a, b) h = (
      f,
      from_old f hf,
      omega (arith, v.order_old f (v.nodes f hf), v.order_old g (v.nodes g k)),
      omega (arith, v.low_old f (v.nodes f hf)),
    )

    low-new : (g w : ℕ) → HasNode t.frames g → s.next_order ≤ w → LowUpTo t g w
    low-new g w hg h = (
      g,
      hg,
      omega arith,
      elim (to_old g hg) [
        | inl e ↦ omega (arith, ap t.low_link e, v.low_new)
        | inr k ↦
            omega (arith, v.low_old g (v.nodes g k), v.low g (v.nodes g k), v.below g (v.nodes g k))
      ],
    )

    least' :
        (g x : ℕ)
        → HasNode t.frames g
        → OnStack t x
        → t.order g ≤ t.order x
        → LowUpTo t g (t.low_link x)
    least' g x hg hx h = elim (v.on x hx) [
      | inl d ↦ rw d (low-new g (t.low_link node) hg (omega (arith, v.low_new)))
      | inr o ↦ elim (to_old g hg) [
        | inl e ↦ absurd (omega (arith, ap t.order e, v.order_new, v.order_old x o, v.below x o))
        | inr k ↦
            low-later g (s.low_link x) (t.low_link x) k
              (l.least g x k o (omega (arith, v.order_old x o, v.order_old g (v.nodes g k))))
              (omega (arith, v.low_old x o))
      ]
    ]

    pub visit-Linked : Linked dependencies t
    visit-Linked = record { back = back'; done = done'; down = down'; least = least' }

    IsKnown-new : (x y : ℕ) → y ≡ node → IsKnown dependencies t x y
    IsKnown-new x y d = (
      rw d v.visited_new,
      λ hy g hg h. low-new g (t.order y) hg (omega (arith, ap t.order d, v.order_new)),
    )

    IsKnown-old : (x y : ℕ) → OnStack s x → IsKnown dependencies s x y → IsKnown dependencies t x y
    IsKnown-old x y o (visited, known) = (
      v.visited_old y visited,
      λ hy g hg h. elim (v.on y hy) [
        | inl d ↦ low-new g (t.order y) hg (omega (arith, ap t.order d, v.order_new))
        | inr oy ↦ elim (to_old g hg) [
          | inl e ↦ absurd (omega (arith, ap t.order e, v.order_new, v.order_old x o, v.below x o))
          | inr k ↦
              low-later g (s.order y) (t.order y) k
                (known oy g k (omega (arith, v.order_old x o, v.order_old g (v.nodes g k))))
                (omega (arith, v.order_old y oy))
        ]
      ],
    )

    pub visit-Edges :
        (Excused : ℕ → ℕ → Type 0)
        → Edges dependencies Excused s
        → ((x y : ℕ) → Excused x y → y ≡ node)
        → Edges dependencies (Nothing dependencies) t
    visit-Edges Excused e only x k y hx target = elim (v.on x hx) [
      | inl d ↦
          inl (0, subst (λ fs. IsFrame fs x 0) (sym v.framed) (inl (sym d, refl)), omega arith)
      | inr o ↦ elim (e x k y o target) [
        | inl (i, fr, le) ↦ inl (i, subst (λ fs. IsFrame fs x i) (sym v.framed) (inr fr), le)
        | inr (inl excused) ↦ inr (inr (IsKnown-new x y (only x y excused)))
        | inr (inr known) ↦ inr (inr (IsKnown-old x y o known))
      ]
    ]

module _ (count : ℕ) (s : Search) (c : Counted count s) (few : count ≤ unvisited) (node : ℕ)
    (new : (s.order node == unvisited) ≡ true) (inside : node < count) where
  other : (x : ℕ) → OnStack s x → (x == node) ≡ false
  other x h = visit-other count s c few node new inside x (OnStack-times count s c x h)

  pub visit-Visits : Visits s (visit s node) node
  unfolding visit
  visit-Visits = record {
    order_old = λ x h. rw (other x h) refl;
    low_old = λ x h. rw (other x h) refl;
    order_new = rw (eq_refl node) refl;
    low_new = rw (eq_refl node) refl;
    on = λ x h. elim (Bool-cases (x == node)) [
      | inl q ↦ inl ((==_iff x node).0 q)
      | inr q ↦ inr (rw q at h)
    ];
    on_old = λ x h. rw (other x h) h;
    on_new = rw (eq_refl node) refl;
    framed = refl;
    visited_old = λ y h. elim (Bool-cases (y == node)) [
      | inl q ↦ absurd (clash y ((==_iff y node).0 q) h)
      | inr q ↦ rw q h
    ];
    visited_new = rw (eq_refl node) (ground (arith, visit-room count s c few node new inside));
    below = λ x h. c.fresh x (OnStack-IsVisited count s c x h);
    low = c.low;
    nodes = c.nodes;
  }
    where
      clash : (y : ℕ) → y ≡ node → IsVisited s y → ⊥
      clash y d h = cc
