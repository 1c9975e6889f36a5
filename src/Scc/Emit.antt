-- ===== src/Scc/Emit.antt =====
-- A component is taken off the stack: what is left is as before, and the component depends on itself
-- and on those before it, and all its nodes reach each other.
use ts_rust.Prelude.{
  ℕ, zero, suc, ◌+◌, ◌<◌, ◌≤◌, ◌≡◌, refl, sym, ap, subst, false, List, [], ◌∷◌, ◌++◌, arith, inl,
  inr, ⊎_elim, ◌==◌, Bool-cases, ==_iff,
}
use ts_rust.Scc.{Graph, Search, Frame, lowered, drop_frame, emit, pop_until, sort}
use ts_rust.Scc.Times.{times, flat, times-append, times-sort, times-pop_until}
use ts_rust.Scc.Counted.{Counted, HasNode, OnStack, IsVisited, OnStack-times, times-OnStack}
use ts_rust.Scc.Leaves.{emit-stays, emit-keeps, split}
use ts_rust.Scc.Linked.{
  IsTarget, Reaches, Reaches-trans, here, IsFrame, LowUpTo, Linked, Edges, Nothing, Emitted,
}
use ts_rust.Scc.Drop.{to_rest, from_rest, from_node}

lowered_same :
    (low : ℕ → ℕ) (node : ℕ) (rest : List Frame)
    → ((f : ℕ) → HasNode rest f → low f ≤ low node)
    → (x : ℕ) → lowered low node rest x ≡ low x
lowered_same low node [] h x = refl
lowered_same low node ((p, j) ∷ rest) h x = elim (Bool-cases (x == p)) [
  | inl q ↦ rw q (ground (arith, h p (inl refl), ap low ((==_iff x p).0 q)))
  | inr q ↦ rw q refl
]

-- A component is appended to those that were found.
pub Emitted-append :
    (dependencies : Graph) (before : ℕ → ℕ) (cs : List (List ℕ)) (c : List ℕ)
    → Emitted dependencies before cs
    → ((x k y : ℕ)
        → 0 < times x c
        → IsTarget dependencies x k y
        → 0 < before y + times y (flat cs) + times y c)
    → ((x y : ℕ) → 0 < times x c → 0 < times y c → Reaches dependencies x y)
    → Emitted dependencies before (cs ++ c ∷ [])
Emitted-append dependencies before [] c e closed reach =
    (λ x k y h t. omega (arith, closed x k y h t), reach, tt)
Emitted-append dependencies before (d ∷ cs) c (closed_d, reach_d, e) closed reach = (
  closed_d,
  reach_d,
  Emitted-append dependencies (λ n. before n + times n d) cs c e
      (λ x k y h t. omega (arith, closed x k y h t, times-append y d (flat cs))) reach,
)

IsFrame-HasNode : (frames : List Frame) (x n : ℕ) → IsFrame frames x n → HasNode frames x
IsFrame-HasNode [] x n h = h
IsFrame-HasNode ((g, j) ∷ rest) x n h =
    ⊎_elim (λ (d, m). inl d) (λ q. inr (IsFrame-HasNode rest x n q)) h

module _ (dependencies : Graph) (count : ℕ) (s : Search) (node i : ℕ) (rest : List Frame)
    (framed : s.frames ≡ (node, i) ∷ rest) (l : Linked dependencies s) (on : OnStack s node)
    (low : (x : ℕ) → OnStack s x → s.low_link x ≤ s.order x)
    (nodes : (f : ℕ) → HasNode rest f → OnStack s f)
    (fall : (f : ℕ) → HasNode rest f → s.order f < s.order node)
    (root : s.low_link node ≡ s.order node)
    (over : (k y : ℕ) → IsTarget dependencies node k y → i ≤ k → ⊥)
    (e : Edges dependencies (Nothing dependencies) s)
    (c : Counted count (drop_frame s node rest)) where
  abbrev dropped : Search
  dropped = drop_frame s node rest

  abbrev emitted : Search
  emitted = emit dropped node

  same : (x : ℕ) → dropped.low_link x ≡ s.low_link x
  same x =
      lowered_same s.low_link node rest (λ f h. omega (arith, low f (nodes f h), fall f h, root)) x

  stays : (x : ℕ) → OnStack emitted x → OnStack s x × (s.order x < s.order node)
  stays x h = emit-stays count dropped c node on fall x h

  keeps : (x : ℕ) → OnStack s x → s.order x < s.order node → OnStack emitted x
  keeps x h k = emit-keeps count dropped c node on fall x h k

  -- A number smaller than the node's is not known by the node's own frame.
  low-emitted : (g w : ℕ) → LowUpTo s g w → w < s.order node → LowUpTo emitted g w
  unfolding emit
  low-emitted g w (f, hf, a, b) h = elim (to_rest dependencies s node i rest framed f hf) [
    | inl d ↦ absurd (omega (arith, ap s.low_link d, root))
    | inr k ↦ (f, k, a, omega (arith, same f, b))
  ]

  pub emit-Linked : Linked dependencies emitted
  unfolding emit
  emit-Linked = record {
    back = λ x h.
        let (o, lt) = stays x h in
        let (y, oy, ey, r) = l.back x o in
        (y, keeps y oy (omega (arith, ey, low x o)), omega (arith, ey, same x), r);
    done = λ x h.
        let (o, lt) = stays x h in
        elim (l.done x o) [
          | inl k ↦
              ⊎_elim (λ d. absurd (omega (arith, ap s.order d))) (λ m. inl m)
                (to_rest dependencies s node i rest framed x k)
          | inr k ↦ inr (omega (arith, k, same x))
        ];
    down =
        λ f x hf h k. l.down f x (from_rest dependencies s node i rest framed f hf) (stays x h).0 k;
    least = λ g x hg h k.
        let (o, lt) = stays x h in
        low-emitted g (dropped.low_link x)
          (subst (λ w. LowUpTo s g w) (sym (same x))
            (l.least g x (from_rest dependencies s node i rest framed g hg) o k))
          (omega (arith, same x, low x o));
  }

  pub emit-Edges : Edges dependencies (Nothing dependencies) emitted
  unfolding emit
  emit-Edges x k y h target =
      let (o, lt) = stays x h in
      elim (e x k y o target) [
        | inl (n, fr, le) ↦ elim (subst (λ fs. IsFrame fs x n) framed fr) [
          | inl (d, m) ↦ absurd (omega (arith, ap s.order d))
          | inr q ↦ inl (n, q, le)
        ]
        | inr (inl excused) ↦ absurd excused
        | inr (inr (visited, known)) ↦ inr (
            inr (
              visited,
              λ hy g hg j.
                  let (oy, lty) = stays y hy in
                  low-emitted g (s.order y)
                    (known oy g (from_rest dependencies s node i rest framed g hg) j) lty,
            ))
      ]

  abbrev popped : List ℕ
  popped = (pop_until node s.stack).0

  -- Only the node itself has a frame from its own on.
  frame_node : (f : ℕ) → HasNode s.frames f → s.order node ≤ s.order f → node ≡ f
  frame_node f h k =
      ⊎_elim (λ d. d) (λ m. absurd (omega (arith, fall f m)))
        (to_rest dependencies s node i rest framed f h)

  low_node : (w : ℕ) → LowUpTo s node w → s.order node ≤ w
  low_node w (f, hf, a, b) = omega (arith, ap s.low_link (frame_node f hf a), root)

  -- The links lead down to the node.
  climb :
      (n x : ℕ)
      → OnStack s x
      → s.order node ≤ s.order x
      → s.order x < n
      → Reaches dependencies x node
  climb zero x h k lt = absurd (omega arith)
  climb (suc n) x h k lt = elim (l.done x h) [
    | inl m ↦ subst (λ z. Reaches dependencies z node) (frame_node x m k) here
    | inr m ↦
        let (y, oy, ey, r) = l.back x h in
        Reaches-trans dependencies r (
          climb n y oy
            (omega (
              arith,
              ey,
              low_node (s.low_link x)
                  (l.least node x (from_node dependencies s node i rest framed) h k),
            ))
            (omega (arith, ey)))
  ]

  popped-OnStack : (x : ℕ) → 0 < times x popped → OnStack s x × (s.order node ≤ s.order x)
  popped-OnStack x h = (
    times-OnStack count dropped c x (omega (arith, times-pop_until x node s.stack)),
    ground (arith, (split count dropped c node on fall).2 x),
  )

  OnStack-popped : (x : ℕ) → OnStack s x → s.order node ≤ s.order x → 0 < times x popped
  OnStack-popped x h k = omega (
    arith,
    times-pop_until x node s.stack,
    OnStack-times count dropped c x h,
    (split count dropped c node on fall).1 x (OnStack-times count dropped c x h) k,
  )

  in_found : (y : ℕ) → IsVisited s y → s.on_stack y ≡ false → 0 < times y (flat s.found)
  in_found y visited off = ground (arith, c.once y, c.flags y)

  pub emit-Emitted :
      Emitted dependencies (λ n. 0) s.found → Emitted dependencies (λ n. 0) emitted.found
  unfolding emit
  emit-Emitted old =
      Emitted-append dependencies (λ n. 0) s.found (sort popped) old closed
        (λ x y hx hy.
          let (ox, kx) = popped-OnStack x (omega (arith, times-sort x popped)) in
          let (oy, ky) = popped-OnStack y (omega (arith, times-sort y popped)) in
          Reaches-trans dependencies (climb (suc (s.order x)) x ox kx (omega arith))
            (l.down node y (from_node dependencies s node i rest framed) oy ky))
    where
      closed :
          (x k y : ℕ)
          → 0 < times x (sort popped)
          → IsTarget dependencies x k y
          → 0 < 0 + times y (flat s.found) + times y (sort popped)
      closed x k y h target =
          let (o, kx) = popped-OnStack x (omega (arith, times-sort x popped)) in
          elim (e x k y o target) [
            | inl (n, fr, le) ↦ elim (subst (λ fs. IsFrame fs x n) framed fr) [
              | inl (d, m) ↦
                  absurd (
                    over k y (subst (λ z. IsTarget dependencies z k y) (sym d) target)
                      (omega arith))
              | inr q ↦ absurd (omega (arith, fall x (IsFrame-HasNode rest x n q)))
            ]
            | inr (inl excused) ↦ absurd excused
            | inr (inr (visited, known)) ↦ elim (Bool-cases (s.on_stack y)) [
              | inl oy ↦ omega (
                arith,
                times-sort y popped,
                OnStack-popped y oy (
                    low_node (s.order y)
                      (known oy node (from_node dependencies s node i rest framed) kx)),
              )
              | inr off ↦ omega (arith, in_found y visited off)
            ]
          ]
