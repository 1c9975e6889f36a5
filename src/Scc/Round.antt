-- ===== src/Scc/Round.antt =====
-- A frame is finished, or moves on.
use ts_rust.Prelude.{
  ℕ, suc, ◌<◌, ◌≤◌, ◌≡◌, refl, ◌∙◌, sym, subst, List, ◌∷◌, some, length, arith, get_elem?,
  lt-length_of_get_elem?, inl, inr, ⊎_elim, ◌==◌, Bool-cases, ==_iff,
}
use ts_rust.Scc.{Graph, Search, Frame, unvisited, drop_frame, emit, pop_until, finish}
use ts_rust.Scc.Counted.{Counted, HasNode, FramesFall, OnStack}
use ts_rust.Scc.Leaves.{popped-node, reframe-Counted, emit-Counted}
use ts_rust.Scc.Linked.{or_empty, IsTarget, IsFrame, Linked, Edges}
use ts_rust.Scc.Keeps.{
  Keeps, Ordered-append, left, InRange, Steps, reframe-Linked, drop-Counted, same_target,
}
use ts_rust.Scc.Drop.{lowered_cases, drop-Linked, drop-Edges}
use ts_rust.Scc.Emit.{emit-Linked, emit-Edges, emit-Emitted}

module _ (dependencies : Graph) (few : length dependencies ≤ unvisited)
    (closed : InRange dependencies) where
  module _ (s : Search) (node i : ℕ) (rest : List Frame) (framed : s.frames ≡ (node, i) ∷ rest)
      (keeps : Keeps dependencies s) where
    open keeps use {counted, linked, edges, emitted, ordered}

    has_node : HasNode s.frames node
    has_node = subst (λ fs. HasNode fs node) (sym framed) (inl refl)

    pub on : OnStack s node
    on = counted.nodes node has_node

    pub falls : FramesFall s.order ((node, i) ∷ rest)
    falls = subst (FramesFall s.order) framed counted.frames_fall

    in_rest : (f : ℕ) → HasNode rest f → HasNode s.frames f
    in_rest f h = subst (λ fs. HasNode fs f) (sym framed) (inr h)

    dropped-Counted : Counted (length dependencies) (drop_frame s node rest)
    dropped-Counted = drop-Counted (length dependencies) s node rest (
        reframe-Counted (length dependencies) s counted rest (λ f h. counted.nodes f (in_rest f h))
          falls.1)

    kept_link : (drop_frame s node rest).low_link node ≡ s.low_link node
    kept_link = ⊎_elim (λ e. e) (λ (h, e). e) (lowered_cases s.low_link node rest node)

    less_left : left dependencies (record s { frames = rest }) < left dependencies s
    less_left = rw framed (omega arith)

    pub finish_step :
        ((k y : ℕ) → IsTarget dependencies node k y → i ≤ k → ⊥)
        → Steps dependencies s (some (finish s node rest)) (left dependencies s)
    unfolding finish
    finish_step over = elim (Bool-cases ((drop_frame s node rest).low_link node == s.order node)) [
      | inl q ↦
          let root =
            sym kept_link ∙ (==_iff ((drop_frame s node rest).low_link node) (s.order node)).0 q in
          rw q (
            emit (drop_frame s node rest) node,
            refl,
            record {
              counted =
                  emit-Counted (length dependencies) (drop_frame s node rest) dropped-Counted node
                    on falls.0;
              linked =
                  emit-Linked dependencies (length dependencies) s node i rest framed linked on
                    counted.low (λ f h. counted.nodes f (in_rest f h)) falls.0 root over edges
                    dropped-Counted;
              edges =
                  emit-Edges dependencies (length dependencies) s node i rest framed linked on
                    counted.low (λ f h. counted.nodes f (in_rest f h)) falls.0 root over edges
                    dropped-Counted;
              emitted =
                  emit-Emitted dependencies (length dependencies) s node i rest framed linked on
                    counted.low (λ f h. counted.nodes f (in_rest f h)) falls.0 root over edges
                    dropped-Counted emitted;
              ordered =
                  unfold emit in
                  Ordered-append s.found (pop_until node s.stack).0 node ordered (
                    popped-node (length dependencies) (drop_frame s node rest) dropped-Counted node
                      on falls.0);
            },
            unfold emit in omega (arith, less_left),
            λ n h. unfold emit in h,
          )
      | inr q ↦ rw q (
        drop_frame s node rest,
        refl,
        record {
          counted = dropped-Counted;
          linked =
              drop-Linked dependencies s node i rest framed linked on falls
                (ground (arith, counted.low node on, kept_link, q));
          edges = drop-Edges dependencies s node i rest framed linked on falls over edges;
          emitted = emitted;
          ordered = ordered;
        },
        omega (arith, less_left),
        λ n h. h,
      )
    ]

    -- The state in which the frame has moved on.
    abbrev pub moved : Search
    moved = record s { frames = (node, suc i) ∷ rest }

    abbrev pub IsNext : ℕ → ℕ → ℕ → Type 0
    IsNext next x y = (x ≡ node) × (y ≡ next)

    pub from_moved : (f : ℕ) → HasNode moved.frames f → HasNode s.frames f
    from_moved f h = subst (λ fs. HasNode fs f) (sym framed) h

    pub moved-Counted : Counted (length dependencies) moved
    moved-Counted =
        reframe-Counted (length dependencies) s counted moved.frames
          (λ f h. counted.nodes f (from_moved f h)) falls

    pub moved-Linked : Linked dependencies moved
    moved-Linked =
        reframe-Linked dependencies s moved.frames from_moved
          (λ f h. subst (λ fs. HasNode fs f) framed h) linked

    pub moved-Edges :
        (next : ℕ) → IsTarget dependencies node i next → Edges dependencies (IsNext next) moved
    moved-Edges next target x k y h to_y = elim (edges x k y h to_y) [
      | inl (n, fr, le) ↦ elim (subst (λ fs. IsFrame fs x n) framed fr) [
        | inl (d, m) ↦ elim (Bool-cases (i == k)) [
          | inl q ↦ inr (
              inl (
                sym d,
                same_target dependencies x node k i y next (sym d) ((==_iff i k).0 q) to_y target,
              ))
          | inr q ↦ inl (suc i, inl (d, refl), ground arith)
        ]
        | inr q ↦ inl (n, inr q, le)
      ]
      | inr (inl excused) ↦ absurd excused
      | inr (inr (visited, known)) ↦ inr (
          inr (
            visited,
            λ hy g hg j.
                let (f, hf, a, b) = known hy g (from_moved g hg) j in
                (f, subst (λ fs. HasNode fs f) framed hf, a, b),
          ))
    ]

    pub less_moved :
        (next : ℕ)
        → IsTarget dependencies node i next
        → suc (left dependencies moved) ≤ left dependencies s
    less_moved next target =
        rw framed
          (omega (arith, lt-length_of_get_elem? (or_empty (get_elem? dependencies node)) i target))
