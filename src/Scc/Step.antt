-- ===== src/Scc/Step.antt =====
-- One round of the search returns, keeps what every round keeps, and leaves less to do.
use ts_rust.Prelude.{
  ℕ, ◌<◌, ◌≤◌, ◌≡◌, refl, ap, true, List, ◌∷◌, some, length, arith, get_elem?, get_elem?-lt, inl,
  inr, ⊎_elim, ◌==◌, ltb, if◌then◌else◌, Bool-cases, Option-cases,
}
use ts_rust.Scc.{Graph, Search, Frame, unvisited, visit, lower, look, advance, round}
use ts_rust.Scc.Counted.{Counted, HasNode, IsVisited, OnStack-IsVisited}
use ts_rust.Scc.Leaves.{lower-Counted}
use ts_rust.Scc.Linked.{IsTarget, Reaches, here, onward, Linked}
use ts_rust.Scc.Lower.{lower-Linked, lower-Edges, skip-Edges}
use ts_rust.Scc.First.{visit-Keeps}
use ts_rust.Scc.Round.{
  on, falls, finish_step, moved, IsNext, from_moved, moved-Counted, moved-Linked, moved-Edges,
  less_moved,
}
use ts_rust.Scc.Keeps.{Keeps, left, InRange, Steps, past}

module _ (dependencies : Graph) (few : length dependencies ≤ unvisited)
    (closed : InRange dependencies) where
  module _ (s : Search) (node i : ℕ) (rest : List Frame) (framed : s.frames ≡ (node, i) ∷ rest)
      (keeps : Keeps dependencies s) where
    open keeps use {counted, linked, edges, emitted, ordered}

    -- The state in which the frame has moved on.
    abbrev now : Search
    now = moved dependencies few closed s node i rest framed keeps

    abbrev IsLooked : ℕ → ℕ → ℕ → Type 0
    IsLooked next = IsNext dependencies few closed s node i rest framed keeps next

    now-Counted : Counted (length dependencies) now
    now-Counted = moved-Counted dependencies few closed s node i rest framed keeps

    now-Linked : Linked dependencies now
    now-Linked = moved-Linked dependencies few closed s node i rest framed keeps

    reach_next :
        (next : ℕ)
        → IsTarget dependencies node i next
        → (f : ℕ) → HasNode now.frames f
        → Reaches dependencies f next
    reach_next next target f h =
        onward node next i
          (linked.down f node ((from_moved dependencies few closed s node i rest framed keeps) f h)
            (on dependencies few closed s node i rest framed keeps) (below f h))
          target
      where
        below : (f : ℕ) → HasNode now.frames f → s.order f ≤ s.order node
        below f h =
            ⊎_elim (λ e. omega (arith, ap s.order e))
              (λ k. omega (arith, (falls dependencies few closed s node i rest framed keeps).0 f k))
              h

    -- The dependency has been visited before.
    old_step :
        (next : ℕ)
        → IsTarget dependencies node i next
        → IsVisited s next
        → Steps dependencies s
            (some (if s.on_stack next then lower now node (s.order next) else now))
            (left dependencies s)
    old_step next target visited = elim (Bool-cases (s.on_stack next)) [
      | inl q ↦ rw q (
        lower now node (s.order next),
        refl,
        record {
          counted = lower-Counted (length dependencies) now now-Counted node (s.order next);
          linked =
              lower-Linked now node (s.order next) dependencies (inl refl) next q refl
                (onward node next i here target) now-Linked;
          edges =
              lower-Edges now node (s.order next) dependencies (inl refl) (IsLooked next)
                ((moved-Edges dependencies few closed s node i rest framed keeps) next target)
                (λ x y (a, b). (a, rw b visited, omega (arith, ap s.order b)));
          emitted = emitted;
          ordered = ordered;
        },
        (less_moved dependencies few closed s node i rest framed keeps) next target,
        λ n h. h,
      )
      | inr q ↦ rw q (
        now,
        refl,
        record {
          counted = now-Counted;
          linked = now-Linked;
          edges =
              skip-Edges dependencies now (IsLooked next)
                ((moved-Edges dependencies few closed s node i rest framed keeps) next target)
                (λ x y (a, b). (rw b visited, rw b q));
          emitted = emitted;
          ordered = ordered;
        },
        (less_moved dependencies few closed s node i rest framed keeps) next target,
        λ n h. h,
      )
    ]

    new_step :
        (next : ℕ)
        → IsTarget dependencies node i next
        → (s.order next == unvisited) ≡ true
        → Steps dependencies s (some (visit now next)) (left dependencies s)
    new_step next target new =
        let (k, e, v) =
          visit-Keeps dependencies few closed now next (IsLooked next) now-Counted now-Linked
            ((moved-Edges dependencies few closed s node i rest framed keeps) next target) emitted
            ordered new (closed node i next target) (reach_next next target) (λ x y (a, b). b) in
        (
          visit now next,
          refl,
          k,
          omega (
            arith,
            e,
            (less_moved dependencies few closed s node i rest framed keeps) next target,
          ),
          v,
        )

    look_step :
        (next : ℕ)
        → IsTarget dependencies node i next
        → Steps dependencies s (some (look now node next)) (left dependencies s)
    unfolding look
    look_step next target = elim (Bool-cases (s.order next == unvisited)) [
      | inl q ↦ rw q (new_step next target q)
      | inr q ↦ rw q (old_step next target q)
    ]

    advance_step :
        (targets : List ℕ)
        → get_elem? dependencies node ≡ some targets
        → Steps dependencies s
            (advance dependencies s node i rest (get_elem? targets i))
            (left dependencies s)
    advance_step targets known = elim (Option-cases (get_elem? targets i)) [
      | inl q ↦ rw q (
          (finish_step dependencies few closed s node i rest framed keeps)
            (λ k y target le. past targets i k q le (rw known at target)))
      | inr (next, q) ↦ rw (q, inside next (to q)) (look_step next (to q))
    ]
      where
        to : {next : ℕ} → get_elem? targets i ≡ some next → IsTarget dependencies node i next
        to q = rw known q

        inside :
            (next : ℕ) → IsTarget dependencies node i next → ltb next (length dependencies) ≡ true
        inside next target = ground (arith, closed node i next target)

    pub round_step :
        Steps dependencies s (round dependencies s (node, i) rest) (left dependencies s)
    unfolding round
    round_step =
        let (targets, known) = get_elem?-lt dependencies node inside in
        rw known (advance_step targets known)
      where
        inside : node < length dependencies
        inside = ground (
          arith,
          counted.outside node,
          OnStack-IsVisited (length dependencies) s counted node
              (on dependencies few closed s node i rest framed keeps),
        )
