-- ===== src/Scc/First.antt =====
-- A first visit keeps what every round keeps, and leaves as much to do.
use ts_rust.Prelude.{ℕ, suc, ◌<◌, ◌≤◌, ◌≡◌, true, false, length, arith, ◌==◌}
use ts_rust.Scc.{Graph, Search, unvisited, visit}
use ts_rust.Scc.Unseen.{unseen-update}
use ts_rust.Scc.Counted.{Counted, HasNode, IsVisited, visit-Counted, visit-room}
use ts_rust.Scc.Linked.{Reaches, Linked, Edges, Emitted}
use ts_rust.Scc.Visit.{Visits, visit-Visits, visit-Linked, visit-Edges}
use ts_rust.Scc.Keeps.{Keeps, Ordered, degree, left, InRange}

module _ (dependencies : Graph) (few : length dependencies ≤ unvisited)
    (closed : InRange dependencies) where
  -- A node is visited for the first time.
  pub visit-Keeps :
      (s : Search) (node : ℕ) (Excused : ℕ → ℕ → Type 0)
      → Counted (length dependencies) s
      → Linked dependencies s
      → Edges dependencies Excused s
      → Emitted dependencies (λ n. 0) s.found
      → Ordered s.found
      → (s.order node == unvisited) ≡ true
      → node < length dependencies
      → ((f : ℕ) → HasNode s.frames f → Reaches dependencies f node)
      → ((x y : ℕ) → Excused x y → y ≡ node)
      → Keeps dependencies (visit s node)
        × (left dependencies (visit s node) ≡ left dependencies s)
        × ((n : ℕ) → IsVisited s n → IsVisited (visit s node) n)
  unfolding visit
  visit-Keeps s node Excused c l e emitted ordered new inside reach only = (
    record {
      counted = visit-Counted (length dependencies) s c few node new inside;
      linked = visit-Linked dependencies s (visit s node) node v l reach;
      edges = visit-Edges dependencies s (visit s node) node v l reach Excused e only;
      emitted = emitted;
      ordered = ordered;
    },
    omega (
      arith,
      unseen-update (λ n. suc (degree dependencies n)) s.order node s.next_order
          (length dependencies) inside new numbered,
    ),
    v.visited_old,
  )
    where
      v : Visits s (visit s node) node
      v = visit-Visits (length dependencies) s c few node new inside

      numbered : (s.next_order == unvisited) ≡ false
      numbered = ground (arith, visit-room (length dependencies) s c few node new inside)
