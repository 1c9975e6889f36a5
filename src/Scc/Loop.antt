-- ===== src/Scc/Loop.antt =====
-- The loops of the search: over the frames of a root, and over the roots.
use ts_rust.Prelude.{
  ℕ, zero, suc, ◌<◌, ◌≤◌, ◌≡◌, refl, subst, List, [], ◌∷◌, Option, some, length, arith, inl, inr,
}
use ts_rust.Scc.{Graph, Search, Frame, unvisited, run_frames, run}
use ts_rust.Scc.Counted.{HasNode, OnStack, IsVisited}
use ts_rust.Scc.Keeps.{Keeps, left, InRange}
use ts_rust.Scc.Step.{round_step}

-- A loop returns, with no frame left, and what was visited stays so.
abbrev pub Runs : Graph → Search → Option Search → Type 0
Runs dependencies s r =
    (t : Search) × (r ≡ some t)
    × Keeps dependencies t
    × (t.frames ≡ [])
    × ((n : ℕ) → IsVisited s n → IsVisited t n)

module _ (dependencies : Graph) (few : length dependencies ≤ unvisited)
    (closed : InRange dependencies) where
  at_frames :
      (rec : Search → Option Search) (fuel : ℕ) (s : Search) (frames : List Frame)
      → s.frames ≡ frames
      → Keeps dependencies s
      → left dependencies s < suc fuel
      → ((t : Search)
          → Keeps dependencies t
          → left dependencies t < fuel
          → Runs dependencies t (rec t))
      → Runs dependencies s (run_frames dependencies rec s frames)
  at_frames rec fuel s [] framed keeps h next = (s, refl, keeps, framed, λ n k. k)
  at_frames rec fuel s ((node, i) ∷ rest) framed keeps h next =
      let (t, e, k, less, old) = round_step dependencies few closed s node i rest framed keeps in
      let (u, f, ku, fu, later) = next t k (omega arith) in
      rw e (u, f, ku, fu, λ n v. later n (old n v))

  pub run_lem :
      (fuel : ℕ) (s : Search)
      → Keeps dependencies s
      → left dependencies s < fuel
      → Runs dependencies s (run dependencies fuel s)
  unfolding run
  run_lem zero s keeps h = absurd (omega arith)
  run_lem (suc fuel) s keeps h =
      at_frames (run dependencies fuel) fuel s s.frames refl keeps h
        (λ t k less. run_lem fuel t k less)

-- Without frames, nothing is on the stack.
module _ (dependencies : Graph) (s : Search) (keeps : Keeps dependencies s)
    (over : s.frames ≡ []) where
  open keeps use {linked}

  off_below : (bound x : ℕ) → OnStack s x → s.order x < bound → ⊥
  off_below zero x h lt = omega arith
  off_below (suc bound) x h lt = elim (linked.done x h) [
    | inl k ↦ absurd (subst (λ fs. HasNode fs x) over k)
    | inr less ↦ let (y, oy, ey, r) = linked.back x h in off_below bound y oy (omega (arith, ey))
  ]

  pub off : (x : ℕ) → OnStack s x → ⊥
  off x h = off_below (suc (s.order x)) x h (omega arith)
