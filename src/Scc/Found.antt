-- ===== src/Scc/Found.antt =====
-- What `components` returns.
use ts_rust.Prelude.{
  ℕ, zero, suc, ◌+◌, ◌<◌, ◌≤◌, ◌≡◌, refl, subst, true, false, List, [], ◌∷◌, Option, some, length,
  arith, inl, inr, ◌==◌, ltb, if◌then◌else◌, Bool-cases, ==_iff,
}
use ts_rust.Scc.{Graph, Search, unvisited, start, visit, run, search, enough, components}
use ts_rust.Scc.Times.{times, flat}
use ts_rust.Scc.Unseen.{unseen}
use ts_rust.Scc.Counted.{HasNode, IsVisited}
use ts_rust.Scc.Linked.{Nothing, Emitted}
use ts_rust.Scc.Keeps.{Keeps, Ordered, degree, left, InRange}
use ts_rust.Scc.First.{visit-Keeps}
use ts_rust.Scc.Visit.{visit-Visits}
use ts_rust.Scc.Loop.{run_lem, off}

unseen-le :
    (weight order : ℕ → ℕ) (n : ℕ) → unseen weight order n ≤ unseen weight (λ x. unvisited) n
unfolding unseen
unseen-le weight order zero = omega arith
unseen-le weight order (suc n) = ground (arith, unseen-le weight order n)

unseen-shift :
    (weight : ℕ → ℕ) (n : ℕ)
    → unseen weight (λ x. unvisited) (suc n)
      ≡ weight 0 + unseen (λ k. weight (suc k)) (λ x. unvisited) n
unfolding unseen
unseen-shift weight zero = refl
unseen-shift weight (suc n) = omega (arith, unseen-shift weight n)

unseen_ones : (n : ℕ) → unseen (λ k. 1) (λ x. unvisited) n ≡ n
unfolding unseen
unseen_ones zero = refl
unseen_ones (suc n) = omega (arith, unseen_ones n)

weigh :
    (dependencies : Graph)
    → unseen (λ n. suc (degree dependencies n)) (λ x. unvisited) (length dependencies)
      < enough dependencies
unfolding enough
weigh [] = unfold unseen in omega arith
weigh (targets ∷ graph) =
    omega (arith, weigh graph, unseen-shift (λ n. suc (degree (targets ∷ graph) n)) (length graph))

start-Keeps : (dependencies : Graph) → Keeps dependencies start
start-Keeps dependencies = record {
  counted = record {
    once = λ n. refl;
    flags = λ n. refl;
    fresh = λ n h. absurd (clash h);
    outside = λ n h. refl;
    falling = tt;
    nodes = λ f h. absurd h;
    frames_fall = tt;
    low = λ n h. absurd (off_start h);
    numbers = omega (arith, unseen_ones (length dependencies));
  };
  linked = record {
    back = λ x h. absurd (off_start h);
    done = λ x h. absurd (off_start h);
    down = λ f x hf h k. absurd hf;
    least = λ g x hg h k. absurd hg;
  };
  edges = λ x k y h target. absurd (off_start h);
  emitted = tt;
  ordered = tt;
}
  where
    clash : (unvisited == unvisited) ≡ false → ⊥
    clash h = cc

    off_start : false ≡ true → ⊥
    off_start h = cc

-- The search returns with every node visited and nothing left to do.
abbrev Searches : Graph → Option Search → Type 0
Searches dependencies r =
    (t : Search) × (r ≡ some t)
    × Keeps dependencies t
    × (t.frames ≡ [])
    × ((n : ℕ) → n < length dependencies → IsVisited t n)

module _ (dependencies : Graph) (few : length dependencies ≤ unvisited)
    (closed : InRange dependencies) where
  -- One more node has been seen to.
  step_seen :
      (t : Search) (root : ℕ)
      → ((n : ℕ) → n < root → IsVisited t n)
      → IsVisited t root
      → (n : ℕ) → n < suc root
      → IsVisited t n
  step_seen t root old new n h = elim (Bool-cases (n == root)) [
    | inl q ↦ rw ((==_iff n root).0 q) new
    | inr q ↦ old n (ground arith)
  ]

  root_lem :
      (s : Search) (root : ℕ)
      → Keeps dependencies s
      → s.frames ≡ []
      → root < length dependencies
      → (s.order root == unvisited) ≡ true
      → ((n : ℕ) → n < root → IsVisited s n)
      → (t : Search) × (run dependencies (enough dependencies) (visit s root) ≡ some t)
        × Keeps dependencies t
        × (t.frames ≡ [])
        × ((n : ℕ) → n < suc root → IsVisited t n)
  root_lem s root keeps over inside new seen =
      let (k, e, old) =
        visit-Keeps dependencies few closed s root (Nothing dependencies) keeps.counted keeps.linked
          keeps.edges keeps.emitted keeps.ordered new inside
          (λ f h. absurd (subst (λ fs. HasNode fs f) over h)) (λ x y h. absurd h) in
      let (t, r, kt, ft, later) =
        run_lem dependencies few closed (enough dependencies) (visit s root) k (room e) in
      (
        t,
        r,
        kt,
        ft,
        step_seen t root (λ n h. later n (old n (seen n h)))
            (later root
              (visit-Visits (length dependencies) s keeps.counted few root new inside).visited_new),
      )
    where
      room :
          left dependencies (visit s root) ≡ left dependencies s
          → left dependencies (visit s root) < enough dependencies
      room e = omega (
        arith,
        e,
        left_lem,
        weigh dependencies,
        unseen-le (λ n. suc (degree dependencies n)) s.order (length dependencies),
      )
        where
          left_lem :
              left dependencies s
              ≡ unseen (λ n. suc (degree dependencies n)) s.order (length dependencies)
          left_lem = rw over (omega arith)

  search_lem :
      (todo root : ℕ) (s : Search)
      → Keeps dependencies s
      → s.frames ≡ []
      → root + todo ≡ length dependencies
      → ((n : ℕ) → n < root → IsVisited s n)
      → Searches dependencies (search dependencies (enough dependencies) root todo s)
  unfolding search
  search_lem zero root s keeps over at seen = (s, refl, keeps, over, λ n h. seen n (omega arith))
  search_lem (suc todo) root s keeps over at seen = elim (Bool-cases (s.order root == unvisited)) [
    | inl q ↦
        let (t, r, k, f, old) = root_lem s root keeps over (omega arith) q seen in
        rw (q, r) (search_lem todo (suc root) t k f (omega arith) old)
    | inr q ↦ rw q (search_lem todo (suc root) s keeps over (omega arith) (step_seen s root seen q))
  ]

  -- When the dependencies of each node are nodes, and there are at most 2^32 - 1 nodes, `components`
  -- returns, and of its components each has members, in ascending order; each node stands in exactly
  -- one of them and once, and nothing else does; all members of a component reach each other; and a
  -- dependency of a member stands in its component or in an earlier one.
  pub components_lem :
      (cs : List (List ℕ)) × (components dependencies ≡ some cs)
      × Ordered cs
      × ((n : ℕ) → times n (flat cs) ≡ (if ltb n (length dependencies) then 1 else 0))
      × Emitted dependencies (λ n. 0) cs
  unfolding components
  components_lem =
      let (t, r, k, over, seen) =
        search_lem (length dependencies) 0 start (start-Keeps dependencies) refl (omega arith)
          (λ n h. absurd (omega arith)) in
      rw r (t.found, refl, k.ordered, λ n. each t k over seen n, k.emitted)
    where
      each :
          (t : Search)
          → Keeps dependencies t
          → t.frames ≡ []
          → ((n : ℕ) → n < length dependencies → IsVisited t n)
          → (n : ℕ) → times n (flat t.found) ≡ (if ltb n (length dependencies) then 1 else 0)
      each t k over seen n = elim (Bool-cases (t.on_stack n)) [
        | inl q ↦ absurd (off dependencies t k over n q)
        | inr q ↦ ground (arith, k.counted.once n, k.counted.flags n, k.counted.outside n, seen n)
      ]
