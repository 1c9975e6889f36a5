-- ===== src/Scc/Counted.antt =====
-- What every round of the search keeps, about the stack and the numbers.
use ts_rust.Prelude.{
  ℕ, suc, ◌+◌, ◌<◌, ◌≤◌, ◌%◌, ◌^◌, ◌≡◌, refl, subst, true, false, List, [], ◌∷◌, arith, ltb, ◌==◌,
  if◌then◌else◌, Bool-cases, inl, inr, ◌⊎◌, ⊎_elim, ==_iff, eq_refl,
}
use ts_rust.Scc.{Search, Frame, update, unvisited, visit}
use ts_rust.Scc.Times.{times, flat, Falling}
use ts_rust.Scc.Unseen.{unseen, unseen-update}

-- Some frame is the node's.
abbrev pub HasNode : List Frame → ℕ → Type 0
HasNode [] f = ⊥
HasNode ((g, j) ∷ rest) f = (g ≡ f) ⊎ HasNode rest f

-- The nodes of the frames have ever smaller numbers.
abbrev pub FramesFall : (ℕ → ℕ) → List Frame → Type 0
FramesFall order [] = Unit
FramesFall order ((g, j) ∷ rest) =
    ((f : ℕ) → HasNode rest f → order f < order g) × FramesFall order rest

abbrev pub IsVisited : Search → ℕ → Type 0
IsVisited s n = (s.order n == unvisited) ≡ false

abbrev pub OnStack : Search → ℕ → Type 0
OnStack s n = s.on_stack n ≡ true

-- A node that is visited is on the stack or in one component, and once.
pub record Counted (count : ℕ) (s : Search) : Type 0 where
  pub once :
      (n : ℕ) → times n s.stack + times n (flat s.found) ≡ (if s.order n == unvisited then 0 else 1)
  pub flags : (n : ℕ) → s.on_stack n ≡ ltb 0 (times n s.stack)
  pub fresh : (n : ℕ) → IsVisited s n → s.order n < s.next_order
  pub outside : (n : ℕ) → count ≤ n → (s.order n == unvisited) ≡ true
  pub falling : Falling s.order s.stack
  pub nodes : (f : ℕ) → HasNode s.frames f → OnStack s f
  pub frames_fall : FramesFall s.order s.frames
  pub low : (n : ℕ) → OnStack s n → s.low_link n ≤ s.order n
  pub numbers : s.next_order + unseen (λ n. 1) s.order count ≡ count

module _ (count : ℕ) (s : Search) (c : Counted count s) where
  pub OnStack-times : (n : ℕ) → OnStack s n → 0 < times n s.stack
  OnStack-times n h = ground (arith, c.flags n)

  pub times-OnStack : (n : ℕ) → 0 < times n s.stack → OnStack s n
  times-OnStack n h = ground (arith, c.flags n)

  pub OnStack-IsVisited : (n : ℕ) → OnStack s n → IsVisited s n
  OnStack-IsVisited n h = ground (arith, c.flags n, c.once n)

Falling-agree :
    (order order' : ℕ → ℕ) (stack : List ℕ)
    → ((x : ℕ) → 0 < times x stack → order' x ≡ order x)
    → Falling order stack
    → Falling order' stack
Falling-agree order order' [] h f = tt
Falling-agree order order' (m ∷ stack) h (below, f) = (
  λ x k. omega (arith, below x k, h x (ground arith), h m (ground (arith, eq_refl m))),
  Falling-agree order order' stack (λ x k. h x (ground arith)) f,
)

FramesFall-agree :
    (order order' : ℕ → ℕ) (frames : List Frame)
    → ((f : ℕ) → HasNode frames f → order' f ≡ order f)
    → FramesFall order frames
    → FramesFall order' frames
FramesFall-agree order order' [] h f = tt
FramesFall-agree order order' ((g, j) ∷ rest) h (below, f) = (
  λ x k. omega (arith, below x k, h x (inr k), h g (inl refl)),
  FramesFall-agree order order' rest (λ x k. h x (inr k)) f,
)

-- The first visit of a node.
module _ (count : ℕ) (s : Search) (c : Counted count s) (few : count ≤ unvisited) (node : ℕ)
    (new : (s.order node == unvisited) ≡ true) (inside : node < count) where
  pub visit-room : s.next_order < count
  visit-room = omega (arith, c.numbers, unseen-update (λ n. 1) s.order node 0 count inside new refl)

  numbered : (s.next_order == unvisited) ≡ false
  numbered = ground (arith, visit-room)

  counted_on : (s.next_order + 1) % 2 ^ 32 ≡ suc s.next_order
  counted_on = omega (arith, visit-room)

  pub new-absent : times node s.stack ≡ 0
  new-absent = ground (arith, c.once node)

  -- Other nodes keep their numbers.
  pub visit-other : (n : ℕ) → 0 < times n s.stack → (n == node) ≡ false
  visit-other n h = elim (Bool-cases (n == node)) [
    | inl q ↦
        absurd (omega (arith, new-absent, subst (λ i. 0 < times i s.stack) ((==_iff n node).0 q) h))
    | inr q ↦ q
  ]

  pub visit-Counted : Counted count (visit s node)
  unfolding visit
  visit-Counted = record {
    once = λ n. elim (Bool-cases (n == node)) [
      | inl q ↦ rw ((==_iff n node).0 q, eq_refl node, numbered) (ground (arith, c.once node))
      | inr q ↦ rw q (ground (arith, c.once n))
    ];
    flags = λ n. elim (Bool-cases (n == node)) [
      | inl q ↦ rw ((==_iff n node).0 q, eq_refl node) (ground arith)
      | inr q ↦ rw q (ground (arith, c.flags n))
    ];
    fresh = λ n. elim (Bool-cases (n == node)) [
      | inl q ↦ rw (q, counted_on) (λ h. omega arith)
      | inr q ↦ rw (q, counted_on) (λ h. omega (arith, c.fresh n h))
    ];
    outside = λ n h. elim (Bool-cases (n == node)) [
      | inl q ↦ absurd (omega (arith, (==_iff n node).0 q))
      | inr q ↦ rw q (c.outside n h)
    ];
    falling = (
      λ x h.
          rw (visit-other x h, eq_refl node)
            (c.fresh x (OnStack-IsVisited count s c x (times-OnStack count s c x h))),
      Falling-agree s.order (update s.order node s.next_order) s.stack
          (λ x h. rw (visit-other x h) refl) c.falling,
    );
    nodes = λ f h.
        ⊎_elim (λ e. rw (← e, eq_refl node) refl) (λ k. rw (frame_other f k) (c.nodes f k)) h;
    frames_fall = (
      λ f h.
          rw (frame_other f h, eq_refl node)
            (c.fresh f (OnStack-IsVisited count s c f (c.nodes f h))),
      FramesFall-agree s.order (update s.order node s.next_order) s.frames
          (λ f h. rw (frame_other f h) refl) c.frames_fall,
    );
    low = λ n. elim (Bool-cases (n == node)) [
      | inl q ↦ rw q (λ h. omega arith)
      | inr q ↦ rw q (λ h. c.low n h)
    ];
    numbers = rw counted_on (
        omega (
          arith,
          c.numbers,
          unseen-update (λ n. 1) s.order node s.next_order count inside new numbered,
        ));
  }
    where
      frame_other : (f : ℕ) → HasNode s.frames f → (f == node) ≡ false
      frame_other f h = visit-other f (OnStack-times count s c f (c.nodes f h))
