-- ===== src/Scc/Leaves.antt =====
-- A step that lowers a link, takes a frame off, or takes a component off the stack keeps the stack and
-- the numbers in order.
use ts_rust.Prelude.{
  ℕ, ◌<◌, ◌≤◌, ◌≡◌, ◌∙◌, sym, ap, List, arith, ltb, ◌==◌, Bool-cases, inl, inr, ==_iff,
}
use ts_rust.Scc.{Search, Frame, lower, emit, pop_until, clear_all, sort}
use ts_rust.Scc.Times.{
  times, times-flat, times-sort, times-pop_until, clear_all_lem, Falling, pop_until-Falling,
}
use ts_rust.Scc.Counted.{Counted, HasNode, FramesFall, OnStack, OnStack-times}

module _ (count : ℕ) (s : Search) (c : Counted count s) where
  pub reframe-Counted :
      (frames : List Frame)
      → ((f : ℕ) → HasNode frames f → OnStack s f)
      → FramesFall s.order frames
      → Counted count (record s { frames = frames })
  reframe-Counted frames nodes fall = record {
    once = c.once;
    flags = c.flags;
    fresh = c.fresh;
    outside = c.outside;
    falling = c.falling;
    nodes = nodes;
    frames_fall = fall;
    low = c.low;
    numbers = c.numbers;
  }

  pub lower-Counted : (node bound : ℕ) → Counted count (lower s node bound)
  lower-Counted node bound = record {
    once = c.once;
    flags = c.flags;
    fresh = c.fresh;
    outside = c.outside;
    falling = c.falling;
    nodes = c.nodes;
    frames_fall = c.frames_fall;
    low = λ n h. elim (Bool-cases (n == node)) [
      | inl q ↦
          let e = (==_iff n node).0 q in
          rw q (ground (arith, c.low n h, ap s.low_link e, ap s.order e))
      | inr q ↦ rw q (c.low n h)
    ];
    numbers = c.numbers;
  }

  -- The component of a node on the stack, with a larger number than the nodes of the frames.
  module _ (node : ℕ) (on : OnStack s node)
      (last : (f : ℕ) → HasNode s.frames f → s.order f < s.order node) where
    abbrev popped : List ℕ
    popped = (pop_until node s.stack).0

    abbrev rest : List ℕ
    rest = (pop_until node s.stack).1

    pub split :
        Falling s.order rest
        × ((x : ℕ) → 0 < times x s.stack → s.order node ≤ s.order x → times x rest ≡ 0)
        × ((x : ℕ) → s.order x < s.order node → times x popped ≡ 0)
    split = pop_until-Falling s.order node s.stack c.falling (OnStack-times count s c node on)

    pub popped-node : 0 < times node popped
    popped-node = omega (
      arith,
      times-pop_until node node s.stack,
      OnStack-times count s c node on,
      split.1 node (OnStack-times count s c node on) (omega arith),
    )

    flags-split : (n : ℕ) → clear_all s.on_stack popped n ≡ ltb 0 (times n rest)
    flags-split n =
        clear_all_lem s.on_stack popped n
        ∙ ground (arith, c.flags n, c.once n, times-pop_until n node s.stack)

    -- What stays on the stack has a smaller number than the node.
    pub emit-stays : (n : ℕ) → OnStack (emit s node) n → OnStack s n × (s.order n < s.order node)
    unfolding emit
    emit-stays n h = (
      ground (arith, c.flags n, times-pop_until n node s.stack, kept),
      ground (arith, split.1 n, times-pop_until n node s.stack, kept),
    )
      where
        kept : 0 < times n rest
        kept = ground (arith, sym (flags-split n) ∙ h)

    pub emit-keeps : (n : ℕ) → OnStack s n → s.order n < s.order node → OnStack (emit s node) n
    unfolding emit
    emit-keeps n h k =
        flags-split n
        ∙ ground (arith, OnStack-times count s c n h, times-pop_until n node s.stack, split.2 n k)

    pub emit-Counted : Counted count (emit s node)
    unfolding emit
    emit-Counted = record {
      once = λ n. omega (
        arith,
        c.once n,
        times-flat n s.found (sort popped),
        times-sort n popped,
        times-pop_until n node s.stack,
      );
      flags = flags-split;
      fresh = c.fresh;
      outside = c.outside;
      falling = split.0;
      nodes = λ f h. emit-keeps f (c.nodes f h) (last f h);
      frames_fall = c.frames_fall;
      low = λ n h. c.low n (emit-stays n h).0;
      numbers = c.numbers;
    }
