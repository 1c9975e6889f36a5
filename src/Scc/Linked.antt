-- ===== src/Scc/Linked.antt =====
-- What every round of the search keeps, about the links and the dependencies that were looked at.
use ts_rust.Prelude.{ℕ, ◌+◌, ◌<◌, ◌≤◌, ◌≡◌, List, [], ◌∷◌, Option, none, some, get_elem?, ◌⊎◌}
use ts_rust.Scc.{Graph, Search, Frame}
use ts_rust.Scc.Times.{times}
use ts_rust.Scc.Counted.{HasNode, OnStack, IsVisited}

abbrev pub or_empty {ℓ} : {A : Type ℓ} → Option (List A) → List A
or_empty none = []
or_empty (some targets) = targets

-- `dependencies[x][k]` is `y`.
abbrev pub IsTarget : Graph → ℕ → ℕ → ℕ → Type 0
IsTarget dependencies x k y = get_elem? (or_empty (get_elem? dependencies x)) k ≡ some y

pub data Reaches (dependencies : Graph) (x : ℕ) : ℕ → Type 0 where
  here : Reaches dependencies x x
  onward :
      (y z k : ℕ)
      → Reaches dependencies x y
      → IsTarget dependencies y k z
      → Reaches dependencies x z

pub Reaches-trans :
    (dependencies : Graph) {x y z : ℕ}
    → Reaches dependencies x y
    → Reaches dependencies y z
    → Reaches dependencies x z
Reaches-trans dependencies r here = r
Reaches-trans dependencies r (onward y z k q t) = onward y z k (Reaches-trans dependencies r q) t

-- Some frame of the node has looked at `i` dependencies.
abbrev pub IsFrame : List Frame → ℕ → ℕ → Type 0
IsFrame [] f i = ⊥
IsFrame ((g, j) ∷ rest) f i = ((g ≡ f) × (j ≡ i)) ⊎ IsFrame rest f i

-- A frame from `g` on has a link that is `v` or lower.
abbrev pub LowUpTo : Search → ℕ → ℕ → Type 0
LowUpTo s g v = (f : ℕ) × HasNode s.frames f × (s.order g ≤ s.order f) × (s.low_link f ≤ v)

module _ (dependencies : Graph) where
  pub record Linked (s : Search) : Type 0 where
    -- A link is the number of a node on the stack that can be reached.
    pub back :
        (x : ℕ)
        → OnStack s x
        → (y : ℕ) × OnStack s y × (s.order y ≡ s.low_link x) × Reaches dependencies x y
    -- A node without a frame has a link to a smaller number.
    pub done : (x : ℕ) → OnStack s x → HasNode s.frames x ⊎ (s.low_link x < s.order x)
    -- The node of a frame reaches what was visited after it.
    pub down :
        (f x : ℕ)
        → HasNode s.frames f
        → OnStack s x
        → s.order f ≤ s.order x
        → Reaches dependencies f x
    -- A link that was found after a frame is known to a frame from it on.
    pub least :
        (g x : ℕ)
        → HasNode s.frames g
        → OnStack s x
        → s.order g ≤ s.order x
        → LowUpTo s g (s.low_link x)

  -- Dependency `k` of `x` is still to be looked at.
  abbrev pub IsPending : List Frame → ℕ → ℕ → Type 0
  IsPending frames x k = (i : ℕ) × IsFrame frames x i × (i ≤ k)

  -- A target that was looked at was visited, and if it is on the stack then its number is known to
  -- the frames.
  abbrev pub IsKnown : Search → ℕ → ℕ → Type 0
  IsKnown s x y =
      IsVisited s y
      × (OnStack s y
          → (g : ℕ) → HasNode s.frames g
          → s.order g ≤ s.order x
          → LowUpTo s g (s.order y))

  -- Each dependency of the stack is pending, or excused, or known.
  abbrev pub Edges : (ℕ → ℕ → Type 0) → Search → Type 0
  Edges Excused s =
      (x k y : ℕ)
      → OnStack s x
      → IsTarget dependencies x k y
      → IsPending s.frames x k ⊎ (Excused x y ⊎ IsKnown s x y)

  -- Each component depends on itself and those before it, and all its nodes reach each other.
  abbrev pub Emitted : (ℕ → ℕ) → List (List ℕ) → Type 0
  Emitted before [] = Unit
  Emitted before (c ∷ cs) =
      ((x k y : ℕ) → 0 < times x c → IsTarget dependencies x k y → 0 < before y + times y c)
      × ((x y : ℕ) → 0 < times x c → 0 < times y c → Reaches dependencies x y)
      × Emitted (λ n. before n + times n c) cs

  abbrev pub Nothing : ℕ → ℕ → Type 0
  Nothing x y = ⊥
