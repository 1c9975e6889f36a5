-- ===== src/Scc/Layers/Ordering.antt =====
-- The numbers of the components, and who reaches whom.
use ts_rust.Prelude.{
  ℕ, suc, ◌+◌, ◌<◌, ◌≤◌, ◌≡◌, ◌↔◌, sym, ◌&&◌, List, [], ◌∷◌, some, length, arith, ◌==◌, ltb, leb,
  if◌then◌else◌, ⊎_elim,
}
use ts_rust.Scc.{Graph, unvisited, components}
use ts_rust.Scc.Times.{times, flat, times-append}
use ts_rust.Scc.Linked.{IsTarget, Reaches, here, onward}
use ts_rust.Scc.Keeps.{Ordered, InRange}
use ts_rust.Scc.Found.{components_lem}
use ts_rust.Scc.Layers.{component_of}
use ts_rust.Scc.Layers.Position.{position, Emitted-position, Emitted-reach, length-split}
use ts_rust.Scc.Layers.Numbered.{component_of_lem}

-- Each of the components, from number `place` on, has the nodes below `count` with its number.
abbrev pub IsNumbered : ℕ → (ℕ → ℕ) → ℕ → List (List ℕ) → Type 0
IsNumbered count of place [] = (n : ℕ) → n < count → of n < place
IsNumbered count of place (c ∷ cs) =
    ((n : ℕ) → times n c ≡ (if ltb n count && of n == place then 1 else 0))
    × IsNumbered count of (suc place) cs

numbered_lem :
    (count : ℕ) (of : ℕ → ℕ) (place : ℕ) (cs : List (List ℕ))
    → ((n : ℕ) → times n (flat cs) ≡ (if ltb n count && leb place (of n) then 1 else 0))
    → ((n : ℕ) → n < count → place ≤ of n → of n ≡ place + position n cs)
    → IsNumbered count of place cs
numbered_lem count of place [] once at = λ n h. ground (arith, once n)
numbered_lem count of place (c ∷ cs) once at = (
  λ n. ground (arith, once n, at n, times-append n c (flat cs)),
  numbered_lem count of (suc place) cs
      (λ n. ground (arith, once n, at n, times-append n c (flat cs)))
      (λ n h k. ground (arith, once n, at n h (omega arith), times-append n c (flat cs))),
)

-- The numbers go up along the dependencies, and are equal for nodes that reach each other.
pub record Numbers (dependencies : Graph) (of : ℕ → ℕ) (cs : List (List ℕ)) : Type 0 where
  pub numbered : IsNumbered (length dependencies) of 0 cs
  pub ordered : Ordered cs
  pub up : (x k y : ℕ) → x < length dependencies → IsTarget dependencies x k y → of y ≤ of x
  pub mutual_reach :
      (x y : ℕ)
      → x < length dependencies
      → y < length dependencies
      → of x ≡ of y
      → Reaches dependencies x y

reach-le :
    (dependencies : Graph) (of : ℕ → ℕ) (cs : List (List ℕ))
    → InRange dependencies
    → Numbers dependencies of cs
    → (x y : ℕ) → x < length dependencies
    → Reaches dependencies x y
    → (y < length dependencies) × (of y ≤ of x)
reach-le dependencies of cs closed numbers x y h here = (h, omega arith)
reach-le dependencies of cs closed numbers x y h (onward z y' k r target) =
    let (inside, le) = reach-le dependencies of cs closed numbers x z h r in
    (closed z k y target, omega (arith, le, numbers.up z k y inside target))

pub same_iff :
    (dependencies : Graph) (of : ℕ → ℕ) (cs : List (List ℕ))
    → InRange dependencies
    → Numbers dependencies of cs
    → (x y : ℕ) → x < length dependencies
    → y < length dependencies
    → (of x ≡ of y) ↔ (Reaches dependencies x y × Reaches dependencies y x)
same_iff dependencies of cs closed numbers x y hx hy = (
  λ same. (numbers.mutual_reach x y hx hy same, numbers.mutual_reach y x hy hx (sym same)),
  λ (to, back). omega (
    arith,
    (reach-le dependencies of cs closed numbers x y hx to).1,
    (reach-le dependencies of cs closed numbers y x hy back).1,
  ),
)

module _ (dependencies : Graph) (few : length dependencies ≤ unvisited)
    (closed : InRange dependencies) where
  pub numbers_lem :
      (cs : List (List ℕ)) × (components dependencies ≡ some cs)
      × ((of : ℕ → ℕ) × (component_of (length dependencies) cs ≡ some of)
          × Numbers dependencies of cs
          × (length cs ≤ length dependencies))
  numbers_lem =
      let (cs, e, ordered, split, emitted) = components_lem dependencies few closed in
      let fits = length-split (length dependencies) cs ordered split in
      let (of, o, at) = component_of_lem (length dependencies) cs (omega (arith, fits)) split in
      (
        cs,
        e,
        (
          of,
          o,
          record {
            ordered = ordered;
            numbered =
                numbered_lem (length dependencies) of 0 cs (λ n. ground (arith, split n))
                  (λ n h k. omega (arith, at n h));
            up = λ x k y h target.
                ⊎_elim (λ m. absurd (omega arith))
                  (λ (hy, le). omega (arith, at x h, at y (closed x k y target)))
                  (Emitted-position dependencies (λ n. 0) cs x k y emitted (ground (arith, split x))
                    target);
            mutual_reach = λ x y hx hy same.
                Emitted-reach dependencies (λ n. 0) cs x y emitted (ground (arith, split x))
                  (ground (arith, split y)) (omega (arith, at x hx, at y hy));
          },
          fits,
        ),
      )

  -- When the dependencies of each node are nodes, and there are at most 2^32 - 1 nodes, `components` and
  -- `component_of` on its result return; two nodes have the same number just when each reaches the
  -- other, and no dependency has a larger number than the node.
  pub component_of-components :
      (cs : List (List ℕ)) × (components dependencies ≡ some cs)
      × ((of : ℕ → ℕ) × (component_of (length dependencies) cs ≡ some of)
          × ((x y : ℕ)
              → x < length dependencies
              → y < length dependencies
              → (of x ≡ of y) ↔ (Reaches dependencies x y × Reaches dependencies y x))
          × ((x k y : ℕ) → x < length dependencies → IsTarget dependencies x k y → of y ≤ of x))
  component_of-components =
      let (cs, e, (of, o, numbers, fits)) = numbers_lem in
      (cs, e, (of, o, same_iff dependencies of cs closed numbers, numbers.up))
