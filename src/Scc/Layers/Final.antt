-- ===== src/Scc/Layers/Final.antt =====
-- What `layers` returns.
use ts_rust.Prelude.{
  ℕ, suc, ◌+◌, ◌<◌, ◌≤◌, ◌≡◌, refl, sym, ap, ◌&&◌, List, [], ◌∷◌, some, length, arith, ◌⊎◌, ◌==◌,
  ltb, if◌then◌else◌, inl, inr, ⊎_elim,
}
use ts_rust.Scc.{Graph, unvisited, components}
use ts_rust.Scc.Times.{times}
use ts_rust.Scc.Linked.{IsTarget, Reaches}
use ts_rust.Scc.Keeps.{InRange, Ascends}
use ts_rust.Scc.Layers.{component_of, layers, sort_all}
use ts_rust.Scc.Layers.Ordering.{IsNumbered, Numbers, numbers_lem}
use ts_rust.Scc.Layers.Placed.{layer, sort_all_lem}
use ts_rust.Scc.Layers.Fill.{Filled, fill_lem}

-- Each node stands once, in the layer of its level; a dependency has a lower level, or the same one and
-- reaches back; and a level above the lowest has a reason: a node that reaches and is reached has a
-- dependency that is one level down.
pub record IsLayered (dependencies : Graph) (level : ℕ → ℕ) (result : List (List ℕ)) : Type 0 where
  pub stands :
      (n i : ℕ)
      → times n (layer result i) ≡ (if ltb n (length dependencies) && level n == i then 1 else 0)
  pub ascends : (i : ℕ) → Ascends (layer result i)
  pub above :
      (x k y : ℕ)
      → x < length dependencies
      → IsTarget dependencies x k y
      → (level y < level x) ⊎ ((level y ≡ level x) × Reaches dependencies y x)
  pub reason :
      (x : ℕ)
      → x < length dependencies
      → (level x ≡ 0)
        ⊎ ((z : ℕ) × (k : ℕ) × (y : ℕ) × Reaches dependencies x z
            × Reaches dependencies z x
            × IsTarget dependencies z k y
            × (level x ≡ suc (level y)))

of-lt :
    (count : ℕ) (of : ℕ → ℕ) (place : ℕ) (cs : List (List ℕ))
    → IsNumbered count of place cs
    → (n : ℕ) → n < count
    → of n < place + length cs
of-lt count of place [] numbered n h = omega (arith, numbered n h)
of-lt count of place (c ∷ cs) (mine, numbered) n h =
    omega (arith, of-lt count of (suc place) cs numbered n h)

layered_lem :
    (dependencies : Graph) (closed : InRange dependencies) (cs : List (List ℕ)) (of depth : ℕ → ℕ)
    (result : List (List ℕ))
    → Numbers dependencies of cs
    → Filled dependencies of closed (length cs) depth result
    → IsLayered dependencies (λ n. depth (of n)) (sort_all result)
layered_lem dependencies closed cs of depth result numbers filled = record {
  stands = λ n i. ground (arith, (sort_all_lem result i).1 n, filled.stands n i, placed n);
  ascends = λ i. (sort_all_lem result i).0;
  above = λ x k y h target.
      ⊎_elim (λ e. inr (ap depth e, numbers.mutual_reach y x (closed x k y target) h e))
        (λ m. inl m) (filled.above x k y h (placed x h) target);
  reason = λ x h.
      ⊎_elim (λ z. inl z)
        (λ (z, k, y, hz, e, t, f).
          inr
            (z, k, y, numbers.mutual_reach x z h hz (sym e), numbers.mutual_reach z x hz h e, t, f))
        (filled.reason (of x) (placed x h));
}
  where
    placed : (n : ℕ) → n < length dependencies → of n < length cs
    placed n h = omega (arith, of-lt (length dependencies) of 0 cs numbers.numbered n h)

module _ (dependencies : Graph) (few : length dependencies ≤ unvisited)
    (closed : InRange dependencies) where
  pub layers_all :
      (cs : List (List ℕ)) × (components dependencies ≡ some cs)
      × ((of : ℕ → ℕ) × (component_of (length dependencies) cs ≡ some of)
          × Numbers dependencies of cs)
      × ((result : List (List ℕ)) × (layers dependencies cs ≡ some result)
          × ((level : ℕ → ℕ) × IsLayered dependencies level result))
  unfolding layers
  layers_all =
      let (cs, e, (of, o, numbers, fits)) = numbers_lem dependencies few closed in
      let (depth, result, f, filled) =
        fill_lem dependencies of closed numbers.up (length cs) (omega (arith, fits)) 0 cs (λ p. 0)
          [] (omega arith) numbers.numbered nothing in
      (
        cs,
        e,
        (of, o, numbers),
        rw (o, f)
            (
              sort_all result,
              refl,
              (
                (λ n. depth (of n)),
                layered_lem dependencies closed cs of depth result numbers filled,
              ),
            ),
      )
    where
      nothing : {of : ℕ → ℕ} → Filled dependencies of closed 0 (λ p. 0) []
      nothing = record {
        stands = λ n i. ground arith;
        small = λ p h. absurd (omega arith);
        above = λ x k y h lt target. absurd (omega arith);
        reason = λ p h. absurd (omega arith);
      }

  -- When the dependencies of each node are nodes, and there are at most 2^32 - 1 nodes, `components` and
  -- `layers` on its result return, and the layers are those of some levels of the nodes: each node
  -- stands once, in the layer of its level, nothing else stands in a layer, and each layer ascends; a
  -- dependency has a lower level, or the same level and reaches the node that depends on it; and a node
  -- of a level above 0 has a level that is one more than that of a dependency of a node that it reaches
  -- and that reaches it.
  pub layers_lem :
      (cs : List (List ℕ)) × (components dependencies ≡ some cs)
      × ((result : List (List ℕ)) × (layers dependencies cs ≡ some result)
          × ((level : ℕ → ℕ) × IsLayered dependencies level result))
  layers_lem = let (cs, e, numbered, layered) = layers_all in (cs, e, layered)
