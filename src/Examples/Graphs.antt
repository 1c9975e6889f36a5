-- ===== src/Examples/Graphs.antt =====
-- Examples for src/scc.rs: a ring with a tail and a node on its own.
use ts_rust.Prelude.{
  ℕ, zero, suc, ◌<◌, ◌≤◌, ◌≡◌, ◌↔◌, refl, subst, List, [], ◌∷◌, none, some, length, arith,
  get_elem?, All, ltb, if◌then◌else◌,
}
use ts_rust.Scc.{Graph, components}
use ts_rust.Scc.Times.{times, flat}
use ts_rust.Scc.Linked.{IsTarget, Reaches, Emitted}
use ts_rust.Scc.Keeps.{Ordered, InRange}
use ts_rust.Scc.Found.{components_lem}
use ts_rust.Scc.Layers.{component_of, layers}
use ts_rust.Scc.Layers.Ordering.{component_of-components}
use ts_rust.Scc.Layers.Final.{IsLayered, layers_lem}

-- Node 3 depends on the ring of 0, 1 and 2, and node 4 on nothing.
abbrev ring : Graph
ring = (1 ∷ []) ∷ (2 ∷ 1 ∷ []) ∷ (0 ∷ 4 ∷ []) ∷ (3 ∷ 0 ∷ []) ∷ [] ∷ []

abbrev ring_components : List (List ℕ)
ring_components = (4 ∷ []) ∷ (0 ∷ 1 ∷ 2 ∷ []) ∷ (3 ∷ []) ∷ []

components_of_ring : components ring ≡ some ring_components
unfolding components
components_of_ring = refl

layers_of_ring : layers ring ring_components ≡ some ((4 ∷ []) ∷ (0 ∷ 1 ∷ 2 ∷ []) ∷ (3 ∷ []) ∷ [])
unfolding layers
layers_of_ring = refl

no_element {ℓ} : {A : Type ℓ} {a : A} → none ≡ some a → ⊥
no_element h = cc

some_inj {ℓ} : {A : Type ℓ} {a b : A} → some a ≡ some b → a ≡ b
some_inj h = cc

All-get_elem? {ℓ κ} :
    {A : Type ℓ} (P : A → Type κ) (xs : List A) (i : ℕ) {a : A}
    → All P xs
    → get_elem? xs i ≡ some a
    → P a
All-get_elem? P [] i all h = absurd (no_element h)
All-get_elem? P (x ∷ xs) zero (p, all) h = subst P (some_inj h) p
All-get_elem? P (x ∷ xs) (suc i) (p, all) h = All-get_elem? P xs i all h

All-targets :
    (bound : ℕ) (graph : Graph)
    → All (All (λ y. y < bound)) graph
    → (x k y : ℕ) → IsTarget graph x k y
    → y < bound
All-targets bound [] all x k y h = absurd (no_element h)
All-targets bound (targets ∷ graph) (here, all) zero k y h =
    All-get_elem? (λ y. y < bound) targets k here h
All-targets bound (targets ∷ graph) (here, all) (suc x) k y h = All-targets bound graph all x k y h

ring-InRange : InRange ring
ring-InRange = All-targets 5 ring (ground arith)

components_lem_example :
    (cs : List (List ℕ)) × (components ring ≡ some cs)
    × Ordered cs
    × ((n : ℕ) → times n (flat cs) ≡ (if ltb n (length ring) then 1 else 0))
    × Emitted ring (λ n. 0) cs
components_lem_example = components_lem ring (omega arith) ring-InRange

component_of-components_example :
    (cs : List (List ℕ)) × (components ring ≡ some cs)
    × ((of : ℕ → ℕ) × (component_of (length ring) cs ≡ some of)
        × ((x y : ℕ)
            → x < length ring
            → y < length ring
            → (of x ≡ of y) ↔ (Reaches ring x y × Reaches ring y x))
        × ((x k y : ℕ) → x < length ring → IsTarget ring x k y → of y ≤ of x))
component_of-components_example = component_of-components ring (omega arith) ring-InRange

layers_lem_example :
    (cs : List (List ℕ)) × (components ring ≡ some cs)
    × ((result : List (List ℕ)) × (layers ring cs ≡ some result)
        × ((level : ℕ → ℕ) × IsLayered ring level result))
layers_lem_example = layers_lem ring (omega arith) ring-InRange
