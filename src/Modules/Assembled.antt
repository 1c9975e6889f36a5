-- ===== src/Modules/Assembled.antt =====
-- What `assemble` makes of the edges.
use ts_rust.Prelude.{
  ℕ, zero, suc, ◌+◌, ◌^◌, ◌<◌, ◌≤◌, ◌≡◌, ◌↔◌, refl, ◌∙◌, ap, Bool, List, [], ◌∷◌, none, some,
  length, arith, ltb, ◌==◌, ◌&&◌, map, get_elem?, if◌then◌else◌, Bool-cases, inl, inr, ==_iff, All,
}
use ts_rust.Scc.{Graph, unvisited}
use ts_rust.Scc.Times.{times}
use ts_rust.Scc.Linked.{Reaches}
use ts_rust.Scc.Keeps.{Ascends, Ordered, InRange}
use ts_rust.Scc.Layers.Ordering.{IsNumbered, same_iff}
use ts_rust.Scc.Layers.Placed.{layer}
use ts_rust.Scc.Layers.Final.{IsLayered, layers_all}
use ts_rust.Modules.{ModuleEdge, ModuleGraph, resolved, targets_of, empty_rows, assemble}
use ts_rust.Modules.Sorted.{targets_of_lem}
use ts_rust.Modules.Linked.{RowsUpTo, link_lem}
use ts_rust.Modules.Rows.{
  edges_of, IsResolved, Imports, resolved_iff, Imports-lt, layer-map, length-map, length-empty_rows,
  layer-empty_rows, file_id_rows_lem, times-get,
}

-- What the graph of the edges promises.
pub record Assembled {Files State Root : Type 0} (edges : List (List ModuleEdge))
    (g : ModuleGraph Files State Root) : Type 0 where
  pub edges_kept : g.edges ≡ edges
  pub imports : (x y : ℕ) → (0 < times y (layer g.dependencies x)) ↔ Imports (edges_of edges x) y
  pub inside : (x y : ℕ) → 0 < times y (layer g.dependencies x) → y < length edges
  pub once : (x y : ℕ) → times y (layer g.dependencies x) ≤ 1
  pub reverse : (x y : ℕ) → times x (layer g.dependents y) ≡ times y (layer g.dependencies x)
  pub ascends : (x : ℕ) → Ascends (layer g.dependencies x) × Ascends (layer g.dependents x)
  pub in_scc :
      (n i : ℕ)
      → times n (layer g.sccs i) ≡ (if ltb n (length edges) && g.scc_of n == i then 1 else 0)
  pub same_scc :
      (x y : ℕ)
      → x < length edges
      → y < length edges
      → (g.scc_of x ≡ g.scc_of y) ↔ (Reaches g.dependencies x y × Reaches g.dependencies y x)
  pub up :
      (x y : ℕ) → x < length edges → 0 < times y (layer g.dependencies x) → g.scc_of y ≤ g.scc_of x
  pub ordered : Ordered g.sccs
  pub layered : (level : ℕ → ℕ) × IsLayered g.dependencies level g.layers

numbered-stands :
    (count : ℕ) (of : ℕ → ℕ) (place : ℕ) (cs : List (List ℕ))
    → IsNumbered count of place cs
    → (n i : ℕ) → times n (layer cs i) ≡ (if ltb n count && of n == place + i then 1 else 0)
numbered-stands count of place [] numbered n i = ground (arith, numbered n)
numbered-stands count of place (c ∷ cs) (mine, numbered) n zero = ground (arith, mine n)
numbered-stands count of place (c ∷ cs) (mine, numbered) n (suc i) =
    ground (arith, numbered-stands count of (suc place) cs numbered n i)

All-row :
    (edges : List (List ModuleEdge)) (P : ModuleEdge → Type 0) (x : ℕ)
    → All (All P) edges
    → All P (edges_of edges x)
All-row [] P x all = tt
All-row (e ∷ edges) P zero (here, all) = here
All-row (e ∷ edges) P (suc x) (here, all) = All-row edges P x all

pub get-times : (xs : List ℕ) (y : ℕ) → 0 < times y xs → (k : ℕ) × (get_elem? xs k ≡ some y)
get-times [] y h = absurd (omega arith)
get-times (x ∷ xs) y h = elim (Bool-cases (x == y)) [
  | inl q ↦ (0, ap some ((==_iff x y).0 q))
  | inr q ↦ let (k, e) = get-times xs y (rw q at h) in (suc k, e)
]

module _ (edges : List (List ModuleEdge)) (closed : IsResolved edges)
    (few : length edges ≤ unvisited) where
  abbrev dependencies : Graph
  dependencies = map targets_of edges

  target_iff : (x y : ℕ) → (0 < times y (layer dependencies x)) ↔ Imports (edges_of edges x) y
  target_iff x y = (
    (λ h. (resolved_iff (edges_of edges x) y).0 (ground (arith, row))),
    λ h. let k = (resolved_iff (edges_of edges x) y).1 h in ground (arith, row),
  )
    where
      row :
          times y (layer dependencies x)
          ≡ (if ltb 0 (times y (resolved (edges_of edges x))) then 1 else 0)
      row = ap (times y) (layer-map edges x) ∙ (targets_of_lem (edges_of edges x)).1 y

  target-lt : (x y : ℕ) → 0 < times y (layer dependencies x) → y < length edges
  target-lt x y h =
      Imports-lt (length edges) (edges_of edges x) y
        (All-row edges (λ e. (t : ℕ) → e.target ≡ some t → t < length edges) x closed)
        ((target_iff x y).0 h)

  in_range : InRange dependencies
  in_range x k y h =
      omega (arith, length-map edges, target-lt x y (times-get (layer dependencies x) k y h))

  rows_up : RowsUpTo 0 (empty_rows edges)
  rows_up i = rw (layer-empty_rows edges i) (tt, λ n h. absurd (omega arith))

  small : length edges < 2 ^ 32
  small = omega arith

  -- When each edge that was resolved leads to a file, and there are at most 2^32 - 1 files, `assemble`
  -- returns a graph of the edges: the dependencies of a file are the targets of its edges that are not
  -- dynamic, once each and in order; the dependents are the reverse, in order; `sccs` and `scc_of`
  -- agree, two files have one component just when each depends on the other through any number of files,
  -- and no dependency is in a later component; and the layers are those of `layers_lem`.
  pub assemble_lem :
      {Files State Root : Type 0} (files : Files) (states : List State) (syntax_errors : List Bool)
      → (g : ModuleGraph Files State Root) × (assemble files edges states syntax_errors ≡ some g)
        × Assembled edges g
  unfolding assemble
  assemble_lem {Root = Root} files states syntax_errors =
      let (dependents, l, same, rev, rises) =
        link_lem 0 edges (empty_rows edges) (omega (arith, small))
          (λ x t h. omega (arith, length-empty_rows edges, target-lt x t h)) rows_up in
      let (cs, e, (of, o, numbers), (result, f, (level, layered))) =
        layers_all dependencies (omega (arith, length-map edges)) in_range in
      rw
        (
          l,
          e,
          o,
          f,
          file_id_rows_lem result
              (λ x i h. ground (arith, layered.stands x i, length-map edges, small)),
          file_id_rows_lem cs (λ x i h. ground (
            arith,
            numbered-stands (length dependencies) of 0 cs numbers.numbered x i,
            length-map edges,
            small,
          )),
        )
        (
          record {
            files = files;
            edges = edges;
            dependencies = dependencies;
            dependents = dependents;
            sccs = cs;
            scc_of = of;
            layers = result;
            states = states;
            syntax_errors = syntax_errors;
            root = none;
          },
          refl,
          record {
            edges_kept = refl;
            imports = target_iff;
            inside = target-lt;
            once = λ x y.
                ground (
                  arith,
                  ap (times y) (layer-map edges x) ∙ (targets_of_lem (edges_of edges x)).1 y,
                );
            reverse = λ x y. ground (arith, rev x y, ap (times x) (layer-empty_rows edges y));
            ascends =
                λ x. (rw (layer-map edges x) ((targets_of_lem (edges_of edges x)).0), rises x);
            in_scc = λ n i. ground (
              arith,
              length-map edges,
              numbered-stands (length dependencies) of 0 cs numbers.numbered n i,
            );
            same_scc = λ x y hx hy.
                same_iff dependencies of cs in_range numbers x y (omega (arith, length-map edges))
                  (omega (arith, length-map edges));
            up = λ x y hx h.
                let (k, t) = get-times (layer dependencies x) y h in
                numbers.up x k y (omega (arith, length-map edges)) t;
            ordered = numbers.ordered;
            layered = (level, layered);
          },
        )
