-- ===== src/Examples/Files.antt =====
-- Examples for src/module_resolution/graph.rs: two files that import each other, and a third.
use ts_rust.Prelude.{
  ℕ, ◌<◌, ◌≡◌, ◌↔◌, refl, subst, true, false, List, [], ◌∷◌, Option, none, some, arith,
}
use ts_rust.Scc.{sort, components}
use ts_rust.Scc.Layers.{extend, component_of, layers}
use ts_rust.Scc.Times.{times}
use ts_rust.Modules.{
  ModuleRequestKind, static_import, type_import, dynamic_import, ModuleEdge, ModuleGraph, assemble,
  cycles,
}
use ts_rust.Modules.Rows.{IsResolved}
use ts_rust.Modules.Assembled.{Assembled, assemble_lem}
use ts_rust.Modules.Slices.{Stands, Rises}
use ts_rust.Modules.Cycles.{ComesBack, cycles_lem}

abbrev edge : Option ℕ → ModuleRequestKind → ModuleEdge
edge target kind = record {
  specifier = [];
  target = target;
  is_type = false;
  is_import = true;
  kind = kind;
}

-- File 0 imports 1 twice; 1 imports 0 and a file that is missing, and loads 2 dynamically; 2 imports 0
-- and loads 1 dynamically.
abbrev files : List (List ModuleEdge)
files =
    (edge (some 1) static_import ∷ edge (some 1) type_import ∷ [])
    ∷ (edge none static_import ∷ edge (some 0) static_import ∷ edge (some 2) dynamic_import ∷ [])
    ∷ (edge (some 1) dynamic_import ∷ edge (some 0) static_import ∷ [])
    ∷ []

target-lt : (bound x t : ℕ) → x < bound → some x ≡ some t → t < bound
target-lt bound x t h e = subst (λ y. y < bound) (same e) h
  where
    same : some x ≡ some t → x ≡ t
    same e = cc

no_target : (bound t : ℕ) → none ≡ some t → t < bound
no_target bound t e = absurd (clash e)
  where
    clash : none ≡ some t → ⊥
    clash e = cc

files-IsResolved : IsResolved files
files-IsResolved = (
  (λ t. target-lt 3 1 t (omega arith), (λ t. target-lt 3 1 t (omega arith), tt)),
  (
    (no_target 3, (λ t. target-lt 3 0 t (omega arith), (λ t. target-lt 3 2 t (omega arith), tt))),
    ((λ t. target-lt 3 1 t (omega arith), (λ t. target-lt 3 0 t (omega arith), tt)), tt),
  ),
)

-- The tables of the files are numbers here.
abbrev assembled_files : Option (ModuleGraph ℕ ℕ ℕ)
assembled_files = assemble 0 files [] []

abbrev sccs_of : Option (ModuleGraph ℕ ℕ ℕ) → List (List (List ℕ))
sccs_of none = []
sccs_of (some g) = g.dependencies ∷ g.dependents ∷ g.sccs ∷ g.layers ∷ []

tables_of_files : sccs_of assembled_files ≡ (
    ((1 ∷ []) ∷ (0 ∷ []) ∷ (0 ∷ []) ∷ [])
    ∷ ((1 ∷ 2 ∷ []) ∷ (0 ∷ []) ∷ [] ∷ [])
    ∷ ((0 ∷ 1 ∷ []) ∷ (2 ∷ []) ∷ [])
    ∷ ((0 ∷ 1 ∷ []) ∷ (2 ∷ []) ∷ [])
    ∷ [])
unfolding assemble sort extend components component_of layers
tables_of_files = refl

assemble_lem_example :
    (g : ModuleGraph ℕ ℕ ℕ) × (assemble 0 files [] [] ≡ some g) × Assembled files g
assemble_lem_example = assemble_lem files files-IsResolved (omega arith) 0 [] []

abbrev graph : ModuleGraph ℕ ℕ ℕ
graph = (assemble_lem files files-IsResolved (omega arith) 0 [] []).0

graph-Assembled : Assembled files graph
graph-Assembled = (assemble_lem files files-IsResolved (omega arith) 0 [] []).2

cycles_lem_example :
    (cs : List (List ℕ)) × (cycles graph ≡ some cs)
    × Rises cs
    × ((c : List ℕ) (x : ℕ)
        → 0 < times x c
        → Stands c cs ↔ (Stands c graph.sccs × ComesBack graph.dependencies x))
cycles_lem_example = cycles_lem files graph graph-Assembled
