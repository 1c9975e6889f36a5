-- ===== src/Modules.antt =====
-- src/module_resolution/graph.rs: the graph that is made of the import edges of the files, and what it
-- answers. Paths, the fingerprints of the files and the table of their names are parameters. `none` is
-- an index out of bounds or a position that is no `u32`, which panic.
pub mod Sorted
pub mod Linked
pub mod Rows
pub mod Assembled
pub mod Slices
pub mod Cycles
use ts_rust.Prelude.{
  ℕ, zero, suc, ◌+◌, ◌^◌, Bool, true, false, not, List, [], ◌∷◌, Option, none, some, length,
  get_elem?, map, any, filter, ltb, leb, ◌==◌, if◌then◌else◌,
}
use ts_rust.Types.{FileId}
use ts_rust.Scc.{sort, components}
use ts_rust.Scc.Linked.{or_empty}
use ts_rust.Scc.Layers.{on_some, extend, component_of, layers}

pub data ModuleRequestKind : Type 0 where
  static_import : ModuleRequestKind
  type_import : ModuleRequestKind
  side_effect_import : ModuleRequestKind
  re_export : ModuleRequestKind
  dynamic_import : ModuleRequestKind
  import_equals : ModuleRequestKind
  module_augmentation : ModuleRequestKind

abbrev pub is_dynamic : ModuleRequestKind → Bool
is_dynamic dynamic_import = true
is_dynamic static_import = false
is_dynamic type_import = false
is_dynamic side_effect_import = false
is_dynamic re_export = false
is_dynamic import_equals = false
is_dynamic module_augmentation = false

pub record ModuleEdge : Type 0 where
  pub specifier : List ℕ
  pub target : Option FileId
  pub is_type : Bool
  pub is_import : Bool
  pub kind : ModuleRequestKind

pub record ModuleGraph (Files State Root : Type 0) : Type 0 where
  pub files : Files
  pub edges : List (List ModuleEdge)
  pub dependencies : List (List FileId)
  pub dependents : List (List FileId)
  pub sccs : List (List FileId)
  pub scc_of : ℕ → ℕ
  pub layers : List (List FileId)
  pub states : List State
  pub syntax_errors : List Bool
  pub root : Option Root

abbrev pub file_id : ℕ → Option FileId
file_id position = if ltb position (2 ^ 32) then some position else none

abbrev pub add_target : Option FileId → List FileId → List FileId
add_target none rest = rest
add_target (some target) rest = target ∷ rest

-- The targets of the edges that are not dynamic and were resolved.
unfoldable pub resolved : List ModuleEdge → List FileId
resolved [] = []
resolved (edge ∷ edges) =
    let rest = resolved edges in if is_dynamic edge.kind then rest else add_target edge.target rest

-- `Vec::dedup`, after `last`.
unfoldable pub dedup_after : ℕ → List ℕ → List ℕ
dedup_after last [] = []
dedup_after last (x ∷ xs) = let rest = dedup_after x xs in if x == last then rest else x ∷ rest

unfoldable pub dedup : List ℕ → List ℕ
unfolding dedup_after
dedup [] = []
dedup (x ∷ xs) = x ∷ dedup_after x xs

unfoldable pub targets_of : List ModuleEdge → List FileId
unfolding resolved dedup
targets_of edges = dedup (sort (resolved edges))

-- The importer at `position` is pushed for each target.
unfoldable pub push_all : ℕ → List FileId → List (List FileId) → Option (List (List FileId))
push_all position [] dependents = some dependents
push_all position (target ∷ targets) dependents =
    on_some (file_id position)
      (λ importer. on_some (extend dependents target (importer ∷ [])) (push_all position targets))

-- The loop over the files: their dependencies, and the dependents.
unfoldable pub link :
    ℕ
    → List (List ModuleEdge)
    → List (List FileId)
    → Option (List (List FileId) × List (List FileId))
unfolding targets_of push_all
link position [] dependents = some ([], dependents)
link position (file_edges ∷ edges) dependents =
    on_some (push_all position (targets_of file_edges) dependents) (λ pushed.
      on_some (link (suc position) edges pushed)
        (λ (rest, all). some (targets_of file_edges ∷ rest, all)))

abbrev pub empty_rows : List (List ModuleEdge) → List (List FileId)
empty_rows [] = []
empty_rows (file_edges ∷ edges) = [] ∷ empty_rows edges

unfoldable pub file_ids : List ℕ → Option (List FileId)
file_ids [] = some []
file_ids (position ∷ positions) =
    on_some (file_id position) (λ id. on_some (file_ids positions) (λ rest. some (id ∷ rest)))

unfoldable pub file_id_rows : List (List ℕ) → Option (List (List FileId))
unfolding file_ids
file_id_rows [] = some []
file_id_rows (row ∷ rows) =
    on_some (file_ids row) (λ ids. on_some (file_id_rows rows) (λ rest. some (ids ∷ rest)))

module _ {Files State Root : Type 0} where
  unfoldable pub assemble :
      Files
      → List (List ModuleEdge)
      → List State
      → List Bool
      → Option (ModuleGraph Files State Root)
  unfolding link file_id_rows
  assemble files edges states syntax_errors =
      on_some (link 0 edges (empty_rows edges)) (λ (dependencies, dependents).
        on_some (components dependencies) (λ cs.
          on_some (component_of (length dependencies) cs) (λ of.
            on_some (layers dependencies cs) (λ filled. on_some (file_id_rows filled) (λ layers.
              on_some (file_id_rows cs) (λ sccs. some record {
                files = files;
                edges = edges;
                dependencies = dependencies;
                dependents = dependents;
                sccs = sccs;
                scc_of = of;
                layers = layers;
                states = states;
                syntax_errors = syntax_errors;
                root = none;
              }))))))

-- `contains`, on a slice of ids.
abbrev pub contains_id : List FileId → FileId → Bool
contains_id [] id = false
contains_id (x ∷ ids) id = let rest = contains_id ids id in if x == id then true else rest

abbrev pub slice_of {ℓ} : {A : Type ℓ} → List (List A) → FileId → List A
slice_of table id = or_empty (get_elem? table id)

-- More than one file, or a file that imports itself.
abbrev pub is_cycle : List (List FileId) → List FileId → Option Bool
is_cycle dependencies [] = none
is_cycle dependencies (only ∷ []) = some (contains_id (slice_of dependencies only) only)
is_cycle dependencies (first ∷ second ∷ rest) = some true

unfoldable pub keep_cycles : List (List FileId) → List (List FileId) → Option (List (List FileId))
keep_cycles dependencies [] = some []
keep_cycles dependencies (component ∷ sccs) = on_some (is_cycle dependencies component) (λ keep.
    on_some (keep_cycles dependencies sccs)
      (λ rest. some (if keep then component ∷ rest else rest)))

-- The order of slices.
abbrev pub slice_le : List FileId → List FileId → Bool
slice_le [] ys = true
slice_le (x ∷ xs) [] = false
slice_le (x ∷ xs) (y ∷ ys) =
    let rest = slice_le xs ys in if ltb x y then true else if x == y then rest else false

unfoldable pub insert_slice : List FileId → List (List FileId) → List (List FileId)
insert_slice x [] = x ∷ []
insert_slice x (y ∷ ys) =
    let rest = insert_slice x ys in if slice_le x y then x ∷ y ∷ ys else y ∷ rest

-- `sort`, by insertion.
unfoldable pub sort_slices : List (List FileId) → List (List FileId)
unfolding insert_slice
sort_slices [] = []
sort_slices (x ∷ xs) = insert_slice x (sort_slices xs)

unfoldable pub cycles :
    {Files State Root : Type 0} → ModuleGraph Files State Root → Option (List (List FileId))
unfolding keep_cycles sort_slices
cycles g = on_some (keep_cycles g.dependencies g.sccs) (λ kept. some (sort_slices kept))
