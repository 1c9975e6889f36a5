-- ===== src/Scc/Layers.antt =====
-- src/scc.rs: `component_of` and `layers`. `none` is an index out of bounds or a position that is no
-- `u32`, which panic. A fixed-length array is a function, as in the search.
pub mod Position
pub mod Numbered
pub mod Ordering
pub mod Level
pub mod Placed
pub mod Fill
pub mod Final
use ts_rust.Prelude.{
  ℕ, zero, suc, ◌+◌, ◌%◌, ◌^◌, Bool, true, false, List, [], ◌∷◌, ◌++◌, Option, none, some, length,
  map, get_elem?, ltb, leb, ◌==◌, ◌&&◌, ◌||◌, if◌then◌else◌,
}
use ts_rust.Scc.{Graph, update, sort}

abbrev pub on_some {ℓ κ} : {A : Type ℓ} {B : Type κ} → Option A → (A → Option B) → Option B
on_some none f = none
on_some (some a) f = f a

module _ (count : ℕ) where
  -- The loop over the members of the component at `position`.
  unfoldable pub set_members : ℕ → List ℕ → (ℕ → ℕ) → Option (ℕ → ℕ)
  set_members position [] of = some of
  set_members position (member ∷ members) of =
      if ltb position (2 ^ 32) && ltb member count
      then set_members position members (update of member position)
      else none

  unfoldable pub set_components : ℕ → List (List ℕ) → (ℕ → ℕ) → Option (ℕ → ℕ)
  unfolding set_members
  set_components position [] of = some of
  set_components position (component ∷ components) of =
      on_some (set_members position component of) (set_components (suc position) components)

unfoldable pub component_of : ℕ → List (List ℕ) → Option (ℕ → ℕ)
unfolding set_components
component_of count components = set_components count 0 components (λ n. 0)

abbrev pub max : ℕ → ℕ → ℕ
max a b = if ltb a b then b else a

module _ (of depth : ℕ → ℕ) (position : ℕ) where
  -- The level after a dependency was looked at.
  abbrev pub raised : ℕ → ℕ → ℕ
  raised level dependency =
      if of dependency == position then level else max level ((depth (of dependency) + 1) % 2 ^ 64)

  -- The dependencies of a member; there are `count` nodes, and `size` components.
  unfoldable pub raise : ℕ → ℕ → List ℕ → ℕ → Option ℕ
  raise count size [] level = some level
  raise count size (dependency ∷ targets) level =
      if ltb dependency count && (of dependency == position || ltb (of dependency) size)
      then raise count size targets (raised level dependency)
      else none

  -- The members of the component.
  unfoldable pub level_of : Graph → ℕ → List ℕ → ℕ → Option ℕ
  unfolding raise
  level_of dependencies size [] level = some level
  level_of dependencies size (member ∷ members) level =
      on_some (get_elem? dependencies member) (λ targets.
        on_some (raise (length dependencies) size targets level)
          (level_of dependencies size members))

-- `resize_with(n, Vec::new)` of a vector that is not longer.
unfoldable pub resize_with : List (List ℕ) → ℕ → List (List ℕ)
resize_with layers zero = layers
resize_with [] (suc n) = [] ∷ resize_with [] n
resize_with (layer ∷ layers) (suc n) = layer ∷ resize_with layers n

-- `layers[level].extend(members)`.
unfoldable pub extend : List (List ℕ) → ℕ → List ℕ → Option (List (List ℕ))
extend [] level members = none
extend (layer ∷ layers) zero members = some ((layer ++ members) ∷ layers)
extend (layer ∷ layers) (suc level) members =
    on_some (extend layers level members) (λ rest. some (layer ∷ rest))

abbrev pub with_level : List (List ℕ) → ℕ → List ℕ → Option (List (List ℕ))
with_level layers level members =
    extend (if leb (length layers) level then resize_with layers ((level + 1) % 2 ^ 64) else layers)
      level members

module _ (dependencies : Graph) (of : ℕ → ℕ) (size : ℕ) where
  -- The loop over the components, from `position` on.
  unfoldable pub fill : ℕ → List (List ℕ) → (ℕ → ℕ) → List (List ℕ) → Option (List (List ℕ))
  unfolding level_of extend resize_with
  fill position [] depth layers = some layers
  fill position (component ∷ components) depth layers =
      on_some (level_of of depth position dependencies size component 0) (λ level.
        on_some (with_level layers level component)
          (fill (suc position) components (update depth position level)))

abbrev pub sort_all : List (List ℕ) → List (List ℕ)
sort_all layers = map sort layers

unfoldable pub layers : Graph → List (List ℕ) → Option (List (List ℕ))
unfolding component_of fill sort
layers dependencies components = on_some (component_of (length dependencies) components) (λ of.
    on_some (fill dependencies of (length components) 0 components (λ p. 0) [])
      (λ filled. some (sort_all filled)))
