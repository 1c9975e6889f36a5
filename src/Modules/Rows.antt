-- ===== src/Modules/Rows.antt =====
-- The rows of a graph: which files an edge leads to, and which rows are ids.
use ts_rust.Prelude.{
  ℕ, zero, suc, ◌^◌, ◌<◌, ◌≤◌, ◌≡◌, ◌↔◌, refl, ap, true, false, List, [], ◌∷◌, Option, none, some,
  length, arith, ltb, ◌==◌, map, get_elem?, Bool-cases, inl, inr, ◌⊎◌, ⊎_elim, ==_iff, eq_refl, All,
}
use ts_rust.Types.{FileId}
use ts_rust.Scc.{sort}
use ts_rust.Scc.Times.{times, flat, times-append}
use ts_rust.Scc.Linked.{or_empty}
use ts_rust.Scc.Layers.Placed.{layer}
use ts_rust.Modules.{
  ModuleEdge, is_dynamic, add_target, resolved, targets_of, empty_rows, file_ids, file_id_rows,
}

abbrev pub edges_of : List (List ModuleEdge) → ℕ → List ModuleEdge
edges_of edges x = or_empty (get_elem? edges x)

-- The targets of the edges are files.
abbrev pub IsResolved : List (List ModuleEdge) → Type 0
IsResolved edges = All (All (λ e. (t : ℕ) → e.target ≡ some t → t < length edges)) edges

pub layer-map :
    (edges : List (List ModuleEdge)) (x : ℕ)
    → layer (map targets_of edges) x ≡ targets_of (edges_of edges x)
unfolding targets_of sort
layer-map [] x = refl
layer-map (e ∷ edges) zero = refl
layer-map (e ∷ edges) (suc x) = layer-map edges x

pub length-map : (edges : List (List ModuleEdge)) → length (map targets_of edges) ≡ length edges
length-map [] = refl
length-map (e ∷ edges) = ap suc (length-map edges)

pub length-empty_rows : (edges : List (List ModuleEdge)) → length (empty_rows edges) ≡ length edges
length-empty_rows [] = refl
length-empty_rows (e ∷ edges) = ap suc (length-empty_rows edges)

pub layer-empty_rows : (edges : List (List ModuleEdge)) (y : ℕ) → layer (empty_rows edges) y ≡ []
layer-empty_rows [] y = refl
layer-empty_rows (e ∷ edges) zero = refl
layer-empty_rows (e ∷ edges) (suc y) = layer-empty_rows edges y

-- Some edge of the file that is not dynamic was resolved to the target.
abbrev pub Imports : List ModuleEdge → FileId → Type 0
Imports [] t = ⊥
Imports (e ∷ edges) t = ((is_dynamic e.kind ≡ false) × (e.target ≡ some t)) ⊎ Imports edges t

add_target_iff :
    (target : Option FileId) (rest : List ℕ) (t : ℕ)
    → (0 < times t (add_target target rest)) ↔ ((target ≡ some t) ⊎ (0 < times t rest))
add_target_iff none rest t = ((λ h. inr h), λ h. ⊎_elim (λ e. absurd (clash e)) (λ k. k) h)
  where
    clash : none ≡ some t → ⊥
    clash e = cc
add_target_iff (some x) rest t = (
  (λ h. elim (Bool-cases (x == t)) [
    | inl q ↦ inl (ap some ((==_iff x t).0 q))
    | inr q ↦ inr (rw q at h)
  ]),
  λ h. ⊎_elim (λ e. ground (arith, (==_iff x t).1 (same e))) (λ k. ground arith) h,
)
  where
    same : some x ≡ some t → x ≡ t
    same e = cc

pub resolved_iff :
    (edges : List ModuleEdge) (t : ℕ) → (0 < times t (resolved edges)) ↔ Imports edges t
unfolding resolved
resolved_iff [] t = ((λ h. omega arith), λ h. absurd h)
resolved_iff (e ∷ edges) t = elim (Bool-cases (is_dynamic e.kind)) [
  | inl q ↦ rw q (
    (λ h. inr ((resolved_iff edges t).0 h)),
    λ h. ⊎_elim (λ (k, m). absurd (clash k)) (λ k. (resolved_iff edges t).1 k) h,
  )
  | inr q ↦
      let both = add_target_iff e.target (resolved edges) t in
      rw q (
        (λ h. ⊎_elim (λ m. inl (refl, m)) (λ k. inr ((resolved_iff edges t).0 k)) (both.0 h)),
        λ h. ⊎_elim (λ (k, m). both.1 (inl m)) (λ k. both.1 (inr ((resolved_iff edges t).1 k))) h,
      )
]
  where
    clash : true ≡ false → ⊥
    clash h = cc

pub Imports-lt :
    (bound : ℕ) (edges : List ModuleEdge) (t : ℕ)
    → All (λ e. (t : ℕ) → e.target ≡ some t → t < bound) edges
    → Imports edges t
    → t < bound
Imports-lt bound [] t all h = absurd h
Imports-lt bound (e ∷ edges) t (here, all) h =
    ⊎_elim (λ (k, m). here t m) (λ k. Imports-lt bound edges t all k) h

-- Ids that fit are kept.
file_ids_lem : (xs : List ℕ) → ((x : ℕ) → 0 < times x xs → x < 2 ^ 32) → file_ids xs ≡ some xs
unfolding file_ids
file_ids_lem [] h = refl
file_ids_lem (x ∷ xs) h = rw (fits, file_ids_lem xs (λ y k. h y (ground arith))) refl
  where
    fits : ltb x (2 ^ 32) ≡ true
    fits = ground (arith, h x, eq_refl x)

pub file_id_rows_lem :
    (rows : List (List ℕ))
    → ((x i : ℕ) → 0 < times x (layer rows i) → x < 2 ^ 32)
    → file_id_rows rows ≡ some rows
unfolding file_id_rows
file_id_rows_lem [] h = refl
file_id_rows_lem (row ∷ rows) h =
    rw (file_ids_lem row (λ x k. h x 0 k), file_id_rows_lem rows (λ x i k. h x (suc i) k)) refl

times-layer : (cs : List (List ℕ)) (x i : ℕ) → times x (layer cs i) ≤ times x (flat cs)
times-layer [] x i = omega arith
times-layer (c ∷ cs) x zero = omega (arith, times-append x c (flat cs))
times-layer (c ∷ cs) x (suc i) = omega (arith, times-append x c (flat cs), times-layer cs x i)

pub times-get : (xs : List ℕ) (k y : ℕ) → get_elem? xs k ≡ some y → 0 < times y xs
times-get [] k y h = absurd (clash h)
  where
    clash : none ≡ some y → ⊥
    clash h = cc
times-get (x ∷ xs) zero y h = ground (arith, (==_iff x y).1 (same h))
  where
    same : some x ≡ some y → x ≡ y
    same h = cc
times-get (x ∷ xs) (suc k) y h = ground (arith, times-get xs k y h)
