-- ===== src/Scc/Layers/Numbered.antt =====
-- What `component_of` returns.
use ts_rust.Prelude.{
  ℕ, suc, ◌+◌, ◌^◌, ◌<◌, ◌≤◌, ◌≡◌, refl, ◌∙◌, true, List, [], ◌∷◌, some, length, arith, ltb,
  if◌then◌else◌, ==_iff, eq_refl,
}
use ts_rust.Scc.{update}
use ts_rust.Scc.Times.{times, flat, times-append}
use ts_rust.Scc.Layers.{set_members, set_components, component_of}
use ts_rust.Scc.Layers.Position.{position, IsSplit}

set_members_lem :
    (count place : ℕ) (members : List ℕ) (of : ℕ → ℕ)
    → place < 2 ^ 32
    → ((n : ℕ) → 0 < times n members → n < count)
    → (of' : ℕ → ℕ) × (set_members count place members of ≡ some of')
      × ((n : ℕ) → of' n ≡ (if ltb 0 (times n members) then place else of n))
unfolding set_members
set_members_lem count place [] of small inside = (of, refl, λ n. refl)
set_members_lem count place (m ∷ members) of small inside =
    let (of', e, f) =
      set_members_lem count place members (update of m place) small
        (λ n h. inside n (ground arith)) in
    rw (fits, inside_m) (of', e, λ n. f n ∙ ground (arith, ==_iff n m, ==_iff m n))
  where
    fits : ltb place (2 ^ 32) ≡ true
    fits = ground arith

    inside_m : ltb m count ≡ true
    inside_m = ground (arith, inside m (rw (eq_refl m) (omega arith)))

set_components_lem :
    (count place : ℕ) (cs : List (List ℕ)) (of : ℕ → ℕ)
    → place + length cs ≤ 2 ^ 32
    → ((n : ℕ) → 0 < times n (flat cs) → n < count)
    → ((n : ℕ) → times n (flat cs) ≤ 1)
    → (of' : ℕ → ℕ) × (set_components count place cs of ≡ some of')
      × ((n : ℕ) → of' n ≡ (if ltb 0 (times n (flat cs)) then place + position n cs else of n))
unfolding set_components
set_components_lem count place [] of small inside once = (of, refl, λ n. refl)
set_components_lem count place (c ∷ cs) of small inside once =
    let (of1, e1, f1) =
      set_members_lem count place c of (omega arith)
        (λ n h. inside n (omega (arith, times-append n c (flat cs)))) in
    let (of', e, f) =
      set_components_lem count (suc place) cs of1 (omega arith)
        (λ n h. inside n (omega (arith, times-append n c (flat cs))))
        (λ n. omega (arith, once n, times-append n c (flat cs))) in
    rw e1 (of', e, λ n. ground (arith, f n, f1 n, once n, times-append n c (flat cs)))

pub component_of_lem :
    (count : ℕ) (cs : List (List ℕ))
    → length cs ≤ 2 ^ 32
    → IsSplit count cs
    → (of : ℕ → ℕ) × (component_of count cs ≡ some of)
      × ((n : ℕ) → n < count → of n ≡ position n cs)
unfolding component_of
component_of_lem count cs small split =
    let (of, e, f) =
      set_components_lem count 0 cs (λ n. 0) (omega arith) (λ n h. ground (arith, split n))
        (λ n. ground (arith, split n)) in
    (of, e, λ n h. ground (arith, f n, split n))
