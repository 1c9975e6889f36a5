-- ===== src/Modules/Cycles.antt =====
-- What `cycles` returns.
use ts_rust.Prelude.{
  ℕ, suc, ◌<◌, ◌≤◌, ◌≡◌, ◌≢◌, ◌↔◌, refl, ◌∙◌, sym, ap, subst, true, List, [], ◌∷◌, some, length,
  arith, ltb, ◌==◌, ◌&&◌, if◌then◌else◌, Bool-cases, inl, inr, ◌⊎◌, ⊎_elim, ==_iff, eq_refl,
}
use ts_rust.Scc.{Graph}
use ts_rust.Scc.Times.{times}
use ts_rust.Scc.Linked.{IsTarget, Reaches, here, onward, Reaches-trans}
use ts_rust.Scc.Layers.Placed.{layer}
use ts_rust.Modules.{ModuleEdge, ModuleGraph, contains_id, slice_of, sort_slices, cycles}
use ts_rust.Modules.Rows.{times-get}
use ts_rust.Modules.Assembled.{Assembled, get-times}
use ts_rust.Modules.Slices.{
  Stands, Rises, IsCycle, sort_slices-Rises, sort_slices-Stands, keep_cycles_lem,
}

-- The file depends on itself, through any number of files.
abbrev pub ComesBack : Graph → ℕ → Type 0
ComesBack dependencies x =
    (k : ℕ) × (y : ℕ) × IsTarget dependencies x k y × Reaches dependencies y x

contains_id-times : (ids : List ℕ) (x : ℕ) → contains_id ids x ≡ ltb 0 (times x ids)
contains_id-times [] x = refl
contains_id-times (y ∷ ids) x = ground (arith, contains_id-times ids x)

first_step :
    (dependencies : Graph) (x y : ℕ)
    → Reaches dependencies x y
    → (x ≡ y) ⊎ ((k : ℕ) × (z : ℕ) × IsTarget dependencies x k z × Reaches dependencies z y)
first_step dependencies x y here = inl refl
first_step dependencies x y (onward z w k r t) =
    ⊎_elim (λ e. inr (k, y, subst (λ v. IsTarget dependencies v k y) (sym e) t, here))
      (λ (j, v, u, s). inr (j, v, u, onward z y k s t)) (first_step dependencies x z r)

Stands-layer : (cs : List (List ℕ)) (c : List ℕ) → Stands c cs → (i : ℕ) × (layer cs i ≡ c)
Stands-layer [] c h = absurd h
Stands-layer (d ∷ cs) c h =
    ⊎_elim (λ e. (0, e)) (λ k. let (i, e) = Stands-layer cs c k in (suc i, e)) h

-- A second member.
other_member :
    (a b : ℕ) (c : List ℕ) (x : ℕ)
    → ((n : ℕ) → times n (a ∷ b ∷ c) ≤ 1)
    → (y : ℕ) × (0 < times y (a ∷ b ∷ c)) × (x ≢ y)
other_member a b c x once = elim (Bool-cases (a == x)) [
  | inl q ↦ (b, ground (arith, eq_refl b), λ e. ground (arith, once x, (==_iff b x).1 (sym e), q))
  | inr q ↦ (a, ground (arith, eq_refl a), λ e. ground (arith, (==_iff a x).1 (sym e), q))
]

module _ {Files State Root : Type 0} (edges : List (List ModuleEdge))
    (g : ModuleGraph Files State Root) (assembled : Assembled edges g) where
  -- The members of a component are the files with its number.
  in_component :
      (c : List ℕ)
      → Stands c g.sccs
      → (i : ℕ) × ((n : ℕ) → times n c ≡ (if ltb n (length edges) && g.scc_of n == i then 1 else 0))
  in_component c h =
      let (i, e) = Stands-layer g.sccs c h in (i, λ n. sym (ap (times n) e) ∙ assembled.in_scc n i)

  -- Members reach each other.
  together :
      (c : List ℕ) (x y : ℕ)
      → Stands c g.sccs
      → 0 < times x c
      → 0 < times y c
      → Reaches g.dependencies x y
  together c x y h hx hy =
      let (i, f) = in_component c h in
      ((assembled.same_scc x y (ground (arith, f x)) (ground (arith, f y))).0
        (ground (arith, f x, f y))).0

  come_back :
      (c : List ℕ) (x : ℕ)
      → Stands c g.sccs
      → IsCycle g.dependencies c
      → 0 < times x c
      → ComesBack g.dependencies x
  come_back [] x h cycle hx = absurd (omega arith)
  come_back (only ∷ []) x h cycle hx =
      let (k, t) =
        get-times (slice_of g.dependencies only) only
          (ground (arith, contains_id-times (slice_of g.dependencies only) only, kept cycle)) in
      subst (ComesBack g.dependencies) (same hx) (k, only, t, here)
    where
      kept :
          some (contains_id (slice_of g.dependencies only) only) ≡ some true
          → contains_id (slice_of g.dependencies only) only ≡ true
      kept e = cc

      same : 0 < times x (only ∷ []) → only ≡ x
      same m = ground arith
  come_back (a ∷ b ∷ c) x h cycle hx =
      let (i, f) = in_component (a ∷ b ∷ c) h in
      let (y, hy, ne) = other_member a b c x (λ n. ground (arith, f n)) in
      ⊎_elim (λ e. absurd (ne e))
        (λ (k, z, t, r).
          (k, z, t, Reaches-trans g.dependencies r (together (a ∷ b ∷ c) y x h hy hx)))
        (first_step g.dependencies x y (together (a ∷ b ∷ c) x y h hx hy))

  own :
      (z x y : ℕ)
      → z ≡ x
      → z ≡ y
      → 0 < times y (layer g.dependencies x)
      → contains_id (slice_of g.dependencies z) z ≡ true
  own z x y e d h =
      contains_id-times (slice_of g.dependencies z) z
      ∙ ground (
        arith,
        subst (λ w. 0 < times w (layer g.dependencies z)) (sym d)
            (subst (λ w. 0 < times y (layer g.dependencies w)) (sym e) h),
      )

  -- A file that comes back is in a cycle.
  IsCycle-of :
      (c : List ℕ) (x : ℕ)
      → Stands c g.sccs
      → 0 < times x c
      → ComesBack g.dependencies x
      → IsCycle g.dependencies c
  IsCycle-of [] x h hx back = absurd (omega arith)
  IsCycle-of (a ∷ b ∷ c) x h hx back = refl
  IsCycle-of (only ∷ []) x h hx (k, y, t, r) =
      let (i, f) = in_component (only ∷ []) h in
      let target = times-get (layer g.dependencies x) k y t in
      let inside = assembled.inside x y target in
      let same = (assembled.same_scc x y (ground (arith, f x)) inside).1 (onward x y k here t, r) in
      ap some (own only x y (ground (arith, f x)) (ground (arith, f y, f x)) target)

  -- For a graph that keeps what `assemble` promises of the edges, `cycles` returns, in order, exactly the
  -- components with a file that depends on itself, directly or through others; and then all files of the
  -- component do.
  pub cycles_lem :
      (cs : List (List ℕ)) × (cycles g ≡ some cs)
      × Rises cs
      × ((c : List ℕ) (x : ℕ)
          → 0 < times x c
          → Stands c cs ↔ (Stands c g.sccs × ComesBack g.dependencies x))
  unfolding cycles
  cycles_lem =
      let (kept, e, f) = keep_cycles_lem g.dependencies g.sccs assembled.ordered in
      rw e (
        sort_slices kept,
        refl,
        sort_slices-Rises kept,
        λ c x hx. (
          λ h. let (s, q) = (f c).0 ((sort_slices-Stands c kept).0 h) in (s, come_back c x s q hx),
          λ (s, back). (sort_slices-Stands c kept).1 ((f c).1 (s, IsCycle-of c x s hx back)),
        ),
      )
