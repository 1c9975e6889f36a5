-- ===== src/Scc/Layers/Position.antt =====
-- Where a node stands in the components.
use ts_rust.Prelude.{
  ℕ, zero, suc, ◌+◌, ◌<◌, ◌≤◌, ◌≡◌, refl, ◌∙◌, ap, List, [], ◌∷◌, length, length-append, arith, ◌⊎◌,
  inl, inr, ⊎_elim, ◌==◌, ltb, if◌then◌else◌, Bool-cases, eq_refl,
}
use ts_rust.Scc.{Graph}
use ts_rust.Scc.Times.{times, flat, times-append}
use ts_rust.Scc.Linked.{IsTarget, Reaches, Emitted}
use ts_rust.Scc.Keeps.{Ordered}

-- The position of the first component with the node.
abbrev pub position : ℕ → List (List ℕ) → ℕ
position n [] = 0
position n (c ∷ cs) = if ltb 0 (times n c) then 0 else suc (position n cs)

-- The nodes below `count` stand in the components once, and nothing else does.
abbrev pub IsSplit : ℕ → List (List ℕ) → Type 0
IsSplit count cs = (n : ℕ) → times n (flat cs) ≡ (if ltb n count then 1 else 0)

-- A member of the first component stands no later than any node.
first_le :
    (c : List ℕ) (cs : List (List ℕ)) (x y : ℕ)
    → 0 < times y c
    → (0 < times y (flat (c ∷ cs))) × (position y (c ∷ cs) ≤ position x (c ∷ cs))
first_le c cs x y h = (omega (arith, times-append y c (flat cs)), ground arith)

-- A dependency stands no later than the node.
pub Emitted-position :
    (dependencies : Graph) (before : ℕ → ℕ) (cs : List (List ℕ)) (x k y : ℕ)
    → Emitted dependencies before cs
    → 0 < times x (flat cs)
    → IsTarget dependencies x k y
    → (0 < before y) ⊎ ((0 < times y (flat cs)) × (position y cs ≤ position x cs))
Emitted-position dependencies before [] x k y e h target = absurd (omega arith)
Emitted-position dependencies before (c ∷ cs) x k y (closed, reach, e) h target =
    elim (Bool-cases (ltb 0 (times y c))) [
      | inl q ↦ inr (first_le c cs x y (ground arith))
      | inr q ↦ elim (Bool-cases (ltb 0 (times x c))) [
        | inl r ↦ inl (ground (arith, closed x k y (ground arith) target))
        | inr r ↦
            ⊎_elim (λ m. inl (ground arith))
              (λ (hy, le). inr (omega (arith, times-append y c (flat cs)), ground arith))
              (Emitted-position dependencies (λ n. before n + times n c) cs x k y e
                (ground (arith, times-append x c (flat cs))) target)
      ]
    ]

-- Nodes of one component reach each other.
pub Emitted-reach :
    (dependencies : Graph) (before : ℕ → ℕ) (cs : List (List ℕ)) (x y : ℕ)
    → Emitted dependencies before cs
    → 0 < times x (flat cs)
    → 0 < times y (flat cs)
    → position x cs ≡ position y cs
    → Reaches dependencies x y
Emitted-reach dependencies before [] x y e hx hy same = absurd (omega arith)
Emitted-reach dependencies before (c ∷ cs) x y (closed, reach, e) hx hy same =
    elim (Bool-cases (ltb 0 (times x c))) [
      | inl q ↦ reach x y (ground arith) (ground (arith, same))
      | inr q ↦
          Emitted-reach dependencies (λ n. before n + times n c) cs x y e
            (ground (arith, times-append x c (flat cs)))
            (ground (arith, times-append y c (flat cs), same)) (ground (arith, same))
    ]

-- How often the nodes below `n` stand in a list.
abbrev tally : ℕ → List ℕ → ℕ
tally zero xs = 0
tally (suc n) xs = times n xs + tally n xs

tally_past : (n x : ℕ) (xs : List ℕ) → n ≤ x → tally n (x ∷ xs) ≡ tally n xs
tally_past zero x xs h = refl
tally_past (suc n) x xs h = ground (arith, tally_past n x xs)

tally_cons : (n x : ℕ) (xs : List ℕ) → x < n → tally n (x ∷ xs) ≡ suc (tally n xs)
tally_cons zero x xs h = absurd (omega arith)
tally_cons (suc n) x xs h = elim (Bool-cases (x == n)) [
  | inl q ↦ rw q (omega (arith, tally_past n x xs (ground arith)))
  | inr q ↦ rw q (omega (arith, tally_cons n x xs (ground arith)))
]

tally-length : (n : ℕ) (xs : List ℕ) → ((x : ℕ) → 0 < times x xs → x < n) → tally n xs ≡ length xs
tally-length n [] h = tally_nil n
  where
    tally_nil : (n : ℕ) → tally n [] ≡ 0
    tally_nil zero = refl
    tally_nil (suc n) = omega (arith, tally_nil n)
tally-length n (x ∷ xs) h =
    tally_cons n x xs (h x (rw (eq_refl x) (omega arith)))
    ∙ ap suc (tally-length n xs (λ y k. h y (ground arith)))

tally_once : (n : ℕ) (xs : List ℕ) → ((x : ℕ) → x < n → times x xs ≡ 1) → tally n xs ≡ n
tally_once zero xs h = refl
tally_once (suc n) xs h =
    omega (arith, h n (omega arith), tally_once n xs (λ x k. h x (omega arith)))

length_flat : (cs : List (List ℕ)) → Ordered cs → length cs ≤ length (flat cs)
length_flat [] o = omega arith
length_flat (c ∷ cs) (a, (n, b), o) =
    omega (arith, length-append c (flat cs), length_flat cs o, filled c n b)
  where
    filled : (c : List ℕ) (n : ℕ) → 0 < times n c → 0 < length c
    filled [] n h = absurd (omega arith)
    filled (x ∷ c) n h = omega arith

-- There are no more components than nodes.
pub length-split :
    (count : ℕ) (cs : List (List ℕ)) → Ordered cs → IsSplit count cs → length cs ≤ count
length-split count cs o s = omega (
  arith,
  length_flat cs o,
  tally-length count (flat cs) (λ x h. ground (arith, s x)),
  tally_once count (flat cs) (λ x h. ground (arith, s x)),
)
