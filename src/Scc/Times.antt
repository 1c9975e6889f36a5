-- ===== src/Scc/Times.antt =====
-- How many times a node stands in a list, and what the search's list operations make of it.
use ts_rust.Prelude.{
  ℕ, suc, ◌+◌, ◌<◌, ◌≤◌, ◌≡◌, refl, ◌∙◌, ap, Bool, false, List, [], ◌∷◌, ◌++◌, arith, ltb, ◌==◌,
  if◌then◌else◌, Bool-cases, inl, inr, ==_iff,
}
use ts_rust.Scc.{update, pop_until, clear_all, insert_sorted, sort}

abbrev pub times : ℕ → List ℕ → ℕ
times n [] = 0
times n (x ∷ xs) = if x == n then suc (times n xs) else times n xs

abbrev pub flat : List (List ℕ) → List ℕ
flat [] = []
flat (c ∷ cs) = c ++ flat cs

pub times-append : (n : ℕ) (xs ys : List ℕ) → times n (xs ++ ys) ≡ times n xs + times n ys
times-append n [] ys = omega arith
times-append n (x ∷ xs) ys = ground (arith, times-append n xs ys)

pub times-flat :
    (n : ℕ) (cs : List (List ℕ)) (c : List ℕ)
    → times n (flat (cs ++ c ∷ [])) ≡ times n (flat cs) + times n c
times-flat n [] c = omega (arith, times-append n c [])
times-flat n (d ∷ cs) c =
    omega
      (arith, times-append n d (flat (cs ++ c ∷ [])), times-append n d (flat cs), times-flat n cs c)

pub times-insert_sorted : (n x : ℕ) (ys : List ℕ) → times n (insert_sorted x ys) ≡ times n (x ∷ ys)
unfolding insert_sorted
times-insert_sorted n x [] = refl
times-insert_sorted n x (y ∷ ys) = ground (arith, times-insert_sorted n x ys)

pub times-sort : (n : ℕ) (xs : List ℕ) → times n (sort xs) ≡ times n xs
unfolding sort
times-sort n [] = refl
times-sort n (x ∷ xs) =
    times-insert_sorted n x (sort xs) ∙ ap (λ k. if x == n then suc k else k) (times-sort n xs)

pub times-pop_until :
    (n node : ℕ) (stack : List ℕ)
    → times n (pop_until node stack).0 + times n (pop_until node stack).1 ≡ times n stack
unfolding pop_until
times-pop_until n node [] = refl
times-pop_until n node (m ∷ stack) = ground (arith, times-pop_until n node stack)

pub clear_all_lem :
    (on_stack : ℕ → Bool) (popped : List ℕ) (n : ℕ)
    → clear_all on_stack popped n ≡ (if ltb 0 (times n popped) then false else on_stack n)
unfolding clear_all
clear_all_lem on_stack [] n = refl
clear_all_lem on_stack (m ∷ popped) n =
    ground (arith, clear_all_lem (update on_stack m false) popped n)

-- The nodes of the stack have ever smaller numbers.
abbrev pub Falling : (ℕ → ℕ) → List ℕ → Type 0
Falling order [] = Unit
Falling order (m ∷ stack) = ((x : ℕ) → 0 < times x stack → order x < order m) × Falling order stack

-- What is popped has the number of the node or a larger one, and the rest has smaller ones.
pub pop_until-Falling :
    (order : ℕ → ℕ) (node : ℕ) (stack : List ℕ)
    → Falling order stack
    → 0 < times node stack
    → Falling order (pop_until node stack).1
      × ((x : ℕ) → 0 < times x stack → order node ≤ order x → times x (pop_until node stack).1 ≡ 0)
      × ((x : ℕ) → order x < order node → times x (pop_until node stack).0 ≡ 0)
unfolding pop_until
pop_until-Falling order node [] f h = absurd (omega arith)
pop_until-Falling order node (m ∷ stack) (below, f) h = elim (Bool-cases (m == node)) [
  | inl same ↦
      let e = ap order ((==_iff m node).0 same) in
      rw same (
        f,
        λ x k l. ground (arith, below x, e),
        λ x k. elim (Bool-cases (m == x)) [
          | inl q ↦ absurd (omega (arith, e, ap order ((==_iff m x).0 q)))
          | inr q ↦ rw q refl
        ],
      )
  | inr differ ↦
      let (g, high, low) = pop_until-Falling order node stack f (rw differ at h) in
      rw differ (
        g,
        λ x k l. elim (Bool-cases (m == x)) [
          | inl q ↦
              ground (arith, times-pop_until x node stack, below x, ap order ((==_iff m x).0 q))
          | inr q ↦ high x (rw q at k) l
        ],
        λ x k. elim (Bool-cases (m == x)) [
          | inl q ↦ absurd (omega (arith, below node (rw differ at h), ap order ((==_iff m x).0 q)))
          | inr q ↦ rw q (low x k)
        ],
      )
]
