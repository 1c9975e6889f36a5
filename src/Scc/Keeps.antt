-- ===== src/Scc/Keeps.antt =====
-- What every round of the search keeps, and what it has left to do.
use ts_rust.Prelude.{
  ℕ, suc, ◌+◌, ◌-◌, ◌<◌, ◌≤◌, ◌≡◌, List, [], ◌∷◌, ◌++◌, Option, none, some, length, arith,
  get_elem?, get_elem?-lt, lt-length_of_get_elem?, inl, inr, ⊎_elim, leb, Bool-cases,
}
use ts_rust.Scc.{Graph, Search, Frame, drop_frame, insert_sorted, sort}
use ts_rust.Scc.Times.{times, times-insert_sorted, times-sort}
use ts_rust.Scc.Unseen.{unseen}
use ts_rust.Scc.Counted.{Counted, HasNode, IsVisited}
use ts_rust.Scc.Leaves.{lower-Counted}
use ts_rust.Scc.Linked.{or_empty, IsTarget, Linked, Edges, Nothing, Emitted}

-- The members stand in order.
abbrev pub Ascends : List ℕ → Type 0
Ascends [] = Unit
Ascends (x ∷ xs) = ((y : ℕ) → 0 < times y xs → x ≤ y) × Ascends xs

insert_sorted-Ascends : (x : ℕ) (ys : List ℕ) → Ascends ys → Ascends (insert_sorted x ys)
unfolding insert_sorted
insert_sorted-Ascends x [] a = ((λ y h. omega arith), tt)
insert_sorted-Ascends x (y ∷ ys) (below, a) = elim (Bool-cases (leb x y)) [
  | inl q ↦ rw q ((λ z h. ground (arith, below z)), (below, a))
  | inr q ↦
      rw q
        ((λ z h. ground (arith, below z, times-insert_sorted z x ys)), insert_sorted-Ascends x ys a)
]

pub sort-Ascends : (xs : List ℕ) → Ascends (sort xs)
unfolding sort
sort-Ascends [] = tt
sort-Ascends (x ∷ xs) = insert_sorted-Ascends x (sort xs) (sort-Ascends xs)

-- Each component has members, in order.
abbrev pub Ordered : List (List ℕ) → Type 0
Ordered [] = Unit
Ordered (c ∷ cs) = Ascends c × ((n : ℕ) × (0 < times n c)) × Ordered cs

pub Ordered-append :
    (cs : List (List ℕ)) (xs : List ℕ) (n : ℕ)
    → Ordered cs
    → 0 < times n xs
    → Ordered (cs ++ sort xs ∷ [])
Ordered-append [] xs n o h = (sort-Ascends xs, (n, omega (arith, times-sort n xs)), tt)
Ordered-append (c ∷ cs) xs n (a, b, o) h = (a, b, Ordered-append cs xs n o h)

pub record Keeps (dependencies : Graph) (s : Search) : Type 0 where
  pub counted : Counted (length dependencies) s
  pub linked : Linked dependencies s
  pub edges : Edges dependencies (Nothing dependencies) s
  pub emitted : Emitted dependencies (λ n. 0) s.found
  pub ordered : Ordered s.found

abbrev pub degree : Graph → ℕ → ℕ
degree dependencies n = length (or_empty (get_elem? dependencies n))

-- The dependencies that are left to look at and the frames, and what is not visited.
abbrev pub frames_left : Graph → List Frame → ℕ
frames_left dependencies [] = 0
frames_left dependencies ((node, i) ∷ rest) =
    suc (degree dependencies node - i) + frames_left dependencies rest

abbrev pub left : Graph → Search → ℕ
left dependencies s =
    frames_left dependencies s.frames
    + unseen (λ n. suc (degree dependencies n)) s.order (length dependencies)

-- The dependencies of every node are nodes.
abbrev pub InRange : Graph → Type 0
InRange dependencies = (x k y : ℕ) → IsTarget dependencies x k y → y < length dependencies

-- What a step comes to: a state that keeps all, with less left, in which the visited nodes are visited.
abbrev pub Steps : Graph → Search → Option Search → ℕ → Type 0
Steps dependencies s r work =
    (t : Search) × (r ≡ some t)
    × Keeps dependencies t
    × (suc (left dependencies t) ≤ work)
    × ((n : ℕ) → IsVisited s n → IsVisited t n)

-- The frames only change the places in the lists of dependencies.
pub reframe-Linked :
    (dependencies : Graph) (s : Search) (frames : List Frame)
    → ((f : ℕ) → HasNode frames f → HasNode s.frames f)
    → ((f : ℕ) → HasNode s.frames f → HasNode frames f)
    → Linked dependencies s
    → Linked dependencies (record s { frames = frames })
reframe-Linked dependencies s frames to from l = record {
  back = l.back;
  done = λ x h. ⊎_elim (λ k. inl (from x k)) (λ k. inr k) (l.done x h);
  down = λ f x hf h k. l.down f x (to f hf) h k;
  least = λ g x hg h k. let (f, hf, a, b) = l.least g x (to g hg) h k in (f, from f hf, a, b);
}

pub same_target :
    (dependencies : Graph) (x node k i y next : ℕ)
    → x ≡ node
    → i ≡ k
    → IsTarget dependencies x k y
    → IsTarget dependencies node i next
    → y ≡ next
same_target dependencies x node k i y next d q to_y target = cc

pub past :
    (targets : List ℕ) (i k : ℕ) {y : ℕ}
    → get_elem? targets i ≡ none
    → i ≤ k
    → get_elem? targets k ≡ some y
    → ⊥
past targets i k q le target =
    let (a, r) = get_elem?-lt targets i (omega (arith, lt-length_of_get_elem? targets k target)) in
    clash r
  where
    clash : {a : ℕ} → get_elem? targets i ≡ some a → ⊥
    clash r = cc

pub drop-Counted :
    (count : ℕ) (s : Search) (node : ℕ) (rest : List Frame)
    → Counted count (record s { frames = rest })
    → Counted count (drop_frame s node rest)
drop-Counted count s node [] c = c
drop-Counted count s node ((p, j) ∷ rest) c =
    lower-Counted count (record s { frames = (p, j) ∷ rest }) c p (s.low_link node)
