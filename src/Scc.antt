-- ===== src/Scc.antt =====
-- src/scc.rs: strongly connected components by Tarjan's search, and the layers of the graph of
-- components. An array that keeps its length is a function on the nodes, with its bounds checked
-- where the code indexes it; `none` is an index out of bounds, which panics, or the fuel running
-- out.
pub mod Times
pub mod Unseen
pub mod Counted
pub mod Leaves
pub mod Linked
pub mod Visit
pub mod Lower
pub mod Drop
pub mod Emit
pub mod Keeps
pub mod First
pub mod Round
pub mod Step
pub mod Loop
pub mod Found
pub mod Layers
use ts_rust.Prelude.{
  ℕ, zero, suc, ◌+◌, ◌*◌, ◌-◌, ◌%◌, ◌^◌, Bool, true, false, List, [], ◌∷◌, ◌++◌, Option, none, some,
  length, get_elem?, ltb, leb, ◌==◌, if◌then◌else◌,
}

-- `UNVISITED`, which is `u32::MAX`.
abbrev pub unvisited : ℕ
unvisited = 0xffffffff

-- A node and how many of its dependencies have been looked at.
abbrev pub Frame : Type 0
Frame = ℕ × ℕ

abbrev pub Graph : Type 0
Graph = List (List ℕ)

-- The local variables of `components`.
pub record Search : Type 0 where
  pub order : ℕ → ℕ
  pub low_link : ℕ → ℕ
  pub on_stack : ℕ → Bool
  pub stack : List ℕ
  pub found : List (List ℕ)
  pub next_order : ℕ
  pub frames : List Frame

abbrev pub update {ℓ} : {A : Type ℓ} → (ℕ → A) → ℕ → A → ℕ → A
update f i v j = if j == i then v else f j

abbrev pub min : ℕ → ℕ → ℕ
min a b = if ltb b a then b else a

abbrev pub start : Search
start = record {
  order = λ n. unvisited;
  low_link = λ n. 0;
  on_stack = λ n. false;
  stack = [];
  found = [];
  next_order = 0;
  frames = [];
}

-- The first visit of a node.
unfoldable pub visit : Search → ℕ → Search
visit s node = record s {
  order = update s.order node s.next_order;
  low_link = update s.low_link node s.next_order;
  on_stack = update s.on_stack node true;
  stack = node ∷ s.stack;
  next_order = (s.next_order + 1) % 2 ^ 32;
  frames = (node, 0) ∷ s.frames;
}

abbrev pub lower : Search → ℕ → ℕ → Search
lower s node bound = record s { low_link = update s.low_link node (min (s.low_link node) bound) }

-- The dependency `next` of `node` is looked at.
unfoldable pub look : Search → ℕ → ℕ → Search
unfolding visit
look s node next =
    if s.order next == unvisited
    then visit s next
    else if s.on_stack next
    then lower s node (s.order next)
    else s

-- `stack.pop()` until the node comes: what was popped, and the rest.
unfoldable pub pop_until : ℕ → List ℕ → List ℕ × List ℕ
pop_until node [] = ([], [])
pop_until node (member ∷ stack) =
    let (popped, rest) = pop_until node stack in
    if member == node then (member ∷ [], stack) else (member ∷ popped, rest)

unfoldable pub clear_all : (ℕ → Bool) → List ℕ → ℕ → Bool
clear_all on_stack [] = on_stack
clear_all on_stack (member ∷ popped) = clear_all (update on_stack member false) popped

-- `sort_unstable`, by insertion.
unfoldable pub insert_sorted : ℕ → List ℕ → List ℕ
insert_sorted x [] = x ∷ []
insert_sorted x (y ∷ ys) = let rest = insert_sorted x ys in if leb x y then x ∷ y ∷ ys else y ∷ rest

unfoldable pub sort : List ℕ → List ℕ
unfolding insert_sorted
sort [] = []
sort (x ∷ xs) = insert_sorted x (sort xs)

unfoldable pub emit : Search → ℕ → Search
unfolding pop_until clear_all sort
emit s node =
    let (popped, rest) = pop_until node s.stack in
    record s {
      on_stack = clear_all s.on_stack popped;
      stack = rest;
      found = s.found ++ sort popped ∷ [];
    }

-- The parent's link takes the node's over.
abbrev pub lowered : (ℕ → ℕ) → ℕ → List Frame → ℕ → ℕ
lowered low_link node [] = low_link
lowered low_link node ((parent, i) ∷ rest) =
    update low_link parent (min (low_link parent) (low_link node))

abbrev pub drop_frame : Search → ℕ → List Frame → Search
drop_frame s node rest = record s { low_link = lowered s.low_link node rest; frames = rest }

-- All dependencies of `node` have been looked at.
unfoldable pub finish : Search → ℕ → List Frame → Search
unfolding emit
finish s node rest =
    let t = drop_frame s node rest in if t.low_link node == t.order node then emit t node else t

module _ (dependencies : Graph) where
  abbrev pub advance : Search → ℕ → ℕ → List Frame → Option ℕ → Option Search
  advance s node i rest none = some (finish s node rest)
  advance s node i rest (some next) =
      if ltb next (length dependencies)
      then some (look (record s { frames = (node, suc i) ∷ rest }) node next)
      else none

  abbrev pub at_node : Search → ℕ → ℕ → List Frame → Option (List ℕ) → Option Search
  at_node s node i rest none = none
  at_node s node i rest (some targets) = advance s node i rest (get_elem? targets i)

  -- One round of `while let Some(frame) = frames.last_mut()`, for the frame that is last.
  unfoldable pub round : Search → Frame → List Frame → Option Search
  unfolding look finish
  round s (node, i) rest = at_node s node i rest (get_elem? dependencies node)

  abbrev pub and_then : Option Search → (Search → Option Search) → Option Search
  and_then none rec = none
  and_then (some s) rec = rec s

  abbrev pub run_frames : (Search → Option Search) → Search → List Frame → Option Search
  run_frames rec s [] = some s
  run_frames rec s (frame ∷ rest) = and_then (round s frame rest) rec

  unfoldable pub run : ℕ → Search → Option Search
  unfolding round
  run zero s = none
  run (suc fuel) s = run_frames (run fuel) s s.frames

  -- The loop over the roots, from `root` for `left` nodes.
  unfoldable pub search : ℕ → ℕ → ℕ → Search → Option Search
  unfolding run visit
  search fuel root zero s = some s
  search fuel root (suc left) s =
      if s.order root == unvisited
      then and_then (run fuel (visit s root)) (search fuel (suc root) left)
      else search fuel (suc root) left s

-- A visit, a step for each dependency and a last step for each node.
unfoldable pub enough : Graph → ℕ
enough [] = 1
enough (targets ∷ graph) = 2 + length targets + enough graph

abbrev pub found_of : Option Search → Option (List (List ℕ))
found_of none = none
found_of (some s) = some s.found

unfoldable pub components : Graph → Option (List (List ℕ))
unfolding search enough
components dependencies =
    found_of (search dependencies (enough dependencies) 0 (length dependencies) start)
