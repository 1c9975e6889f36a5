-- ===== src/Narrow/Join/Both.antt =====
-- What `join_states` knows is what both states know, of the union of both types.
use ts_rust.Prelude.{
  ℕ, ◌+◌, ◌≤◌, ◌^◌, ◌≡◌, refl, sym, ◌∙◌, ap, subst, Bool, List, [], Option, none, some, length,
  arith,
}
use ts_rust.Types.{TypeId}
use ts_rust.Types.Equality.{Decides}
use ts_rust.Arena.{TypeArena}
use ts_rust.Arena.Read.Later.{Later}
use ts_rust.Arena.Union.Sound.{IsWell, Later-self}
use ts_rust.Assoc.{find_value, IsUnique}
use ts_rust.Narrow.{PropertyPath, PathKey, NarrowState, same_key, get, insert, get_path}
use ts_rust.Narrow.State.{IsState, key, same_key-Decides, insert_lem, insert_path_lem}
use ts_rust.Narrow.Join.{join_entries, look_path, store_path, join_paths, join_states}
use ts_rust.Narrow.Join.Loop.{AllTypes, find-below, Later-length, entries-Ends}
use ts_rust.Narrow.Join.Told.{Later-trans, Told, Told-Later}

module _ {Symbol : Type 0} (same : Symbol → Symbol → Bool) (law : Decides same) where
  empty : NarrowState Symbol
  empty = record { symbols = []; paths = [] }

  -- What the loop over the symbols keeps, and the loop over the paths.
  KeptSymbols : NarrowState Symbol → Type 0
  KeptSymbols j = IsState same j × (j.paths ≡ [])

  blank : KeptSymbols empty
  unfolding KeptSymbols empty IsUnique
  blank = ((tt, tt), refl)

  store-KeptSymbols :
      (j : NarrowState Symbol) (x : Symbol) (t : TypeId)
      → KeptSymbols j
      → KeptSymbols (insert same j x t)
  unfolding KeptSymbols insert
  store-KeptSymbols j x t h = ((insert_lem same law j x t).2 h.0, h.1)

  KeptPaths : NarrowState Symbol → NarrowState Symbol → Type 0
  KeptPaths before j = IsState same j × ((y : Symbol) → get same j y ≡ get same before y)

  store-KeptPaths :
      (before j : NarrowState Symbol) (k : PathKey Symbol) (t : TypeId)
      → KeptPaths before j
      → KeptPaths before (store_path same j k t)
  unfolding KeptPaths
  store-KeptPaths before j k t h = (
    (insert_path_lem same law j k.symbol_id k.path t).2 h.0,
    λ y. (insert_path_lem same law j k.symbol_id k.path t).0 y ∙ h.1 y,
  )

  joins :
      (digest : List TypeId → ℕ) (s other : NarrowState Symbol) (a : TypeArena) {b c : TypeArena}
      {j l : NarrowState Symbol}
      → join_entries digest (get same other) (insert same) s.symbols a empty ≡ some (b, j)
      → join_entries digest (look_path same other) (store_path same) s.paths b j ≡ some (c, l)
      → join_states digest same s other a ≡ some (c, l)
  unfolding join_states empty
  joins digest s other a r r' = ap (join_paths digest same s other) r ∙ r'

  blank_path :
      (j : NarrowState Symbol) (k : PathKey Symbol) → j.paths ≡ [] → look_path same j k ≡ none
  unfolding get_path find_value
  blank_path j k e = rw e refl

-- What is known of a key where both states know it, and that nothing is known of any other.
abbrev pub Meets :
    (List TypeId → ℕ)
    → TypeArena
    → TypeArena
    → Option TypeId
    → Option TypeId
    → Option TypeId
    → Type 0
Meets digest a c f g new = Told digest a c none f g new

-- Where the equality of symbols is decided, let two states be given in a well-formed arena of which
-- their types are ids, with a slot free for each entry of the first, in which no key stands twice.
-- They join: nothing panics, the arena stays well-formed and keeps its slots, and no key stands twice
-- in the joined state. It knows a symbol or a path only if both states do, and then with a type that
-- `alloc_union` made of the two types they have for it: its alternatives are leaves of these two,
-- for each leaf of them one of its shape, and no two of one shape.
pub join_states_lem :
    {Symbol : Type 0} (same : Symbol → Symbol → Bool) (law : Decides same)
    (digest : List TypeId → ℕ) (s other : NarrowState Symbol) (a : TypeArena)
    → IsWell a
    → IsState same s
    → length a.types + (length s.symbols + length s.paths) ≤ 2 ^ 32
    → AllTypes (length a.types) s.symbols
    → AllTypes (length a.types) s.paths
    → AllTypes (length a.types) other.symbols
    → AllTypes (length a.types) other.paths
    → (c : TypeArena) × (j : NarrowState Symbol) × (join_states digest same s other a ≡ some (c, j))
      × IsWell c
      × Later a c
      × IsState same j
      × ((x : Symbol) → Meets digest a c (get same s x) (get same other x) (get same j x))
      × ((x : Symbol) (path : PropertyPath)
          → Meets digest a c
              (get_path same s x path)
              (get_path same other x path)
              (get_path same j x path))
unfolding get get_path find_value KeptSymbols KeptPaths empty
join_states_lem same law digest s other a well unique room symbols paths other_symbols other_paths =
    let (b, j, r, well', later, more, kept, now) =
      entries-Ends digest same law (get same other) (insert same) (length a.types)
        (λ x u e. find-below same x (length a.types) other.symbols u other_symbols e)
        (λ l x. get same l x) (λ l x y t. (insert_lem same law l x t).0 y) (KeptSymbols same law)
        (store-KeptSymbols same law) s.symbols a (empty same law) well (omega arith) (omega arith)
        symbols unique.0 (blank same law) in
    let (c, l, r', well'', later', more', kept', now') =
      entries-Ends digest (same_key same) (same_key-Decides same law) (look_path same other)
        (store_path same) (length a.types)
        (λ k u e. find-below (same_key same) k (length a.types) other.paths u other_paths e)
        (λ m k. look_path same m k)
        (λ m k y t. (insert_path_lem same law m k.symbol_id k.path t).1 y.symbol_id y.path)
        (KeptPaths same law j) (store-KeptPaths same law j) s.paths b j well'
        (Later-length a b later) (omega (arith, more)) paths unique.1 (kept.0, λ y. refl) in
    (
      c,
      l,
      joins same law digest s other a r r',
      well'',
      Later-trans a b c later later',
      kept'.0,
      λ x. subst (Meets digest a c (get same s x) (get same other x)) (sym (kept'.1 x)) (
          Told-Later digest a a b c none (get same s x) (get same other x) (get same j x)
            (Later-self a) later' (now x)),
      λ x path.
          Told-Later digest a b c c none (get_path same s x path) (get_path same other x path)
            (get_path same l x path) later (Later-self c)
            (subst
              (λ o.
                Told digest b c o (get_path same s x path) (get_path same other x path)
                  (get_path same l x path))
              (blank_path same law j (key same x path) kept.1) (now' (key same x path))),
    )
