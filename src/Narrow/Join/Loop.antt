-- ===== src/Narrow/Join/Loop.antt =====
-- A loop of `join_states` returns, and what it keeps.
use ts_rust.Prelude.{
  ℕ, zero, suc, ◌+◌, ◌<◌, ◌≤◌, ◌^◌, ◌≡◌, refl, sym, subst, Bool, true, false, List, [], ◌∷◌, Option,
  none, some, length, get_elem?-lt, lt-length_of_get_elem?, arith, if◌then◌else◌, All, Bool-cases,
  inl, inr, ◌⊎◌,
}
use ts_rust.Types.{TypeId}
use ts_rust.Types.Equality.{Decides}
use ts_rust.Arena.{TypeArena}
use ts_rust.Arena.Read.Later.{Later}
use ts_rust.Arena.Union.Sound.{IsWell, IsUnionOf, alloc_union_lem, Later-self}
use ts_rust.Assoc.{find_value, IsUnique}
use ts_rust.Narrow.{NarrowState}
use ts_rust.Narrow.Join.{Joined, join_entry, join_entries}
use ts_rust.Narrow.Join.Told.{Told, Told-Later, Told-none, Later-trans, JoinedAs}

-- The types of entries are ids below `n`.
abbrev pub AllTypes : {K : Type 0} → ℕ → List (K × TypeId) → Type 0
AllTypes {K = K} n entries = All (λ (e : K × TypeId). e.1 < n) entries

-- An id of an arena is one of what it has grown to.
grown : (a b : TypeArena) (i : TypeId) → Later a b → i < length a.types → i < length b.types
grown a b i later h =
    let (ty, e) = get_elem?-lt a.types i h in lt-length_of_get_elem? b.types i (later.slots i ty e)

pub Later-length : (a b : TypeArena) → Later a b → length a.types ≤ length b.types
Later-length a b later = by_last (length a.types) (λ i. grown a b i later)
  where
    by_last : (n : ℕ) → ((i : TypeId) → i < n → i < length b.types) → n ≤ length b.types
    by_last zero h = omega arith
    by_last (suc n) h = h n (omega arith)

pub find-below :
    {K : Type 0} (eq : K → K → Bool) (k : K) (n : ℕ) (entries : List (K × TypeId)) (t : TypeId)
    → AllTypes n entries
    → find_value eq k entries ≡ some t
    → t < n
unfolding find_value
find-below eq k n [] t h e = cc
find-below eq k n ((j, w) ∷ entries) t h e = elim (Bool-cases (eq j k)) [
  | inl same ↦ subst (λ i. i < n) (some_inj (rw same at e)) h.0
  | inr differ ↦ find-below eq k n entries t h.1 (rw differ at e)
]
  where
    some_inj : some w ≡ some t → w ≡ t
    some_inj p = cc

-- One of the loops. `look_at` reads what is stored, and `Kept` is what storing keeps of the state.
module _ {Symbol K : Type 0} (digest : List TypeId → ℕ) (eq : K → K → Bool) (law : Decides eq)
    (look : K → Option TypeId) (store : NarrowState Symbol → K → TypeId → NarrowState Symbol)
    (n : ℕ) (look-below : (k : K) (u : TypeId) → look k ≡ some u → u < n)
    (look_at : NarrowState Symbol → K → Option TypeId)
    (look_at-store : (s : NarrowState Symbol) (k j : K) (t : TypeId)
      → look_at (store s k t) j ≡ (if eq k j then some t else look_at s j))
    (Kept : NarrowState Symbol → Type 0)
    (store-Kept : (s : NarrowState Symbol) (k : K) (t : TypeId) → Kept s → Kept (store s k t)) where
  -- The loop ends in a well-formed arena, grown by `left` slots at most, with a state that is told
  -- of each key what `now` says.
  abbrev pub Ends :
      ℕ → TypeArena → NarrowState Symbol → (K → Option TypeId) → Option (Joined Symbol) → Type 0
  Ends left a joined now r =
      (b : TypeArena) × (j : NarrowState Symbol) × (r ≡ some (b, j))
      × IsWell b
      × Later a b
      × (length b.types ≤ length a.types + left)
      × Kept j
      × ((y : K) → Told digest a b (look_at joined y) (now y) (look y) (look_at j y))

  one_entry :
      (a : TypeArena) (joined : NarrowState Symbol) (k : K) (t : TypeId) (r : Option TypeId)
      → look k ≡ r
      → IsWell a
      → n ≤ length a.types
      → length a.types < 2 ^ 32
      → t < n
      → Kept joined
      → Ends 1 a joined
          (λ y. if eq k y then some t else none)
          (join_entry digest look store a joined k t r)
  unfolding join_entry
  one_entry a joined k t none e well m room below kept =
      (a, joined, refl, well, Later-self a, omega arith, kept, λ y. by_test y (Bool-cases (eq k y)))
    where
      by_test :
          (y : K)
          → (eq k y ≡ true) ⊎ (eq k y ≡ false)
          → Told digest a a
              (look_at joined y)
              (if eq k y then some t else none)
              (look y)
              (look_at joined y)
      by_test y (inl same) = rw (same, subst (λ z. look z ≡ none) ((law k y).0 same) e) refl
      by_test y (inr differ) = rw differ refl
  one_entry a joined k t (some u) e well m room below kept =
      let (flat, (b, i, r, well', later, below', more, at), isunion) =
        alloc_union_lem digest a (t ∷ u ∷ []) well room (below_a, (look_a, tt)) in
      (
        b,
        store joined k i,
        rw r refl,
        well',
        later,
        omega (arith, more),
        store-Kept joined k i kept,
        λ y.
            by_test b i
              (
                a,
                b,
                r,
                Later-self a,
                Later-self b,
                subst (IsUnionOf a (t ∷ u ∷ [])) (sym at) isunion,
              )
              y (Bool-cases (eq k y)),
      )
    where
      below_a : t < length a.types
      below_a = omega arith

      look_a : u < length a.types
      look_a = omega (arith, look-below k u e)

      by_test :
          (b : TypeArena) (i : TypeId)
          → JoinedAs digest a b t u i
          → (y : K) → (eq k y ≡ true) ⊎ (eq k y ≡ false)
          → Told digest a b
              (look_at joined y)
              (if eq k y then some t else none)
              (look y)
              (look_at (store joined k i) y)
      by_test b i made y (inl same) =
          rw (look_at-store joined k y i, same, ← (law k y).0 same, e) (i, refl, made)
      by_test b i made y (inr differ) = rw (look_at-store joined k y i, differ) refl

  pub entries-Ends :
      (entries : List (K × TypeId)) (a : TypeArena) (joined : NarrowState Symbol)
      → IsWell a
      → n ≤ length a.types
      → length a.types + length entries ≤ 2 ^ 32
      → AllTypes n entries
      → IsUnique eq entries
      → Kept joined
      → Ends
          (length entries)
          a
          joined
          (λ y. find_value eq y entries)
          (join_entries digest look store entries a joined)
  unfolding join_entries find_value IsUnique
  entries-Ends [] a joined well m room below unique kept =
      (a, joined, refl, well, Later-self a, omega arith, kept, λ y. refl)
  entries-Ends ((k, t) ∷ entries) a joined well m room below unique kept =
      let (b, j, r, well', later, more, kept', now) =
        one_entry a joined k t (look k) refl well m (omega arith) below.0 kept in
      let (c, l, r', well'', later', more', kept'', now') =
        entries-Ends entries b j well' (omega (arith, Later-length a b later)) (omega (arith, more))
          below.1 unique.1 kept' in
      (
        c,
        l,
        rw r r',
        well'',
        Later-trans a b c later later',
        omega (arith, more, more'),
        kept'',
        λ y. by_test b j c l later later' y (now y) (now' y) (Bool-cases (eq k y)),
      )
    where
      by_test :
          (b : TypeArena) (j : NarrowState Symbol) (c : TypeArena) (l : NarrowState Symbol)
          → Later a b
          → Later b c
          → (y : K)
          → Told digest a b
              (look_at joined y)
              (if eq k y then some t else none)
              (look y)
              (look_at j y)
          → Told digest b c (look_at j y) (find_value eq y entries) (look y) (look_at l y)
          → (eq k y ≡ true) ⊎ (eq k y ≡ false)
          → Told digest a c
              (look_at joined y)
              (if eq k y then some t else find_value eq y entries)
              (look y)
              (look_at l y)
      by_test b j c l later later' y p q (inl same) =
          rw
            (
              same,
              Told-none digest b c (look_at j y) (find_value eq y entries) (look y) (look_at l y)
                  (rw (← (law k y).0 same) unique.0) q,
            )
            (Told-Later digest a a b c (look_at joined y) (some t) (look y) (look_at j y)
              (Later-self a) later' (rw same at p))
      by_test b j c l later later' y p q (inr differ) = rw differ (
          Told-Later digest a b c c (look_at joined y) (find_value eq y entries) (look y)
            (look_at l y) later (Later-self c) (rw (rw differ at p) at q))
