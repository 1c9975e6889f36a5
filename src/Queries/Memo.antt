-- ===== src/Queries/Memo.antt =====
-- The cache never changes an answer.
use ts_rust.Prelude.{
  ℕ, ◌+◌, ◌%◌, ◌^◌, ◌<◌, ◌≡◌, refl, ◌∙◌, sym, ap, Bool, true, false, Option, none, some, ◌==◌, leb,
  if◌then◌else◌, arith, Bool-cases, Option-cases, inl, inr, Answers,
}
use ts_rust.Types.{TypeId}
use ts_rust.Relation.View.{View}
use ts_rust.Relation.Subtype
use ts_rust.Relation.Disjoint
use ts_rust.Relation.Disjoint.Levels.{is_disjoint_comm, is_disjoint_lem}
use ts_rust.Relation.Subtype.Decides.{is_subtype_total}
use ts_rust.Relation.Subtype.Equation.{is_subtype-fix}
use ts_rust.Queries.{
  Relation, subtype, disjoint, Key, key_eq, relation_eq, RelationCache, prepare, find_value, get,
  insert, cached_or, is_subtype, is_disjoint, disjoint_key,
}

-- The relation that a key asks about, computed.
abbrev pub answer : View → Key → Option Bool
answer v k = elim k.relation [
  | subtype ↦ Subtype.is_subtype v k.first k.second
  | disjoint ↦ Disjoint.is_disjoint v k.first k.second
]

-- Every entry is the answer.
abbrev pub IsCoherent : View → RelationCache → Type 0
IsCoherent v c = (k : Key) (b : Bool) → find_value k c.values ≡ some b → answer v k ≡ some b

key_eq→eq : (j k : Key) → key_eq j k ≡ true → j ≡ k
key_eq→eq j k h = λ i. record {
  relation = relations j.relation k.relation (ground arith) i;
  first = firsts i;
  second = seconds i;
}
  where
    relations : (r s : Relation) → relation_eq r s ≡ true → r ≡ s
    relations subtype subtype e = refl
    relations disjoint disjoint e = refl
    relations r s e = cc

    firsts : j.first ≡ k.first
    firsts = ground arith

    seconds : j.second ≡ k.second
    seconds = ground arith

-- What a question leaves: the computed answer, a coherent cache, and the generation.
abbrev pub Asked : View → RelationCache → Option Bool → Option (RelationCache × Bool) → Type 0
Asked v c computed r =
    (d : RelationCache) × (b : Bool) × (r ≡ some (d, b))
    × (computed ≡ some b)
    × IsCoherent v d
    × (d.generation ≡ c.generation)

module _ (v : View) (c : RelationCache) (coherent : IsCoherent v c) where
  pub insert-IsCoherent : (k : Key) (b : Bool) → answer v k ≡ some b → IsCoherent v (insert c k b)
  unfolding insert find_value
  insert-IsCoherent k b e j d h = elim (Bool-cases (key_eq k j)) [
    | inl same ↦ sym (ap (answer v) (key_eq→eq k j same)) ∙ e ∙ (rw same at h)
    | inr differ ↦ coherent j d (rw differ at h)
  ]

  asked :
      (k : Key) (computed : Option Bool)
      → Answers computed
      → answer v k ≡ computed
      → Asked v c computed (cached_or k computed (get c k))
  unfolding get insert
  asked k computed (b, total) same = elim (Option-cases (find_value k c.values)) [
    | inl miss ↦
        rw (miss, total)
          (
            insert (record c { misses = (c.misses + 1) % 2 ^ 64 }) k b,
            b,
            refl,
            refl,
            λ j d h. insert-IsCoherent k b (same ∙ total) j d h,
            refl,
          )
    | inr (d, hit) ↦ rw hit (
      record c { hits = (c.hits + 1) % 2 ^ 64 },
      d,
      refl,
      sym same ∙ coherent k d hit,
      λ j e h. coherent j e h,
      refl,
    )
  ]

-- On a cache of right answers and for two ids of the arena, the memoised `is_subtype` returns what
-- the relation itself returns, leaves a cache of right answers, and keeps its generation.
pub is_subtype_memo :
    (v : View) (c : RelationCache) (a b : TypeId)
    → IsCoherent v c
    → a < v.size
    → b < v.size
    → Asked v c (Subtype.is_subtype v a b) (is_subtype v c a b)
unfolding is_subtype
is_subtype_memo v c a b coherent h k = elim (Bool-cases (Subtype.is_trivial_subtype v a b)) [
  | inl easy ↦ rw easy (c, true, refl, is_subtype-fix v a b h k ∙ rw easy, coherent, refl)
  | inr hard ↦ rw hard (
      asked v c coherent (record { relation = subtype; first = a; second = b })
        (Subtype.is_subtype v a b) (is_subtype_total v a b h k) refl)
]

-- On a cache of right answers, the memoised `is_disjoint`, which keeps one entry for both orders
-- of the two ids, returns what the relation itself returns, leaves a cache of right answers, and
-- keeps its generation.
pub is_disjoint_memo :
    (v : View) (c : RelationCache) (a b : TypeId)
    → IsCoherent v c
    → Asked v c (Disjoint.is_disjoint v a b) (is_disjoint v c a b)
unfolding is_disjoint
is_disjoint_memo v c a b coherent =
    asked v c coherent (disjoint_key v a b) (Disjoint.is_disjoint v a b) (_, is_disjoint_lem v a b)
      (in_order (leb a b))
  where
    in_order :
        (r : Bool)
        → answer v (
            if r
            then record { relation = disjoint; first = a; second = b }
            else record { relation = disjoint; first = b; second = a })
          ≡ Disjoint.is_disjoint v a b
    in_order true = refl
    in_order false = is_disjoint_comm v b a

-- If a cache of the arena's own generation has right answers, then any cache has right answers
-- after `prepare`, and the arena's generation.
pub prepare_lem :
    (v : View) (c : RelationCache) (generation : ℕ)
    → (c.generation ≡ generation → IsCoherent v c)
    → IsCoherent v (prepare c generation) × ((prepare c generation).generation ≡ generation)
unfolding prepare find_value
prepare_lem v c generation h = elim (Bool-cases (c.generation == generation)) [
  | inl same ↦ rw same (h (ground arith), ground arith)
  | inr differ ↦ rw differ (λ k b e. absurd (nothing e), refl)
]
  where
    nothing : {b : Bool} → none ≡ some b → ⊥
    nothing e = cc
