-- ===== src/Queries.antt =====
-- src/semantic/queries.rs: the semantic questions of the checker, memoised by relation and pair of
-- ids in a cache that belongs to one generation of the arena. `none` is as in the relations.
pub mod Memo
pub mod Session
use ts_rust.Prelude.{
  ℕ, ◌+◌, ◌%◌, ◌^◌, Bool, true, false, ◌&&◌, List, [], ◌∷◌, Option, none, some, length, ◌==◌, leb,
  not, if◌then◌else◌,
}
use ts_rust.Types.{TypeId}
use ts_rust.Relation.View.{View}
use ts_rust.Relation.Subtype
use ts_rust.Relation.Disjoint

pub data Relation : Type 0 where
  subtype : Relation
  disjoint : Relation

abbrev pub relation_eq : Relation → Relation → Bool
relation_eq subtype subtype = true
relation_eq disjoint disjoint = true
relation_eq _ _ = false

pub record Key : Type 0 where
  pub relation : Relation
  pub first : TypeId
  pub second : TypeId

abbrev pub key_eq : Key → Key → Bool
key_eq k j = relation_eq k.relation j.relation && k.first == j.first && k.second == j.second

pub record RelationCache : Type 0 where
  pub generation : ℕ
  pub values : List (Key × Bool)
  pub hits : ℕ
  pub misses : ℕ

pub record QueryStats : Type 0 where
  pub relation_hits : ℕ
  pub relation_misses : ℕ
  pub relation_entries : ℕ

abbrev pub empty_cache : RelationCache
empty_cache = record { generation = 0; values = []; hits = 0; misses = 0 }

unfoldable pub prepare : RelationCache → ℕ → RelationCache
prepare c generation =
    if not (c.generation == generation)
    then record c { values = []; generation = generation }
    else c

unfoldable pub find_value : Key → List (Key × Bool) → Option Bool
find_value k [] = none
find_value k ((j, b) ∷ m) = if key_eq j k then some b else find_value k m

-- `+= 1` on a `u64` counter, as a release build does it.
abbrev pub count : ℕ → ℕ
count n = (n + 1) % 2 ^ 64

abbrev pub counted : RelationCache → Option Bool → RelationCache
counted c (some _) = record c { hits = count c.hits }
counted c none = record c { misses = count c.misses }

-- `RelationCache::get`.
unfoldable pub get : RelationCache → Key → RelationCache × Option Bool
get c k = let found = find_value k c.values in (counted c found, found)

-- `RelationCache::insert` of a key that has no entry yet, as it is called.
unfoldable pub insert : RelationCache → Key → Bool → RelationCache
insert c k b = record c { values = (k, b) ∷ c.values }

unfoldable pub stats : RelationCache → QueryStats
stats c = record {
  relation_hits = c.hits;
  relation_misses = c.misses;
  relation_entries = length c.values;
}

abbrev pub remember : RelationCache → Key → Option Bool → Option (RelationCache × Bool)
remember c k none = none
remember c k (some b) = some (insert c k b, b)

-- The cached answer, or the computed one, which is then kept.
abbrev pub cached_or :
    Key → Option Bool → RelationCache × Option Bool → Option (RelationCache × Bool)
cached_or k computed (c, some cached) = some (c, cached)
cached_or k computed (c, none) = remember c k computed

module _ (v : View) where
  unfoldable pub is_subtype : RelationCache → TypeId → TypeId → Option (RelationCache × Bool)
  is_subtype c source target =
      if Subtype.is_trivial_subtype v source target
      then some (c, true)
      else let key : Key = record { relation = subtype; first = source; second = target } in
        cached_or key (Subtype.is_subtype v source target) (get c key)

  unfoldable pub is_assignable : RelationCache → TypeId → TypeId → Option (RelationCache × Bool)
  unfolding is_subtype
  is_assignable c source target = is_subtype c source target

  -- The two ids in a fixed order.
  abbrev pub disjoint_key : TypeId → TypeId → Key
  disjoint_key a b =
      if leb a b
      then record { relation = disjoint; first = a; second = b }
      else record { relation = disjoint; first = b; second = a }

  unfoldable pub is_disjoint : RelationCache → TypeId → TypeId → Option (RelationCache × Bool)
  is_disjoint c a b =
      let key = disjoint_key a b in cached_or key (Disjoint.is_disjoint v a b) (get c key)
