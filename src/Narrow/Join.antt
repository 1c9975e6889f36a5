-- ===== src/Narrow/Join.antt =====
-- `join_states` of src/bridge/narrow.rs: what is known after two paths of control meet. Its two loops,
-- over the symbols and over the paths, are one here, `join_entries`, with the look-up in the other
-- state and the insertion as arguments.
pub mod Told
pub mod Loop
pub mod Both
use ts_rust.Prelude.{ℕ, Bool, List, [], ◌∷◌, Option, none, some}
use ts_rust.Types.{TypeId}
use ts_rust.Arena.{TypeArena}
use ts_rust.Arena.Union.{alloc_union}
use ts_rust.Narrow.{PropertyPath, PathKey, NarrowState, get, insert, get_path, insert_path}

abbrev pub Joined : Type 0 → Type 0
Joined Symbol = TypeArena × NarrowState Symbol

module _ {Symbol : Type 0} (same : Symbol → Symbol → Bool) where
  abbrev pub look_path : NarrowState Symbol → PathKey Symbol → Option TypeId
  look_path s k = get_path same s k.symbol_id k.path

  abbrev pub store_path : NarrowState Symbol → PathKey Symbol → TypeId → NarrowState Symbol
  store_path s k t = insert_path same s k.symbol_id k.path t

module _ {Symbol : Type 0} (digest : List TypeId → ℕ) where
  module _ {K : Type 0} (look : K → Option TypeId)
      (store : NarrowState Symbol → K → TypeId → NarrowState Symbol) where
    abbrev pub put_entry :
        NarrowState Symbol → K → Option (TypeArena × TypeId) → Option (Joined Symbol)
    put_entry joined k none = none
    put_entry joined k (some (a, t)) = some (a, store joined k t)

    -- One entry: kept with the union of its two types if the other path narrows it too.
    unfoldable pub join_entry :
        TypeArena → NarrowState Symbol → K → TypeId → Option TypeId → Option (Joined Symbol)
    join_entry a joined k t none = some (a, joined)
    join_entry a joined k t (some u) = put_entry joined k (alloc_union digest a (t ∷ u ∷ []))

    abbrev pub and_then :
        (TypeArena → NarrowState Symbol → Option (Joined Symbol))
        → Option (Joined Symbol)
        → Option (Joined Symbol)
    and_then rec none = none
    and_then rec (some (a, joined)) = rec a joined

    unfoldable pub join_entries :
        List (K × TypeId) → TypeArena → NarrowState Symbol → Option (Joined Symbol)
    unfolding join_entry
    join_entries [] a joined = some (a, joined)
    join_entries ((k, t) ∷ entries) a joined =
        and_then (join_entries entries) (join_entry a joined k t (look k))

  module _ (same : Symbol → Symbol → Bool) where
    abbrev pub join_paths :
        NarrowState Symbol → NarrowState Symbol → Option (Joined Symbol) → Option (Joined Symbol)
    join_paths s other none = none
    join_paths s other (some (a, joined)) =
        join_entries (look_path same other) (store_path same) s.paths a joined

    unfoldable pub join_states :
        NarrowState Symbol → NarrowState Symbol → TypeArena → Option (Joined Symbol)
    unfolding join_entries
    join_states s other a = join_paths s other (
        join_entries (get same other) (insert same) s.symbols a
          (record { symbols = []; paths = [] }))
