-- ===== src/Narrow.antt =====
-- src/bridge/narrow.rs: what a branch knows of its variables and of property paths below them. The
-- symbols are those of the semantic analysis; here only their equality, the parameter `same`, is used.
pub mod State
pub mod Removal
pub mod Join
pub mod Members
pub mod Values
pub mod Each
pub mod Property
pub mod Compare
use ts_rust.Prelude.{
  ℕ, Bool, true, false, ◌&&◌, ◌||◌, not, List, [], ◌∷◌, Option, none, some, length, ◌==◌, any, all,
  filter, is_empty, if◌then◌else◌,
}
use ts_rust.Types.{TypeId, Name}
use ts_rust.Types.Names.{ids_eq}
use ts_rust.Types.Equality.{list_eq}
use ts_rust.Assoc.{find_value, put}

abbrev pub PropertyPath : Type 0
PropertyPath = List Name

-- The key of a `PathEntry`; an entry is a key and the type.
pub record PathKey (Symbol : Type 0) : Type 0 where
  pub symbol_id : Symbol
  pub path : PropertyPath

pub record NarrowState (Symbol : Type 0) : Type 0 where
  pub symbols : List (Symbol × TypeId)
  pub paths : List (PathKey Symbol × TypeId)

-- `path.starts_with(prefix)`.
unfoldable pub starts_with : PropertyPath → PropertyPath → Bool
unfolding ids_eq
starts_with path [] = true
starts_with [] (name ∷ prefix) = false
starts_with (other ∷ path) (name ∷ prefix) = ids_eq other name && starts_with path prefix

abbrev pub is_type : TypeId → Option TypeId → Bool
is_type ty none = false
is_type ty (some other) = other == ty

abbrev pub is_known : Option TypeId → Bool
is_known none = false
is_known (some t) = true

module _ {Symbol : Type 0} (same : Symbol → Symbol → Bool) where
  unfoldable pub same_key : PathKey Symbol → PathKey Symbol → Bool
  unfolding list_eq ids_eq
  same_key k j = same k.symbol_id j.symbol_id && list_eq ids_eq k.path j.path

  unfoldable pub get : NarrowState Symbol → Symbol → Option TypeId
  unfolding find_value
  get s x = find_value same x s.symbols

  unfoldable pub insert : NarrowState Symbol → Symbol → TypeId → NarrowState Symbol
  unfolding put
  insert s x t = record s { symbols = put same x t s.symbols }

  unfoldable pub get_path : NarrowState Symbol → Symbol → PropertyPath → Option TypeId
  unfolding find_value same_key
  get_path s x path = find_value same_key (record { symbol_id = x; path = path }) s.paths

  unfoldable pub insert_path :
      NarrowState Symbol → Symbol → PropertyPath → TypeId → NarrowState Symbol
  unfolding put same_key
  insert_path s x path t = record s {
    paths = put same_key (record { symbol_id = x; path = path }) t s.paths;
  }

  unfoldable pub insert_all : NarrowState Symbol → List (Symbol × TypeId) → NarrowState Symbol
  unfolding insert
  insert_all s [] = s
  insert_all s ((x, t) ∷ entries) = insert_all (insert s x t) entries

  unfoldable pub insert_all_paths :
      NarrowState Symbol → List (PathKey Symbol × TypeId) → NarrowState Symbol
  unfolding insert_path
  insert_all_paths s [] = s
  insert_all_paths s ((k, t) ∷ entries) =
      insert_all_paths (insert_path s k.symbol_id k.path t) entries

  unfoldable pub extend : NarrowState Symbol → NarrowState Symbol → NarrowState Symbol
  unfolding insert_all insert_all_paths
  extend s other = insert_all_paths (insert_all s other.symbols) other.paths

  unfoldable pub has_paths : NarrowState Symbol → Bool
  has_paths s = not (is_empty s.paths)

  unfoldable pub mentions : NarrowState Symbol → Symbol → Bool
  unfolding get
  mentions s x =
      is_known (get s x) || any (λ (e : PathKey Symbol × TypeId). same e.0.symbol_id x) s.paths

  unfoldable pub remove_paths_of : NarrowState Symbol → Symbol → NarrowState Symbol
  remove_paths_of s x = record s {
    paths = filter (λ (e : PathKey Symbol × TypeId). not (same e.0.symbol_id x)) s.paths;
  }

  unfoldable pub remove : NarrowState Symbol → Symbol → NarrowState Symbol
  unfolding remove_paths_of
  remove s x =
      remove_paths_of
        (record s { symbols = filter (λ (e : Symbol × TypeId). not (same e.0 x)) s.symbols }) x

  unfoldable pub remove_path_prefix :
      NarrowState Symbol → Symbol → PropertyPath → NarrowState Symbol
  unfolding starts_with
  remove_path_prefix s x path = record s {
    paths =
        filter
          (λ (e : PathKey Symbol × TypeId). not (same e.0.symbol_id x && starts_with e.0.path path))
          s.paths;
  }

  unfoldable pub for_closure : NarrowState Symbol → (Symbol → Bool) → NarrowState Symbol
  for_closure s keep = record {
    symbols = filter (λ (e : Symbol × TypeId). keep e.0) s.symbols;
    paths = [];
  }

  unfoldable pub same_as : NarrowState Symbol → NarrowState Symbol → Bool
  unfolding get get_path
  same_as s other =
      length s.symbols == length other.symbols
      && length s.paths == length other.paths
      && all (λ (e : Symbol × TypeId). is_type e.1 (get other e.0)) s.symbols
      && all (λ (e : PathKey Symbol × TypeId). is_type e.1 (get_path other e.0.symbol_id e.0.path))
          s.paths
