-- ===== src/Narrow/State.antt =====
-- What insertion into a `NarrowState` changes, and what it leaves.
use ts_rust.Prelude.{
  ◌≡◌, refl, ◌∙◌, ap, Bool, true, ◌&&◌, List, [], ◌∷◌, Option, none, some, arith, if◌then◌else◌,
  Bool-cases, inl, inr,
}
use ts_rust.Types.{TypeId}
use ts_rust.Types.Names.{ids_eq, ids_eq_iff}
use ts_rust.Types.Equality.{Decides, list_eq, list_eq-Decides}
use ts_rust.Assoc.{find_value, IsUnique, or_first, find-put, put-IsUnique}
use ts_rust.Narrow.{
  PropertyPath, PathKey, NarrowState, same_key, get, insert, get_path, insert_path, insert_all,
  insert_all_paths, extend,
}

module _ {Symbol : Type 0} (same : Symbol → Symbol → Bool) where
  -- No symbol and no path stands twice.
  abbrev pub IsState : NarrowState Symbol → Type 0
  IsState s = IsUnique same s.symbols × IsUnique (same_key same) s.paths

  abbrev pub key : Symbol → PropertyPath → PathKey Symbol
  key x path = record { symbol_id = x; path = path }

module _ {Symbol : Type 0} (same : Symbol → Symbol → Bool) (law : Decides same) where
  pub same_key-Decides : Decides (same_key same)
  unfolding same_key
  same_key-Decides k j = (to, from)
    where
      paths : Decides (list_eq ids_eq)
      paths = list_eq-Decides ids_eq (λ a b. ids_eq_iff a b)

      to : same k.symbol_id j.symbol_id && list_eq ids_eq k.path j.path ≡ true → k ≡ j
      to h = λ i. record { symbol_id = symbols i; path = rest i }
        where
          symbols : k.symbol_id ≡ j.symbol_id
          symbols = ground (arith, law k.symbol_id j.symbol_id)

          rest : k.path ≡ j.path
          rest = ground (arith, paths k.path j.path)

      from : k ≡ j → same k.symbol_id j.symbol_id && list_eq ids_eq k.path j.path ≡ true
      from e =
          rw (← e)
            (ground (arith, (law k.symbol_id k.symbol_id).1 refl, (paths k.path k.path).1 refl))

  -- An inserted symbol has its type, and nothing else changes.
  pub insert_lem :
      (s : NarrowState Symbol) (x : Symbol) (t : TypeId)
      → ((y : Symbol)
          → get same (insert same s x t) y ≡ (if same x y then some t else get same s y))
        × ((y : Symbol) (path : PropertyPath)
            → get_path same (insert same s x t) y path ≡ get_path same s y path)
        × (IsState same s → IsState same (insert same s x t))
  unfolding get insert get_path
  insert_lem s x t = (
    λ y. find-put same law x y t s.symbols,
    λ y path. refl,
    λ h. (put-IsUnique same law x t s.symbols h.0, h.1),
  )

  -- An inserted path has its type, and nothing else changes.
  pub insert_path_lem :
      (s : NarrowState Symbol) (x : Symbol) (path : PropertyPath) (t : TypeId)
      → ((y : Symbol) → get same (insert_path same s x path t) y ≡ get same s y)
        × ((y : Symbol) (other : PropertyPath)
            → get_path same (insert_path same s x path t) y other ≡ (
                if same_key same (key same x path) (key same y other)
                then some t
                else get_path same s y other))
        × (IsState same s → IsState same (insert_path same s x path t))
  unfolding get insert_path get_path
  insert_path_lem s x path t = (
    λ y. refl,
    λ y other.
        find-put (same_key same) same_key-Decides (key same x path) (key same y other) t s.paths,
    λ h. (h.0, put-IsUnique (same_key same) same_key-Decides (key same x path) t s.paths h.1),
  )

  -- Put one after the other, the entries of a list with no key twice win over those before.
  join_tests :
      (x y : Symbol) (t : TypeId) (before after : Option TypeId)
      → (same x y ≡ true → after ≡ none)
      → or_first same (if same x y then some t else before) after
        ≡ or_first same before (if same x y then some t else after)
  join_tests x y t before after h = elim (Bool-cases (same x y)) [
    | inl e ↦ rw (e, h e) refl
    | inr e ↦ rw e refl
  ]

  insert_all-get :
      (entries : List (Symbol × TypeId)) (s : NarrowState Symbol) (y : Symbol)
      → IsUnique same entries
      → get same (insert_all same s entries) y
        ≡ or_first same (get same s y) (find_value same y entries)
  unfolding insert_all IsUnique find_value
  insert_all-get [] s y h = refl
  insert_all-get ((x, t) ∷ entries) s y h =
      insert_all-get entries (insert same s x t) y h.1
      ∙ ap (λ r. or_first same r (find_value same y entries)) ((insert_lem s x t).0 y)
      ∙ join_tests x y t (get same s y) (find_value same y entries) (λ e. rw (← (law x y).0 e) h.0)

  insert_all-rest :
      (entries : List (Symbol × TypeId)) (s : NarrowState Symbol)
      → ((y : Symbol) (path : PropertyPath)
          → get_path same (insert_all same s entries) y path ≡ get_path same s y path)
        × (IsState same s → IsState same (insert_all same s entries))
  unfolding insert_all
  insert_all-rest [] s = (λ y path. refl, λ h. h)
  insert_all-rest ((x, t) ∷ entries) s = (
    λ y path. (insert_all-rest entries (insert same s x t)).0 y path ∙ (insert_lem s x t).1 y path,
    λ h. (insert_all-rest entries (insert same s x t)).1 ((insert_lem s x t).2 h),
  )

  join_key_tests :
      (k j : PathKey Symbol) (t : TypeId) (before after : Option TypeId)
      → (same_key same k j ≡ true → after ≡ none)
      → or_first same (if same_key same k j then some t else before) after
        ≡ or_first same before (if same_key same k j then some t else after)
  join_key_tests k j t before after h = elim (Bool-cases (same_key same k j)) [
    | inl e ↦ rw (e, h e) refl
    | inr e ↦ rw e refl
  ]

  insert_all_paths-get :
      (entries : List (PathKey Symbol × TypeId)) (s : NarrowState Symbol) (y : Symbol)
      (other : PropertyPath)
      → IsUnique (same_key same) entries
      → get_path same (insert_all_paths same s entries) y other
        ≡ or_first same
            (get_path same s y other)
            (find_value (same_key same) (key same y other) entries)
  unfolding insert_all_paths IsUnique find_value
  insert_all_paths-get [] s y other h = refl
  insert_all_paths-get ((k, t) ∷ entries) s y other h =
      insert_all_paths-get entries (insert_path same s k.symbol_id k.path t) y other h.1
      ∙ ap (λ r. or_first same r (find_value (same_key same) (key same y other) entries))
          ((insert_path_lem s k.symbol_id k.path t).1 y other)
      ∙ join_key_tests k (key same y other) t (get_path same s y other)
          (find_value (same_key same) (key same y other) entries)
          (λ e. rw (← (same_key-Decides k (key same y other)).0 e) h.0)

  insert_all_paths-rest :
      (entries : List (PathKey Symbol × TypeId)) (s : NarrowState Symbol)
      → ((y : Symbol) → get same (insert_all_paths same s entries) y ≡ get same s y)
        × (IsState same s → IsState same (insert_all_paths same s entries))
  unfolding insert_all_paths
  insert_all_paths-rest [] s = (λ y. refl, λ h. h)
  insert_all_paths-rest ((k, t) ∷ entries) s = (
    λ y.
        (insert_all_paths-rest entries (insert_path same s k.symbol_id k.path t)).0 y
        ∙ (insert_path_lem s k.symbol_id k.path t).0 y,
    λ h.
        (insert_all_paths-rest entries (insert_path same s k.symbol_id k.path t)).1
          ((insert_path_lem s k.symbol_id k.path t).2 h),
  )

  -- Where the equality of symbols is decided, a state extended by one with no key twice knows what
  -- that one knows, and for the rest what it knew; and it has no key twice if it had none.
  pub extend_lem :
      (s other : NarrowState Symbol)
      → IsState same other
      → ((y : Symbol)
          → get same (extend same s other) y ≡ or_first same (get same s y) (get same other y))
        × ((y : Symbol) (path : PropertyPath)
            → get_path same (extend same s other) y path
              ≡ or_first same (get_path same s y path) (get_path same other y path))
        × (IsState same s → IsState same (extend same s other))
  unfolding extend
  extend_lem s other h = (
    λ y.
        (insert_all_paths-rest other.paths (insert_all same s other.symbols)).0 y
        ∙ insert_all-get other.symbols s y h.0
        ∙ unfold get in refl,
    λ y path.
        insert_all_paths-get other.paths (insert_all same s other.symbols) y path h.1
        ∙ ap (λ r. or_first same r (find_value (same_key same) (key same y path) other.paths))
            ((insert_all-rest other.symbols s).0 y path)
        ∙ unfold get_path in refl,
    λ k.
        (insert_all_paths-rest other.paths (insert_all same s other.symbols)).1
          ((insert_all-rest other.symbols s).1 k),
  )
