-- ===== src/Narrow/Removal.antt =====
-- What removal from a `NarrowState` leaves.
use ts_rust.Prelude.{
  ◌≡◌, refl, ◌∙◌, Bool, false, ◌&&◌, not, List, [], ◌∷◌, none, arith, if◌then◌else◌, filter, any,
}
use ts_rust.Types.{TypeId}
use ts_rust.Types.Equality.{Decides}
use ts_rust.Assoc.{find_value, IsUnique, eq_self, find-filter, filter-IsUnique}
use ts_rust.Narrow.{
  PropertyPath, PathKey, NarrowState, starts_with, same_key, get, get_path, mentions, remove,
  remove_paths_of, remove_path_prefix, for_closure,
}
use ts_rust.Narrow.State.{IsState, key, same_key-Decides}

module _ {Symbol : Type 0} (same : Symbol → Symbol → Bool) (law : Decides same) where
  none_left {κ} :
      {A : Type κ} (p : A → Bool) (xs : List A) → any p (filter (λ x. not (p x)) xs) ≡ false
  none_left p [] = refl
  none_left p (x ∷ xs) = ground (arith, none_left p xs)

  -- Where the equality of symbols is decided, a symbol that was removed is mentioned no more, nor
  -- is any path below it; every other symbol and path keeps what is known of it, and no key stands
  -- twice if none did.
  pub remove_lem :
      (s : NarrowState Symbol) (x : Symbol)
      → (mentions same (remove same s x) x ≡ false)
        × ((y : Symbol)
            → get same (remove same s x) y ≡ (if not (same y x) then get same s y else none))
        × ((y : Symbol) (path : PropertyPath)
            → get_path same (remove same s x) y path
              ≡ (if not (same y x) then get_path same s y path else none))
        × (IsState same s → IsState same (remove same s x))
  unfolding remove remove_paths_of get get_path mentions
  remove_lem s x = (
    gone,
    λ y. find-filter same law (λ z. not (same z x)) y s.symbols,
    λ y path.
        find-filter (same_key same) (same_key-Decides same law) (λ k. not (same k.symbol_id x))
          (key same y path) s.paths,
    λ h. (
      filter-IsUnique same law (λ z. not (same z x)) s.symbols h.0,
      filter-IsUnique (same_key same) (same_key-Decides same law) (λ k. not (same k.symbol_id x))
          s.paths h.1,
    ),
  )
    where
      unknown :
          find_value same x (filter (λ (e : Symbol × TypeId). not (same e.0 x)) s.symbols) ≡ none
      unknown =
          find-filter same law (λ z. not (same z x)) x s.symbols ∙ rw (eq_self same law x) refl

      gone : mentions same (remove same s x) x ≡ false
      gone = rw unknown (none_left (λ (e : PathKey Symbol × TypeId). same e.0.symbol_id x) s.paths)

  -- Where the equality of symbols is decided, to remove a path ends what is known of it and of the
  -- paths below it; every symbol and every other path keeps what is known of it, and no key stands
  -- twice if none did.
  pub remove_path_prefix_lem :
      (s : NarrowState Symbol) (x : Symbol) (path : PropertyPath)
      → ((y : Symbol) → get same (remove_path_prefix same s x path) y ≡ get same s y)
        × ((y : Symbol) (other : PropertyPath)
            → get_path same (remove_path_prefix same s x path) y other ≡ (
                if not (same y x && starts_with other path) then get_path same s y other else none))
        × (IsState same s → IsState same (remove_path_prefix same s x path))
  unfolding remove_path_prefix get get_path
  remove_path_prefix_lem s x path = (
    λ y. refl,
    λ y other.
        find-filter (same_key same) (same_key-Decides same law)
          (λ k. not (same k.symbol_id x && starts_with k.path path)) (key same y other) s.paths,
    λ h. (
      h.0,
      filter-IsUnique (same_key same) (same_key-Decides same law)
          (λ k. not (same k.symbol_id x && starts_with k.path path)) s.paths h.1,
    ),
  )

  -- A closure keeps the symbols that it is let keep, and no path.
  pub for_closure_lem :
      (s : NarrowState Symbol) (keep : Symbol → Bool)
      → ((y : Symbol)
          → get same (for_closure same s keep) y ≡ (if keep y then get same s y else none))
        × ((y : Symbol) (path : PropertyPath)
            → get_path same (for_closure same s keep) y path ≡ none)
        × (IsState same s → IsState same (for_closure same s keep))
  unfolding for_closure get get_path find_value IsUnique
  for_closure_lem s keep = (
    λ y. find-filter same law keep y s.symbols,
    λ y path. refl,
    λ h. (filter-IsUnique same law keep s.symbols h.0, tt),
  )
