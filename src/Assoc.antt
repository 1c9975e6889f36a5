-- ===== src/Assoc.antt =====
-- Small association lists: an entry is found by its key, and a value is put in its entry's place, or
-- at the end where there is none.
use ts_rust.Prelude.{
  ◌≡◌, refl, ◌∙◌, sym, ap, Bool, true, false, List, [], ◌∷◌, Option, none, some, arith,
  if◌then◌else◌, filter, Bool-cases, inl, inr,
}
use ts_rust.Types.Equality.{Decides}

pub eq_self : {K : Type 0} (eq : K → K → Bool) (law : Decides eq) (k : K) → eq k k ≡ true
eq_self eq law k = (law k k).1 refl

module _ {K V : Type 0} (eq : K → K → Bool) where
  unfoldable pub find_value : K → List (K × V) → Option V
  find_value k [] = none
  find_value k ((j, w) ∷ m) = if eq j k then some w else find_value k m

  unfoldable pub put : K → V → List (K × V) → List (K × V)
  put k v [] = (k, v) ∷ []
  put k v ((j, w) ∷ m) = let rest = put k v m in if eq j k then (j, v) ∷ m else (j, w) ∷ rest

  -- No key stands twice.
  unfoldable pub IsUnique : List (K × V) → Type 0
  unfolding find_value
  IsUnique [] = Unit
  IsUnique ((k, v) ∷ m) = (find_value k m ≡ none) × IsUnique m

  -- The value of the second, and that of the first where it has none.
  abbrev pub or_first : Option V → Option V → Option V
  or_first before (some v) = some v
  or_first before none = before

  module _ (law : Decides eq) where
    -- An entry's value is found under its key, and no other key's changes.
    pub find-put :
        (k j : K) (v : V) (m : List (K × V))
        → find_value j (put k v m) ≡ (if eq k j then some v else find_value j m)
    unfolding find_value put
    find-put k j v [] = refl
    find-put k j v ((i, w) ∷ m) = elim (Bool-cases (eq i k)) [
      | inl same ↦ rw (same, (law i k).0 same) (by_test (eq k j))
      | inr differ ↦ rw (differ, find-put k j v m) (order (eq i j) (eq k j) (clash differ))
    ]
      where
        by_test :
            (b : Bool)
            → (if b then some v else find_value j m)
              ≡ (if b then some v else if b then some w else find_value j m)
        by_test true = refl
        by_test false = refl

        clash : eq i k ≡ false → eq i j ≡ true → eq k j ≡ true → ⊥
        clash d p q = cc (d, sym p ∙ ap (eq i) (sym ((law k j).0 q)))

        order :
            (b c : Bool)
            → (b ≡ true → c ≡ true → ⊥)
            → (if b then some w else if c then some v else find_value j m)
              ≡ (if c then some v else if b then some w else find_value j m)
        order true true h = absurd (h refl refl)
        order true false h = refl
        order false c h = refl

    -- A filter that asks only of the key.
    pub find-filter :
        (keep : K → Bool) (k : K) (m : List (K × V))
        → find_value k (filter (λ (e : K × V). keep e.0) m)
          ≡ (if keep k then find_value k m else none)
    unfolding find_value
    find-filter keep k [] = ground arith
    find-filter keep k ((i, w) ∷ m) = elim (Bool-cases (eq i k)) [
      | inl same ↦ rw ((law i k).0 same) (ground (arith, find-filter keep k m, eq_self eq law k))
      | inr differ ↦ ground (arith, find-filter keep k m)
    ]

    pub put-IsUnique : (k : K) (v : V) (m : List (K × V)) → IsUnique m → IsUnique (put k v m)
    unfolding IsUnique put
    put-IsUnique k v [] h = (refl, tt)
    put-IsUnique k v ((i, w) ∷ m) h = elim (Bool-cases (eq i k)) [
      | inl same ↦ rw same h
      | inr differ ↦ rw differ (find-put k i v m ∙ rw (flip differ) h.0, put-IsUnique k v m h.1)
    ]
      where
        flip : eq i k ≡ false → eq k i ≡ false
        flip d = elim (Bool-cases (eq k i)) [
          | inl s ↦ cc (d, sym (eq_self eq law k) ∙ ap (λ x. eq x k) ((law k i).0 s))
          | inr e ↦ e
        ]

    pub filter-IsUnique :
        (keep : K → Bool) (m : List (K × V))
        → IsUnique m
        → IsUnique (filter (λ (e : K × V). keep e.0) m)
    unfolding IsUnique
    filter-IsUnique keep [] h = tt
    filter-IsUnique keep ((i, w) ∷ m) h = elim (Bool-cases (keep i)) [
      | inl kept ↦ rw kept (find-filter keep i m ∙ rw (kept, h.0) refl, filter-IsUnique keep m h.1)
      | inr gone ↦ rw gone (filter-IsUnique keep m h.1)
    ]
