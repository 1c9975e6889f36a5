-- ===== src/Narrow/Compare.antt =====
-- `same_as`: two states with no key twice are the same exactly when they know the same.
use ts_rust.Prelude.{
  suc, ◌≡◌, refl, ◌∙◌, sym, ap, ◌↔◌, Bool, true, false, ◌&&◌, not, List, [], ◌∷◌, Option, none,
  some, length, ◌==◌, ==_iff, arith, if◌then◌else◌, filter, all, All, Bool-cases, inl, inr,
}
use ts_rust.Types.{TypeId}
use ts_rust.Types.Equality.{Decides}
use ts_rust.Assoc.{find_value, IsUnique, eq_self, find-filter, filter-IsUnique}
use ts_rust.Narrow.{PropertyPath, NarrowState, same_key, get, get_path, is_type, same_as}
use ts_rust.Narrow.State.{IsState, key, same_key-Decides}

some_inj {ℓ} : {A : Type ℓ} {a b : A} → some a ≡ some b → a ≡ b
some_inj e = cc

module _ {K : Type 0} (eq : K → K → Bool) (law : Decides eq) where
  abbrev erase : K → List (K × TypeId) → List (K × TypeId)
  erase k m = filter (λ (e : K × TypeId). not (eq e.0 k)) m

  abbrev SameMap : List (K × TypeId) → List (K × TypeId) → Type 0
  SameMap m n = (k : K) → find_value eq k m ≡ find_value eq k n

  abbrev AllIn : List (K × TypeId) → List (K × TypeId) → Type 0
  AllIn m n = All (λ (e : K × TypeId). find_value eq e.0 n ≡ some e.1) m

  erase-none :
      (k : K) (m : List (K × TypeId)) → find_value eq k m ≡ none → length (erase k m) ≡ length m
  unfolding find_value
  erase-none k [] h = refl
  erase-none k ((j, w) ∷ m) h = ground (arith, erase-none k m)

  length-erase :
      (k : K) (v : TypeId) (m : List (K × TypeId))
      → IsUnique eq m
      → find_value eq k m ≡ some v
      → length m ≡ suc (length (erase k m))
  unfolding find_value IsUnique
  length-erase k v [] u h = cc
  length-erase k v ((j, w) ∷ m) u h = elim (Bool-cases (eq j k)) [
    | inl same ↦ ground (arith, same, erase-none k m (rw (← (law j k).0 same) u.0))
    | inr differ ↦ ground (arith, differ, length-erase k v m u.1 (rw differ at h))
  ]

  find-erase :
      (k j : K) (m : List (K × TypeId))
      → find_value eq j (erase k m) ≡ (if not (eq j k) then find_value eq j m else none)
  find-erase k j m = find-filter eq law (λ i. not (eq i k)) j m

  flip : (k j : K) → eq k j ≡ eq j k
  flip k j = elim (Bool-cases (eq k j)) [
    | inl e ↦ rw ((law k j).0 e) refl
    | inr e ↦ elim (Bool-cases (eq j k)) [ inl f ↦ rw ((law j k).0 f) refl | inr f ↦ e ∙ sym f ]
  ]

  -- The rest of a map against the other one less the first key.
  rest-AllIn :
      (k : K) (m n : List (K × TypeId)) → find_value eq k m ≡ none → AllIn m n → AllIn m (erase k n)
  unfolding find_value
  rest-AllIn k [] n h q = tt
  rest-AllIn k ((j, w) ∷ m) n h q = elim (Bool-cases (eq j k)) [
    | inl same ↦ absurd (found (rw same at h))
    | inr differ ↦ (find-erase k j n ∙ rw differ q.0, rest-AllIn k m n (rw differ at h) q.1)
  ]
    where
      found : some w ≡ none → ⊥
      found e = cc

  rest-SameMap :
      (k : K) (v : TypeId) (m n : List (K × TypeId))
      → find_value eq k m ≡ none
      → SameMap ((k, v) ∷ m) n
      → SameMap m (erase k n)
  unfolding find_value
  rest-SameMap k v m n h s j = elim (Bool-cases (eq k j)) [
    | inl same ↦ rw (← (law k j).0 same) (h ∙ sym (find-erase k k n ∙ rw (eq_self eq law k) refl))
    | inr differ ↦
        sym (find-erase k j n ∙ rw (sym (flip k j) ∙ differ) (sym (s j) ∙ rw differ refl))
  ]

  -- As many entries, each of them in the other map: the same map.
  AllIn-SameMap :
      (m n : List (K × TypeId))
      → IsUnique eq m
      → IsUnique eq n
      → length m ≡ length n
      → AllIn m n
      → SameMap m n
  unfolding find_value IsUnique
  AllIn-SameMap [] [] u w l q k = refl
  AllIn-SameMap [] (e ∷ n) u w l q k = absurd (omega arith)
  AllIn-SameMap ((k, v) ∷ m) n u w l q j = elim (Bool-cases (eq k j)) [
    | inl same ↦ rw same (rw (← (law k j).0 same) (sym q.0))
    | inr differ ↦ rw differ (
        AllIn-SameMap m (erase k n) u.1 (filter-IsUnique eq law (λ i. not (eq i k)) n w)
          (omega (arith, l, length-erase k v n w q.0)) (rest-AllIn k m n u.0 q.1) j
        ∙ find-erase k j n
        ∙ rw (sym (flip k j) ∙ differ) refl)
  ]

  SameMap-length :
      (m n : List (K × TypeId)) → IsUnique eq m → IsUnique eq n → SameMap m n → length m ≡ length n
  unfolding find_value IsUnique
  SameMap-length [] [] u w s = refl
  SameMap-length [] ((k, v) ∷ n) u w s = absurd (found (s k))
    where
      found : none ≡ (if eq k k then some v else find_value eq k n) → ⊥
      found e = ground (arith, eq_self eq law k)
  SameMap-length ((k, v) ∷ m) n u w s = omega (
    arith,
    SameMap-length m (erase k n) u.1 (filter-IsUnique eq law (λ i. not (eq i k)) n w)
        (rest-SameMap k v m n u.0 s),
    length-erase k v n w (sym (s k) ∙ rw (eq_self eq law k) refl),
  )

  unerase-AllIn : (k : K) (m n : List (K × TypeId)) → AllIn m (erase k n) → AllIn m n
  unerase-AllIn k [] n q = tt
  unerase-AllIn k ((j, w) ∷ m) n q =
      (kept (not (eq j k)) (sym (find-erase k j n) ∙ q.0), unerase-AllIn k m n q.1)
    where
      kept :
          (b : Bool) → (if b then find_value eq j n else none) ≡ some w → find_value eq j n ≡ some w
      kept true e = e
      kept false e = cc

  SameMap-AllIn : (m n : List (K × TypeId)) → IsUnique eq m → SameMap m n → AllIn m n
  unfolding find_value IsUnique
  SameMap-AllIn [] n u s = tt
  SameMap-AllIn ((k, v) ∷ m) n u s = (
    sym (s k) ∙ rw (eq_self eq law k) refl,
    unerase-AllIn k m n (SameMap-AllIn m (erase k n) u.1 (rest-SameMap k v m n u.0 s)),
  )

  is_type_iff : (t : TypeId) (o : Option TypeId) → (is_type t o ≡ true) ↔ (o ≡ some t)
  is_type_iff t none = (λ h. cc, λ e. cc)
  is_type_iff t (some r) = (λ h. ap some ((==_iff r t).0 h), λ e. (==_iff r t).1 (some_inj e))

  all_iff :
      (m n : List (K × TypeId))
      → (all (λ (e : K × TypeId). is_type e.1 (find_value eq e.0 n)) m ≡ true) ↔ AllIn m n
  all_iff [] n = (λ h. tt, λ h. refl)
  all_iff ((k, v) ∷ m) n = (
    λ h. ground (arith, (all_iff m n).0, (is_type_iff v (find_value eq k n)).0),
    λ h. ground (arith, (all_iff m n).1 h.1, (is_type_iff v (find_value eq k n)).1 h.0),
  )

  SameMap-iff :
      (m n : List (K × TypeId))
      → IsUnique eq m
      → IsUnique eq n
      → ((length m == length n) && all (λ (e : K × TypeId). is_type e.1 (find_value eq e.0 n)) m
          ≡ true)
        ↔ SameMap m n
  SameMap-iff m n u w = (
    λ h.
        AllIn-SameMap m n u w (ground (arith, ==_iff (length m) (length n)))
          ((all_iff m n).0 (ground arith)),
    λ s. ground (
      arith,
      (==_iff (length m) (length n)).1 (SameMap-length m n u w s),
      (all_iff m n).1 (SameMap-AllIn m n u s),
    ),
  )

-- Where the equality of symbols is decided, and for two states with no key twice, `same_as` says
-- yes exactly when they know the same of every symbol and of every path.
pub same_as_iff :
    {Symbol : Type 0} (same : Symbol → Symbol → Bool) (law : Decides same)
    (s t : NarrowState Symbol)
    → IsState same s
    → IsState same t
    → (same_as same s t ≡ true) ↔ (
        ((x : Symbol) → get same s x ≡ get same t x)
        × ((x : Symbol) (path : PropertyPath) → get_path same s x path ≡ get_path same t x path))
unfolding same_as get get_path
same_as_iff same law s t u w = (
  λ h. (
    λ x. (SameMap-iff same law s.symbols t.symbols u.0 w.0).0 (ground arith) x,
    λ x path.
        (SameMap-iff (same_key same) (same_key-Decides same law) s.paths t.paths u.1 w.1).0
          (ground arith) (key same x path),
  ),
  λ h. ground (
    arith,
    (SameMap-iff same law s.symbols t.symbols u.0 w.0).1 h.0,
    (SameMap-iff (same_key same) (same_key-Decides same law) s.paths t.paths u.1 w.1).1
        (λ k. h.1 k.symbol_id k.path),
  ),
)
