-- ===== src/Arena/Scan.antt =====
-- `cached_mentions_type_param` and `remember_mentions_type_param`: one byte for each id, 0 for a
-- question that was not asked, 1 for no, 2 for yes. `is_named`, `generation` and `len` too.
use Prim.Native.Nat.{max}
use ts_rust.Prelude.{
  ℕ, zero, suc, ◌+◌, ◌-◌, ◌<◌, ◌≡◌, refl, Bool, true, false, List, [], ◌∷◌, ◌++◌, Option, none,
  some, length, get_elem?, set, ◌==◌, leb, if◌then◌else◌, arith, Bool-cases, inl, inr,
  length-append, get_elem?-set_self, get_elem?-set_other,
}
use ts_rust.Types.{TypeId, Name}
use ts_rust.Arena.{TypeArena}
use ts_rust.Arena.Declare.{display_name, app_parts}

abbrev pub scanned : Option ℕ → Option Bool
scanned (some (suc zero)) = some false
scanned (some (suc (suc zero))) = some true
scanned _ = none

unfoldable pub cached_mentions_type_param : TypeArena → TypeId → Option Bool
cached_mentions_type_param a id = scanned (get_elem? a.param_scan id)

unfoldable pub zeros : ℕ → List ℕ
zeros zero = []
zeros (suc n) = 0 ∷ zeros n

-- `cache.resize(wanted, 0)`, where `wanted` is not less than the length.
unfoldable pub resize : List ℕ → ℕ → List ℕ
resize cache wanted = cache ++ zeros (wanted - length cache)

abbrev pub roomy : List ℕ → ℕ → TypeId → List ℕ
roomy cache types index =
    if leb (length cache) index then resize cache (max types (index + 1)) else cache

unfoldable pub remember_mentions_type_param : TypeArena → TypeId → Bool → TypeArena
remember_mentions_type_param a id found =
    let cache = roomy a.param_scan (length a.types) id in
    record a { param_scan = set cache id (if found then 2 else 1) }

abbrev pub is_some {ℓ} : {A : Type ℓ} → Option A → Bool
is_some none = false
is_some (some x) = true

abbrev pub either_named : Option (Option Name) → Option (Option (Name × List TypeId)) → Option Bool
either_named none parts = none
either_named (some (some name)) parts = some true
either_named (some none) none = none
either_named (some none) (some parts) = some (is_some parts)

-- `none` is a declaration out of bounds.
unfoldable pub is_named : TypeArena → TypeId → Option Bool
is_named a id = either_named (display_name a id) (app_parts a id)

zeros-length : (n : ℕ) → length (zeros n) ≡ n
unfolding zeros
zeros-length zero = refl
zeros-length (suc n) = omega (arith, zeros-length n)

scanned-zeros : (n i : ℕ) → scanned (get_elem? (zeros n) i) ≡ none
unfolding zeros
scanned-zeros zero i = refl
scanned-zeros (suc n) zero = refl
scanned-zeros (suc n) (suc i) = scanned-zeros n i

scanned-append :
    (cache : List ℕ) (n i : ℕ)
    → scanned (get_elem? (cache ++ zeros n) i) ≡ scanned (get_elem? cache i)
scanned-append [] n i = scanned-zeros n i
scanned-append (x ∷ cache) n zero = refl
scanned-append (x ∷ cache) n (suc i) = scanned-append cache n i

module _ (cache : List ℕ) (types : ℕ) (index : TypeId) where
  roomy-length : index < length (roomy cache types index)
  unfolding resize
  roomy-length = elim (Bool-cases (leb (length cache) index)) [
    | inl short ↦ rw short (
        ground (
          arith,
          length-append cache (zeros (max types (index + 1) - length cache)),
          zeros-length (max types (index + 1) - length cache),
        ))
    | inr fits ↦ rw fits (ground arith)
  ]

  scanned-roomy :
      (i : ℕ) → scanned (get_elem? (roomy cache types index) i) ≡ scanned (get_elem? cache i)
  unfolding resize
  scanned-roomy i = elim (Bool-cases (leb (length cache) index)) [
    | inl short ↦ rw short (scanned-append cache (max types (index + 1) - length cache) i)
    | inr fits ↦ rw fits refl
  ]

-- A remembered answer is the one given back for that id, and for every other id nothing changes,
-- whatever room the cache had.
pub cached-remember :
    (a : TypeArena) (id j : TypeId) (found : Bool)
    → cached_mentions_type_param (remember_mentions_type_param a id found) j
      ≡ (if id == j then some found else cached_mentions_type_param a j)
unfolding cached_mentions_type_param remember_mentions_type_param
cached-remember a id j found = elim (Bool-cases (id == j)) [
  | inl same ↦ rw same (
      rw (← same_id same) (
        rw
          (get_elem?-set_self (roomy a.param_scan (length a.types) id) id (if found then 2 else 1)
            (roomy-length a.param_scan (length a.types) id))
          (byte found)))
  | inr differ ↦ rw differ (
      rw
        (get_elem?-set_other (roomy a.param_scan (length a.types) id) id (if found then 2 else 1) j
          differ)
        (scanned-roomy a.param_scan (length a.types) id j))
]
  where
    same_id : (id == j) ≡ true → id ≡ j
    same_id h = ground arith

    byte : (b : Bool) → scanned (some (if b then 2 else 1)) ≡ some b
    byte true = refl
    byte false = refl
