-- ===== src/SymbolMap.antt =====
-- src/symbol_map.rs: the types of bindings, in a vector indexed by the symbol. `SymbolId::index` of
-- the semantic analysis is the parameter `index`.
use ts_rust.Prelude.{
  ℕ, zero, suc, ◌+◌, ◌-◌, ◌<◌, ◌≡◌, refl, Bool, true, false, not, List, [], ◌∷◌, ◌++◌, Option, none,
  some, length, get_elem?, set, ◌==◌, ltb, if◌then◌else◌, arith, Bool-cases, inl, inr,
  length-append, get_elem?-set_self, get_elem?-set_other,
}
use ts_rust.Types.{TypeId}

pub record SymbolTypeMap : Type 0 where
  pub types : List (Option TypeId)

-- `vec![None; n]`.
unfoldable pub repeat : ℕ → List (Option TypeId)
repeat zero = []
repeat (suc n) = none ∷ repeat n

-- `Vec::resize(n, None)` of a vector that is shorter.
unfoldable pub grow : List (Option TypeId) → ℕ → List (Option TypeId)
grow ts n = ts ++ repeat (n - length ts)

abbrev pub new : SymbolTypeMap
new = record { types = [] }

abbrev pub flatten : Option (Option TypeId) → Option TypeId
flatten none = none
flatten (some t) = t

module _ {Symbol : Type 0} (index : Symbol → ℕ) where
  unfoldable pub declare : SymbolTypeMap → Symbol → TypeId → SymbolTypeMap
  declare m s t =
      let i = index s in
      let ts = if not (ltb i (length m.types)) then grow m.types (i + 1) else m.types in
      record { types = set ts i (some t) }

  unfoldable pub get : SymbolTypeMap → Symbol → Option TypeId
  get m s = flatten (get_elem? m.types (index s))

  unfoldable pub is_declared : SymbolTypeMap → Symbol → Bool
  unfolding get
  is_declared m s = elim (get m s) [ none ↦ false | some _ ↦ true ]

get_elem?-repeat : (n i : ℕ) → flatten (get_elem? (repeat n) i) ≡ none
unfolding repeat
get_elem?-repeat zero i = refl
get_elem?-repeat (suc n) zero = refl
get_elem?-repeat (suc n) (suc i) = get_elem?-repeat n i

length-repeat : (n : ℕ) → length (repeat n) ≡ n
unfolding repeat
length-repeat zero = refl
length-repeat (suc n) = omega (arith, length-repeat n)

flatten-append :
    (ts : List (Option TypeId)) (n i : ℕ)
    → flatten (get_elem? (ts ++ repeat n) i) ≡ flatten (get_elem? ts i)
flatten-append [] n i = get_elem?-repeat n i
flatten-append (t ∷ ts) n zero = refl
flatten-append (t ∷ ts) n (suc i) = flatten-append ts n i

module _ (ts : List (Option TypeId)) (i : ℕ) where
  abbrev room : List (Option TypeId)
  room = if not (ltb i (length ts)) then grow ts (i + 1) else ts

  room-length : i < length room
  unfolding grow
  room-length = elim (Bool-cases (ltb i (length ts))) [
    | inl fits ↦ rw fits (ground arith)
    | inr short ↦ rw short (
        ground
          (arith, length-append ts (repeat (i + 1 - length ts)), length-repeat (i + 1 - length ts)))
  ]

  room-get : (j : ℕ) → flatten (get_elem? room j) ≡ flatten (get_elem? ts j)
  unfolding grow
  room-get j = elim (Bool-cases (ltb i (length ts))) [
    | inl fits ↦ rw fits refl
    | inr short ↦ rw short (flatten-append ts (i + 1 - length ts) j)
  ]

-- A symbol that was declared has the type it was declared with last, and every other symbol what it
-- had, a type or none, whatever room the vector had.
pub get-declare :
    {Symbol : Type 0} (index : Symbol → ℕ) (m : SymbolTypeMap) (s r : Symbol) (t : TypeId)
    → get index (declare index m s t) r ≡ (if index s == index r then some t else get index m r)
unfolding get declare
get-declare index m s r t = elim (Bool-cases (index s == index r)) [
  | inl same ↦ rw same (
      rw (← same_index same) (
        rw
          (get_elem?-set_self (room m.types (index s)) (index s) (some t)
            (room-length m.types (index s)))
          refl))
  | inr differ ↦ rw differ (
      rw (get_elem?-set_other (room m.types (index s)) (index s) (some t) (index r) differ)
        (room-get m.types (index s) (index r)))
]
  where
    same_index : (index s == index r) ≡ true → index s ≡ index r
    same_index h = ground arith
