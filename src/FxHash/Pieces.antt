-- ===== src/FxHash/Pieces.antt =====
-- A text is hashed eight bytes at a time.
use ts_rust.Prelude.{
  ℕ, zero, suc, ◌+◌, ◌≤◌, ◌≡◌, refl, ◌∙◌, ap, true, false, List, [], ◌∷◌, ◌++◌, length,
  length-append, leb, arith, Bool-cases, inl, inr, All, map,
}
use ts_rust.FxHash.{
  FxHasher, add_to_hash, split_at, read_piece, read_eights, read_if, read_last, write, write_words,
}
use ts_rust.Scc.Times.{flat}

split_at-append : (first rest : List ℕ) → split_at (length first) (first ++ rest) ≡ (first, rest)
unfolding split_at
split_at-append [] rest = refl
split_at-append (x ∷ first) rest = rw (split_at-append first rest) refl

length-split_at :
    (n : ℕ) (bytes : List ℕ) → n ≤ length bytes → length (split_at n bytes).1 + n ≡ length bytes
unfolding split_at
length-split_at zero bytes h = omega arith
length-split_at (suc n) [] h = absurd (omega arith)
length-split_at (suc n) (x ∷ bytes) h = omega (arith, length-split_at n bytes (omega arith))

append_assoc : (xs ys zs : List ℕ) → (xs ++ ys) ++ zs ≡ xs ++ (ys ++ zs)
append_assoc [] ys zs = refl
append_assoc (x ∷ xs) ys zs = ap (λ l. x ∷ l) (append_assoc xs ys zs)

module _ (from_ne_bytes : List ℕ → ℕ) where
  piece-length :
      (state : FxHasher × List ℕ)
      → leb 8 (length state.1) ≡ true
      → length (read_piece from_ne_bytes 8 state).1 + 8 ≡ length state.1
  unfolding read_piece
  piece-length (s, bytes) q = length-split_at 8 bytes (ground arith)

  -- Fuel for each byte is enough.
  read_eights_fuel :
      (f g : ℕ) (state : FxHasher × List ℕ)
      → length state.1 ≤ f
      → length state.1 ≤ g
      → read_eights from_ne_bytes f state ≡ read_eights from_ne_bytes g state
  unfolding read_eights
  read_eights_fuel zero zero state p q = refl
  read_eights_fuel zero (suc g) state p q = rw (few state p) refl
    where
      few : (state : FxHasher × List ℕ) → length state.1 ≤ 0 → leb 8 (length state.1) ≡ false
      few state p = ground arith
  read_eights_fuel (suc f) zero state p q = rw (few state q) refl
    where
      few : (state : FxHasher × List ℕ) → length state.1 ≤ 0 → leb 8 (length state.1) ≡ false
      few state p = ground arith
  read_eights_fuel (suc f) (suc g) state p q = elim (Bool-cases (leb 8 (length state.1))) [
    | inl e ↦ rw e (
        read_eights_fuel f g (read_piece from_ne_bytes 8 state)
          (omega (arith, piece-length state e)) (omega (arith, piece-length state e)))
    | inr e ↦ rw e refl
  ]

  piece_lem :
      (s : FxHasher) (chunk rest : List ℕ)
      → length chunk ≡ 8
      → read_piece from_ne_bytes 8 (s, chunk ++ rest) ≡ (add_to_hash s (from_ne_bytes chunk), rest)
  unfolding read_piece
  piece_lem s chunk rest e = rw (← e, split_at-append chunk rest) refl

  one_round :
      (s : FxHasher) (chunk rest : List ℕ)
      → length chunk ≡ 8
      → leb 8 (length (chunk ++ rest)) ≡ true
      → read_eights from_ne_bytes (suc (length (chunk ++ rest))) (s, chunk ++ rest)
        ≡ read_eights from_ne_bytes
            (length (chunk ++ rest))
            (add_to_hash s (from_ne_bytes chunk), rest)
  unfolding read_eights
  one_round s chunk rest e long =
      rw long (ap (read_eights from_ne_bytes (length (chunk ++ rest))) (piece_lem s chunk rest e))

  first_eight :
      (s : FxHasher) (chunk rest : List ℕ)
      → length chunk ≡ 8
      → read_eights from_ne_bytes (length (chunk ++ rest)) (s, chunk ++ rest)
        ≡ read_eights from_ne_bytes (length rest) (add_to_hash s (from_ne_bytes chunk), rest)
  first_eight s chunk rest e =
      read_eights_fuel (length (chunk ++ rest)) (suc (length (chunk ++ rest))) (s, chunk ++ rest)
        (omega arith) (omega arith)
      ∙ one_round s chunk rest e (ground (arith, length-append chunk rest, e))
      ∙ read_eights_fuel (length (chunk ++ rest)) (length rest)
          (add_to_hash s (from_ne_bytes chunk), rest) (omega (arith, length-append chunk rest))
          (omega arith)

  write_chunk :
      (s : FxHasher) (chunk rest : List ℕ)
      → length chunk ≡ 8
      → write from_ne_bytes s (chunk ++ rest)
        ≡ write from_ne_bytes (add_to_hash s (from_ne_bytes chunk)) rest
  unfolding write
  write_chunk s chunk rest e =
      ap
        (λ state. read_last from_ne_bytes (read_if from_ne_bytes 2 (read_if from_ne_bytes 4 state)))
        (first_eight s chunk rest e)

  -- To write a text that begins with pieces of eight bytes is to write each piece as one word, and then
  -- the rest.
  pub write-pieces :
      (chunks : List (List ℕ)) (rest : List ℕ) (s : FxHasher)
      → All (λ chunk. length chunk ≡ 8) chunks
      → write from_ne_bytes s (flat chunks ++ rest)
        ≡ write from_ne_bytes (write_words s (map from_ne_bytes chunks)) rest
  unfolding write_words
  write-pieces [] rest s all = refl
  write-pieces (chunk ∷ chunks) rest s (e, all) =
      ap (write from_ne_bytes s) (append_assoc chunk (flat chunks) rest)
      ∙ write_chunk s chunk (flat chunks ++ rest) e
      ∙ write-pieces chunks rest (add_to_hash s (from_ne_bytes chunk)) all
