-- ===== src/FxHash.antt =====
-- src/fxhash.rs: `FxHasher`, a hash that multiplies, rotates and combines by exclusive or, for keys
-- that are written as numbers or as bytes. How the machine reads bytes as a number is the parameter
-- `from_ne_bytes`. The loop of `write` has a round of fuel for each byte, and takes eight in a round.
pub mod Injective
pub mod Pieces
use Prim.Native.Nat.{bit_xor}
use ts_rust.Prelude.{
  ℕ, zero, suc, ◌+◌, ◌*◌, ◌/◌, ◌%◌, ◌^◌, List, [], ◌∷◌, length, leb, if◌then◌else◌,
}

abbrev pub seed : ℕ
seed = 0x517cc1b727220a95

pub record FxHasher : Type 0 where
  pub hash : ℕ

-- `rotate_left(5)`.
abbrev pub rotate_left_5 : ℕ → ℕ
rotate_left_5 hash = (hash * 2 ^ 5) % 2 ^ 64 + hash / 2 ^ 59

unfoldable pub add_to_hash : FxHasher → ℕ → FxHasher
add_to_hash s word = record { hash = (bit_xor (rotate_left_5 s.hash) word * seed) % 2 ^ 64 }

abbrev pub build_hasher : ℕ → FxHasher
build_hasher initial_hash = record { hash = initial_hash }

abbrev pub finish : FxHasher → ℕ
finish s = s.hash

abbrev pub write_u64 : FxHasher → ℕ → FxHasher
write_u64 s i = add_to_hash s i

-- The other numbers are widened, which keeps them.
abbrev pub write_u32 : FxHasher → ℕ → FxHasher
write_u32 s i = add_to_hash s i

abbrev pub write_u8 : FxHasher → ℕ → FxHasher
write_u8 s i = add_to_hash s i

abbrev pub write_u16 : FxHasher → ℕ → FxHasher
write_u16 s i = add_to_hash s i

abbrev pub write_usize : FxHasher → ℕ → FxHasher
write_usize s i = add_to_hash s i

-- A key that is written as these numbers.
unfoldable pub write_words : FxHasher → List ℕ → FxHasher
write_words s [] = s
write_words s (word ∷ words) = write_words (write_u64 s word) words

-- `bytes[..n]` and `bytes[n..]`.
unfoldable pub split_at : ℕ → List ℕ → List ℕ × List ℕ
split_at zero bytes = ([], bytes)
split_at (suc n) [] = ([], [])
split_at (suc n) (byte ∷ bytes) = let (first, rest) = split_at n bytes in (byte ∷ first, rest)

module _ (from_ne_bytes : List ℕ → ℕ) where
  -- The first `n` bytes are read as one word.
  unfoldable pub read_piece : ℕ → FxHasher × List ℕ → FxHasher × List ℕ
  unfolding split_at
  read_piece n (s, bytes) =
      let (first, rest) = split_at n bytes in (add_to_hash s (from_ne_bytes first), rest)

  -- `while bytes.len() >= 8`.
  unfoldable pub read_eights : ℕ → FxHasher × List ℕ → FxHasher × List ℕ
  unfolding read_piece
  read_eights zero state = state
  read_eights (suc fuel) state =
      if leb 8 (length state.1) then read_eights fuel (read_piece 8 state) else state

  -- `if bytes.len() >= n`.
  unfoldable pub read_if : ℕ → FxHasher × List ℕ → FxHasher × List ℕ
  unfolding read_piece
  read_if n state = if leb n (length state.1) then read_piece n state else state

  abbrev pub read_last : FxHasher × List ℕ → FxHasher
  read_last (s, []) = s
  read_last (s, byte ∷ bytes) = add_to_hash s byte

  unfoldable pub write : FxHasher → List ℕ → FxHasher
  unfolding read_eights read_if
  write s bytes = read_last (read_if 2 (read_if 4 (read_eights (length bytes) (s, bytes))))
