-- ===== src/Examples/Hashes.antt =====
-- Examples for src/fxhash.rs.
use ts_rust.Prelude.{ℕ, ◌+◌, ◌*◌, ◌≡◌, ◌≢◌, refl, List, [], ◌∷◌, arith}
use ts_rust.FxHash.{build_hasher, finish, add_to_hash, write, write_words}
use ts_rust.FxHash.Pieces.{write-pieces}
use ts_rust.FxHash.Injective.{write_words-differ}

hash_of_one : finish (add_to_hash (build_hasher 0) 1) ≡ 0x517cc1b727220a95
unfolding add_to_hash
hash_of_one = refl

write_words-differ_example :
    finish (write_words (build_hasher 0) (5 ∷ 7 ∷ 9 ∷ []))
    ≢ finish (write_words (build_hasher 0) (5 ∷ 8 ∷ 9 ∷ []))
write_words-differ_example =
    write_words-differ (build_hasher 0) (5 ∷ []) (9 ∷ []) 7 8 (omega arith) (omega arith, tt)
      (omega arith) (omega arith) (λ e. omega arith)

-- The bytes of a machine that puts the lowest first.
abbrev lowest_first : List ℕ → ℕ
lowest_first [] = 0
lowest_first (byte ∷ bytes) = byte + 256 * lowest_first bytes

write-pieces_example :
    write lowest_first (build_hasher 0) (1 ∷ 2 ∷ 3 ∷ 4 ∷ 5 ∷ 6 ∷ 7 ∷ 8 ∷ 9 ∷ 10 ∷ 11 ∷ [])
    ≡ write lowest_first (write_words (build_hasher 0) (0x0807060504030201 ∷ [])) (9 ∷ 10 ∷ 11 ∷ [])
write-pieces_example =
    write-pieces lowest_first ((1 ∷ 2 ∷ 3 ∷ 4 ∷ 5 ∷ 6 ∷ 7 ∷ 8 ∷ []) ∷ []) (9 ∷ 10 ∷ 11 ∷ [])
      (build_hasher 0) (refl, tt)
