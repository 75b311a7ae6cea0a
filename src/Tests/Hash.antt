-- ===== src/Tests/Hash.antt =====
-- The hash of src/hash.h on small messages.
use hype.Base.{ℕ, ◌≡◌, ◌≢◌, refl, List, [], ◌∷◌, ◌++◌, le64, arith}
use hype.Hash.{pyrhash}
use hype.Hash.Laws.{pyrhash_tells_bytes_apart}

abbrev key : List ℕ
key = le64 42 ++ le64 42

empty_hash : pyrhash key [] ≡ 0
unfolding pyrhash
empty_hash = refl

pyrhash_tells_bytes_apart_example :
    pyrhash key (1 ∷ 2 ∷ 3 ∷ 5 ∷ []) ≢ pyrhash key (1 ∷ 2 ∷ 4 ∷ 5 ∷ [])
pyrhash_tells_bytes_apart_example =
    pyrhash_tells_bytes_apart key 1 (2 ∷ []) (5 ∷ []) 3 4 (omega arith) (omega arith) (omega arith)
      (omega arith) (omega arith) (omega arith) (omega arith)
