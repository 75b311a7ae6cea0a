-- ===== src/Tests/Shuffle.antt =====
-- The permutation of src/shuffle.c on a range of ten numbers.
use hype.Base.{
  ℕ, ◌+◌, ◌*◌, ◌^◌, ◌<◌, ◌≡◌, refl, some, none, arith, Bool, every_below, every_below_holds, leb,
  ◌&&◌, true,
}
use hype.Hash.{pyrhash, absorb}
use hype.Shuffle.{Shuffle, f, shuffle, unshuffle, shuffle_init, grow, first_factors}
use hype.Shuffle.Feistel.{IsTameSeed}
use hype.Shuffle.Walk.{unshuffle-shuffle}
use hype.Shuffle.Init.{shuffle_init_lem, shuffle_init_diverges}

abbrev pub ten : Shuffle
ten = record { a = 2; b = 6; range = 10; seed = 42; rounds = 4 }

-- The casts of `sqrt(10) - 1` and `sqrt(10) + 1`, and of the roots nearby.
abbrev less : ℕ → ℕ
less n = 2

abbrev more : ℕ → ℕ
more n = 4

abbrev tame_in : ℕ → ℕ → Bool
tame_in j x = leb 12 (f j x 42) && leb (f j x 42 + 6) (2 ^ 64)

tame_table : every_below (λ j. every_below (tame_in j) 6) 5 ≡ true
unfolding every_below f pyrhash absorb
tame_table = refl

pub ten_tame : IsTameSeed 4 2 6 42
ten_tame j x lo hi h =
    let row = every_below_holds (λ j. every_below (tame_in j) 6) 5 j (omega arith) tame_table in
    let entry = every_below_holds (tame_in j) 6 x h row in
    record { low = ground arith; high = ground arith }

init_ten : shuffle_init less more 12 10 42 ≡ some ten
unfolding shuffle_init first_factors grow
init_ten = refl

unshuffle-shuffle_example :
    (c : ℕ) × (shuffle 12 ten 7 ≡ some c) × (c < 10) × (unshuffle 12 ten c ≡ some 7)
unshuffle-shuffle_example =
    unshuffle-shuffle ten 7 (omega arith) (omega arith) ten_tame (omega arith) (omega arith)
      (omega arith)

shuffle_init_lem_example :
    (s : Shuffle) × (shuffle_init less more 12 10 42 ≡ some s)
    × (0 < s.a)
    × (0 < s.b)
    × (s.range < s.a * s.b)
    × (s.a * s.b < 2 ^ 64)
    × (s.range ≡ 10)
    × (s.seed ≡ 42)
    × (s.rounds ≡ 4)
shuffle_init_lem_example =
    shuffle_init_lem less more 10 42 (omega arith) (omega arith) (λ h. omega arith)

shuffle_init_diverges_example : shuffle_init less more 1000 0 42 ≡ none
shuffle_init_diverges_example = shuffle_init_diverges less more 1000 42
