-- ===== src/Shuffle.antt =====
-- src/shuffle.c: a permutation of [0, range) by a generalized Feistel cipher and cycle walking.
pub mod Round
pub mod Feistel
pub mod Walk
pub mod Init
use hype.Base.{
  ℕ, zero, suc, ◌+◌, ◌-◌, ◌*◌, ◌/◌, ◌%◌, ◌^◌, ◌++◌, Option, none, some, u64, le64, ltb, leb, ◌==◌,
  Bool, ◌>>=◌, if◌then◌else◌,
}
use hype.Hash.{pyrhash}

abbrev pub default_rounds : ℕ
default_rounds = 4

pub record Shuffle : Type 0 where
  pub a : ℕ
  pub b : ℕ
  pub range : ℕ
  pub seed : ℕ
  pub rounds : ℕ

-- `F` of the source.
unfoldable pub f : ℕ → ℕ → ℕ → ℕ
f r right seed = pyrhash (le64 seed ++ le64 seed) (le64 r ++ le64 right)

-- `(j & 1) ? a : b`.
abbrev pub modulus : ℕ → ℕ → ℕ → ℕ
modulus j a b = if j % 2 == 1 then a else b

-- The loop of `do_shuffle` with `left` rounds to go, from round `j` on.
unfoldable pub shuffle_rounds : ℕ → ℕ → ℕ → ℕ → ℕ → ℕ × ℕ → ℕ × ℕ
shuffle_rounds zero j a b seed (l, r) = (l, r)
shuffle_rounds (suc left) j a b seed (l, r) =
    let tmp = u64 (l + f j r seed) % modulus j a b in shuffle_rounds left (j + 1) a b seed (r, tmp)

unfoldable pub do_shuffle : ℕ → ℕ → ℕ → ℕ → ℕ → ℕ
do_shuffle r a b m seed =
    let (left, right) = shuffle_rounds r 1 a b seed (m % a, m / a) in
    if r % 2 == 1 then u64 (a * left + right) else u64 (a * right + left)

-- The body of the loop of `do_unshuffle`: `h` is `F(j, L, seed)` and `n` the modulus of the round.
unfoldable pub unround : ℕ → ℕ → ℕ → ℕ
unround h n r =
    let tmp = u64 (h + (2 ^ 64 - r)) in
    let t = n - tmp % n in if ltb r tmp then (if t == n then 0 else t) else tmp % n

-- The loop of `do_unshuffle` from round `j` down to 1.
unfoldable pub unshuffle_rounds : ℕ → ℕ → ℕ → ℕ → ℕ × ℕ → ℕ × ℕ
unshuffle_rounds zero a b seed (l, r) = (l, r)
unshuffle_rounds (suc j) a b seed (l, r) =
    let tmp = unround (f (suc j) l seed) (modulus (suc j) a b) r in
    unshuffle_rounds j a b seed (tmp, l)

unfoldable pub do_unshuffle : ℕ → ℕ → ℕ → ℕ → ℕ → ℕ
do_unshuffle r a b m seed =
    let start : ℕ × ℕ = if r % 2 == 1 then (m / a, m % a) else (m % a, m / a) in
    let (left, right) = unshuffle_rounds r a b seed start in u64 (a * right + left)

-- `do { c = step(c); } while (c >= range);`, where `none` is fuel that ran out.
unfoldable pub walk : (ℕ → ℕ) → ℕ → ℕ → ℕ → Option ℕ
walk step range zero c = none
walk step range (suc fuel) c =
    let c' = step c in
    let later = walk step range fuel c' in if leb range c' then later else some c'

unfoldable pub shuffle : ℕ → Shuffle → ℕ → Option ℕ
shuffle fuel s m = walk (λ c. do_shuffle s.rounds s.a s.b c s.seed) s.range fuel m

unfoldable pub unshuffle : ℕ → Shuffle → ℕ → Option ℕ
unshuffle fuel s m = walk (λ c. do_unshuffle s.rounds s.a s.b c s.seed) s.range fuel m

-- `while ((r->a * r->b) <= range) r->b++;`, where `none` is fuel that ran out.
unfoldable pub grow : ℕ → ℕ → ℕ → ℕ → Option ℕ
grow zero a b range = none
grow (suc fuel) a b range =
    let later = grow fuel a (u64 (b + 1)) range in if leb (u64 (a * b)) range then later else some b

-- `root_less` and `root_more` are `(uint64_t) (sqrt(range) - 1)` and `(uint64_t) (sqrt(range) + 1)`.
module _ (root_less root_more : ℕ → ℕ) where
  -- The switch: both factors before the loop.
  unfoldable pub first_factors : ℕ → ℕ × ℕ
  first_factors range =
      if range == 0
      then (0, 0)
      else if range == 1
      then (1, 1)
      else if range == 2
      then (1, 2)
      else if range == 3
      then (2, 2)
      else (root_less range, root_more range)

  unfoldable pub shuffle_init : ℕ → ℕ → ℕ → Option Shuffle
  shuffle_init fuel range seed =
      let (a, b) = first_factors range in
      grow fuel a b range >>= λ b'.
      some (record { a = a; b = b'; range = range; seed = seed; rounds = default_rounds })
