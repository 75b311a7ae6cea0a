-- ===== src/Bucket/Rounding.antt =====
-- The floating-point arithmetic of src/bucket.c: what IEEE 754 says of the operations, and what it makes of
-- the test of the loop in `bucket_consume`.
use hype.Base.{dec_lt, ap, ℕ, ◌+◌, ◌-◌, ◌*◌, ◌^◌, ◌<◌, ◌≤◌, ◌≡◌, ◌↔◌, ◌⊎◌, inl, inr, true, arith}
use hype.Bucket.{Doubles, earned, enough}

-- `n / m` is within one part in 2 ^ 53 of `a / b`.
abbrev pub IsNear : ℕ → ℕ → ℕ → ℕ → Type 0
IsNear n m a b =
    (2 ^ 53 * (n * b) ≤ (2 ^ 53 + 1) * (a * m)) × ((2 ^ 53 - 1) * (a * m) ≤ 2 ^ 53 * (n * b))

-- `a / b` neither overflows nor underflows.
abbrev pub InRange : ℕ → ℕ → Type 0
InRange a b = (a ≤ 2 ^ 200 * b) × ((a ≡ 0) ⊎ (b ≤ 2 ^ 200 * a))

-- What IEEE 754 says of `double`, where `Stands x n m` is that the finite `x` has the value `n / m`: integers
-- of at most 53 bits are exact, comparisons too, and a quotient or a product is rounded to 53 bits.
pub record IsIeee {D : Type 0} (fp : Doubles D) : Type 1 where
  pub Stands : D → ℕ → ℕ → Type 0
  pub of_u64_exact : (n : ℕ) → n < 2 ^ 53 → Stands (fp.of_u64 n) n 1
  pub div_rounds :
      (x y : D) (a b c d : ℕ)
      → Stands x a b
      → Stands y c d
      → 0 < b
      → 0 < c
      → 0 < d
      → InRange (a * d) (b * c)
      → (n : ℕ) × (m : ℕ) × (0 < m) × Stands (fp.div x y) n m × IsNear n m (a * d) (b * c)
  pub mul_rounds :
      (x y : D) (a b c d : ℕ)
      → Stands x a b
      → Stands y c d
      → 0 < b
      → 0 < d
      → InRange (a * c) (b * d)
      → (n : ℕ) × (m : ℕ) × (0 < m) × Stands (fp.mul x y) n m × IsNear n m (a * c) (b * d)
  pub at_most_exact :
      (x y : D) (a b c d : ℕ)
      → Stands x a b
      → Stands y c d
      → 0 < b
      → 0 < d
      → (fp.at_most x y ≡ true) ↔ (a * d ≤ c * b)

mul_mono : (a b c d : ℕ) → a ≤ b → c ≤ d → a * c ≤ b * d
mul_mono a b c d h k = grind arith

mul_cancel : (a b c : ℕ) → 0 < c → a * c ≤ b * c → a ≤ b
mul_cancel a b c pos h = grind arith

-- The two roundings of the tokens that were earned: `n / m` is the rounded quotient, `t / u` the rounded product.
module _ (elapsed rate n m t u : ℕ) (he : elapsed < 2 ^ 53) (hr : rate < 2 ^ 53) (pos : 0 < m)
    (pos' : 0 < u) (quotient : IsNear n m (elapsed * 1) (1 * 10 ^ 6)) where
  product_range : InRange (n * rate) (m * 1)
  product_range =
      let below : elapsed * m ≤ 2 ^ 53 * m =
        mul_mono elapsed (2 ^ 53) m m (omega arith) (omega arith) in
      let bounded : n ≤ 2 ^ 54 * m = omega arith in
      let above = mul_mono n (2 ^ 54 * m) rate (2 ^ 53) bounded (omega arith) in
      (
        omega arith,
        elim (dec_lt 0 elapsed) [
          | no h ↦
              let none_passed : elapsed ≡ 0 = omega arith in
              let zero_quotient : n ≡ 0 = omega (arith, ap (λ e. e * m) none_passed) in
              inl (rw zero_quotient (omega arith))
          | yes h ↦ elim (dec_lt 0 rate) [
            | no h' ↦ let unlimited : rate ≡ 0 = omega arith in inl (rw unlimited (omega arith))
            | yes h' ↦ inr (
                omega (
                  arith,
                  mul_mono 1 elapsed m m h (omega arith),
                  mul_mono n n 1 rate (omega arith) h',
                ))
          ]
        ],
      )

  module _ (product : IsNear t u (n * rate) (m * 1)) where
    tokens_sound : u ≤ t → 10 ^ 6 ≤ elapsed * rate
    tokens_sound h =
        let at_least : 2 ^ 53 * m ≤ (2 ^ 53 + 1) * (n * rate) =
          mul_cancel (2 ^ 53 * m) ((2 ^ 53 + 1) * (n * rate)) u pos'
            (omega (arith, mul_mono u t m m h (omega arith))) in
        let scaled =
          mul_mono (2 ^ 53 * (n * (1 * 10 ^ 6))) ((2 ^ 53 + 1) * (elapsed * 1 * m)) rate rate
            quotient.0 (omega arith) in
        omega (
          arith,
          mul_cancel (2 ^ 53 * 2 ^ 53 * 10 ^ 6) ((2 ^ 53 + 1) * (2 ^ 53 + 1) * (elapsed * rate)) m
              pos (omega arith),
        )

    tokens_complete : 10 ^ 6 < elapsed * rate → u ≤ t
    tokens_complete h = elim (dec_lt t u) [
      | no enough_there ↦ omega arith
      | yes less ↦
          let at_most : (2 ^ 53 - 1) * (n * rate) ≤ 2 ^ 53 * m =
            mul_cancel ((2 ^ 53 - 1) * (n * rate)) (2 ^ 53 * m) u pos'
              (omega (arith, mul_mono t u m m (omega arith) (omega arith))) in
          let scaled =
            mul_mono ((2 ^ 53 - 1) * (elapsed * 1 * m)) (2 ^ 53 * (n * (1 * 10 ^ 6))) rate rate
              quotient.1 (omega arith) in
          absurd (
            omega (
              arith,
              mul_cancel ((2 ^ 53 - 1) * (2 ^ 53 - 1) * (elapsed * rate)) (2 ^ 53 * 2 ^ 53 * 10 ^ 6)
                  m pos (omega arith),
            ))
    ]

module _ {D : Type 0} (fp : Doubles D) (ieee : IsIeee fp) where
  abbrev Tokens : ℕ → ℕ → Type 0
  Tokens elapsed rate =
      (enough fp elapsed rate ≡ true → 10 ^ 6 ≤ elapsed * rate)
      × (10 ^ 6 < elapsed * rate → enough fp elapsed rate ≡ true)

  -- The test of the loop, but for the exact 10 ^ 6.
  pub enough_lem : (elapsed rate : ℕ) → elapsed < 2 ^ 53 → rate < 2 ^ 53 → Tokens elapsed rate
  unfolding enough earned
  enough_lem elapsed rate he hr =
      let of = ieee.of_u64_exact in
      let elapsed_range : InRange (elapsed * 1) (1 * 10 ^ 6) = (
        omega arith,
        elim (dec_lt 0 elapsed) [ no h ↦ inl (omega arith) | yes h ↦ inr (omega arith) ],
      ) in
      let (n, m, pos, q, near) =
        ieee.div_rounds (fp.of_u64 elapsed) (fp.of_u64 1000000) elapsed 1 1000000 1 (of elapsed he)
          (of 1000000 (omega arith)) (omega arith) (omega arith) (omega arith) elapsed_range in
      let range = product_range elapsed rate n m 0 1 he hr pos (omega arith) near in
      let (t, u, pos', p, near') =
        ieee.mul_rounds (fp.div (fp.of_u64 elapsed) (fp.of_u64 1000000)) (fp.of_u64 rate) n m rate 1
          q (of rate hr) pos (omega arith) range in
      let test =
        ieee.at_most_exact (fp.of_u64 1) (earned fp elapsed rate) 1 1 t u (of 1 (omega arith)) p
          (omega arith) pos' in
      (
        (λ e.
            tokens_sound elapsed rate n m t u he hr pos pos' near near' (omega (arith, test.0 e))),
        λ h.
            test.1
              (omega (arith, tokens_complete elapsed rate n m t u he hr pos pos' near near' h)),
      )
