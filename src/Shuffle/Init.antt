-- ===== src/Shuffle/Init.antt =====
-- `shuffle_init` finds two factors that span the range, and does not return for an empty range.
use hype.Base.{
  ℕ, zero, suc, ◌+◌, ◌*◌, ◌^◌, ◌<◌, ◌≤◌, ◌≡◌, refl, arith, some, none, leb, u64, Bool-cases, inl,
  inr, ◌∙◌, true,
}
use hype.Shuffle.{Shuffle, grow, first_factors, shuffle_init}

grow-stuck : (fuel b : ℕ) → grow fuel 0 b 0 ≡ none
unfolding grow
grow-stuck zero b = refl
grow-stuck (suc fuel) b = rw (empty_product b) (grow-stuck fuel (u64 (b + 1)))
  where
    empty_product : (b : ℕ) → u64 (0 * b) ≡ 0
    empty_product b = omega arith

grow_on :
    (fuel a b range : ℕ)
    → leb (u64 (a * b)) range ≡ true
    → u64 (b + 1) ≡ b + 1
    → grow (suc fuel) a b range ≡ grow fuel a (b + 1) range
unfolding grow
grow_on fuel a b range more no_wrap = rw (more, no_wrap) refl

-- The loop ends with a second factor that spans the range.
grow_lem :
    (fuel a b range : ℕ)
    → 0 < a
    → 0 < b
    → range + a < 2 ^ 64
    → a * b < 2 ^ 64
    → range + 2 ≤ fuel + b
    → 0 < fuel
    → (b' : ℕ) × (grow fuel a b range ≡ some b') × (range < a * b') × (a * b' < 2 ^ 64) × (b ≤ b')
unfolding grow
grow_lem zero a b range pa pb small fits enough pos = elim pos [ ]
grow_lem (suc fuel) a b range pa pb small fits enough pos =
    elim (Bool-cases (leb (u64 (a * b)) range)) [
      | inr done ↦ (b, rw done refl, ground arith, fits, omega arith)
      | inl more ↦
          let below : a * b ≤ range = ground arith in
          let b-le : b ≤ a * b = grind arith in
          let no_wrap : u64 (b + 1) ≡ b + 1 = omega arith in
          let next : a * (b + 1) < 2 ^ 64 = omega arith in
          let (b', e, over, fits', le) =
            grow_lem fuel a (b + 1) range pa (omega arith) small next (omega arith) (omega arith) in
          (b', grow_on fuel a b range more no_wrap ∙ e, over, fits', omega arith)
    ]

module _ (root_less root_more : ℕ → ℕ) where
  -- On an empty range `shuffle_init` does not return: however much fuel it is given, it runs out.
  pub shuffle_init_diverges : (fuel seed : ℕ) → shuffle_init root_less root_more fuel 0 seed ≡ none
  unfolding shuffle_init first_factors
  shuffle_init_diverges fuel seed = rw (grow-stuck fuel 0) refl

  -- What the floating-point square root gives from 4 on: factors that are not 0, neither above the
  -- range, with a product that fits 64 bits.
  pub record RootsFit (range : ℕ) : Type 0 where
    pub less_pos : 0 < root_less range
    pub more_pos : 0 < root_more range
    pub less_le : root_less range ≤ range
    pub fits : root_less range * root_more range < 2 ^ 64

  first_factors_fit :
      (range : ℕ)
      → 0 < range
      → (4 ≤ range → RootsFit range)
      → let (a, b) = first_factors root_less root_more range in
        (0 < a) × (0 < b) × (a ≤ range) × (a * b < 2 ^ 64)
  unfolding first_factors
  first_factors_fit range pos roots = ground arith

  -- On a range that is not 0 and below 2 ^ 63, `shuffle_init` returns, with factors that are not 0,
  -- whose product is above the range and fits 64 bits, and with the range, the seed and four rounds. From
  -- 4 on, the square roots must give factors that are not 0, the first at most the range, with a product
  -- that fits 64 bits.
  pub shuffle_init_lem :
      (range seed : ℕ)
      → 0 < range
      → range < 2 ^ 63
      → (4 ≤ range → RootsFit range)
      → (s : Shuffle) × (shuffle_init root_less root_more (range + 2) range seed ≡ some s)
        × (0 < s.a)
        × (0 < s.b)
        × (s.range < s.a * s.b)
        × (s.a * s.b < 2 ^ 64)
        × (s.range ≡ range)
        × (s.seed ≡ seed)
        × (s.rounds ≡ 4)
  unfolding shuffle_init
  shuffle_init_lem range seed pos small roots =
      let (pa, pb, le, fits) = first_factors_fit range pos roots in
      let (a, b) = first_factors root_less root_more range in
      let (b', e, over, fits', above) =
        grow_lem (range + 2) a b range pa pb (omega arith) fits (omega arith) (omega arith) in
      (
        record { a = a; b = b'; range = range; seed = seed; rounds = 4 },
        rw e refl,
        pa,
        omega arith,
        over,
        fits',
        refl,
        refl,
        refl,
      )
