-- ===== src/Base/Order.antt =====
-- Bounded checks and the pigeonhole principle on the native numbers.
use Prim.Native.Nat.{ℕ, zero, suc, ◌-◌, ◌<◌}
use mathlib.Core.Path.{◌≡◌, ap, sym, ◌∙◌}
use mathlib.Core.Logic.{◌≢◌, ◌⊎◌, inl, inr}
use native.Mathlib.Decide.{dec_lt, ℕ_discrete}
use mathlib.Core.Bool.{Bool, true, ◌&&◌}
use native.Mathlib.Omega.{arith}
use hype.Base.Tests.{ltb, if◌then◌else◌}

unfoldable pub every_below : (ℕ → Bool) → ℕ → Bool
every_below test zero = true
every_below test (suc n) = every_below test n && test n

pub every_below_holds :
    (test : ℕ → Bool) (bound x : ℕ) → x < bound → every_below test bound ≡ true → test x ≡ true
unfolding every_below
every_below_holds test zero x below h = elim below [ ]
every_below_holds test (suc n) x below h = ground (arith, every_below_holds test n x)

-- A value among the first `n` of a family, or none of them.
find_below : (g : ℕ → ℕ) (v n : ℕ) → ((i : ℕ) × (i < n) × (g i ≡ v)) ⊎ ((i : ℕ) → i < n → g i ≢ v)
find_below g v zero = inr (λ i h. elim h [ ])
find_below g v (suc n) = elim (ℕ_discrete (g n) v) [
  | yes e ↦ inl (n, omega arith, e)
  | no ne ↦ elim (find_below g v n) [
    | inl (i, h, e) ↦ inl (i, omega arith, e)
    | inr others ↦ inr (λ i h. elim (ℕ_discrete i n) [
      | yes e ↦ λ q. ne (ap g (sym e) ∙ q)
      | no d ↦ others i (omega arith)
    ])
  ]
]

-- Leaves out the value `v`.
squeeze : ℕ → ℕ → ℕ
squeeze v x = elim (dec_lt v x) [ yes _ ↦ x - 1 | no _ ↦ x ]

squeeze_injective : (v x y : ℕ) → x ≢ v → y ≢ v → squeeze v x ≡ squeeze v y → x ≡ y
unfolding squeeze
squeeze_injective v x y p q e = ground arith

squeeze-lt : (v x n : ℕ) → x ≢ v → v < suc n → x < suc n → squeeze v x < n
unfolding squeeze
squeeze-lt v x n p q h = ground arith

-- Of `n + 1` numbers below `n`, two are equal.
pub pigeonhole :
    (n : ℕ) (g : ℕ → ℕ)
    → ((i : ℕ) → i < suc n → g i < n)
    → (i : ℕ) × (j : ℕ) × (i < j) × (j < suc n) × (g i ≡ g j)
pigeonhole zero g h = absurd (omega (arith, h 0 (omega arith)))
pigeonhole (suc n) g h = elim (find_below g (g (suc n)) (suc n)) [
  | inl (i, lt, e) ↦ (i, suc n, lt, omega arith, e)
  | inr others ↦
      let (i, j, lt, le, e) =
        pigeonhole n (λ i. squeeze (g (suc n)) (g i))
          (λ i p.
            squeeze-lt (g (suc n)) (g i) n (others i p) (h (suc n) (omega arith))
              (h i (omega arith))) in
      (
        i,
        j,
        lt,
        omega arith,
        squeeze_injective (g (suc n)) (g i) (g j) (others i (omega arith)) (others j le) e,
      )
]

module _ (n : ℕ) (g : ℕ → ℕ) (stays : (i : ℕ) → i < n → g i < n)
    (differ : (i j : ℕ) → i < n → j < n → g i ≡ g j → i ≡ j) where
  -- `g` on the numbers below `n`, and `y` from `n` on.
  with_last : ℕ → ℕ → ℕ
  with_last y i = if ltb i n then g i else y

  -- If `g` takes the numbers below `n` to different numbers below `n`, it takes one to each of them.
  pub injection_covers : (y : ℕ) → y < n → (i : ℕ) × (i < n) × (g i ≡ y)
  unfolding with_last
  injection_covers y h = elim (find_below g y n) [
    | inl found ↦ found
    | inr never ↦
        let (i, j, lt, le, e) = pigeonhole n (with_last y) (λ i p. ground (arith, stays i)) in
        absurd (ground (arith, never i, differ i j))
  ]
