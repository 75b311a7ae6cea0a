-- ===== src/Hash/Bits.antt =====
-- Exclusive or at variables: the law for the lowest digit, cancellation, and the range.
use Prim.Native.Nat.{bit_xor, bit_xor-bitwise, digits, differ}
use native.Mathlib.Nat.{pow-suc}
use hype.Base.{ℕ, zero, suc, ◌+◌, ◌*◌, ◌/◌, ◌%◌, ◌^◌, ◌<◌, ◌≤◌, ◌≡◌, refl, arith}

-- More steps than the first number has digits change nothing.
module _ (z : ℕ → ℕ) (f : ℕ → ℕ → ℕ) where
  pub spare_steps : (a n m b : ℕ) → a ≤ n → a ≤ m → digits z f m a b ≡ digits z f n a b
  spare_steps zero zero zero b ha hb = refl
  spare_steps zero zero (suc m) b ha hb = refl
  spare_steps zero (suc n) zero b ha hb = refl
  spare_steps zero (suc n) (suc m) b ha hb = refl
  spare_steps (suc a) zero m b ha hb = elim ha [ ]
  spare_steps (suc a) (suc n) zero b ha hb = elim hb [ ]
  spare_steps (suc a) (suc n) (suc m) b ha hb =
      let half = suc a / 2 in rw (spare_steps half n m (b / 2) (omega arith) (omega arith))

pub bit_xor_step : (a b : ℕ) → bit_xor a b ≡ bit_xor (a / 2) (b / 2) * 2 + differ (a % 2) (b % 2)
bit_xor_step zero b = simp bit_xor-bitwise (omega arith)
bit_xor_step (suc a) b =
    let half = suc a / 2 in
    let same = spare_steps (λ y. y) differ half half a (b / 2) (omega arith) (omega arith) in
    simp bit_xor-bitwise (omega (arith, same))

-- Two digits differ in the same place twice: back to the first.
differ_digits : (x y : ℕ) → x < 2 → y < 2 → (differ x y < 2) × (differ (differ x y) y ≡ x)
differ_digits zero zero p q = (omega arith, refl)
differ_digits zero (suc zero) p q = (omega arith, refl)
differ_digits (suc zero) zero p q = (omega arith, refl)
differ_digits (suc zero) (suc zero) p q = (omega arith, refl)
differ_digits (suc (suc x)) y p q = absurd (omega arith)
differ_digits zero (suc (suc y)) p q = absurd (omega arith)
differ_digits (suc zero) (suc (suc y)) p q = absurd (omega arith)

differ_comm : (x y : ℕ) → differ x y ≡ differ y x
differ_comm zero zero = refl
differ_comm zero (suc y) = refl
differ_comm (suc x) zero = refl
differ_comm (suc x) (suc y) = differ_comm x y

xor_zeros : (a b : ℕ) → a < 1 → b < 1 → bit_xor a b ≡ 0
xor_zeros a b p q = let ea : a ≡ 0 = omega arith in let eb : b ≡ 0 = omega arith in rw (ea, eb) refl

pub bit_xor-lt : (k a b : ℕ) → a < 2 ^ k → b < 2 ^ k → bit_xor a b < 2 ^ k
bit_xor-lt zero a b p q = omega (arith, xor_zeros a b p q)
bit_xor-lt (suc k) a b p q = ground (
  arith,
  pow-suc 2 k,
  bit_xor_step a b,
  differ_digits (a % 2) (b % 2),
  bit_xor-lt k (a / 2) (b / 2),
)

cancel_fuel : (n a b : ℕ) → a ≤ n → b ≤ n → bit_xor (bit_xor a b) b ≡ a
cancel_fuel zero a b p q =
    let ea : a ≡ 0 = omega arith in let eb : b ≡ 0 = omega arith in rw (ea, eb) refl
cancel_fuel (suc n) a b p q = ground (
  arith,
  bit_xor_step a b,
  bit_xor_step (bit_xor a b) b,
  differ_digits (a % 2) (b % 2),
  cancel_fuel n (a / 2) (b / 2),
)

-- Exclusive or with the same value twice.
pub bit_xor_cancel : (a b : ℕ) → bit_xor (bit_xor a b) b ≡ a
bit_xor_cancel a b = cancel_fuel (a + b) a b (omega arith) (omega arith)

comm_fuel : (n a b : ℕ) → a ≤ n → b ≤ n → bit_xor a b ≡ bit_xor b a
comm_fuel zero a b p q =
    let ea : a ≡ 0 = omega arith in let eb : b ≡ 0 = omega arith in rw (ea, eb) refl
comm_fuel (suc n) a b p q = ground (
  arith,
  bit_xor_step a b,
  bit_xor_step b a,
  differ_comm (a % 2) (b % 2),
  comm_fuel n (a / 2) (b / 2),
)

pub bit_xor_comm : (a b : ℕ) → bit_xor a b ≡ bit_xor b a
bit_xor_comm a b = comm_fuel (a + b) a b (omega arith) (omega arith)
