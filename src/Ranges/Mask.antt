-- ===== src/Ranges/Mask.antt =====
-- The mask of a network in `range_parse_targets` of src/ranges.c: which addresses its range covers.
use Prim.Native.Nat.{bit_and, bit_or, bit_and-bitwise, bit_or-bitwise}
use native.Mathlib.Nat.{
  pow-suc, mul_assoc, mul-one, div-one, div-div-eq-div-mul, div-add-mod, mod-lt, div-eq_of_lt-le,
  div-mul-le_self,
}
use hype.Base.{
  ℕ, zero, suc, ◌+◌, ◌-◌, ◌*◌, ◌/◌, ◌%◌, ◌^◌, ◌<◌, ◌≤◌, ◌≡◌, ◌↔◌, refl, sym, ap, ap₂, subst, ◌∙◌,
  arith, min, max, ntohl, every_below, every_below_holds, ◌==◌, ==_iff, Bool, true,
}
use hype.Hash.Bits.{spare_steps}
use hype.Ranges.Parse.{mask_of, target_range}

-- The lowest digit of both operations, and the digits above it.
and_lowest : (n m : ℕ) → min (n % 2) (m % 2) + 2 * bit_and (n / 2) (m / 2) ≡ bit_and n m
and_lowest (suc n) m =
    let above =
      spare_steps (λ y. zero) min (suc n / 2) (suc n / 2) n (m / 2) (omega arith) (omega arith) in
    simp bit_and-bitwise (omega (arith, above))
and_lowest zero m = simp bit_and-bitwise (omega arith)

two_pos : (w : ℕ) → 0 < 2 ^ w
two_pos zero = omega arith
two_pos (suc w) = omega (arith, pow-suc 2 w, two_pos w)

or_lowest : (n m : ℕ) → max (n % 2) (m % 2) + 2 * bit_or (n / 2) (m / 2) ≡ bit_or n m
or_lowest (suc n) m =
    let above =
      spare_steps (λ y. y) max (suc n / 2) (suc n / 2) n (m / 2) (omega arith) (omega arith) in
    simp bit_or-bitwise (omega (arith, above))
or_lowest zero m = simp bit_or-bitwise (omega arith)

-- One more low digit: 0 in a mask, 1 in its complement.
bit_and_double : (a m : ℕ) → bit_and a (m * 2) ≡ bit_and (a / 2) m * 2
bit_and_double a m =
    let half : m * 2 / 2 ≡ m = omega arith in
    let low : m * 2 % 2 ≡ 0 = omega arith in
    sym (and_lowest a (m * 2)) ∙ rw (half, low) (omega arith)

bit_and_odd : (a m : ℕ) → bit_and a (m * 2 + 1) ≡ bit_and (a / 2) m * 2 + a % 2
bit_and_odd a m =
    let half : (m * 2 + 1) / 2 ≡ m = omega arith in
    let low : (m * 2 + 1) % 2 ≡ 1 = omega arith in
    sym (and_lowest a (m * 2 + 1)) ∙ rw (half, low) (omega arith)

bit_or_odd : (b m : ℕ) → bit_or (b * 2) (m * 2 + 1) ≡ bit_or b m * 2 + 1
bit_or_odd b m =
    let half : b * 2 / 2 ≡ b = omega arith in
    let low : b * 2 % 2 ≡ 0 = omega arith in
    let half' : (m * 2 + 1) / 2 ≡ m = omega arith in
    let low' : (m * 2 + 1) % 2 ≡ 1 = omega arith in
    sym (or_lowest (b * 2) (m * 2 + 1)) ∙ rw (half, low, half', low') (omega arith)

-- A number below 2 ^ w, and w ones.
bit_and_ones : (w a : ℕ) → a < 2 ^ w → bit_and a (2 ^ w - 1) ≡ a
bit_and_ones zero a h = let e : a ≡ 0 = omega arith in rw e refl
bit_and_ones (suc w) a h =
    let more : 2 ^ suc w - 1 ≡ (2 ^ w - 1) * 2 + 1 = omega (arith, pow-suc 2 w, two_pos w) in
    let later : bit_and (a / 2) (2 ^ w - 1) ≡ a / 2 =
      bit_and_ones w (a / 2) (omega (arith, pow-suc 2 w)) in
    ap (bit_and a) more ∙ bit_and_odd a (2 ^ w - 1) ∙ omega (arith, later)

times_pow : (k m : ℕ) → m * 2 ^ suc k ≡ m * 2 ^ k * 2
times_pow k m = ap (λ t. m * t) (pow-suc 2 k) ∙ sym (mul_assoc m (2 ^ k) 2)

div_pow : (k a : ℕ) → a / 2 / 2 ^ k ≡ a / 2 ^ suc k
div_pow k a = div-div-eq-div-mul a 2 (2 ^ k) ∙ ap (λ t. a / t) (omega (arith, pow-suc 2 k))

-- k zeros behind the ones clear the k low digits.
bit_and_mask : (k w a : ℕ) → a < 2 ^ w * 2 ^ k → bit_and a ((2 ^ w - 1) * 2 ^ k) ≡ a / 2 ^ k * 2 ^ k
bit_and_mask zero w a h =
    ap (bit_and a) (omega arith)
    ∙ bit_and_ones w a (omega arith)
    ∙ sym (ap (λ t. t * 1) (div-one a) ∙ mul-one a)
bit_and_mask (suc k) w a h =
    let more : (2 ^ w - 1) * 2 ^ suc k ≡ (2 ^ w - 1) * 2 ^ k * 2 = times_pow k (2 ^ w - 1) in
    let small : a / 2 < 2 ^ w * 2 ^ k = omega (arith, times_pow k (2 ^ w)) in
    ap (bit_and a) more
    ∙ bit_and_double a ((2 ^ w - 1) * 2 ^ k)
    ∙ ap (λ t. t * 2) (bit_and_mask k w (a / 2) small)
    ∙ ap (λ t. t * 2 ^ k * 2) (div_pow k a)
    ∙ sym (times_pow k (a / 2 ^ suc k))

bit_or_zero : (n b : ℕ) → b ≤ n → bit_or b 0 ≡ b
bit_or_zero zero b h = let e : b ≡ 0 = omega arith in rw e refl
bit_or_zero (suc n) b h = omega (arith, or_lowest b 0, bit_or_zero n (b / 2))

-- k ones behind a number that ends in k zeros.
bit_or_ones : (k b : ℕ) → bit_or (b * 2 ^ k) (2 ^ k - 1) ≡ b * 2 ^ k + (2 ^ k - 1)
bit_or_ones zero b =
    ap (λ t. bit_or t 0) (omega arith) ∙ bit_or_zero b b (omega arith) ∙ omega arith
bit_or_ones (suc k) b =
    let more : b * 2 ^ suc k ≡ b * 2 ^ k * 2 = times_pow k b in
    let ones : 2 ^ suc k - 1 ≡ (2 ^ k - 1) * 2 + 1 = omega (arith, pow-suc 2 k, two_pos k) in
    ap₂ bit_or more ones
    ∙ bit_or_odd (b * 2 ^ k) (2 ^ k - 1)
    ∙ omega (arith, bit_or_ones k b, more, ones)

mask_at : ℕ → Bool
mask_at bits = mask_of bits == (2 ^ bits - 1) * 2 ^ (32 - bits)

mask_table : every_below mask_at 33 ≡ true
unfolding mask_at every_below mask_of
mask_table = refl

mask_of_lem : (bits : ℕ) → bits ≤ 32 → mask_of bits ≡ (2 ^ bits - 1) * 2 ^ (32 - bits)
unfolding mask_at
mask_of_lem bits h = (==_iff _ _).0 (every_below_holds mask_at 33 bits (omega arith) mask_table)

whole_at : ℕ → Bool
whole_at bits = 2 ^ bits * 2 ^ (32 - bits) == 2 ^ 32

whole_table : every_below whole_at 33 ≡ true
unfolding whole_at every_below
whole_table = refl

whole_mask : (bits : ℕ) → bits ≤ 32 → 2 ^ bits * 2 ^ (32 - bits) ≡ 2 ^ 32
unfolding whole_at
whole_mask bits h = (==_iff _ _).0 (every_below_holds whole_at 33 bits (omega arith) whole_table)

host_at : ℕ → Bool
host_at bits = 2 ^ 32 - 1 - mask_of bits == 2 ^ (32 - bits) - 1

host_table : every_below host_at 33 ≡ true
unfolding host_at every_below mask_of
host_table = refl

host_mask : (bits : ℕ) → bits ≤ 32 → 2 ^ 32 - 1 - mask_of bits ≡ 2 ^ (32 - bits) - 1
unfolding host_at
host_mask bits h = (==_iff _ _).0 (every_below_holds host_at 33 bits (omega arith) host_table)

-- The numbers with quotient `q`.
quotient_iff : (x d q : ℕ) → 0 < d → ((q * d ≤ x) × (x ≤ q * d + (d - 1))) ↔ (x / d ≡ q)
quotient_iff x d q pos = (
  λ (lo, hi). div-eq_of_lt-le d lo (grind arith),
  λ e.
      subst (λ r. (r * d ≤ x) × (x ≤ r * d + (d - 1))) e
        (div-mul-le_self x d, grind (arith, div-add-mod x d, mod-lt x {m = d} pos)),
)

-- The range of an address and a number of bits, at most 32: a number is in it exactly if it
-- agrees with the given one on that many leading bits.
pub target_range-covers :
    (addr bits x : ℕ)
    → bits ≤ 32
    → (((target_range addr bits).start ≤ x) × (x ≤ (target_range addr bits).end))
      ↔ (x / 2 ^ (32 - bits) ≡ ntohl addr / 2 ^ (32 - bits))
unfolding target_range
target_range-covers addr bits x h =
    let d = 2 ^ (32 - bits) in
    let n = ntohl addr in
    let whole = whole_mask bits h in
    let below : n < 2 ^ bits * d = omega (arith, whole) in
    let start : bit_and n (mask_of bits) ≡ n / d * d =
      ap (bit_and n) (mask_of_lem bits h) ∙ bit_and_mask (32 - bits) bits n below in
    rw (start, host_mask bits h, bit_or_ones (32 - bits) (n / d))
      (quotient_iff x d (n / d) (two_pos (32 - bits)))
