-- ===== src/Checksum/Fold.antt =====
-- Folding the carries of a 32-bit sum: the result is the one's complement value of the sum.
use hype.Base.{ℕ, ◌+◌, ◌-◌, ◌%◌, ◌^◌, ◌<◌, ◌≡◌, ◌==◌, if◌then◌else◌, some, arith}
use hype.Checksum.{fold_carry, fold_fuel}

-- The representative in 1 .. 65535 of a positive sum modulo 65535, and 0 for no sum at all.
abbrev pub ones : ℕ → ℕ
ones n = if n == 0 then 0 else (n - 1) % 65535 + 1

-- A 32-bit sum is folded within the fuel, to its one's complement value.
pub fold_carry-ones : (n : ℕ) → n < 2 ^ 32 → fold_carry fold_fuel n ≡ some (ones n)
unfolding fold_carry
fold_carry-ones n h = ground arith
