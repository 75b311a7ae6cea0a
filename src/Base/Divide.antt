-- ===== src/Base/Divide.antt =====
-- A quotient and a remainder joined into one number, and taken apart again.
use Prim.Native.Nat.{ℕ, ◌+◌, ◌*◌, ◌/◌, ◌%◌, ◌<◌}
use mathlib.Core.Path.{◌≡◌, ap, ◌∙◌}
use native.Mathlib.Omega.{arith}
use native.Mathlib.Nat.{
  zero-add, add-mul-mod_self_left, add-mul-div_left, div-eq_of_lt, mod-eq_of_lt,
}

pub divide_join : (n l r : ℕ) → l < n → ((n * r + l) % n ≡ l) × ((n * r + l) / n ≡ r)
divide_join n l r h = (
  ap (λ t. t % n) (omega arith) ∙ add-mul-mod_self_left l n r ∙ mod-eq_of_lt h,
  ap (λ t. t / n) (omega arith)
      ∙ add-mul-div_left l r (omega arith)
      ∙ ap (λ t. t + r) (div-eq_of_lt h)
      ∙ zero-add r,
)
