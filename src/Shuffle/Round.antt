-- ===== src/Shuffle/Round.antt =====
-- One round of the cipher, and its inverse.
use hype.Base.{ℕ, zero, suc, ◌+◌, ◌-◌, ◌*◌, ◌/◌, ◌%◌, ◌^◌, ◌<◌, ◌≤◌, ◌≡◌, u64, arith, ap, ◌∙◌}
use native.Mathlib.Nat.{div-add-mod, mul-mod_right, add-mul-mod_self_left, mod-eq_of_lt, mod-lt}
use hype.Shuffle.{unround}

-- The round value `h` is far enough from both ends of the 64-bit range for the modulus.
pub record IsTame (n h : ℕ) : Type 0 where
  pub low : 2 * n ≤ h
  pub high : h + n ≤ 2 ^ 64

-- What is left of `h` above the remainder of `l + h` is the negative of `l`, modulo `n`.
negative : (n q r l h : ℕ) → n * q + r ≡ l + h → r < n → l < n → n ≤ h → 0 < l → (h - r) % n ≡ n - l
negative n zero r l h e small lt le pos = absurd (omega arith)
negative n (suc p) r l h e small lt le pos =
    ap (λ t. t % n) (omega arith) ∙ add-mul-mod_self_left (n - l) n p ∙ mod-eq_of_lt (omega arith)

no_negative : (n q r h : ℕ) → n * q + r ≡ 0 + h → (h - r) % n ≡ 0
no_negative n q r h e = ap (λ t. t % n) (omega arith) ∙ mul-mod_right n q

-- Where the round value is tame, the inverse round finds the half that the round replaced.
pub unround_lem : (h n l : ℕ) → 0 < n → l < n → IsTame n h → unround h n (u64 (l + h) % n) ≡ l
unfolding unround
unround_lem h n l pos lt tame =
    let r = (l + h) % n in
    let whole = div-add-mod (l + h) n in
    let small : r < n = mod-lt (l + h) pos in
    let no_wrap : u64 (l + h) ≡ l + h = omega arith in
    let no_borrow : u64 (h + (2 ^ 64 - r)) ≡ h - r = omega arith in
    rw (no_wrap, no_borrow)
      (ground
        (arith, negative n ((l + h) / n) r l h whole small lt, no_negative n ((l + h) / n) r h))
