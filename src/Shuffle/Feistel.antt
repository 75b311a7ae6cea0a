-- ===== src/Shuffle/Feistel.antt =====
-- The cipher is a bijection of [0, a * b), where no round value wraps.
use native.Mathlib.Nat.{div-add-mod, mod-lt, zero-add, add-zero, div-lt_iff_lt-mul, mod-eq_of_lt}
use native.Mathlib.Numerals.{add-one}
use hype.Base.{
  ℕ, zero, suc, ◌+◌, ◌*◌, ◌/◌, ◌%◌, ◌^◌, ◌<◌, ◌≤◌, ◌≡◌, refl, u64, ◌==◌, arith, max, divide_join,
  ap, ◌∙◌, sym, Bool-cases, inl, inr, true, false,
}
use hype.Shuffle.{f, modulus, shuffle_rounds, do_shuffle, unround, unshuffle_rounds, do_unshuffle}
use hype.Shuffle.Round.{IsTame, unround_lem}

-- Every round value that can come up is tame.
abbrev pub IsTameSeed : ℕ → ℕ → ℕ → ℕ → Type 0
IsTameSeed rounds a b seed =
    (j x : ℕ) → 1 ≤ j → j ≤ rounds → x < max a b → IsTame (max a b) (f j x seed)

-- The halves before round `j`.
abbrev pub HalvesFit : ℕ → ℕ → ℕ → ℕ × ℕ → Type 0
HalvesFit j a b h = (h.0 < modulus j a b) × (h.1 < modulus (suc j) a b)

modulus_two : (j a b : ℕ) → modulus (suc (suc j)) a b ≡ modulus j a b
modulus_two j a b = ground arith

shift : (left j : ℕ) → suc left + j ≡ left + suc j
shift left j = omega arith

lt_le_trans : {a b c : ℕ} → a < b → b ≤ c → a < c
lt_le_trans p q = omega arith

module _ (rounds a b seed : ℕ) (pos_a : 0 < a) (pos_b : 0 < b)
    (tame : IsTameSeed rounds a b seed) where
  modulus_le : (j : ℕ) → (0 < modulus j a b) × (modulus j a b ≤ max a b)
  modulus_le j = ground arith

  step : ℕ → ℕ × ℕ → ℕ × ℕ
  step j (l, r) = (r, u64 (l + f j r seed) % modulus j a b)

  step-HalvesFit : (j l r : ℕ) → HalvesFit j a b (l, r) → HalvesFit (suc j) a b (step j (l, r))
  unfolding step
  step-HalvesFit j l r h =
      (h.1, rw (modulus_two j a b) (mod-lt (u64 (l + f j r seed)) (modulus_le j).0))

  step_undone :
      (j l r : ℕ)
      → suc j ≤ rounds
      → HalvesFit (suc j) a b (l, r)
      → unround (f (suc j) r seed) (modulus (suc j) a b) (step (suc j) (l, r)).1 ≡ l
  unfolding step
  step_undone j l r le h =
      let (pos, small) = modulus_le (suc j) in
      let (pos2, small2) = modulus_le (suc (suc j)) in
      let t = tame (suc j) r (omega arith) le (omega arith) in
      unround_lem (f (suc j) r seed) (modulus (suc j) a b) l pos h.0
        (record { low = omega arith; high = omega arith })

  shuffle_rounds-suc :
      (left j l r : ℕ)
      → shuffle_rounds (suc left) j a b seed (l, r)
        ≡ shuffle_rounds left (suc j) a b seed (step j (l, r))
  unfolding shuffle_rounds step
  shuffle_rounds-suc left j l r =
      ap (λ k. shuffle_rounds left k a b seed (step j (l, r))) (add-one j)

  rounds-HalvesFit :
      (left j l r : ℕ)
      → HalvesFit j a b (l, r)
      → HalvesFit (left + j) a b (shuffle_rounds left j a b seed (l, r))
  unfolding shuffle_rounds
  rounds-HalvesFit zero j l r h = rw (zero-add j) h
  rounds-HalvesFit (suc left) j l r h =
      rw (shuffle_rounds-suc left j l r, shift left j)
        (rounds-HalvesFit left (suc j) (step j (l, r)).0 (step j (l, r)).1 (step-HalvesFit j l r h))

  rounds_undone :
      (left j l r : ℕ)
      → left + j ≤ rounds
      → HalvesFit (suc j) a b (l, r)
      → unshuffle_rounds (left + j) a b seed (shuffle_rounds left (suc j) a b seed (l, r))
        ≡ unshuffle_rounds j a b seed (l, r)
  unfolding shuffle_rounds unshuffle_rounds step
  rounds_undone zero j l r le h = rw (zero-add j) refl
  rounds_undone (suc left) j l r le h =
      rw (add-one (suc j), shift left j)
        (rounds_undone left (suc j) r (step (suc j) (l, r)).1 (omega arith)
            (step-HalvesFit (suc j) l r h)
          ∙ ap (λ t. unshuffle_rounds j a b seed (t, r)) (step_undone j l r (omega arith) h))

  -- How the two halves are joined into one number below `a * b`, and taken apart again.
  join_lt : (l r : ℕ) → l < a → r < b → a * r + l < a * b
  join_lt l r hl hr = grind arith

  split_join : (l r : ℕ) → l < a → ((a * r + l) % a ≡ l) × ((a * r + l) / a ≡ r)
  split_join l r hl = divide_join a l r hl

  halves_start : (m : ℕ) → m < a * b → HalvesFit 1 a b (m % a, m / a)
  halves_start m h = (mod-lt m pos_a, (div-lt_iff_lt-mul pos_a).1 (omega arith))

  -- The halves that the loop of `do_shuffle` leaves.
  final : ℕ → ℕ × ℕ
  final m = shuffle_rounds rounds 1 a b seed (m % a, m / a)

  final-HalvesFit : (m : ℕ) → m < a * b → HalvesFit (suc rounds) a b (final m)
  unfolding final
  final-HalvesFit m h =
      rw (← add-one rounds) (rounds-HalvesFit rounds 1 (m % a) (m / a) (halves_start m h))

  ends_odd : (m : ℕ) → m < a * b → (rounds % 2 == 1) ≡ true → ((final m).0 < b) × ((final m).1 < a)
  ends_odd m h odd = let (hl, hr) = final-HalvesFit m h in ground arith

  ends_even :
      (m : ℕ) → m < a * b → (rounds % 2 == 1) ≡ false → ((final m).0 < a) × ((final m).1 < b)
  ends_even m h even = let (hl, hr) = final-HalvesFit m h in ground arith

  -- `do_shuffle` stays below `a * b`, which must fit 64 bits.
  pub do_shuffle-lt : (m : ℕ) → a * b ≤ 2 ^ 64 → m < a * b → do_shuffle rounds a b m seed < a * b
  unfolding do_shuffle final
  do_shuffle-lt m fits h =
      let (l, r) = final m in
      elim (Bool-cases (rounds % 2 == 1)) [
        | inl odd ↦ let (hl, hr) = ends_odd m h odd in rw odd (omega (arith, join_lt r l hr hl))
        | inr even ↦ let (hl, hr) = ends_even m h even in rw even (omega (arith, join_lt l r hl hr))
      ]

  undone : (m : ℕ) → m < a * b → unshuffle_rounds rounds a b seed (final m) ≡ (m % a, m / a)
  unfolding final unshuffle_rounds
  undone m h =
      ap (λ k. unshuffle_rounds k a b seed (final m)) (sym (add-zero rounds))
      ∙ rounds_undone rounds 0 (m % a) (m / a) (omega arith) (halves_start m h)

  split_u64 :
      (l r : ℕ)
      → a * b ≤ 2 ^ 64
      → l < a
      → r < b
      → (u64 (a * r + l) % a ≡ l) × (u64 (a * r + l) / a ≡ r)
  split_u64 l r fits hl hr =
      rw (mod-eq_of_lt (lt_le_trans (join_lt l r hl hr) fits)) (split_join l r hl)

  -- `do_unshuffle` undoes `do_shuffle` on every number below `a * b`, for every number of rounds and
  -- positive factors, if `a * b` is at most 2 ^ 64 and every round value that can come up is tame: at
  -- least twice the larger factor, and so far below 2 ^ 64 that adding the larger factor does not wrap.
  pub do_unshuffle-do_shuffle :
      (m : ℕ)
      → a * b ≤ 2 ^ 64
      → m < a * b
      → do_unshuffle rounds a b (do_shuffle rounds a b m seed) seed ≡ m
  unfolding do_unshuffle do_shuffle final
  do_unshuffle-do_shuffle m fits h =
      let (l, r) = final m in
      let whole : u64 (a * (m / a) + m % a) ≡ m = omega (arith, div-add-mod m a) in
      elim (Bool-cases (rounds % 2 == 1)) [
        | inl odd ↦
            let (hl, hr) = ends_odd m h odd in
            let (er, el) = split_u64 r l fits hr hl in rw (odd, el, er, undone m h) whole
        | inr even ↦
            let (hl, hr) = ends_even m h even in
            let (el, er) = split_u64 l r fits hl hr in rw (even, el, er, undone m h) whole
      ]
