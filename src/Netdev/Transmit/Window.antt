-- ===== src/Netdev/Transmit/Window.antt =====
-- The frames of the sending ring that the kernel has still to take, in their order.
use hype.Base.{
  ℕ, zero, suc, ◌+◌, ◌-◌, ◌%◌, ◌<◌, ◌≡◌, refl, ap, ap₂, ◌∙◌, List, [], ◌∷◌, ◌++◌, arith,
}
use hype.Netdev.{ring_frame_nr}

-- The bytes of `n` frames from a place on.
abbrev pub held : (ℕ → List ℕ) → ℕ → ℕ → List (List ℕ)
held mem h zero = []
held mem h (suc n) = mem (h % ring_frame_nr) ∷ held mem (suc h) n

pub held-snoc :
    (mem : ℕ → List ℕ) (h n : ℕ)
    → held mem h (suc n) ≡ held mem h n ++ (mem ((h + n) % ring_frame_nr) ∷ [])
held-snoc mem h zero = ap (λ i. mem (i % ring_frame_nr) ∷ []) (omega arith)
held-snoc mem h (suc n) =
    ap (λ t. mem (h % ring_frame_nr) ∷ t)
      (held-snoc mem (suc h) n
        ∙ ap (λ i. held mem (suc h) n ++ (mem (i % ring_frame_nr) ∷ [])) (omega arith))

-- Only the places and the bytes at them count.
pub held-ext :
    (mem mem' : ℕ → List ℕ) (h h' n : ℕ)
    → ((k : ℕ) → k < n → mem ((h + k) % ring_frame_nr) ≡ mem' ((h' + k) % ring_frame_nr))
    → held mem h n ≡ held mem' h' n
held-ext mem mem' h h' zero same = refl
held-ext mem mem' h h' (suc n) same =
    ap₂ ◌∷◌
      (ap (λ i. mem (i % ring_frame_nr)) (omega arith)
        ∙ same 0 (omega arith)
        ∙ ap (λ i. mem' (i % ring_frame_nr)) (omega arith))
      (held-ext mem mem' (suc h) (suc h') n λ k below.
        ap (λ i. mem (i % ring_frame_nr)) (omega arith)
        ∙ same (suc k) (omega arith)
        ∙ ap (λ i. mem' (i % ring_frame_nr)) (omega arith))

-- The first frame, and those behind it.
pub held-head :
    (mem : ℕ → List ℕ) (h n : ℕ)
    → h < ring_frame_nr
    → 0 < n
    → held mem h n ≡ mem h ∷ held mem ((h + 1) % ring_frame_nr) (n - 1)
held-head mem h zero inside some_left = absurd (omega arith)
held-head mem h (suc n) inside some_left =
    let here : h % ring_frame_nr ≡ h = omega arith in
    let one_less : n ≡ suc n - 1 = omega arith in
    ap₂ ◌∷◌ (ap mem here) (
      held-ext mem mem (suc h) ((h + 1) % ring_frame_nr) n (λ k below.
        let same : (suc h + k) % ring_frame_nr ≡ ((h + 1) % ring_frame_nr + k) % ring_frame_nr =
          omega arith in
        ap mem same)
      ∙ ap (held mem ((h + 1) % ring_frame_nr)) one_less)
