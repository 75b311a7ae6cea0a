-- ===== src/Shuffle/Walk.antt =====
-- Cycle walking: it ends, and walking with the inverse step leads back.
use hype.Base.{
  ℕ, zero, suc, ◌+◌, ◌-◌, ◌*◌, ◌^◌, ◌<◌, ◌≤◌, ◌≡◌, refl, arith, some, none, leb, Bool-cases,
  Option-cases, inl, inr, pigeonhole, ap, sym, ◌∙◌, true, false, dec_lt, subst,
}
use hype.Shuffle.{Shuffle, do_shuffle, do_unshuffle, walk, shuffle, unshuffle}
use hype.Shuffle.Feistel.{IsTameSeed, do_shuffle-lt, do_unshuffle-do_shuffle}

walk_stop :
    (step : ℕ → ℕ) (range fuel m : ℕ)
    → leb range (step m) ≡ false
    → walk step range (suc fuel) m ≡ some (step m)
unfolding walk
walk_stop step range fuel m e = rw e refl

walk_on :
    (step : ℕ → ℕ) (range fuel m : ℕ)
    → leb range (step m) ≡ true
    → walk step range (suc fuel) m ≡ walk step range fuel (step m)
unfolding walk
walk_on step range fuel m e = rw e refl

walk-lt : (step : ℕ → ℕ) (range fuel m c : ℕ) → walk step range fuel m ≡ some c → c < range
unfolding walk
walk-lt step range zero m c e = cc
walk-lt step range (suc fuel) m c e = ground (arith, walk-lt step range fuel (step m) c)

module _ (step back : ℕ → ℕ) (size range : ℕ) (stays : (m : ℕ) → m < size → step m < size)
    (undoes : (m : ℕ) → m < size → back (step m) ≡ m) where
  back_on :
      (g m : ℕ) → m < size → range ≤ m → walk back range (suc g) (step m) ≡ walk back range g m
  back_on g m h out =
      walk_on back range g (step m) (rw (undoes m h) (ground arith))
      ∙ ap (walk back range g) (undoes m h)

  back_stop : (g m : ℕ) → m < size → m < range → walk back range (suc g) (step m) ≡ some m
  back_stop g m h in_range =
      walk_stop back range g (step m) (rw (undoes m h) (ground arith)) ∙ ap some (undoes m h)

  -- From a number outside the range, the way back from where the walk ended passes through it.
  walk_through :
      (fuel m c : ℕ)
      → walk step range fuel m ≡ some c
      → m < size
      → range ≤ m
      → (k : ℕ) × (k ≤ fuel) × ((g : ℕ) → walk back range (k + g) c ≡ walk back range g m)
  walk_through zero m c e h out = absurd (unfold walk in cc)
  walk_through (suc fuel) m c e h out = elim (Bool-cases (leb range (step m))) [
    | inr found ↦
        let here : c ≡ step m = cc (walk_stop step range fuel m found) in
        (1, omega arith, λ g. rw (here, one_more g) (back_on g m h out))
    | inl further ↦
        let (k, le, way) =
          walk_through fuel (step m) c (sym (walk_on step range fuel m further) ∙ e) (stays m h)
            (ground arith) in
        (
          suc k,
          omega arith,
          λ g. ap (λ n. walk back range n c) (swap_suc k g) ∙ way (suc g) ∙ back_on g m h out,
        )
  ]
    where
      one_more : (g : ℕ) → 1 + g ≡ suc g
      one_more g = omega arith

      swap_suc : (k g : ℕ) → suc k + g ≡ k + suc g
      swap_suc k g = omega arith

  -- A walk from the range into the range is walked back with the same fuel.
  pub walk_undone :
      (fuel m c : ℕ)
      → walk step range fuel m ≡ some c
      → m < size
      → m < range
      → walk back range fuel c ≡ some m
  walk_undone zero m c e h in_range = absurd (unfold walk in cc)
  walk_undone (suc fuel) m c e h in_range = elim (Bool-cases (leb range (step m))) [
    | inr found ↦
        let here : c ≡ step m = cc (walk_stop step range fuel m found) in
        rw here (back_stop fuel m h in_range)
    | inl further ↦
        let (k, le, way) =
          walk_through fuel (step m) c (sym (walk_on step range fuel m further) ∙ e) (stays m h)
            (ground arith) in
        ap (λ n. walk back range n c) (rest_of k le)
        ∙ way (suc (fuel - k))
        ∙ back_stop (fuel - k) m h in_range
  ]
    where
      rest_of : (k : ℕ) → k ≤ fuel → suc fuel ≡ k + suc (fuel - k)
      rest_of k le = omega arith

  -- The numbers that the walk visits.
  visited : ℕ → ℕ → ℕ
  visited zero m = m
  visited (suc i) m = step (visited i m)

  visited-step : (i m : ℕ) → visited i (step m) ≡ visited (suc i) m
  unfolding visited
  visited-step zero m = refl
  visited-step (suc i) m = ap step (visited-step i m)

  visited-lt : (i m : ℕ) → m < size → visited i m < size
  unfolding visited
  visited-lt zero m h = h
  visited-lt (suc i) m h = stays (visited i m) (visited-lt i m h)

  -- Two equal visits come from an earlier pair, back to the start.
  first_return : (i j m : ℕ) → m < size → i < j → visited i m ≡ visited j m → m ≡ visited (j - i) m
  unfolding visited
  first_return zero j m h lt e = e ∙ ap (λ n. visited n m) (omega arith)
  first_return (suc i) zero m h lt e = absurd (omega arith)
  first_return (suc i) (suc j) m h lt e =
      first_return i j m h (omega arith) (
        sym (undoes (visited i m) (visited-lt i m h))
        ∙ ap back e
        ∙ undoes (visited j m) (visited-lt j m h))
      ∙ ap (λ n. visited n m) (omega arith)

  -- A walk that is out of fuel has visited nothing in the range.
  walk-none :
      (fuel m : ℕ) → walk step range fuel m ≡ none → (i : ℕ) → i < fuel → range ≤ visited (suc i) m
  walk-none zero m e i lt = absurd (omega arith)
  walk-none (suc fuel) m e i lt = elim (Bool-cases (leb range (step m))) [
    | inr found ↦ absurd (cc (walk_stop step range fuel m found))
    | inl further ↦ elim (dec_lt 0 i) [
      | no first ↦
          let start : 0 ≡ i = omega arith in
          subst (λ n. range ≤ visited (suc n) m) start (unfold visited in ground arith)
      | yes later ↦
          let next =
            walk-none fuel (step m) (sym (walk_on step range fuel m further) ∙ e) (i - 1)
              (omega arith) in
          let index : suc (i - 1) ≡ i = omega arith in
          subst (λ n. range ≤ n) (visited-step (suc (i - 1)) m ∙ ap (λ n. visited (suc n) m) index)
            next
    ]
  ]

  -- From the range, the walk comes back into the range within `size` steps.
  pub walk_total : (m : ℕ) → m < size → m < range → (c : ℕ) × (walk step range size m ≡ some c)
  walk_total m h in_range = elim (Option-cases (walk step range size m)) [
    | inr found ↦ found
    | inl nothing ↦
        let (i, j, lt, le, e) = pigeonhole size (λ i. visited i m) (λ i p. visited-lt i m h) in
        let k = j - i - 1 in
        let index : j - i ≡ suc k = omega arith in
        let again = first_return i j m h lt e ∙ ap (λ n. visited n m) index in
        absurd (omega (arith, walk-none size m nothing k (omega arith), again))
  ]

-- If both factors are positive, their product is at least the range and at most 2 ^ 64, and every
-- round value that can come up is tame, then `shuffle` maps every number of the range into the range
-- within `a * b` steps, and `unshuffle` leads back to it within as many.
pub unshuffle-shuffle :
    (s : Shuffle) (m : ℕ)
    → 0 < s.a
    → 0 < s.b
    → IsTameSeed s.rounds s.a s.b s.seed
    → s.a * s.b ≤ 2 ^ 64
    → s.range ≤ s.a * s.b
    → m < s.range
    → (c : ℕ) × (shuffle (s.a * s.b) s m ≡ some c)
      × (c < s.range)
      × (unshuffle (s.a * s.b) s c ≡ some m)
unfolding shuffle unshuffle
unshuffle-shuffle s m pa pb tame fits spans h =
    let step = λ (c : ℕ). do_shuffle s.rounds s.a s.b c s.seed in
    let back = λ (c : ℕ). do_unshuffle s.rounds s.a s.b c s.seed in
    let size = s.a * s.b in
    let stays =
      λ (x : ℕ) (p : x < size). do_shuffle-lt s.rounds s.a s.b s.seed pa pb tame x fits p in
    let undoes = λ (x : ℕ) (p : x < size).
      do_unshuffle-do_shuffle s.rounds s.a s.b s.seed pa pb tame x fits p in
    let (c, e) = walk_total step back size s.range stays undoes m (omega arith) h in
    (
      c,
      e,
      walk-lt step s.range size m c e,
      walk_undone step back size s.range stays undoes size m c e (omega arith) h,
    )
