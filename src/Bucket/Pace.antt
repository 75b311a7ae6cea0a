-- ===== src/Bucket/Pace.antt =====
-- The pace that `bucket_consume` of src/bucket.c keeps.
use hype.Base.{
  ℕ, zero, suc, ◌+◌, ◌-◌, ◌*◌, ◌^◌, ◌<◌, ◌≤◌, ◌≡◌, refl, List, [], ◌∷◌, Option, some, u64, true,
  ◌==◌, ◌>>=◌, arith, Bool-cases, Option-cases, inl, inr, sym, subst, ◌++◌,
}
use hype.Bucket.Rounding.{IsIeee, enough_lem}
use hype.Bucket.{Doubles, Bucket, enough, await, refill, bucket_consume}

-- The readings of a clock that does not run backwards, from `start` on.
abbrev pub IsClock : ℕ → List ℕ → Type 0
IsClock start [] = start < 2 ^ 53
IsClock start (now ∷ rest) = (start ≤ now) × IsClock now rest

clock-lt : (start : ℕ) (clock : List ℕ) → IsClock start clock → start < 2 ^ 53
clock-lt start [] c = c
clock-lt start (now ∷ rest) c = omega (arith, clock-lt now rest c.1)

skip-IsClock : (start now : ℕ) (rest : List ℕ) → start ≤ now → IsClock now rest → IsClock start rest
skip-IsClock start now [] le c = omega arith
skip-IsClock start now (next ∷ rest) le c = (omega (arith, c.0), c.1)

module _ {D : Type 0} (fp : Doubles D) where
  -- `k` calls of `bucket_consume`, one after the other.
  unfoldable pub consume_times : ℕ → Bucket D → List ℕ → Option (Bucket D × List ℕ)
  consume_times zero t clock = some (t, clock)
  consume_times (suc k) t clock = bucket_consume fp t clock >>= λ r. consume_times k r.0 r.1

join_spans :
    (k a b c r : ℕ)
    → a ≤ b
    → b ≤ c
    → 10 ^ 6 ≤ (b - a) * r
    → k * 10 ^ 6 ≤ (c - b) * r
    → suc k * 10 ^ 6 ≤ (c - a) * r
join_spans k a b c r ab bc one more =
    let whole : c - a ≡ (b - a) + (c - b) = omega arith in rw whole (grind arith)

module _ {D : Type 0} (fp : Doubles D) (ieee : IsIeee fp) where
  await-paces :
      (t : Bucket D) (clock rest : List ℕ) (now : ℕ)
      → t.rate < 2 ^ 53
      → IsClock t.timestamp clock
      → await fp t clock ≡ some (now, rest)
      → (t.timestamp ≤ now) × IsClock now rest × (10 ^ 6 ≤ (now - t.timestamp) * t.rate)
  unfolding await
  await-paces t [] rest now hr c e = cc
  await-paces t (next ∷ clock) rest now hr c e =
      let span = u64 (next + (2 ^ 64 - t.timestamp)) in
      let small = clock-lt next clock c.1 in
      let exact : span ≡ next - t.timestamp = omega arith in
      elim (Bool-cases (enough fp span t.rate)) [
        | inl found ↦
            let here : next ≡ now = cc in
            let left : clock ≡ rest = cc in
            rw (sym here, sym left)
              (c.0, c.1, rw (sym exact) ((enough_lem fp ieee span t.rate (omega arith) hr).0 found))
        | inr early ↦
            await-paces t clock rest now hr (skip-IsClock t.timestamp next clock c.0 c.1) (cc)
      ]

  -- What one call does, with a rate that is not 0.
  consume_await :
      (t t' : Bucket D) (clock clock' : List ℕ)
      → 0 < t.rate
      → bucket_consume fp t clock ≡ some (t', clock')
      → (now : ℕ) × (await fp t clock ≡ some (now, clock')) × (refill fp t now ≡ t')
  unfolding bucket_consume
  consume_await t t' clock clock' pos e = elim (Option-cases (await fp t clock)) [
    | inl nothing ↦ absurd (ground (arith, nothing))
    | inr (w, found) ↦ (w.0, ground (arith, found), ground (arith, found))
  ]

  bucket_consume-paces :
      (t t' : Bucket D) (clock clock' : List ℕ)
      → 0 < t.rate
      → t.rate < 2 ^ 53
      → IsClock t.timestamp clock
      → bucket_consume fp t clock ≡ some (t', clock')
      → (t'.rate ≡ t.rate)
        × (t.timestamp ≤ t'.timestamp)
        × IsClock t'.timestamp clock'
        × (10 ^ 6 ≤ (t'.timestamp - t.timestamp) * t.rate)
  bucket_consume-paces t t' clock clock' pos hr c e =
      let (now, waited, after) = consume_await t t' clock clock' pos e in
      let (le, c', paced) = await-paces t clock clock' now hr c waited in
      subst
        (λ b.
          (b.rate ≡ t.rate)
          × (t.timestamp ≤ b.timestamp)
          × IsClock b.timestamp clock'
          × (10 ^ 6 ≤ (b.timestamp - t.timestamp) * t.rate))
        after (unfold refill in (refl, le, c', paced))

  times-paces :
      (k : ℕ) (t t' : Bucket D) (clock clock' : List ℕ)
      → 0 < t.rate
      → t.rate < 2 ^ 53
      → IsClock t.timestamp clock
      → consume_times fp k t clock ≡ some (t', clock')
      → (t.timestamp ≤ t'.timestamp) × (k * 10 ^ 6 ≤ (t'.timestamp - t.timestamp) * t.rate)
  unfolding consume_times
  times-paces zero t t' clock clock' pos hr c e =
      let same : t ≡ t' = cc in rw (sym same) (omega arith, omega arith)
  times-paces (suc k) t t' clock clock' pos hr c e =
      elim (Option-cases (bucket_consume fp t clock)) [
        | inl nothing ↦ absurd (ground (arith, nothing))
        | inr (r, found) ↦
            let (rate, le, c1, paced) = bucket_consume-paces t r.0 clock r.1 pos hr c found in
            let later : consume_times fp k r.0 r.1 ≡ some (t', clock') = ground (arith, found) in
            let (le', paced') =
              times-paces k r.0 t' r.1 clock' (omega arith) (omega arith) c1 later in
            (
              omega arith,
              join_spans k t.timestamp (r.0).timestamp t'.timestamp t.rate le le' paced
                  (subst (λ n. k * 10 ^ 6 ≤ (t'.timestamp - (r.0).timestamp) * n) rate paced'),
            )
      ]

  -- With a rate that is not 0 and below 2 ^ 53, and a clock that does not run backwards and stays below 2 ^ 53
  -- microseconds: `k` calls of `bucket_consume` that return take at least `k` seconds divided by the rate, so
  -- no more than the rate is allowed in a second, whatever tokens the bucket held. The arithmetic of
  -- `double` is that of IEEE 754.
  pub consume_times_paces :
      (k : ℕ) (t t' : Bucket D) (clock clock' : List ℕ)
      → 0 < t.rate
      → t.rate < 2 ^ 53
      → IsClock t.timestamp clock
      → consume_times fp k t clock ≡ some (t', clock')
      → k * 10 ^ 6 ≤ (t'.timestamp - t.timestamp) * t.rate
  consume_times_paces k t t' clock clock' pos hr c e =
      (times-paces k t t' clock clock' pos hr c e).1

  await-returns :
      (t : Bucket D) (early : List ℕ) (now : ℕ) (late : List ℕ)
      → enough fp (u64 (now + (2 ^ 64 - t.timestamp))) t.rate ≡ true
      → (w : ℕ × List ℕ) × (await fp t (early ++ (now ∷ late)) ≡ some w)
  unfolding await
  await-returns t [] now late h = ((now, late), rw h refl)
  await-returns t (x ∷ early) now late h =
      elim (Bool-cases (enough fp (u64 (x + (2 ^ 64 - t.timestamp))) t.rate)) [
        | inl found ↦ ((x, early ++ (now ∷ late)), rw found refl)
        | inr wait ↦ let (w, e) = await-returns t early now late h in (w, rw wait e)
      ]

  -- `bucket_consume` returns if one of the readings of the clock, not before the bucket's timestamp and
  -- below 2 ^ 53, shows a time at which more than one token has been earned, that is, more than a million
  -- microseconds divided by the rate, whatever the readings before it are. The rate is below 2 ^ 53, and the
  -- arithmetic of `double` is that of IEEE 754.
  pub bucket_consume-returns :
      (t : Bucket D) (early : List ℕ) (now : ℕ) (late : List ℕ)
      → t.rate < 2 ^ 53
      → t.timestamp ≤ now
      → now < 2 ^ 53
      → 10 ^ 6 < (now - t.timestamp) * t.rate
      → (r : Bucket D × List ℕ) × (bucket_consume fp t (early ++ (now ∷ late)) ≡ some r)
  unfolding bucket_consume
  bucket_consume-returns t early now late hr le hn h =
      let span = u64 (now + (2 ^ 64 - t.timestamp)) in
      let exact : span ≡ now - t.timestamp = omega arith in
      let found = (enough_lem fp ieee span t.rate (omega arith) hr).1 (rw exact h) in
      let (w, e) = await-returns t early now late found in
      elim (Bool-cases (t.rate == 0)) [
        | inl unlimited ↦ ((t, early ++ (now ∷ late)), rw unlimited refl)
        | inr limited ↦ ((refill fp t w.0, w.1), rw (limited, e) refl)
      ]
