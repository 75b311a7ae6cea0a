-- ===== src/Bucket.antt =====
-- src/bucket.c: the token bucket that paces the sending thread.
pub mod Rounding
pub mod Pace
use hype.Base.{
  ℕ, zero, suc, ◌+◌, ◌-◌, ◌*◌, ◌^◌, ◌<◌, ◌≤◌, ◌≡◌, List, [], ◌∷◌, Option, none, some, u64, Bool,
  true, ◌==◌, ◌>>=◌, if◌then◌else◌,
}

-- The operations of `double` that the source uses; `of_u64` is the conversion.
pub record Doubles (D : Type 0) : Type 0 where
  pub of_u64 : ℕ → D
  pub add : D → D → D
  pub sub : D → D → D
  pub mul : D → D → D
  pub div : D → D → D
  -- `x <= y`
  pub at_most : D → D → Bool
  -- `x < y`
  pub less : D → D → Bool

pub record Bucket (D : Type 0) : Type 0 where
  pub tokens : D
  pub rate : ℕ
  pub timestamp : ℕ

module _ {D : Type 0} (fp : Doubles D) where
  -- `(elapsed / 1e6) * rate`
  unfoldable pub earned : ℕ → ℕ → D
  earned elapsed rate = fp.mul (fp.div (fp.of_u64 elapsed) (fp.of_u64 1000000)) (fp.of_u64 rate)

  -- `tokens >= 1.0`
  unfoldable pub enough : ℕ → ℕ → Bool
  enough elapsed rate = fp.at_most (fp.of_u64 1) (earned elapsed rate)

  -- The reading of `time_now()` is `now`.
  unfoldable pub bucket_init : ℕ → ℕ → Bucket D
  bucket_init rate now = record { tokens = fp.of_u64 rate; rate = rate; timestamp = now }

  -- The loop, on the readings of `time_now()`: the one at which it ends, and those that are left. It
  -- is still waiting if the readings run out (`none`).
  unfoldable pub await : Bucket D → List ℕ → Option (ℕ × List ℕ)
  await t [] = none
  await t (now ∷ clock) =
      let later = await t clock in
      if enough (u64 (now + (2 ^ 64 - t.timestamp))) t.rate then some (now, clock) else later

  -- What follows the loop.
  unfoldable pub refill : Bucket D → ℕ → Bucket D
  refill t now =
      let tokens = fp.add t.tokens (earned (u64 (now + (2 ^ 64 - t.timestamp))) t.rate) in
      record t {
        tokens = if fp.less (fp.of_u64 t.rate) tokens then fp.of_u64 t.rate else tokens;
        timestamp = now;
      }

  unfoldable pub bucket_consume : Bucket D → List ℕ → Option (Bucket D × List ℕ)
  bucket_consume t clock =
      let waited = await t clock >>= λ w. some (refill t w.0, w.1) in
      if t.rate == 0 then some (t, clock) else waited
