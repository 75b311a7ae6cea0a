-- ===== src/Netdev/Device.antt =====
-- The sending half of a network device: `struct netdev` and its calls in src/netdev.c, and `pkt_send` of
-- src/pktizr.c on any driver.
use hype.Base.{
  ℕ, List, [], ◌∷◌, ◌++◌, Bool, true, false, ◌≡◌, refl, sym, subst, ◌⊎◌, inl, inr, arith,
}
use mathlib.Core.List.{append_assoc, append-nil}
use hype.Header.{Pkt}
use hype.Loop.{Args, Sent, crash, sent, pkt_send}
use hype.Netdev.{Buffered, gives_up, still_waits, buffer}

-- What the injection of a buffer has done, of any driver: an exit, a wait that goes on, bytes behind the end
-- of the buffer, or its end.
pub data Injected (P : Type 0) : Type 0 where
  fails pending too_long : Injected P
  injected : P → Injected P

-- `struct netdev_driver`, on its private data `P`, with the answers `A` of what is below it. The bytes are in
-- the buffer when it is injected.
pub record Driver (P A : Type 0) : Type 0 where
  pub get_buf : P → A → Buffered P
  pub inject : P → ℕ → List ℕ → A → Injected P

pub record Netdev (P A : Type 0) : Type 0 where
  pub driver : Driver P A
  pub priv : P

-- What one call of `pkt_send` has done: an exit, an access out of range, a wait that goes on, bytes behind
-- the end of the buffer, a buffer that was not injected, or one that was.
pub data Sending (P : Type 0) : Type 0 where
  exits crashes waits overruns : Sending P
  skipped handed : Args → P → Sending P

Buffered-cases :
    {P : Type 0} (b : Buffered P)
    → (b ≡ gives_up)
      ⊎ ((b ≡ still_waits) ⊎ ((p : P) × (buf : ℕ) × (len : ℕ) × (b ≡ buffer p buf len)))
Buffered-cases gives_up = inl refl
Buffered-cases still_waits = inr (inl refl)
Buffered-cases (buffer p buf len) = inr (inr (p, buf, len, refl))

-- Whether a buffer was injected.
abbrev is_done : {P : Type 0} → Injected P → Bool
is_done (injected p) = true
is_done _ = false

Injected-cases : {P : Type 0} (r : Injected P) → (is_done r ≡ false) ⊎ ((p : P) × (r ≡ injected p))
Injected-cases fails = inl refl
Injected-cases pending = inl refl
Injected-cases too_long = inl refl
Injected-cases (injected p) = inr (p, refl)

-- What `pkt_send` injects: nothing, or a frame.
abbrev Injects : Sent → Type 0
Injects r =
    (bytes : List ℕ) × (more : List (List ℕ)) × (a : Args) × (rest : List Pkt) × (r
      ≡ sent a (bytes ∷ more) rest)

Sent-cases :
    (r : Sent) → (r ≡ crash) ⊎ (((a : Args) × (rest : List Pkt) × (r ≡ sent a [] rest)) ⊎ Injects r)
Sent-cases crash = inl refl
Sent-cases (sent a [] rest) = inr (inl (a, rest, refl))
Sent-cases (sent a (bytes ∷ more) rest) = inr (inr (bytes, more, a, rest, refl))

module _ {P A : Type 0} where
  unfoldable pub netdev_get_buf : Netdev P A → A → Buffered P
  netdev_get_buf dev answer = dev.driver.get_buf dev.priv answer

  unfoldable pub netdev_inject : Netdev P A → ℕ → List ℕ → A → Injected P
  netdev_inject dev buf bytes answer = dev.driver.inject dev.priv buf bytes answer

  unfoldable pub inject_frame : Netdev P A → Args → ℕ → List ℕ → A → Sending P
  inject_frame dev a buf bytes answer = elim (netdev_inject dev buf bytes answer) [
    | fails ↦ exits
    | pending ↦ waits
    | too_long ↦ overruns
    | injected p ↦ handed a p
  ]

  -- `old` is what the buffer held. The frames of `Loop.pkt_send` are those that it injects.
  unfoldable pub pkt_send_on : Netdev P A → A → A → List ℕ → Args → List Pkt → Sending P
  pkt_send_on dev first second old a pkts = elim (netdev_get_buf dev first) [
    | gives_up ↦ exits
    | still_waits ↦ waits
    | buffer p buf len ↦ elim (pkt_send old a [] pkts) [
      | crash ↦ crashes
      | sent a' [] rest ↦ skipped a' p
      | sent a' (bytes ∷ more) rest ↦ inject_frame (record dev { priv = p }) a' buf bytes second
    ]
  ]

  -- A call that hands a frame over has got its buffer and injected it.
  pub handed_got :
      (d : Driver P A) (p p' : P) (first second : A) (old : List ℕ) (a b : Args) (pkts : List Pkt)
      → pkt_send_on (record { driver = d; priv = p }) first second old a pkts ≡ handed b p'
      → (p1 : P) × (buf : ℕ) × (len : ℕ) × (bytes : List ℕ) × (d.get_buf p first
          ≡ buffer p1 buf len)
        × (d.inject p1 buf bytes second ≡ injected p')
  unfolding pkt_send_on netdev_get_buf netdev_inject inject_frame
  handed_got d p p' first second old a b pkts e = elim (Buffered-cases (d.get_buf p first)) [
    | inl stuck ↦ absurd (ground (arith, stuck))
    | inr (inl stuck) ↦ absurd (ground (arith, stuck))
    | inr (inr (p1, buf, len, got)) ↦ elim (Sent-cases (pkt_send old a [] pkts)) [
      | inl made ↦ absurd (ground (arith, got, made))
      | inr (inl (a', rest, made)) ↦ absurd (ground (arith, got, made))
      | inr (inr (bytes, more, a', rest, made)) ↦
          elim (Injected-cases (d.inject p1 buf bytes second)) [
            | inl none_done ↦ absurd (ground (arith, got, made, none_done))
            | inr (p2, done) ↦
                let same : p2 ≡ p' = ground (arith, got, made, done) in
                (
                  p1,
                  buf,
                  len,
                  bytes,
                  got,
                  subst (λ q. d.inject p1 buf bytes second ≡ injected q) same done,
                )
          ]
    ]
  ]

  -- A call that skips has got its buffer and done nothing else to the driver.
  pub skipped_got :
      (d : Driver P A) (p p' : P) (first second : A) (old : List ℕ) (a b : Args) (pkts : List Pkt)
      → pkt_send_on (record { driver = d; priv = p }) first second old a pkts ≡ skipped b p'
      → (buf : ℕ) × (len : ℕ) × (d.get_buf p first ≡ buffer p' buf len)
  unfolding pkt_send_on netdev_get_buf netdev_inject inject_frame
  skipped_got d p p' first second old a b pkts e = elim (Buffered-cases (d.get_buf p first)) [
    | inl stuck ↦ absurd (ground (arith, stuck))
    | inr (inl stuck) ↦ absurd (ground (arith, stuck))
    | inr (inr (p1, buf, len, got)) ↦ elim (Sent-cases (pkt_send old a [] pkts)) [
      | inl made ↦ absurd (ground (arith, got, made))
      | inr (inl (a', rest, made)) ↦
          let same : p1 ≡ p' = ground (arith, got, made) in
          (buf, len, subst (λ q. d.get_buf p first ≡ buffer q buf len) same got)
      | inr (inr (bytes, more, a', rest, made)) ↦ absurd (ground (arith, got, made))
    ]
  ]

  -- The laws of a driver whose private data hold frames in order, while what is below it takes its own steps:
  -- a buffer that is got and injected holds one frame more, and those steps lose none.
  pub record IsFifo (d : Driver P A) (Below : P → P → Type 0) (Holds : P → List (List ℕ) → Type 0)
      : Type 0 where
    pub hands :
        (p p' p'' : P) (frames : List (List ℕ)) (bytes : List ℕ) (buf len : ℕ) (first second : A)
        → Holds p frames
        → d.get_buf p first ≡ buffer p' buf len
        → d.inject p' buf bytes second ≡ injected p''
        → Holds p'' (frames ++ (bytes ∷ []))
    pub below : (p p' : P) (frames : List (List ℕ)) → Holds p frames → Below p p' → Holds p' frames

module _ {P A : Type 0} (d : Driver P A) (Below : P → P → Type 0) where
  -- Calls of `pkt_send` that inject every buffer they get, with the frames of `Loop.pkt_send`, and steps of
  -- what is below.
  pub data Delivers (p : P) : P → List (List ℕ) → Type 0 where
    here : Delivers p p []
    hands :
        (p' p'' : P) (frames : List (List ℕ)) (first second : A) (old : List ℕ) (a a' : Args)
        (pkts rest : List Pkt) (bytes : List ℕ)
        → Delivers p p' frames
        → pkt_send old a [] pkts ≡ sent a' (bytes ∷ []) rest
        → pkt_send_on (record { driver = d; priv = p' }) first second old a pkts ≡ handed a' p''
        → Delivers p p'' (frames ++ (bytes ∷ []))
    beneath :
        (p' p'' : P) (frames : List (List ℕ))
        → Delivers p p' frames
        → Below p' p''
        → Delivers p p'' frames

  module _ (Holds : P → List (List ℕ) → Type 0) (laws : IsFifo d Below Holds) where
    pkt_send_on-Holds :
        (p p' : P) (frames : List (List ℕ)) (first second : A) (old : List ℕ) (a a' b : Args)
        (pkts rest : List Pkt) (bytes : List ℕ)
        → Holds p frames
        → pkt_send old a [] pkts ≡ sent a' (bytes ∷ []) rest
        → pkt_send_on (record { driver = d; priv = p }) first second old a pkts ≡ handed b p'
        → Holds p' (frames ++ (bytes ∷ []))
    unfolding pkt_send_on netdev_get_buf netdev_inject inject_frame
    pkt_send_on-Holds p p' frames first second old a a' b pkts rest bytes h made e =
        elim (Buffered-cases (d.get_buf p first)) [
          | inl stuck ↦ absurd (ground (arith, stuck))
          | inr (inl stuck) ↦ absurd (ground (arith, stuck))
          | inr (inr (p1, buf, len, got)) ↦ elim (Injected-cases (d.inject p1 buf bytes second)) [
            | inl none_done ↦ absurd (ground (arith, got, made, none_done))
            | inr (p2, done) ↦
                let same : p2 ≡ p' = ground (arith, got, made, done) in
                subst (λ q. Holds q (frames ++ (bytes ∷ []))) same
                  (laws.hands p p1 p2 frames bytes buf len first second h got done)
          ]
        ]

    -- However the calls of `pkt_send` that inject their buffer and the steps below come, a driver that keeps
    -- the laws holds the frames that were injected, after those that it held before, in the same order.
    pub Delivers-Holds :
        (p p' : P) (before frames : List (List ℕ))
        → Holds p before
        → Delivers p p' frames
        → Holds p' (before ++ frames)
    Delivers-Holds p _ before _ h here = subst (Holds p) (sym (append-nil before)) h
    Delivers-Holds p _ before _ h
          (hands p' p'' frames first second old a a' pkts rest bytes runs made e) =
        subst (Holds p'') (append_assoc before frames (bytes ∷ [])) (
          pkt_send_on-Holds p' p'' (before ++ frames) first second old a a' a' pkts rest bytes
            (Delivers-Holds p p' before frames h runs) made e)
    Delivers-Holds p _ before _ h (beneath p' p'' frames runs step) =
        laws.below p' p'' (before ++ frames) (Delivers-Holds p p' before frames h runs) step
