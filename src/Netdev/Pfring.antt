-- ===== src/Netdev/Pfring.antt =====
-- src/netdev_pfring.c: the driver on PF_RING.
use hype.Base.{
  ℕ, ◌≡◌, ◌∙◌, sym, refl, ap, List, [], ◌∷◌, ◌++◌, Option, none, some, Bool, true, false,
  if◌then◌else◌, arith, All,
}
use hype.Netdev.{Buffered, buffer, Captured, exits, nothing, captured}
use hype.Netdev.Device.{Driver, Injected, pending, injected, IsFifo, Delivers, Delivers-Holds}

-- `struct priv`: whether the ring is open, the buffer with its recorded size, and, in the place of the ring's
-- state, the frames that `pfring_send` has accepted.
pub record Priv : Type 0 where
  pub is_open : Bool
  pub buf : List ℕ
  pub buf_len : ℕ
  pub accepted : List (List ℕ)

abbrev pub buf_size : ℕ
buf_size = 65535

-- `netdev_open_pfring`, with whether `pfring_open` gives a ring and what `malloc` gives as the buffer:
-- `none` is the exit.
unfoldable pub netdev_open_pfring : Bool → List ℕ → Option Priv
netdev_open_pfring opened memory =
    if opened
    then some (record { is_open = true; buf = memory; buf_len = buf_size; accepted = [] })
    else none

unfoldable pub netdev_get_buf_pfring : Priv → Buffered Priv
netdev_get_buf_pfring p = buffer p 0 p.buf_len

-- The loop, on whether each call of `pfring_send` gives no error.
unfoldable pub netdev_inject_pfring : Priv → List ℕ → List Bool → Injected Priv
netdev_inject_pfring p bytes [] = pending
netdev_inject_pfring p bytes (true ∷ rest) =
    injected (record p { accepted = p.accepted ++ (bytes ∷ []) })
netdev_inject_pfring p bytes (false ∷ rest) = netdev_inject_pfring p bytes rest

-- What `pfring_recv` gives: an error, no packet, a packet with the bytes from its start on as long as
-- `pkt_hdr.len` says, or another result.
pub data Next : Type 0 where
  error no_packet another : Next
  packet : List ℕ → Next

unfoldable pub netdev_capture_pfring : Next → Captured
netdev_capture_pfring error = exits
netdev_capture_pfring no_packet = nothing
netdev_capture_pfring (packet bytes) = captured bytes
netdev_capture_pfring another = nothing

unfoldable pub netdev_release_pfring : Priv → Priv
netdev_release_pfring p = p

unfoldable pub netdev_close_pfring : Priv → Priv
netdev_close_pfring p = record p { is_open = false; buf = []; buf_len = 0 }

-- The driver `netdev_pfring`, with the results of `pfring_send`.
unfoldable pub netdev_pfring : Driver Priv (List Bool)
netdev_pfring = record {
  get_buf = λ p answer. netdev_get_buf_pfring p;
  inject = λ p buf bytes results. netdev_inject_pfring p bytes results;
}

-- The ring has accepted just these frames.
abbrev Accepts : Priv → List (List ℕ) → Type 0
Accepts p frames = p.accepted ≡ frames

inject-accepted :
    (p p' : Priv) (bytes : List ℕ) (results : List Bool)
    → netdev_inject_pfring p bytes results ≡ injected p'
    → p'.accepted ≡ p.accepted ++ (bytes ∷ [])
unfolding netdev_inject_pfring
inject-accepted p p' bytes [] e = cc
inject-accepted p p' bytes (true ∷ rest) e = ground arith
inject-accepted p p' bytes (false ∷ rest) e = inject-accepted p p' bytes rest e

-- The private data stay as they are between two calls.
netdev_pfring-IsFifo : IsFifo netdev_pfring ◌≡◌ Accepts
unfolding netdev_pfring netdev_get_buf_pfring
netdev_pfring-IsFifo = record {
  hands = λ p p' p'' frames bytes buf len first second h got done.
      let same : p ≡ p' = ground arith in
      inject-accepted p' p'' bytes second done
      ∙ ap (λ q. q.accepted ++ (bytes ∷ [])) (sym same)
      ∙ ap (λ fs. fs ++ (bytes ∷ [])) h;
  below = λ p p' frames h same. ap (λ q. q.accepted) (sym same) ∙ h;
}

-- If a call of `pfring_send` succeeds after any number that fail, the loop ends.
inject_ends :
    (p : Priv) (bytes : List ℕ) (before after : List Bool)
    → All (λ sent_to. sent_to ≡ false) before
    → (p' : Priv) × (netdev_inject_pfring p bytes (before ++ (true ∷ after)) ≡ injected p')
unfolding netdev_inject_pfring
inject_ends p bytes [] after fail = (record p { accepted = p.accepted ++ (bytes ∷ []) }, refl)
inject_ends p bytes (true ∷ before) after fail = absurd (cc fail.0)
inject_ends p bytes (false ∷ before) after fail = inject_ends p bytes before after fail.1

-- However often `pkt_send` injects a buffer, the ring has accepted the frames of `pkt_send` in their order,
-- behind those that it had accepted before, and each of them once, also if `pfring_send` has failed
-- before it succeeded; and if it succeeds after any number of failures, `netdev_inject_pfring` returns.
pub netdev_pfring_in_order :
    (p p' : Priv) (frames : List (List ℕ)) (bytes : List ℕ) (before after : List Bool)
    → Delivers netdev_pfring ◌≡◌ p p' frames
    → All (λ sent_to. sent_to ≡ false) before
    → (p'.accepted ≡ p.accepted ++ frames)
      × ((p'' : Priv) × (netdev_inject_pfring p' bytes (before ++ (true ∷ after)) ≡ injected p''))
netdev_pfring_in_order p p' frames bytes before after runs fail = (
  Delivers-Holds netdev_pfring ◌≡◌ Accepts netdev_pfring-IsFifo p p' p.accepted frames refl runs,
  inject_ends p' bytes before after fail,
)
