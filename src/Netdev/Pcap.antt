-- ===== src/Netdev/Pcap.antt =====
-- src/netdev_pcap.c: the driver on libpcap.
use hype.Base.{
  ℕ, ◌≡◌, ◌∙◌, sym, refl, ap, List, [], ◌∷◌, ◌++◌, Option, none, some, Bool, true, false,
  if◌then◌else◌, arith,
}
use hype.Netdev.{Buffered, buffer, Captured, exits, nothing, captured}
use hype.Netdev.Device.{Driver, Injected, fails, injected, IsFifo, Delivers, Delivers-Holds}

-- `struct priv`: whether the handle is open, the buffer with its recorded size, and, in the place of the
-- handle's state, the frames that `pcap_sendpacket` has accepted.
pub record Priv : Type 0 where
  pub is_open : Bool
  pub buf : List ℕ
  pub buf_len : ℕ
  pub accepted : List (List ℕ)

abbrev pub buf_size : ℕ
buf_size = 65535

-- `netdev_open_pcap`, with whether `pcap_open_live` gives a handle and what `malloc` gives as the buffer:
-- `none` is the exit.
unfoldable pub netdev_open_pcap : Bool → List ℕ → Option Priv
netdev_open_pcap opened memory =
    if opened
    then some (record { is_open = true; buf = memory; buf_len = buf_size; accepted = [] })
    else none

-- The whole buffer, from its start.
unfoldable pub netdev_get_buf_pcap : Priv → Buffered Priv
netdev_get_buf_pcap p = buffer p 0 p.buf_len

-- `sent_to` is whether `pcap_sendpacket` gives no error.
unfoldable pub netdev_inject_pcap : Priv → List ℕ → Bool → Injected Priv
netdev_inject_pcap p bytes sent_to =
    if sent_to then injected (record p { accepted = p.accepted ++ (bytes ∷ []) }) else fails

-- What `pcap_next_ex` gives: an end of the savefile, an error, no packet in time, a packet with the bytes
-- from its start on as long as `pkt_hdr->len` says, or another result.
pub data Next : Type 0 where
  no_more error timeout another : Next
  packet : List ℕ → Next

unfoldable pub netdev_capture_pcap : Next → Captured
netdev_capture_pcap no_more = nothing
netdev_capture_pcap error = exits
netdev_capture_pcap timeout = nothing
netdev_capture_pcap (packet bytes) = captured bytes
netdev_capture_pcap another = exits

unfoldable pub netdev_release_pcap : Priv → Priv
netdev_release_pcap p = p

unfoldable pub netdev_close_pcap : Priv → Priv
netdev_close_pcap p = record p { is_open = false; buf = []; buf_len = 0 }

-- The driver `netdev_pcap`, with the result of `pcap_sendpacket`.
unfoldable pub netdev_pcap : Driver Priv Bool
netdev_pcap = record {
  get_buf = λ p answer. netdev_get_buf_pcap p;
  inject = λ p buf bytes sent_to. netdev_inject_pcap p bytes sent_to;
}

-- The library has accepted just these frames.
abbrev Accepts : Priv → List (List ℕ) → Type 0
Accepts p frames = p.accepted ≡ frames

-- The private data stay as they are between two calls.
netdev_pcap-IsFifo : IsFifo netdev_pcap ◌≡◌ Accepts
unfolding netdev_pcap netdev_get_buf_pcap netdev_inject_pcap
netdev_pcap-IsFifo = record {
  hands = λ p p' p'' frames bytes buf len first second h got done.
      let same : p ≡ p' = ground arith in
      let more : p''.accepted ≡ p'.accepted ++ (bytes ∷ []) = ground arith in
      more ∙ ap (λ q. q.accepted ++ (bytes ∷ [])) (sym same) ∙ ap (λ fs. fs ++ (bytes ∷ [])) h;
  below = λ p p' frames h same. ap (λ q. q.accepted) (sym same) ∙ h;
}

-- However often `pkt_send` injects a buffer, libpcap has accepted the frames of `pkt_send` in their order,
-- behind those that it had accepted before, and no others.
netdev_pcap_in_order :
    (p p' : Priv) (frames : List (List ℕ))
    → Delivers netdev_pcap ◌≡◌ p p' frames
    → p'.accepted ≡ p.accepted ++ frames
netdev_pcap_in_order p p' frames runs =
    Delivers-Holds netdev_pcap ◌≡◌ Accepts netdev_pcap-IsFifo p p' p.accepted frames refl runs
